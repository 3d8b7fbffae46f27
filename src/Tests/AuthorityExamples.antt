-- ===== src/Tests/AuthorityExamples.antt =====
-- The authority over a storage that keeps only its tip.
use aurion.Prelude.{ℕ, ◌≡◌, refl, true, false, Option, some}
use aurion.Result.{ok}
use aurion.Primitives.Hash.{Hash256, zero_hash}
use aurion.Node.Authority.{
  storage_commit_failure, running, failed, is_failed, StorageApi, AuthorityEngine,
  process_and_commit_block,
}
use aurion.Node.Authority.Commits.{CommitsOrNot, process_and_commit_block-cases}
use aurion.Node.Authority.FailStop.{here, next, process, failed_stays}
use aurion.Tests.Fixtures.{constant_hash, first_byte_signs, sample_block, open_output}

abbrev tip_only : StorageApi
tip_only = record {
  Store = Option (ℕ × Hash256);
  StorageError = Unit;
  to_string = λ _. "lost";
  get_tip = λ store. ok store;
  get_utxo = λ store op. ok (some (open_output 1000));
  commit_block = λ store block spent. ok (some (block.header.height, zero_hash));
}

abbrev Node : Type 0
Node = AuthorityEngine constant_hash first_byte_signs tip_only

abbrev running_node : Node
running_node = record { state = running; storage = some (7, zero_hash); cancel_signal = false }

abbrev failed_node : Node
failed_node = record {
  state = failed (storage_commit_failure "lost");
  storage = some (7, zero_hash);
  cancel_signal = true;
}

process_and_commit_block-cases_example :
    CommitsOrNot constant_hash first_byte_signs tip_only sample_block running_node
      (process_and_commit_block constant_hash first_byte_signs tip_only sample_block running_node)
process_and_commit_block-cases_example =
    process_and_commit_block-cases constant_hash first_byte_signs tip_only sample_block running_node

failed_node-is_failed : is_failed failed_node.state ≡ true
unfolding is_failed
failed_node-is_failed = refl

abbrev after_block : Node
after_block =
    (process_and_commit_block constant_hash first_byte_signs tip_only sample_block failed_node).1

failed_stays_example :
    (is_failed after_block.state ≡ true) × (after_block.storage ≡ failed_node.storage)
failed_stays_example =
    failed_stays constant_hash first_byte_signs tip_only
      (next (process sample_block failed_node) here) failed_node-is_failed
