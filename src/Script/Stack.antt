-- ===== src/Script/Stack.antt =====
-- crates/aurion-script/src/stack.rs. The items of the `Vec` are listed from the last pushed on.
use aurion.Prelude.{ℕ, ◌≤◌, List, [], ◌∷◌, All, length, leb, ltb, if◌then◌else◌}
use aurion.Result.{Result, ok, err, ◌>>=◌}
use aurion.Bytes.{Bytes}
use aurion.Script.Error.{ScriptError, stack_overflow, element_too_large, stack_underflow}

abbrev pub max_stack_depth : ℕ
max_stack_depth = 1024

abbrev pub max_element_size : ℕ
max_element_size = 520

abbrev pub Stack : Type 0
Stack = List Bytes

unfoldable pub push : Bytes → Stack → Result ScriptError Stack
push item items =
    if leb max_stack_depth (length items)
    then err (stack_overflow max_stack_depth)
    else if ltb max_element_size (length item)
    then err (element_too_large (length item) max_element_size)
    else ok (item ∷ items)

unfoldable pub pop : Stack → Result ScriptError (Bytes × Stack)
pop [] = err stack_underflow
pop (item ∷ items) = ok (item, items)

unfoldable pub peek : Stack → Result ScriptError Bytes
peek [] = err stack_underflow
peek (item ∷ items) = ok item

unfoldable pub dup : Stack → Result ScriptError Stack
unfolding peek push
dup items = do top ← peek items; push top items

unfoldable pub drop_top : Stack → Result ScriptError Stack
unfolding pop
drop_top items = do (_, rest) ← pop items; ok rest

unfoldable pub swap : Stack → Result ScriptError Stack
swap (a ∷ b ∷ items) = ok (b ∷ a ∷ items)
swap _ = err stack_underflow

-- The limits that `push` keeps.
pub record IsStack (items : Stack) : Type 0 where
  pub depth : length items ≤ max_stack_depth
  pub sizes : All (λ item. length item ≤ max_element_size) items
