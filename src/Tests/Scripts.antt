-- ===== src/Tests/Scripts.antt =====
-- The script stack and the push of data.
use bitcoin_clib.Base.{
  ℕ, ◌≡◌, refl, List, [], ◌∷◌, ◌++◌, arith, length, drop, replicate, none, some, ok,
}
use bitcoin_clib.ScriptData.{ScriptData, script_data_zero}
use bitcoin_clib.ScriptData.Strings.{pushed}
use bitcoin_clib.ScriptStack.{
  ScriptStack, script_stack_push, script_stack_pop, parse_op_push_data,
  satoshi_script_pushdata_code_from_varstr,
}
use bitcoin_clib.ScriptStack.Array.{
  items_of, IsWellFormed, script_stack_push_lem, script_stack_push_full,
}
use bitcoin_clib.ScriptStack.PushData.{parse_op_push_data_lem}
use bitcoin_clib.Varstr.Laws.{varstr_of}

abbrev word : List ℕ
word = 7 ∷ 8 ∷ []

abbrev datum : ScriptData
datum = script_data_zero

-- Of 64 places, one is in use.
abbrev stack : ScriptStack
stack = record { max_size = 64; count = 1; items = some datum ∷ replicate 63 none }

stack-IsWellFormed : IsWellFormed stack
unfolding IsWellFormed
stack-IsWellFormed = (refl, refl, omega arith)

script_stack_push_lem_example :
    IsWellFormed (script_stack_push none stack datum)
    × (items_of (script_stack_push none stack datum) ≡ items_of stack ++ some datum ∷ [])
    × ((script_stack_pop (script_stack_push none stack datum)).0 ≡ some datum)
    × (items_of (script_stack_pop (script_stack_push none stack datum)).1 ≡ items_of stack)
script_stack_push_lem_example =
    script_stack_push_lem none stack datum stack-IsWellFormed (omega arith)

abbrev full_stack : ScriptStack
full_stack = record { max_size = 64; count = 64; items = replicate 64 (some datum) }

full_stack-IsWellFormed : IsWellFormed full_stack
unfolding IsWellFormed
full_stack-IsWellFormed = (refl, refl, omega arith)

script_stack_push_full_example :
    items_of (script_stack_push none full_stack datum)
    ≡ (replicate 64 none ++ drop 64 (items_of full_stack)) ++ some datum ∷ []
script_stack_push_full_example =
    script_stack_push_full none full_stack datum full_stack-IsWellFormed refl (omega arith)

parse_op_push_data_lem_example :
    (op : ℕ) × (body : List ℕ) × (satoshi_script_pushdata_code_from_varstr (varstr_of word)
      ≡ ok (op ∷ body))
    × (parse_op_push_data none stack op (body ++ 9 ∷ [])
        ≡ ok (script_stack_push none stack (pushed word), length body))
parse_op_push_data_lem_example = parse_op_push_data_lem none stack word (9 ∷ []) (omega arith)
