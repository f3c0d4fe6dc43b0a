-- ===== src/Script/Ops.antt =====
-- The opcodes that hash, copy and compare items of the stack.
use bitcoin_clib.Base.{
  ℕ, ◌-◌, List, [], Bool, false, ◌||◌, ltb, ◌==◌, if◌then◌else◌, get_or, length, Option, none, some,
  Outcome, ok, fault,
}
use bitcoin_clib.Hash.{hash256}
use bitcoin_clib.ScriptData.{
  ScriptData, DataType, satoshi_script_data_new, satoshi_script_data_new_boolean,
  satoshi_script_data_get, satoshi_script_data_clone, satoshi_script_data_compare,
}
use bitcoin_clib.ScriptStack
use bitcoin_clib.Script.{
  Env, done, Action, return, give_up, ◌>>=◌, ◌>>◌, lift, reject, require, settle, current,
  stack_pop, stack_push,
}

-- The bytes that a hash function reads: `length` of them behind the pointer.
unfoldable pub hash_input : Option (List ℕ) × ℕ → Outcome (List ℕ)
hash_input (some bs, length) = ok bs
hash_input (none, length) = if length == 0 then ok [] else fault

module _ (env : Env) where
  -- The type and the bytes of the hash; no other opcode comes here.
  unfoldable pub hash_of : ℕ → List ℕ → Option (DataType × List ℕ)
  hash_of op_code bs =
      if op_code == 0xa6
      then some (DataType.hash160, env.ripemd160 bs)
      else if op_code == 0xa8
      then some (DataType.hash256, env.hash.sha256 bs)
      else if op_code == 0xa9
      then some (DataType.hash160, env.ripemd160 (env.hash.sha256 bs))
      else if op_code == 0xaa
      then some (DataType.hash256, hash256 env.hash bs)
      else none

  unfoldable pub parse_op_hash : ℕ → Action (Unit {0})
  unfolding hash_of
  parse_op_hash op_code = stack_pop >>= λ top. elim top [
    | none ↦ give_up
    | some sdata ↦ lift (satoshi_script_data_get sdata) >>= λ got. lift (hash_input got) >>= λ bs.
        elim (hash_of op_code bs) [
          | none ↦ give_up
          | some (kind, hash) ↦
              lift (satoshi_script_data_new kind (some hash) (length hash)) >>= λ made.
              stack_push env made
        ]
  ]

  -- The bytes taken behind the opcode.
  unfoldable pub parse_op_push_data : ℕ → List ℕ → Action ℕ
  parse_op_push_data op_code p = do
    stack ← current (λ s. s.main_stack)
    (stack', n) ← lift (ScriptStack.parse_op_push_data env.unset stack op_code p)
    λ s. done n (record s { main_stack = stack' })

  unfoldable pub parse_op_dup : Action (Unit {0})
  parse_op_dup = do
    stack ← current (λ s. s.main_stack)
    reject (stack.count == 0)
    elim (get_or stack.items (stack.count - 1) none) [
      | none ↦ require false
      | some sdata ↦ lift (satoshi_script_data_clone sdata) >>= λ copy. stack_push env copy
    ]

-- Both items are freed, without the exception that `satoshi_script_data_free` makes for the static
-- ones.
unfoldable pub compare_and_free : ScriptData → ScriptData → Outcome Bool
compare_and_free sdata1 sdata2 = elim (satoshi_script_data_compare sdata1 sdata2) [
  | ok equal ↦ if sdata1.is_static || sdata2.is_static then fault else ok equal
  | other ↦ other
]

unfoldable pub parse_op_equalverify : Action (Unit {0})
unfolding compare_and_free
parse_op_equalverify = do
  count ← current (λ s. s.main_stack.count)
  reject (ltb count 2)
  top ← stack_pop
  next ← stack_pop
  elim top [
    | none ↦ require false
    | some sdata1 ↦ elim next [
      | none ↦ require false
      | some sdata2 ↦
          lift (compare_and_free sdata1 sdata2) >>= λ equal. if equal then return tt else give_up
    ]
  ]

unfoldable pub parse_op_equal : Env → Action (Unit {0})
unfolding parse_op_equalverify
parse_op_equal env = do
  equal ← settle parse_op_equalverify
  stack_push env (satoshi_script_data_new_boolean equal)
