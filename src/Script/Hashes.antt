-- ===== src/Script/Hashes.antt =====
-- The opcodes that hash, copy and compare, on a stack that is held as a list.
use bitcoin_clib.Base.{
  ℕ, suc, ◌<◌, ◌≡◌, refl, sym, ap, List, ◌∷◌, ltb, arith, length, ◌++◌, ◌==◌, lt→ltb, take_all,
  read_enough, read-append, some, if◌then◌else◌, Bool, false, ok, Bool-cases, inl, inr, drop,
}
use bitcoin_clib.Payload.{bytes_eq}
use bitcoin_clib.ScriptData.{
  satoshi_script_data_compare, scripts_data_get_ptr, ScriptData, DataType, script_data_zero,
  satoshi_script_data_new,
}
use bitcoin_clib.ScriptData.Strings.{
  pushed, get_ptr_pushed, is_static-pushed, satoshi_script_data_get-pushed,
  satoshi_script_data_clone-pushed,
}
use bitcoin_clib.ScriptStack.{ScriptStack}
use bitcoin_clib.ScriptStack.Held.{Held-top}
use bitcoin_clib.Script.{Script, Env, done, fail}
use bitcoin_clib.Script.Stack.{with_stack, HasRoom, stack_push_lem, stack_pop_lem}
use bitcoin_clib.Script.Ops.{
  hash_of, hash_input, parse_op_hash, parse_op_dup, compare_and_free, parse_op_equalverify,
}

pub parse_op_dup_lem :
    (env : Env) (s : Script) (d : List ℕ) (xs : List ScriptData) (n : ℕ)
    → HasRoom s.main_stack (pushed d ∷ xs) (suc n)
    → 0 < length d
    → (stack : ScriptStack) × (parse_op_dup env s ≡ done tt (with_stack s stack))
      × HasRoom stack (pushed d ∷ pushed d ∷ xs) n
unfolding parse_op_dup
parse_op_dup_lem env s d xs n h some_bytes =
    let c : (s.main_stack.count == 0) ≡ false = ground (arith, h.held.count_eq) in
    let (stack, e, left) = stack_push_lem env s (pushed d) (pushed d ∷ xs) n h in
    (
      stack,
      rw
          (
            c,
            Held-top s.main_stack (pushed d) xs h.held,
            satoshi_script_data_clone-pushed d some_bytes,
            e,
          )
          refl,
      left,
    )

-- The script data of a hash.
unfoldable pub hash_data : DataType → List ℕ → ScriptData
hash_data kind hash = record script_data_zero {
  kind = kind;
  inline = hash ++ drop (length hash) script_data_zero.inline;
  size = length hash;
}

hash160_new :
    (hash : List ℕ)
    → length hash ≡ 20
    → satoshi_script_data_new DataType.hash160 (some hash) (length hash)
      ≡ ok (hash_data DataType.hash160 hash)
unfolding satoshi_script_data_new hash_data
hash160_new hash size =
    rw (read_enough 20 hash (omega (arith, size)), take_all 20 hash (sym size))
      (ap
        (λ n. ok (record script_data_zero {
          kind = DataType.hash160;
          inline = hash ++ drop (length hash) script_data_zero.inline;
          size = n;
        }))
        (sym size))

-- OP_HASH160 of a pushed string.
pub parse_op_hash160 :
    (env : Env) (s : Script) (d : List ℕ) (xs : List ScriptData) (n : ℕ)
    → HasRoom s.main_stack (pushed d ∷ xs) n
    → 0 < length d
    → length (env.ripemd160 (env.hash.sha256 d)) ≡ 20
    → (stack : ScriptStack) × (parse_op_hash env 0xa9 s ≡ done tt (with_stack s stack))
      × HasRoom stack (hash_data DataType.hash160 (env.ripemd160 (env.hash.sha256 d)) ∷ xs) n
unfolding parse_op_hash hash_of hash_input
parse_op_hash160 env s d xs n h some_bytes size =
    let (popped, e, left) = stack_pop_lem s (pushed d) xs n h in
    let hash = env.ripemd160 (env.hash.sha256 d) in
    let c = lt→ltb 0 (length d) some_bytes in
    let (stack, e', left') =
      stack_push_lem env (with_stack s popped) (hash_data DataType.hash160 hash) xs n left in
    (stack, rw (e, satoshi_script_data_get-pushed d, c, hash160_new hash size, e') refl, left')

get_ptr_hash :
    (hash : List ℕ)
    → scripts_data_get_ptr (hash_data DataType.hash160 hash)
      ≡ ok (hash ++ drop (length hash) script_data_zero.inline, length hash)
unfolding scripts_data_get_ptr hash_data
get_ptr_hash hash = refl

compare_hash160 :
    (h hash : List ℕ)
    → length h ≡ 20
    → length hash ≡ 20
    → satoshi_script_data_compare (pushed h) (hash_data DataType.hash160 hash)
      ≡ ok (bytes_eq h hash)
unfolding satoshi_script_data_compare
compare_hash160 h hash size size' =
    rw
      (
        get_ptr_pushed h,
        get_ptr_hash hash,
        size,
        size',
        read_enough 20 h (omega (arith, size)),
        take_all 20 h (sym size),
        read-append 20 hash (drop 20 script_data_zero.inline) (sym size'),
      )
      refl

compare_and_free_lem :
    (d1 d2 : ScriptData) (equal : Bool)
    → satoshi_script_data_compare d1 d2 ≡ ok equal
    → d1.is_static ≡ false
    → d2.is_static ≡ false
    → compare_and_free d1 d2 ≡ ok equal
unfolding compare_and_free
compare_and_free_lem d1 d2 equal e f g = rw (e, compare_and_free) (rw (f, g) refl)

-- OP_EQUALVERIFY of a pushed hash and a computed one.
pub parse_op_equalverify_hash160 :
    (s : Script) (h hash : List ℕ) (xs : List ScriptData) (n : ℕ)
    → HasRoom s.main_stack (pushed h ∷ hash_data DataType.hash160 hash ∷ xs) n
    → length h ≡ 20
    → length hash ≡ 20
    → (stack : ScriptStack) × (parse_op_equalverify s
        ≡ (if bytes_eq h hash then done tt (with_stack s stack) else fail (with_stack s stack)))
      × HasRoom stack xs (suc (suc n))
unfolding parse_op_equalverify hash_data
parse_op_equalverify_hash160 s h hash xs n r size size' =
    let c : ltb s.main_stack.count 2 ≡ false = ground (arith, r.held.count_eq) in
    let (stack1, e1, r1) = stack_pop_lem s (pushed h) (hash_data DataType.hash160 hash ∷ xs) n r in
    let (stack2, e2, r2) =
      stack_pop_lem (with_stack s stack1) (hash_data DataType.hash160 hash) xs (suc n) r1 in
    let compared =
      compare_and_free_lem (pushed h) (hash_data DataType.hash160 hash) (bytes_eq h hash)
        (compare_hash160 h hash size size') (is_static-pushed h) refl in
    (
      stack2,
      rw (c, e1, e2, compared)
          (elim (Bool-cases (bytes_eq h hash)) [ inl q ↦ rw q refl | inr q ↦ rw q refl ]),
      r2,
    )
