-- ===== src/Script/Multisig.antt =====
-- OP_CHECKMULTISIG where one key made every signature.
use bitcoin_clib.Base.{
  ℕ, suc, ◌+◌, ◌-◌, ◌≤◌, ◌<◌, ◌≡◌, refl, sym, ap, ◌∙◌, List, [], ◌∷◌, ◌++◌, map, arith, length,
  length-append, ltb, ◌==◌, true, false, Bool, some, All, if◌then◌else◌, ◌⊎◌, ◌||◌,
}
use bitcoin_clib.ScriptData.{ScriptData, satoshi_script_data_new_boolean}
use bitcoin_clib.ScriptData.Strings.{pushed, size-pushed, follow-pushed, follow_asserted-pushed}
use bitcoin_clib.ScriptStack.{ScriptStack}
use bitcoin_clib.Tx.{Tx}
use bitcoin_clib.RawTx.{RawTx, satoshi_rawtx_get_digest}
use bitcoin_clib.Script.{Script, Env, done, return, value_byte, stack_pop, stack_push}
use bitcoin_clib.Script.Stack.{with_stack, with_rawtx, HasRoom, stack_push_lem, stack_pop_lem}
use bitcoin_clib.Script.Checks.{
  get_digest, pop_pubkeys, pop_count, seek_pubkey, use_pubkey, check_sigs, parse_op_checkmultisig,
}
use bitcoin_clib.Script.Imports.{
  given, get_digest_lem, pubkey_import_lem, is_valid, crypto_verify_lem, export_lem,
  signature_import_lem, hash_type_lem,
}

-- A signature that the library reads and finds valid for the digest and the key.
pub record IsSignature (env : Env) (digest key sig : List ℕ) : Type 0 where
  pub imported : List ℕ
  pub der : List ℕ
  pub some_bytes : 0 < length sig
  pub is_read : env.secp.signature_parse_der sig ≡ some imported
  pub is_written : env.secp.signature_serialize_der imported ≡ some der
  pub some_der : 0 < length der
  pub valid : is_valid env digest key der ≡ true

-- The items of signatures with one hash type.
abbrev pub sig_items : ℕ → List (List ℕ) → List ScriptData
sig_items hash_type [] = []
sig_items hash_type (sig ∷ sigs) = pushed (sig ++ hash_type ∷ []) ∷ sig_items hash_type sigs

module _ (env : Env) (key : List ℕ) (keys : List (List ℕ)) (hash_type : ℕ) (digest : List ℕ) where
  seek_first :
      (s : Script) (der : List ℕ)
      → 0 < length der
      → is_valid env digest key der ≡ true
      → seek_pubkey env digest der (key ∷ keys) s ≡ done (key ∷ keys) s
  unfolding seek_pubkey
  seek_first s der pos valid = rw (crypto_verify_lem env digest key der pos, valid) refl

  -- One round of the loop.
  check_sigs_round :
      (n : ℕ) (rc : Bool) (prev : ℕ) (prev_digest : List ℕ) (v : ℕ) (s : Script) (rawtx : RawTx)
      (sig : List ℕ) (rest : List ScriptData) (m : ℕ)
      → ((stack : ScriptStack)
          → (if hash_type == prev then return prev_digest else get_digest env hash_type)
              (with_stack s stack)
            ≡ done digest (with_rawtx (with_stack s stack) rawtx))
      → HasRoom s.main_stack (pushed (sig ++ hash_type ∷ []) ∷ rest) m
      → IsSignature env digest key sig
      → (stack : ScriptStack) × (check_sigs env (suc n) rc prev prev_digest (key ∷ keys) v s
          ≡ check_sigs env n true hash_type digest
              (key ∷ keys)
              (v + 1)
              (with_rawtx (with_stack s stack) rawtx))
        × HasRoom stack rest (suc m)
  unfolding check_sigs use_pubkey
  check_sigs_round n rc prev prev_digest v s rawtx sig rest m chosen held is_sig =
      let all = sig ++ hash_type ∷ [] in
      let size : length all ≡ length sig + 1 = omega (arith, length-append sig (hash_type ∷ [])) in
      let less : length all - 1 ≡ length sig = omega (arith, size) in
      let some_size : (length all == 0) ≡ false = ground (arith, size) in
      let (stack, e, left) = stack_pop_lem s (pushed all) rest m held in
      (
        stack,
        rw
            (
              e,
              follow-pushed all (omega (arith, size)),
              size-pushed all,
              some_size,
              hash_type_lem sig hash_type (length all - 1) less,
              signature_import_lem env sig hash_type (length all - 1) is_sig.some_bytes less,
              is_sig.is_read,
              export_lem env is_sig.imported is_sig.der is_sig.is_written is_sig.some_der,
              chosen stack,
              seek_first (with_rawtx (with_stack s stack) rawtx) is_sig.der is_sig.some_der
                  is_sig.valid,
            )
            refl,
        left,
      )

  check_sigs_loop :
      (sigs : List (List ℕ)) (rc : Bool) (v : ℕ) (s : Script) (xs : List ScriptData) (m : ℕ)
      → HasRoom s.main_stack (sig_items hash_type sigs ++ xs) m
      → All (IsSignature env digest key) sigs
      → (stack : ScriptStack) × (check_sigs env (length sigs) rc hash_type digest (key ∷ keys) v s
          ≡ done (some (v + length sigs)) (with_stack s stack))
        × HasRoom stack xs (m + length sigs)
  unfolding check_sigs
  check_sigs_loop [] rc v s xs m held is_sigs =
      let none_more : v + 0 ≡ v = omega arith in
      (
        s.main_stack,
        ap (λ n. done (some n) s) (sym none_more),
        record { held = held.held; room = omega (arith, held.room) },
      )
  check_sigs_loop (sig ∷ sigs) rc v s xs m held (is_sig, is_sigs) =
      let same : (hash_type == hash_type) ≡ true = ground arith in
      let (stack, e, left) =
        check_sigs_round (length sigs) rc hash_type digest v s s.rawtx sig
          (sig_items hash_type sigs ++ xs) m (λ stack. rw same refl) held is_sig in
      let (stack', e', left') =
        check_sigs_loop sigs true (v + 1) (with_stack s stack) xs (suc m) left is_sigs in
      let count : v + 1 + length sigs ≡ v + suc (length sigs) = omega arith in
      (
        stack',
        e ∙ e' ∙ ap (λ n. done (some n) (with_stack s stack')) count,
        record { held = left'.held; room = omega (arith, left'.room) },
      )

-- The keys that the library reads from strings of 33 or 65 bytes.
pub data Keys (env : Env) : List (List ℕ) → List (List ℕ) → Type 0 where
  end : Keys env [] []
  next :
      {bs key : List ℕ} {bss keys : List (List ℕ)}
      → (length bs ≡ 33) ⊎ (length bs ≡ 65)
      → env.secp.pubkey_parse bs ≡ some key
      → Keys env bss keys
      → Keys env (bs ∷ bss) (key ∷ keys)

pop_pubkeys_lem :
    (env : Env) {bss keys : List (List ℕ)} (s : Script) (rest : List ScriptData) (m : ℕ)
    → Keys env bss keys
    → HasRoom s.main_stack (map pushed bss ++ rest) m
    → (stack : ScriptStack) × (pop_pubkeys env (length bss) s ≡ done keys (with_stack s stack))
      × HasRoom stack rest (m + length bss)
unfolding pop_pubkeys
pop_pubkeys_lem env s rest m end held =
    (s.main_stack, refl, record { held = held.held; room = omega (arith, held.room) })
pop_pubkeys_lem env s rest m (next {bs = bs} {key = key} {bss = bss} sized e_key keys) held =
    let (stack, e, left) = stack_pop_lem s (pushed bs) (map pushed bss ++ rest) m held in
    let (stack', e', left') = pop_pubkeys_lem env (with_stack s stack) rest (suc m) keys left in
    let size : (length bs == 33 || length bs == 65) ≡ true = ground (arith, sized) in
    (
      stack',
      rw
          (
            e,
            follow_asserted-pushed bs (ground (arith, sized)),
            size-pushed bs,
            size,
            pubkey_import_lem env bs (ground (arith, sized)),
            e_key,
            e',
          )
          refl,
      record { held = left'.held; room = omega (arith, left'.room) },
    )

-- The calls of the opcode, one by one, where all signatures are good.
checkmultisig_steps :
    (env : Env) (s s1 s2 s3 s4 s5 : Script) (num_keys num_sigs : ScriptData) (k n : ℕ)
    (keys : List (List ℕ))
    → stack_pop s ≡ done (some num_keys) s1
    → value_byte env num_keys ≡ k
    → 1 ≤ k
    → k ≤ 16
    → pop_pubkeys env k s1 ≡ done keys s2
    → stack_pop s2 ≡ done (some num_sigs) s3
    → value_byte env num_sigs ≡ n
    → n ≤ k
    → check_sigs env n false 0 env.unset_digest keys 0 s3 ≡ done (some n) s4
    → stack_push env (satoshi_script_data_new_boolean true) s4 ≡ done tt s5
    → parse_op_checkmultisig env s ≡ done tt s5
unfolding parse_op_checkmultisig
checkmultisig_steps env s s1 s2 s3 s4 s5 num_keys num_sigs k n keys e1 n_keys some_keys few e2 e3
      n_sigs fewer e4 e5 =
    let bounds : (ltb k 1 || ltb 16 k) ≡ false = ground (arith, some_keys, few) in
    let enough : ltb k n ≡ false = ground (arith, fewer) in
    let all_good : (n == n) ≡ true = ground arith in
    rw (pop_count, e1, n_keys, bounds, e2, pop_count, e3, n_sigs, enough, e4, n_sigs, all_good, e5)
      refl

module _ (env : Env) (s : Script) (tx : Tx) (num_keys num_sigs : ScriptData)
    (bss keys : List (List ℕ)) (key : List ℕ) (hash_type : ℕ) (digest : List ℕ) (rawtx : RawTx)
    (sig : List ℕ) (sigs : List (List ℕ)) (xs : List ScriptData) (m : ℕ)
    (held : HasRoom s.main_stack
      (num_keys ∷ (map pushed bss ++ (num_sigs ∷ (sig_items hash_type (sig ∷ sigs) ++ xs))))
      m) where
  -- For an engine whose stack holds the number of keys (at most 16), the keys (strings of 33 or
  -- 65 bytes that the library reads), the number of signatures (at least 1, at most that of the
  -- keys) and the signatures, all with one hash type that is not 0, where the attached
  -- transaction gives a digest for that type: if the library finds every signature valid for the
  -- digest and the first key, OP_CHECKMULTISIG replaces all of these items by true, whatever the
  -- other keys are.
  pub parse_op_checkmultisig_one_key :
      value_byte env num_keys ≡ length bss
      → value_byte env num_sigs ≡ suc (length sigs)
      → suc (length sigs) ≤ length bss
      → length bss ≤ 16
      → Keys env bss (key ∷ keys)
      → s.tx ≡ some tx
      → given (satoshi_rawtx_get_digest env.hash s.rawtx tx s.txin_index hash_type s.utxo)
        ≡ some (digest, rawtx)
      → 0 < hash_type
      → All (IsSignature env digest key) (sig ∷ sigs)
      → (stack : ScriptStack) × (parse_op_checkmultisig env s
          ≡ done tt (with_rawtx (with_stack s stack) rawtx))
        × HasRoom stack
            (satoshi_script_data_new_boolean true ∷ xs)
            (m + (1 + (length bss + suc (length sigs))))
  parse_op_checkmultisig_one_key n_keys n_sigs fewer few read_keys attached e_digest typed
        (is_sig, is_sigs) =
      let (st1, e1, r1) = stack_pop_lem s num_keys _ m held in
      let (st2, e2, r2) = pop_pubkeys_lem env (with_stack s st1) _ (suc m) read_keys r1 in
      let (st3, e3, r3) = stack_pop_lem (with_stack s st2) num_sigs _ (suc m + length bss) r2 in
      let other : (hash_type == 0) ≡ false = ground (arith, typed) in
      let (st4, e4, r4) =
        check_sigs_round env key keys hash_type digest (length sigs) false 0 env.unset_digest 0
          (with_stack s st3) rawtx sig (sig_items hash_type sigs ++ xs) _
          (λ stack.
            rw other
              (get_digest_lem env (with_stack s stack) tx hash_type digest rawtx attached e_digest))
          r3 is_sig in
      let (st5, e5, r5) =
        check_sigs_loop env key keys hash_type digest sigs true 1
          (with_rawtx (with_stack s st4) rawtx) xs _ r4 is_sigs in
      let (st6, e6, r6) =
        stack_push_lem env (with_rawtx (with_stack s st5) rawtx)
          (satoshi_script_data_new_boolean true) xs (m + (1 + (length bss + suc (length sigs))))
          (record { held = r5.held; room = omega (arith, r5.room) }) in
      let count : 1 + length sigs ≡ suc (length sigs) = omega arith in
      (
        st6,
        checkmultisig_steps env s _ _ _ _ _ num_keys num_sigs (length bss) (suc (length sigs))
            (key ∷ keys) e1 n_keys (omega (arith, fewer)) few e2 e3 n_sigs fewer
            (e4 ∙ e5 ∙ ap (λ k. done (some k) (with_rawtx (with_stack s st5) rawtx)) count) e6,
        r6,
      )
