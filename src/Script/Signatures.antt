-- ===== src/Script/Signatures.antt =====
-- OP_CHECKSIG on a stack that is held as a list: a key on a signature with its hash type.
use bitcoin_clib.Base.{
  ℕ, suc, ◌+◌, ◌-◌, ◌≤◌, ◌<◌, ◌≡◌, refl, List, [], ◌∷◌, ◌++◌, ltb, arith, length, length-append,
  lt→ltb, none, some, if◌then◌else◌, read, Bool, true, false, Bool-cases, inl, inr,
}
use bitcoin_clib.ScriptData.{ScriptData, satoshi_script_data_new_boolean}
use bitcoin_clib.ScriptData.Strings.{pushed, size-pushed, follow_asserted-pushed}
use bitcoin_clib.ScriptStack.{ScriptStack}
use bitcoin_clib.Script.{Script, Env, done, fail}
use bitcoin_clib.RawTx.{RawTx}
use bitcoin_clib.Script.Stack.{with_rawtx, with_stack, HasRoom, stack_push_lem, stack_pop_lem}
use bitcoin_clib.Script.Checks.{check_signature, parse_op_checksig}
use bitcoin_clib.Script.Imports.{
  digest_of, is_valid, crypto_verify_lem, export_lem, choose_digest_lem, pubkey_import_lem,
  signature_import_lem, hash_type_lem,
}

module _ (env : Env) (s : Script) (key sig : List ℕ) (hash_type : ℕ) (xs : List ScriptData) (n : ℕ)
    (held : HasRoom s.main_stack (pushed key ∷ pushed (sig ++ hash_type ∷ []) ∷ xs) n)
    (key_pos : 0 < length key) (key_short : length key ≤ 65) (sig_pos : 0 < length sig) where
  sig_length : length (sig ++ hash_type ∷ []) ≡ length sig + 1
  sig_length = omega (arith, length-append sig (hash_type ∷ []))

  sig_fits :
      (ltb 1 (length (sig ++ hash_type ∷ [])) ≡ true)
      × (length (sig ++ hash_type ∷ []) - 1 ≡ length sig)
      × (0 < length (sig ++ hash_type ∷ []))
  sig_fits = (
    lt→ltb _ _ (omega (arith, sig_length, sig_pos)),
    omega (arith, sig_length),
    omega (arith, sig_length),
  )

  -- A signature that the library cannot read: the function returns 0.
  check_signature_unread :
      (s' : Script) (pubkey : List ℕ)
      → env.secp.signature_parse_der sig ≡ none
      → check_signature env pubkey (pushed (sig ++ hash_type ∷ [])) s' ≡ done tt s'
  unfolding check_signature
  check_signature_unread s' pubkey e =
      let all = sig ++ hash_type ∷ [] in
      let (long, less, there) = sig_fits in
      rw
        (
          follow_asserted-pushed all there,
          size-pushed all,
          long,
          signature_import_lem env sig hash_type (length all - 1) sig_pos less,
          hash_type_lem sig hash_type (length all - 1) less,
          e,
        )
        refl

  check_signature_read :
      (s' : Script) (pubkey imported sig_der digest : List ℕ) (rawtx : RawTx)
      → env.secp.signature_parse_der sig ≡ some imported
      → digest_of env s' hash_type ≡ some (digest, rawtx)
      → env.secp.signature_serialize_der imported ≡ some sig_der
      → 0 < length sig_der
      → check_signature env pubkey (pushed (sig ++ hash_type ∷ [])) s' ≡ (
          if is_valid env digest pubkey sig_der
          then done tt (with_rawtx s' rawtx)
          else fail (with_rawtx s' rawtx))
  unfolding check_signature
  check_signature_read s' pubkey imported sig_der digest rawtx e d x pos =
      let all = sig ++ hash_type ∷ [] in
      let (long, less, there) = sig_fits in
      rw
        (
          follow_asserted-pushed all there,
          size-pushed all,
          long,
          signature_import_lem env sig hash_type (length all - 1) sig_pos less,
          hash_type_lem sig hash_type (length all - 1) less,
          e,
          choose_digest_lem env s' hash_type digest rawtx d,
          export_lem env imported sig_der x pos,
          crypto_verify_lem env digest pubkey sig_der pos,
        )
        (elim (Bool-cases (is_valid env digest pubkey sig_der)) [
          | inl c ↦ rw c refl
          | inr c ↦ rw c refl
        ])

  two_items : ltb s.main_stack.count 2 ≡ false
  two_items = ground (arith, held.held.count_eq)

  -- With a key that the library cannot read, OP_CHECKSIG puts `true` on the signature.
  checksig_bad_key :
      env.secp.pubkey_parse key ≡ none
      → (stack : ScriptStack) × (parse_op_checksig env s ≡ done tt (with_stack s stack))
        × HasRoom stack
            (satoshi_script_data_new_boolean true ∷ pushed (sig ++ hash_type ∷ []) ∷ xs)
            n
  unfolding parse_op_checksig
  checksig_bad_key e =
      let (stack1, e1, r1) = stack_pop_lem s (pushed key) _ n held in
      let (stack2, e2, r2) =
        stack_push_lem env (with_stack s stack1) (satoshi_script_data_new_boolean true) _ n r1 in
      (
        stack2,
        rw
            (
              two_items,
              e1,
              follow_asserted-pushed key key_pos,
              size-pushed key,
              pubkey_import_lem env key key_short,
              e,
              e2,
            )
            refl,
        r2,
      )

  -- What OP_CHECKSIG does with a key that can be read.
  checksig_settled :
      (pubkey : List ℕ) (valid : Bool) (rawtx : RawTx)
      → env.secp.pubkey_parse key ≡ some pubkey
      → ((stack : ScriptStack)
          → check_signature env pubkey (pushed (sig ++ hash_type ∷ [])) (with_stack s stack) ≡ (
              if valid
              then done tt (with_rawtx (with_stack s stack) rawtx)
              else fail (with_rawtx (with_stack s stack) rawtx)))
      → (stack : ScriptStack) × (parse_op_checksig env s
          ≡ done tt (with_rawtx (with_stack s stack) rawtx))
        × HasRoom stack (satoshi_script_data_new_boolean valid ∷ xs) (suc n)
  unfolding parse_op_checksig
  checksig_settled pubkey valid rawtx e checked =
      let (stack1, e1, r1) = stack_pop_lem s (pushed key) _ n held in
      let (stack2, e2, r2) =
        stack_pop_lem (with_stack s stack1) (pushed (sig ++ hash_type ∷ [])) xs (suc n) r1 in
      let (stack3, e3, r3) =
        stack_push_lem env (with_rawtx (with_stack s stack2) rawtx)
          (satoshi_script_data_new_boolean valid) xs (suc n) r2 in
      (
        stack3,
        rw
            (
              two_items,
              e1,
              follow_asserted-pushed key key_pos,
              size-pushed key,
              pubkey_import_lem env key key_short,
              e,
              e2,
              checked stack2,
            )
            (elim (Bool-cases valid) [ inl c ↦ rw c (rw c at e3) | inr c ↦ rw c (rw c at e3) ]),
        r3,
      )

  -- A signature that the library cannot read counts as valid.
  pub parse_op_checksig_unread :
      (pubkey : List ℕ)
      → env.secp.pubkey_parse key ≡ some pubkey
      → env.secp.signature_parse_der sig ≡ none
      → (stack : ScriptStack) × (parse_op_checksig env s ≡ done tt (with_stack s stack))
        × HasRoom stack (satoshi_script_data_new_boolean true ∷ xs) (suc n)
  parse_op_checksig_unread pubkey e unread =
      checksig_settled pubkey true s.rawtx e
        (λ stack. check_signature_unread (with_stack s stack) pubkey unread)

  -- A signature that it reads gets the library's verdict.
  pub parse_op_checksig_lem :
      (pubkey imported sig_der digest : List ℕ) (rawtx : RawTx)
      → env.secp.pubkey_parse key ≡ some pubkey
      → env.secp.signature_parse_der sig ≡ some imported
      → digest_of env s hash_type ≡ some (digest, rawtx)
      → env.secp.signature_serialize_der imported ≡ some sig_der
      → 0 < length sig_der
      → (stack : ScriptStack) × (parse_op_checksig env s
          ≡ done tt (with_rawtx (with_stack s stack) rawtx))
        × HasRoom stack
            (satoshi_script_data_new_boolean (is_valid env digest pubkey sig_der) ∷ xs)
            (suc n)
  unfolding digest_of
  parse_op_checksig_lem pubkey imported sig_der digest rawtx e read d x pos =
      checksig_settled pubkey (is_valid env digest pubkey sig_der) rawtx e (λ stack.
        check_signature_read (with_stack s stack) pubkey imported sig_der digest rawtx read d x pos)
