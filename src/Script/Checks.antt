-- ===== src/Script/Checks.antt =====
-- The opcodes that check signatures.
use bitcoin_clib.Base.{
  ℕ, zero, suc, ◌+◌, ◌-◌, List, [], ◌∷◌, Bool, true, false, ◌||◌, ltb, ◌==◌, if◌then◌else◌, Option,
  none, some, load, drop,
}
use bitcoin_clib.Crypto.{
  crypto_pubkey_import, crypto_signature_import, crypto_signature_export, crypto_verify,
}
use bitcoin_clib.ScriptData.{ScriptData, follow, follow_asserted, satoshi_script_data_new_boolean}
use bitcoin_clib.RawTx.{RawTx, satoshi_rawtx_get_digest}
use bitcoin_clib.Script.{
  Env, done, fail, stopped, wrong, Action, return, give_up, ◌>>=◌, ◌>>◌, lift, reject, require,
  settle, current, stack_pop, stack_push, value_byte,
}

-- `goto label_error` in the loop over the signatures: it returns what `rc` is, and pushes nothing.
unfoldable pub leave : Bool → Action (Option ℕ)
leave rc = if rc then return none else give_up

-- The digest, or the error, and what the call leaves in the object.
unfoldable pub keep_rawtx : Option (List ℕ) × RawTx → Action (List ℕ)
keep_rawtx (none, rawtx) s = fail (record s { rawtx = rawtx })
keep_rawtx (some digest, rawtx) s = done digest (record s { rawtx = rawtx })

module _ (env : Env) where
  -- `rawtx->get_digest(...)`: without a transaction there is no function to call.
  unfoldable pub get_digest : ℕ → Action (List ℕ)
  unfolding keep_rawtx
  get_digest hash_type s = elim s.tx [
    | none ↦ wrong
    | some tx ↦
        (lift (satoshi_rawtx_get_digest env.hash s.rawtx tx s.txin_index hash_type s.utxo)
            >>= keep_rawtx)
          s
  ]

  unfoldable pub choose_digest : ℕ → Action (List ℕ)
  unfolding get_digest
  choose_digest hash_type s = elim s.digest [
    | none ↦ get_digest hash_type s
    | some digest ↦ done digest s
  ]

  -- From the import of the signature on, with the key imported. Where `rc` is still 0 at the label,
  -- the function returns 0.
  unfoldable pub check_signature : List ℕ → ScriptData → Action (Unit {0})
  unfolding choose_digest
  check_signature pubkey sdata =
      require (ltb 1 sdata.size) >> lift (follow_asserted sdata) >>= λ bs.
      lift (crypto_signature_import env.secp bs (sdata.size - 1)) >>= λ imported.
      lift (load 1 (drop (sdata.size - 1) bs)) >>= λ hash_type. elim imported [
        | none ↦ return tt
        | some sig ↦ choose_digest hash_type >>= λ digest.
            lift (crypto_signature_export env.secp sig) >>= λ der. elim der [
              | none ↦ return tt
              | some sig_der ↦ lift (crypto_verify env.secp digest pubkey sig_der) >>= λ valid.
                  if valid then return tt else give_up
            ]
      ]

  -- The errors in front of the digest leave `rc` at 0, so they return 0.
  unfoldable pub parse_op_checksigverify : Action (Unit {0})
  unfolding check_signature
  parse_op_checksigverify = current (λ s. s.main_stack.count) >>= λ count.
      if ltb count 2
      then return tt
      else (stack_pop >>= λ top. elim top [
        | none ↦ return tt
        | some key ↦ lift (follow_asserted key) >>= λ bs.
            lift (crypto_pubkey_import env.secp bs key.size) >>= λ imported. elim imported [
              | none ↦ return tt
              | some pubkey ↦ stack_pop >>= λ next. elim next [
                | none ↦ return tt
                | some sig ↦ check_signature pubkey sig
              ]
            ]
      ])

  unfoldable pub parse_op_checksig : Action (Unit {0})
  unfolding parse_op_checksigverify
  parse_op_checksig = do
    valid ← settle parse_op_checksigverify
    stack_push env (satoshi_script_data_new_boolean valid)

  unfoldable pub pop_pubkeys : ℕ → Action (List (List ℕ))
  pop_pubkeys zero = return []
  pop_pubkeys (suc n) =
      let rest = pop_pubkeys n in
      stack_pop >>= λ top. elim top [
        | none ↦ give_up
        | some sdata ↦
            reject (if sdata.size == 33 || sdata.size == 65 then false else true)
            >> lift (follow_asserted sdata)
            >>= λ bs. lift (crypto_pubkey_import env.secp bs sdata.size) >>= λ imported.
                elim imported [
                  | none ↦ give_up
                  | some pubkey ↦ rest >>= λ keys. return (pubkey ∷ keys)
                ]
      ]

  -- The keys from the first one on that the signature verifies with, that one included.
  unfoldable pub seek_pubkey : List ℕ → List ℕ → List (List ℕ) → Action (List (List ℕ))
  seek_pubkey digest sig_der [] = return []
  seek_pubkey digest sig_der (key ∷ keys) =
      let rest = seek_pubkey digest sig_der keys in
      lift (crypto_verify env.secp digest key sig_der) >>= λ valid.
      if valid then return (key ∷ keys) else rest

  -- The search for a key, and the rest of the loop with the keys from that one on.
  unfoldable pub use_pubkey :
      (Bool → List (List ℕ) → ℕ → Action (Option ℕ))
      → List ℕ
      → List ℕ
      → List (List ℕ)
      → ℕ
      → Action (Option ℕ)
  use_pubkey rest digest sig_der keys num_verified = seek_pubkey digest sig_der keys >>= λ left.
      elim left [
        | [] ↦ rest false [] num_verified
        | key ∷ keys' ↦ rest true (key ∷ keys') (num_verified + 1)
      ]

  -- The loop over the signatures that are left. `rc` says whether the last one was verified; the
  -- keys are those from `pubkey_index` on, which stays at a key that verified.
  unfoldable pub check_sigs : ℕ → Bool → ℕ → List ℕ → List (List ℕ) → ℕ → Action (Option ℕ)
  unfolding leave get_digest use_pubkey
  check_sigs zero rc prev_type digest keys num_verified = return (some num_verified)
  check_sigs (suc n) rc prev_type digest keys num_verified =
      let rest = check_sigs n in
      stack_pop >>= λ top. elim top [
        | none ↦ leave rc
        | some sdata ↦
            if sdata.size == 0
            then leave rc
            else (lift (follow sdata) >>= λ bs.
                lift (load 1 (drop (sdata.size - 1) bs)) >>= λ hash_type.
                lift (crypto_signature_import env.secp bs (sdata.size - 1)) >>= λ imported.
                elim imported [
                  | none ↦ leave rc
                  | some sig ↦ lift (crypto_signature_export env.secp sig) >>= λ der. elim der [
                    | none ↦ λ s. stopped
                    | some sig_der ↦
                        (if hash_type == prev_type then return digest else get_digest hash_type)
                        >>= λ digest'.
                            use_pubkey (λ found. rest found hash_type digest') digest' sig_der keys
                              num_verified
                  ]
                ])
      ]

  -- A count from the stack.
  unfoldable pub pop_count : Action ℕ
  pop_count =
      stack_pop >>= λ top. elim top [ none ↦ give_up | some sdata ↦ return (value_byte env sdata) ]

  unfoldable pub parse_op_checkmultisig : Action (Unit {0})
  unfolding pop_count
  parse_op_checkmultisig = do
    num_pubkeys ← pop_count
    reject (ltb num_pubkeys 1 || ltb 16 num_pubkeys)
    pubkeys ← pop_pubkeys num_pubkeys
    num_sigs ← pop_count
    reject (ltb num_pubkeys num_sigs)
    checked ← check_sigs num_sigs false 0 env.unset_digest pubkeys 0
    elim checked [
      | none ↦ return tt
      | some num_verified ↦
          stack_push env (satoshi_script_data_new_boolean (num_verified == num_sigs))
    ]
