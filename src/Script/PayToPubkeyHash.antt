-- ===== src/Script/PayToPubkeyHash.antt =====
-- The script that `satoshi_script_generate_p2pkh_script` makes, run on a key and a signature.
use bitcoin_clib.Base.{
  ℕ, suc, ◌≤◌, ◌<◌, ◌≡◌, ◌≢◌, refl, sym, ap, ◌∙◌, List, [], ◌∷◌, ◌++◌, arith, length, length-append,
  Option, none, some, if◌then◌else◌, Bool, true, false, ok, read_enough, take_all, lt→ltb,
  Bool-cases, inl, inr,
}
use bitcoin_clib.Payload.{bytes_eq}
use bitcoin_clib.Payload.Laws.{bytes_eq_iff}
use bitcoin_clib.ScriptData.{ScriptData, satoshi_script_data_new_boolean}
use bitcoin_clib.ScriptData.Strings.{pushed}
use bitcoin_clib.ScriptStack.{ScriptStack}
use bitcoin_clib.Script.{Script, free, Env, done, fail}
use bitcoin_clib.RawTx.{RawTx}
use bitcoin_clib.Script.Stack.{with_rawtx, with_stack, HasRoom}
use bitcoin_clib.Script.Checks.{parse_op_checksig}
use bitcoin_clib.Script.Imports.{digest_of, is_valid}
use bitcoin_clib.Script.Signatures.{parse_op_checksig_unread, parse_op_checksig_lem}
use bitcoin_clib.Script.Parse.{run_ops, advance, parse_free}
use bitcoin_clib.Script.Entry.{satoshi_script_generate_p2pkh_script}
use bitcoin_clib.Script.Rounds.{p2pkh, front, run_ops-step, step_checksig}

length-p2pkh : (h160 : List ℕ) → length h160 ≡ 20 → length (p2pkh h160) ≡ 25
unfolding p2pkh
length-p2pkh h160 size = omega (arith, size, length-append h160 (0x88 ∷ 0xac ∷ []))

generate_lem :
    (h160 : List ℕ)
    → length h160 ≡ 20
    → satoshi_script_generate_p2pkh_script h160 20 ≡ ok (0x19 ∷ p2pkh h160)
unfolding satoshi_script_generate_p2pkh_script p2pkh
generate_lem h160 size =
    rw (read_enough 20 h160 (omega (arith, size)), take_all 20 h160 (sym size)) refl

bytes_eq_refl : (xs : List ℕ) → bytes_eq xs xs ≡ true
bytes_eq_refl xs = (bytes_eq_iff xs xs).1 refl

bytes_eq-ne : (xs ys : List ℕ) → xs ≢ ys → bytes_eq xs ys ≡ false
bytes_eq-ne xs ys h = elim (Bool-cases (bytes_eq xs ys)) [
  | inl c ↦ absurd (h ((bytes_eq_iff xs ys).0 c))
  | inr c ↦ c
]

if_true : {A : Type 0} (b : Bool) (x y : A) → b ≡ true → (if b then x else y) ≡ x
if_true b x y e = rw e refl

if_false : {A : Type 0} (b : Bool) (x y : A) → b ≡ false → (if b then x else y) ≡ y
if_false b x y e = rw e refl

-- The state when a free script starts.
abbrev pub started : Script → Script
started s = record s { type = free }

parse_free_done :
    (env : Env) (p : List ℕ) (s s' : Script) (at : Option ℕ)
    → 0 < length p
    → run_ops env (suc (length p)) free at p (started s) ≡ done tt s'
    → parse_free env at p s ≡ done (length p) s'
unfolding parse_free
parse_free_done env p s s' at h e = rw (lt→ltb 0 (length p) h, e) refl

parse_free_fail :
    (env : Env) (p : List ℕ) (s s' : Script) (at : Option ℕ)
    → 0 < length p
    → run_ops env (suc (length p)) free at p (started s) ≡ fail s'
    → parse_free env at p s ≡ fail s'
unfolding parse_free
parse_free_fail env p s s' at h e = rw (lt→ltb 0 (length p) h, e) refl

run_ops_nil :
    (env : Env) (f : ℕ) (at : Option ℕ) (s : Script) → run_ops env (suc f) free at [] s ≡ done tt s
unfolding run_ops
run_ops_nil env f at s = refl

module _ (env : Env) (s : Script) (at : Option ℕ) (key sig : List ℕ) (hash_type : ℕ)
    (xs : List ScriptData) (n : ℕ)
    (held : HasRoom s.main_stack (pushed key ∷ pushed (sig ++ hash_type ∷ []) ∷ xs) (suc (suc n)))
    (key_pos : 0 < length key) (key_short : length key ≤ 65) (sig_pos : 0 < length sig)
    (hash_size : length (env.ripemd160 (env.hash.sha256 key)) ≡ 20) where
  -- The run with the right hash, up to OP_CHECKSIG, which gives `verdict`.
  p2pkh_run :
      (verdict : Bool) (rawtx : RawTx)
      → ((stack : ScriptStack)
          → HasRoom stack (pushed key ∷ pushed (sig ++ hash_type ∷ []) ∷ xs) (suc (suc n))
          → (left : ScriptStack) × (parse_op_checksig env (with_stack (started s) stack)
              ≡ done tt (with_rawtx (with_stack (started s) left) rawtx))
            × HasRoom left (satoshi_script_data_new_boolean verdict ∷ xs) (suc (suc (suc n))))
      → (stack : ScriptStack) × (parse_free env at (p2pkh (env.ripemd160 (env.hash.sha256 key))) s
          ≡ done 25 (with_rawtx (with_stack (started s) stack) rawtx))
        × HasRoom stack (satoshi_script_data_new_boolean verdict ∷ xs) (suc (suc (suc n)))
  p2pkh_run verdict rawtx checked =
      let h160 = env.ripemd160 (env.hash.sha256 key) in
      let code = p2pkh h160 in
      let size = length-p2pkh h160 hash_size in
      let (st, at', e, r) =
        front env key h160 (pushed (sig ++ hash_type ∷ []) ∷ xs) n key_pos hash_size hash_size
          (started s) at 22 held in
      let (left, e', r') = checked st r in
      let s1 = with_stack (started s) st in
      let s2 = with_rawtx (with_stack (started s) left) rawtx in
      let last =
        run_ops-step env 21 0 at' 0xac [] s1 s2
          (λ parse a. step_checksig env parse a [] s1 left s2 e')
        ∙ run_ops_nil env 20 (advance 1 at') s2 in
      let whole : run_ops env (suc (length code)) free at code (started s) ≡ done tt s2 =
        ap (λ k. run_ops env (suc k) free at code (started s)) size
        ∙ e
        ∙ if_true (bytes_eq h160 h160) _ _ (bytes_eq_refl h160)
        ∙ last in
      (
        left,
        parse_free_done env code s s2 at (omega (arith, size)) whole ∙ ap (λ k. done k s2) size,
        r',
      )

  -- For an engine whose stack holds a key of 1 to 65 bytes on a signature with its hash type,
  -- with a free place for two items, a 20-byte hash of the key, key and signature that the
  -- library reads, a digest for the hash type and a DER form that is not empty:
  -- satoshi_script_generate_p2pkh_script makes the script of the key's hash behind its length,
  -- and the run of that script takes all 25 bytes and replaces key and signature by the library's
  -- verdict on that form, digest and key.
  pub p2pkh_accept :
      (pubkey imported sig_der digest : List ℕ) (rawtx : RawTx)
      → env.secp.pubkey_parse key ≡ some pubkey
      → env.secp.signature_parse_der sig ≡ some imported
      → digest_of env s hash_type ≡ some (digest, rawtx)
      → env.secp.signature_serialize_der imported ≡ some sig_der
      → 0 < length sig_der
      → (satoshi_script_generate_p2pkh_script (env.ripemd160 (env.hash.sha256 key)) 20
          ≡ ok (0x19 ∷ p2pkh (env.ripemd160 (env.hash.sha256 key))))
        × ((stack : ScriptStack) × (parse_free env at
                (p2pkh (env.ripemd160 (env.hash.sha256 key)))
                s
              ≡ done 25 (with_rawtx (with_stack (started s) stack) rawtx))
            × HasRoom stack
                (satoshi_script_data_new_boolean (is_valid env digest pubkey sig_der) ∷ xs)
                (suc (suc (suc n))))
  unfolding digest_of
  p2pkh_accept pubkey imported sig_der digest rawtx e read d x pos = (
    generate_lem _ hash_size,
    p2pkh_run (is_valid env digest pubkey sig_der) rawtx (λ stack r.
        parse_op_checksig_lem env (with_stack (started s) stack) key sig hash_type xs (suc (suc n))
          r key_pos key_short sig_pos pubkey imported sig_der digest rawtx e read d x pos),
  )

  -- For an engine whose stack holds a key of 1 to 65 bytes that the library reads on the bytes of
  -- a signature that it cannot read, with a hash type, a free place for two items and a 20-byte
  -- hash of the key: the run of the script of the key's hash takes all 25 bytes and replaces key
  -- and signature by true.
  pub p2pkh_unread :
      (pubkey : List ℕ)
      → env.secp.pubkey_parse key ≡ some pubkey
      → env.secp.signature_parse_der sig ≡ none
      → (stack : ScriptStack) × (parse_free env at (p2pkh (env.ripemd160 (env.hash.sha256 key))) s
          ≡ done 25 (with_stack (started s) stack))
        × HasRoom stack (satoshi_script_data_new_boolean true ∷ xs) (suc (suc (suc n)))
  p2pkh_unread pubkey e unread = p2pkh_run true s.rawtx (λ stack r.
      parse_op_checksig_unread env (with_stack (started s) stack) key sig hash_type xs (suc (suc n))
        r key_pos key_short sig_pos pubkey e unread)

-- For an engine whose stack holds a key that is not empty, with a free place for two items, and a
-- hash of 20 bytes that differs from the 20-byte hash of the key, the run of the script of that
-- hash is an error and leaves the key on the stack.
pub p2pkh_reject :
    (env : Env) (s : Script) (at : Option ℕ) (key h160 : List ℕ) (xs : List ScriptData) (n : ℕ)
    → HasRoom s.main_stack (pushed key ∷ xs) (suc (suc n))
    → 0 < length key
    → length (env.ripemd160 (env.hash.sha256 key)) ≡ 20
    → length h160 ≡ 20
    → h160 ≢ env.ripemd160 (env.hash.sha256 key)
    → (stack : ScriptStack) × (parse_free env at (p2pkh h160) s
        ≡ fail (with_stack (started s) stack))
      × HasRoom stack (pushed key ∷ xs) (suc (suc n))
p2pkh_reject env s at key h160 xs n held key_pos hash_size size other =
    let code = p2pkh h160 in
    let whole = length-p2pkh h160 size in
    let (st, _, e, r) = front env key h160 xs n key_pos hash_size size (started s) at 22 held in
    (
      st,
      parse_free_fail env code s (with_stack (started s) st) at (omega (arith, whole)) (
          ap (λ k. run_ops env (suc k) free at code (started s)) whole
          ∙ e
          ∙ if_false (bytes_eq h160 (env.ripemd160 (env.hash.sha256 key))) _ _
              (bytes_eq-ne h160 _ other)),
      r,
    )
