-- ===== src/Script/Imports.antt =====
-- What the wrappers of the cryptography library do on keys and signatures as the engine passes them.
use bitcoin_clib.Base.{
  ℕ, ◌≤◌, ◌<◌, ◌≡◌, refl, ap, List, [], ◌∷◌, ◌++◌, arith, length, length-append, drop, load, lt→ltb,
  le→leb, take-append, drop-append, take_all, read_enough, le_get, Option, none, some, read, Bool,
  false, Outcome, ok, err, abort, fault,
}
use bitcoin_clib.Crypto.{
  crypto_pubkey_import, crypto_signature_import, crypto_signature_export, crypto_verify,
}
use bitcoin_clib.Tx.{Tx}
use bitcoin_clib.RawTx.{RawTx, satoshi_rawtx_get_digest}
use bitcoin_clib.Script.{Script, Env, done, continue_with, lift}
use bitcoin_clib.Script.Stack.{with_rawtx}
use bitcoin_clib.Script.Checks.{keep_rawtx, get_digest, choose_digest}

-- The digest of a call that gives one, and what the call leaves in the object.
unfoldable pub given : Outcome (Option (List ℕ) × RawTx) → Option (List ℕ × RawTx)
given (ok (some digest, rawtx)) = some (digest, rawtx)
given (ok (none, rawtx)) = none
given err = none
given abort = none
given fault = none

-- The digest that a signature of this hash type is checked against: the one that was set, or else
-- that of the attached transaction.
unfoldable pub digest_of : Env → Script → ℕ → Option (List ℕ × RawTx)
unfolding given
digest_of env s hash_type = elim s.digest [
  | some digest ↦ some (digest, s.rawtx)
  | none ↦ elim s.tx [
    | none ↦ none
    | some tx ↦ given (satoshi_rawtx_get_digest env.hash s.rawtx tx s.txin_index hash_type s.utxo)
  ]
]

given-keep :
    (m : Outcome (Option (List ℕ) × RawTx)) (s : Script) (digest : List ℕ) (rawtx : RawTx)
    → given m ≡ some (digest, rawtx)
    → continue_with keep_rawtx (lift m s) ≡ done digest (with_rawtx s rawtx)
unfolding given keep_rawtx
given-keep (ok (some d, r)) s digest rawtx e = ground (arith, e)
given-keep (ok (none, r)) s digest rawtx e = ground (arith, e)
given-keep err s digest rawtx e = ground (arith, e)
given-keep abort s digest rawtx e = ground (arith, e)
given-keep fault s digest rawtx e = ground (arith, e)

pub get_digest_lem :
    (env : Env) (s : Script) (tx : Tx) (hash_type : ℕ) (digest : List ℕ) (rawtx : RawTx)
    → s.tx ≡ some tx
    → given (satoshi_rawtx_get_digest env.hash s.rawtx tx s.txin_index hash_type s.utxo)
      ≡ some (digest, rawtx)
    → get_digest env hash_type s ≡ done digest (with_rawtx s rawtx)
unfolding get_digest
get_digest_lem env s tx hash_type digest rawtx attached e = grind (arith, attached, e, given-keep)

-- The library's verdict on a signature in DER form.
unfoldable pub is_valid : Env → List ℕ → List ℕ → List ℕ → Bool
is_valid env digest pubkey sig_der = elim (env.secp.signature_parse_der sig_der) [
  | none ↦ false
  | some sig ↦ env.secp.ecdsa_verify sig digest pubkey
]

pub crypto_verify_lem :
    (env : Env) (digest pubkey sig_der : List ℕ)
    → 0 < length sig_der
    → crypto_verify env.secp digest pubkey sig_der ≡ ok (is_valid env digest pubkey sig_der)
unfolding crypto_verify is_valid
crypto_verify_lem env digest pubkey sig_der h = rw (lt→ltb _ _ h) (ground arith)

pub export_lem :
    (env : Env) (sig sig_der : List ℕ)
    → env.secp.signature_serialize_der sig ≡ some sig_der
    → 0 < length sig_der
    → crypto_signature_export env.secp sig ≡ ok (some sig_der)
unfolding crypto_signature_export
export_lem env sig sig_der e h =
    rw (e, crypto_signature_export) (rw (lt→ltb 0 (length sig_der) h) refl)

pub choose_digest_lem :
    (env : Env) (s : Script) (hash_type : ℕ) (digest : List ℕ) (rawtx : RawTx)
    → digest_of env s hash_type ≡ some (digest, rawtx)
    → choose_digest env hash_type s ≡ done digest (with_rawtx s rawtx)
unfolding choose_digest digest_of
choose_digest_lem env s hash_type digest rawtx e = grind (arith, e, given-keep)

pub pubkey_import_lem :
    (env : Env) (key : List ℕ)
    → length key ≤ 65
    → crypto_pubkey_import env.secp key (length key) ≡ ok (env.secp.pubkey_parse key)
unfolding crypto_pubkey_import
pubkey_import_lem env key h =
    rw (le→leb _ _ h, read_enough (length key) key (omega arith), take_all (length key) key refl)
      refl

pub signature_import_lem :
    (env : Env) (sig : List ℕ) (hash_type n : ℕ)
    → 0 < length sig
    → n ≡ length sig
    → crypto_signature_import env.secp (sig ++ hash_type ∷ []) n
      ≡ ok (env.secp.signature_parse_der sig)
unfolding crypto_signature_import
signature_import_lem env sig hash_type n h e =
    rw
      (
        e,
        lt→ltb _ _ h,
        read_enough (length sig) (sig ++ hash_type ∷ [])
            (omega (arith, length-append sig (hash_type ∷ []))),
        take-append (length sig) sig (hash_type ∷ []) refl,
      )
      refl

pub hash_type_lem :
    (sig : List ℕ) (hash_type n : ℕ)
    → n ≡ length sig
    → load 1 (drop n (sig ++ hash_type ∷ [])) ≡ ok hash_type
unfolding load le_get read
hash_type_lem sig hash_type n e = rw (drop-append n sig (hash_type ∷ []) e) (ap ok (omega arith))
