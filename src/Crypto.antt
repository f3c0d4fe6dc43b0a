-- ===== src/Crypto.antt =====
-- src/crypto.c: the wrappers of secp256k1 that the script engine calls. The library lies outside the
-- repository and is a parameter; its opaque keys and signatures are byte strings.
use bitcoin_clib.Base.{
  ℕ, List, Bool, false, ltb, leb, length, Option, none, some, Outcome, ok, ◌>>=◌, ◌>>◌, assert,
  read,
}

-- `secp256k1_ec_pubkey_parse`, `secp256k1_ecdsa_signature_parse_der`,
-- `secp256k1_ecdsa_signature_serialize_der` and `secp256k1_ecdsa_verify`; `none` is a failure.
pub record Secp : Type 0 where
  pub pubkey_parse : List ℕ → Option (List ℕ)
  pub signature_parse_der : List ℕ → Option (List ℕ)
  pub signature_serialize_der : List ℕ → Option (List ℕ)
  pub ecdsa_verify : List ℕ → List ℕ → List ℕ → Bool

module _ (secp : Secp) where
  -- Of the bytes behind the pointer, `none` where the source returns NULL.
  unfoldable pub crypto_pubkey_import : List ℕ → ℕ → Outcome (Option (List ℕ))
  crypto_pubkey_import pubkey_data length = do
    assert (leb length 65)
    bs ← read length pubkey_data
    ok (secp.pubkey_parse bs)

  unfoldable pub crypto_signature_import : List ℕ → ℕ → Outcome (Option (List ℕ))
  crypto_signature_import sig_der length = do
    assert (ltb 0 length)
    bs ← read length sig_der
    ok (secp.signature_parse_der bs)

  -- `none` is the return value -1.
  unfoldable pub crypto_signature_export : List ℕ → Outcome (Option (List ℕ))
  crypto_signature_export sig = elim (secp.signature_serialize_der sig) [
    | none ↦ ok none
    | some sig_der ↦ assert (ltb 0 (length sig_der)) >> ok (some sig_der)
  ]

  -- Whether the result is 0.
  unfoldable pub crypto_verify : List ℕ → List ℕ → List ℕ → Outcome Bool
  crypto_verify msg pubkey sig_der = do
    assert (ltb 0 (length sig_der))
    elim (secp.signature_parse_der sig_der) [
      | none ↦ ok false
      | some sig ↦ ok (secp.ecdsa_verify sig msg pubkey)
    ]
