-- ===== src/Script/Spend.antt =====
-- The standard script with the digest of the attached transaction.
use bitcoin_clib.Base.{
  ℕ, suc, ◌≤◌, ◌<◌, ◌≡◌, refl, List, [], ◌∷◌, ◌++◌, length, get_elem?, false, Option, none, some,
  ok, le_put,
}
use bitcoin_clib.Hash.{hash256}
use bitcoin_clib.Txin.{Txin, satoshi_txin_get_redeem_scripts}
use bitcoin_clib.Txout.{Txout, legacy}
use bitcoin_clib.Tx.{Tx, satoshi_tx_serialize}
use bitcoin_clib.RawTx.{RawTx, satoshi_rawtx_attach}
use bitcoin_clib.RawTx.Hashed.{signed_txins}
use bitcoin_clib.RawTx.Legacy.{satoshi_rawtx_get_digest_legacy}
use bitcoin_clib.ScriptData.{ScriptData, satoshi_script_data_new_boolean}
use bitcoin_clib.ScriptData.Strings.{pushed}
use bitcoin_clib.ScriptStack.{ScriptStack}
use bitcoin_clib.Script.{Script, Env, done}
use bitcoin_clib.Script.Stack.{with_stack, with_rawtx, HasRoom}
use bitcoin_clib.Script.Imports.{given, digest_of, is_valid}
use bitcoin_clib.Script.Rounds.{p2pkh}
use bitcoin_clib.Script.Parse.{parse_free}
use bitcoin_clib.Script.PayToPubkeyHash.{started, p2pkh_accept}

-- An engine with an attached transaction, of whose input `t` the script `script` is signed; `bytes` is
-- what is written for the signature.
pub record Spends (env : Env) (s : Script) (tx : Tx) (t : Txin) (script bytes : List ℕ)
    (utxo : Txout) : Type 0 where
  pub prior : RawTx
  pub no_digest : s.digest ≡ none
  pub attached_tx : s.tx ≡ some tx
  pub attached : satoshi_rawtx_attach env.hash prior tx ≡ ok s.rawtx
  pub current : get_elem? tx.txins s.txin_index ≡ some t
  pub redeem : satoshi_txin_get_redeem_scripts t ≡ ok (some script)
  pub some_txout : 0 < length tx.txouts
  pub spent : s.utxo ≡ some utxo
  pub plain : utxo.p2sh_segwit ≡ false
  pub kind : utxo.flags ≡ legacy
  pub written :
      satoshi_tx_serialize
        (record tx { has_flag = false; txins = signed_txins tx s.txin_index t script })
      ≡ ok bytes

digest_of-Spends :
    (env : Env) (s : Script) (tx : Tx) (t : Txin) (script bytes : List ℕ) (utxo : Txout)
    → Spends env s tx t script bytes utxo
    → (rawtx : RawTx) × (digest_of env s 1 ≡ some (hash256 env.hash (bytes ++ le_put 4 1), rawtx))
unfolding digest_of given
digest_of-Spends env s tx t script bytes utxo h =
    let (rawtx, e) =
      satoshi_rawtx_get_digest_legacy env.hash tx s.txin_index t script bytes h.prior s.rawtx
        h.attached h.current h.redeem h.some_txout h.written utxo h.plain h.kind in
    (rawtx, rw (digest_of, h.no_digest, h.attached_tx, h.spent, e) refl)

-- For an engine with a free place for two items whose stack holds a key of 1 to 65 bytes with a
-- 20-byte hash, on a signature with hash type ALL, both of which the library reads, with a DER
-- form that is not empty, and with a transaction that was attached, has an output, and of which
-- an input with a redeem script is set that spends a legacy output: the run of the script of the
-- key's hash takes all 25 bytes and replaces key and signature by the library's verdict on that
-- key, that DER form and the double SHA-256 of the serialized transaction (which has to be
-- possible) with empty scripts but the redeem script at the input, and the hash type behind it.
pub p2pkh_spend :
    (env : Env) (s : Script) (at : Option ℕ) (key sig : List ℕ) (xs : List ScriptData) (n : ℕ)
    (tx : Tx) (t : Txin) (script bytes : List ℕ) (utxo : Txout) (pubkey imported sig_der : List ℕ)
    → HasRoom s.main_stack (pushed key ∷ pushed (sig ++ 1 ∷ []) ∷ xs) (suc (suc n))
    → 0 < length key
    → length key ≤ 65
    → 0 < length sig
    → length (env.ripemd160 (env.hash.sha256 key)) ≡ 20
    → env.secp.pubkey_parse key ≡ some pubkey
    → env.secp.signature_parse_der sig ≡ some imported
    → env.secp.signature_serialize_der imported ≡ some sig_der
    → 0 < length sig_der
    → Spends env s tx t script bytes utxo
    → (stack : ScriptStack) × (rawtx : RawTx) × (parse_free env at
          (p2pkh (env.ripemd160 (env.hash.sha256 key)))
          s
        ≡ done 25 (with_rawtx (with_stack (started s) stack) rawtx))
      × HasRoom stack
          (satoshi_script_data_new_boolean
              (is_valid env (hash256 env.hash (bytes ++ le_put 4 1)) pubkey sig_der)
            ∷ xs)
          (suc (suc (suc n)))
p2pkh_spend env s at key sig xs n tx t script bytes utxo pubkey imported sig_der held key_pos
      key_short sig_pos hash_size e read x pos h =
    let (rawtx, d) = digest_of-Spends env s tx t script bytes utxo h in
    let (stack, run, left) =
      (p2pkh_accept env s at key sig 1 xs n held key_pos key_short sig_pos hash_size pubkey imported
        sig_der _ rawtx e read d x pos).1 in
    (stack, rawtx, run, left)
