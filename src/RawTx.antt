-- ===== src/RawTx.antt =====
-- src/satoshi-tx.c, satoshi_rawtx_*, and the part of src/segwit-tx.c that it calls: the digest that a
-- signature is checked against. A SHA-256 context is the list of the bytes it was updated with.
pub mod Hashed
pub mod Legacy
pub mod Segwit
use bitcoin_clib.Base.{
  ℕ, ◌+◌, ◌-◌, ◌*◌, ◌/◌, ◌%◌, ◌<◌, List, [], ◌∷◌, ◌++◌, Bool, true, false, ◌||◌, ltb, leb, ◌==◌,
  if◌then◌else◌, length, take, drop, set, get_elem?, map, ℤ, pos, negsuc, ◌⊖◌, Option, none, some,
  Outcome, ok, abort, fault, ◌>>=◌, ◌>>◌, assert, read, le_put, uint256_zero,
}
use bitcoin_clib.Hash.{HashFunctions, hash256}
use bitcoin_clib.Varint.{varint_bytes}
use bitcoin_clib.Varstr.{varstr_size}
use bitcoin_clib.Payload.{bytes_eq}
use bitcoin_clib.Txin.{Txin, txin_zero, outpoint_bytes, satoshi_txin_get_redeem_scripts}
use bitcoin_clib.Txout.{TxoutType, Txout, unknown, legacy, segwit}
use bitcoin_clib.Tx.{Tx}
use bitcoin_clib.TxHash.{
  hashed_varstr, hashed_txout, hashed_txouts, hashed_txin, hashed_txins, outpoints, sequences,
  prehash_prevouts, prehash_sequences, prehash_outputs,
}

-- `satoshi_rawtx_t`, but for the pointer to the transaction. `segwit_sha` is `none` for a context that
-- was not initialised. `last_hashed_txin_index`, an int, is below the number of inputs, and a
-- transaction that the parser accepts has fewer than 4000000 of them, so it is not cut to 32 bits.
pub record RawTx : Type 0 where
  pub legacy_sha : List ℕ
  pub segwit_sha : Option (List ℕ)
  pub txins : List Txin
  pub last_hashed_txin_index : ℤ
  pub txouts_hash : List ℕ

abbrev pub rawtx_zero : RawTx
rawtx_zero = record {
  legacy_sha = [];
  segwit_sha = none;
  txins = [];
  last_hashed_txin_index = pos 0;
  txouts_hash = uint256_zero;
}

-- `hash_type & 0x80`, as a bit.
unfoldable pub anyone_canpay : ℕ → ℕ
anyone_canpay hash_type = hash_type / 128 % 2

-- An input of the legacy digest: outpoint and sequence, with the empty script.
unfoldable pub raw_txin : Txin → Txin
raw_txin t = record txin_zero {
  outpoint = t.outpoint;
  scripts = some (0 ∷ []);
  sequence = t.sequence;
}

-- `if(rawtx->last_hashed_txin_index < 0) rawtx->last_hashed_txin_index = 0;`
unfoldable pub first_txin : RawTx → ℕ
first_txin rawtx = elim rawtx.last_hashed_txin_index [ pos n ↦ n | negsuc n ↦ 0 ]

-- The context behind the inputs. What is hashed in front of the current input stays.
unfoldable pub legacy_txins : RawTx → Tx → Bool → ℕ → List Txin → Outcome (List ℕ × RawTx)
unfolding hashed_txins first_txin
legacy_txins rawtx tx anyone cur_index raw_txins = elim (get_elem? raw_txins cur_index) [
  | none ↦ fault
  | some cur_txin ↦
      let first = first_txin rawtx in
      if anyone
      then (hashed_txin cur_txin >>= λ bs.
          ok (le_put 4 tx.version ++ bs, record rawtx { last_hashed_txin_index = pos first }))
      else elim (get_elem? raw_txins first) [
        | none ↦ abort
        | some first_raw ↦ elim first_raw.scripts [
          | none ↦ abort
          | some _ ↦ hashed_txins (take (cur_index - first) (drop first raw_txins)) >>= λ before.
              let sha = rawtx.legacy_sha ++ before in
              hashed_txins (drop cur_index raw_txins) >>= λ rest. ok (
                sha ++ rest,
                record rawtx { legacy_sha = sha; last_hashed_txin_index = cur_index ⊖ 1 },
              )
        ]
      ]
]

-- The outputs; `none` is `return -1`.
unfoldable pub legacy_txouts : Tx → ℕ → ℕ → Outcome (Option (List ℕ))
unfolding hashed_txouts
legacy_txouts tx cur_index hash_type =
    if hash_type == 1
    then (assert (ltb 0 (length tx.txouts)) >> hashed_txouts tx.txouts >>= λ bs.
        ok (some (varint_bytes (length tx.txouts) ++ bs)))
    else if hash_type == 3
    then elim (get_elem? tx.txouts cur_index) [
      | none ↦ ok none
      | some t ↦ hashed_txout t >>= λ bs. ok (some bs)
    ]
    else ok (some [])

module _ (h : HashFunctions) where
  -- Steps 1 to 3 of BIP 143.
  unfoldable pub segwit_front : RawTx → Tx → Bool → ℕ → Outcome (List ℕ)
  unfolding prehash_prevouts prehash_sequences
  segwit_front rawtx tx anyone hash_type =
      if anyone
      then ok (le_put 4 tx.version ++ (uint256_zero ++ uint256_zero))
      else if hash_type == 1
      then elim rawtx.segwit_sha [ none ↦ fault | some sha ↦ ok sha ]
      else ok (
          le_put 4 tx.version
          ++ (prehash_prevouts h tx.txins
              ++ (if hash_type == 2 || hash_type == 3
                  then uint256_zero
                  else prehash_sequences h tx.txins)))

  -- Step 8.
  unfoldable pub segwit_outputs : RawTx → Tx → ℕ → ℕ → Outcome (List ℕ)
  unfolding prehash_outputs
  segwit_outputs rawtx tx cur_index hash_type =
      if hash_type == 1
      then ok rawtx.txouts_hash
      else if hash_type == 2
      then prehash_outputs h [] none
      else if hash_type == 3
      then (if leb (length tx.txouts) cur_index
          then ok uint256_zero
          else prehash_outputs h tx.txouts (some cur_index))
      else abort

  unfoldable pub segwit_utxo_get_digest : RawTx → Tx → ℕ → ℕ → Txout → Outcome (List ℕ)
  unfolding segwit_front segwit_outputs anyone_canpay
  segwit_utxo_get_digest rawtx tx cur_index hash_type utxo = elim (get_elem? tx.txins cur_index) [
    | none ↦ abort
    | some cur_txin ↦
        let anyone = anyone_canpay hash_type in
        let hash_type' = hash_type % 32 in
        segwit_front rawtx tx (anyone == 1) hash_type' >>= λ front.
        satoshi_txin_get_redeem_scripts cur_txin >>= λ redeem_scripts. elim redeem_scripts [
          | none ↦ abort
          | some vstr ↦ hashed_varstr (some vstr) >>= λ script_code.
              segwit_outputs rawtx tx cur_index hash_type' >>= λ outputs. ok (
                hash256 h (
                  front
                  ++ (outpoint_bytes cur_txin.outpoint
                      ++ (script_code
                          ++ (le_put 8 utxo.value
                              ++ (le_put 4 cur_txin.sequence
                                  ++ (outputs
                                      ++ (le_put 4 tx.lock_time
                                          ++ le_put 4 (hash_type' + 128 * anyone)))))))))
        ]
  ]

  unfoldable pub satoshi_rawtx_attach_segwit_tx : RawTx → Tx → Outcome RawTx
  unfolding prehash_prevouts prehash_sequences prehash_outputs
  satoshi_rawtx_attach_segwit_tx rawtx tx = do
    assert tx.has_flag
    assert (bytes_eq tx.flag (0 ∷ 1 ∷ []))
    assert (ltb 0 (length tx.txins))
    assert (ltb 0 (length tx.txouts))
    txouts_hash ← prehash_outputs h tx.txouts none
    ok (record rawtx {
      segwit_sha =
          some
            (le_put 4 tx.version ++ (prehash_prevouts h tx.txins ++ prehash_sequences h tx.txins));
      txouts_hash = txouts_hash;
    })

  unfoldable pub satoshi_rawtx_attach : RawTx → Tx → Outcome RawTx
  unfolding satoshi_rawtx_attach_segwit_tx raw_txin
  satoshi_rawtx_attach rawtx tx = do
    assert (ltb 0 (length tx.txins))
    rawtx' ← if tx.has_flag then satoshi_rawtx_attach_segwit_tx rawtx tx else ok rawtx
    ok (record rawtx' {
      legacy_sha = le_put 4 tx.version ++ varint_bytes (length tx.txins);
      txins = map raw_txin tx.txins;
      last_hashed_txin_index = pos 0;
    })

  -- A script that was cut off in front of the last OP_CODESEPARATOR stands in for the current input's.
  unfoldable pub satoshi_utxo_get_digest : RawTx → Tx → ℕ → ℕ → Outcome (Option (List ℕ) × RawTx)
  unfolding legacy_txins legacy_txouts anyone_canpay
  satoshi_utxo_get_digest rawtx tx cur_index hash_type = elim (get_elem? tx.txins cur_index) [
    | none ↦ abort
    | some cur_txin ↦
        let anyone = anyone_canpay hash_type in
        let first = first_txin rawtx in
        assert (ltb first (length tx.txins))
        >> assert (leb first cur_index)
        >> satoshi_txin_get_redeem_scripts cur_txin
        >>= λ redeem_scripts. elim (get_elem? rawtx.txins cur_index) [
          | none ↦ fault
          | some raw ↦
              legacy_txins rawtx tx (anyone == 1) cur_index
                (set rawtx.txins cur_index (record raw { scripts = redeem_scripts }))
              >>= λ (front, rawtx').
                  legacy_txouts tx cur_index (hash_type - 128 * anyone) >>= λ outputs.
                  elim outputs [
                    | none ↦ ok (none, rawtx')
                    | some bs ↦ ok (
                      some (
                          hash256 h
                            (front ++ (bs ++ (le_put 4 tx.lock_time ++ le_put 4 hash_type)))),
                      rawtx',
                    )
                  ]
        ]
  ]

  unfoldable pub satoshi_rawtx_get_digest :
      RawTx → Tx → ℕ → ℕ → Option Txout → Outcome (Option (List ℕ) × RawTx)
  unfolding segwit_utxo_get_digest satoshi_utxo_get_digest
  satoshi_rawtx_get_digest rawtx tx cur_index hash_type none = abort
  satoshi_rawtx_get_digest rawtx tx cur_index hash_type (some utxo) =
      let by_segwit = segwit_utxo_get_digest rawtx tx cur_index hash_type utxo >>= λ digest.
      ok (some digest, rawtx) in
      if utxo.p2sh_segwit then by_segwit else elim utxo.flags [
        | segwit ↦ by_segwit
        | legacy ↦ satoshi_utxo_get_digest rawtx tx cur_index hash_type
        | unknown ↦ ok (none, rawtx)
      ]

-- Both contexts are initialised again.
unfoldable pub satoshi_rawtx_detach : RawTx → RawTx
satoshi_rawtx_detach rawtx = record {
  legacy_sha = [];
  segwit_sha = some [];
  txins = [];
  last_hashed_txin_index = negsuc 0;
  txouts_hash = uint256_zero;
}
