-- ===== src/Tx/RoundTrip.antt =====
-- `satoshi_tx_parse` of what `satoshi_tx_serialize` wrote, for both forms of a transaction.
use bitcoin_clib.Base.{ℕ, ◌≤◌, ◌≡◌, sym, ◌∙◌, List, ◌++◌, Bool, false, length, ok, ok-injective}
use bitcoin_clib.Payload.{IsPlaced}
use bitcoin_clib.Hash.{HashFunctions, hash256}
use bitcoin_clib.Tx.{Tx, tx_zero, satoshi_tx_serialize}
use bitcoin_clib.Tx.Parse.{satoshi_tx_parse}
use bitcoin_clib.Tx.Legacy.{
  IsPlainTx, IsLegacy, IsSegwit, serialize_legacy, serialize_stripped, parse_legacy,
}
use bitcoin_clib.Tx.Segwit.{serialize_segwit, parse_segwit}

module _ (p_end : ℕ) (calloc : ℕ → Bool) (h : HashFunctions) (t : Tx) (bs rest : List ℕ)
    (v : IsPlainTx calloc t) (written : satoshi_tx_serialize t ≡ ok bs)
    (place : IsPlaced p_end (bs ++ rest)) (small : length (bs ++ rest) ≤ 4000000) where
  -- A transaction without the flag (its flag bytes are 0) and without witnesses, whose fields fit
  -- their widths, with at least one input and one output, arrays that the allocator grants and
  -- well-formed scripts, is parsed back by satoshi_tx_parse from the bytes that
  -- satoshi_tx_serialize wrote, whatever follows them in a payload of at most 4000000 bytes:
  -- exactly those bytes are taken, and txid is their double SHA-256.
  pub satoshi_tx_round_trip_legacy :
      IsLegacy t
      → satoshi_tx_parse p_end calloc h tx_zero (bs ++ rest)
        ≡ ok (record t { txid = hash256 h bs }, length bs)
  satoshi_tx_round_trip_legacy l =
      let same = ok-injective (sym written ∙ serialize_legacy p_end calloc h v l.no_flag) in
      rw same (parse_legacy p_end calloc h v rest l (rw same at place) (rw same at small))

  -- A transaction with the witness flag (its flag bytes are 0 and 1), whose fields fit their
  -- widths, with at least one input and one output, arrays that the allocator grants, well-formed
  -- scripts and one witness per input, is parsed back by satoshi_tx_parse from the bytes that
  -- satoshi_tx_serialize wrote, whatever follows them in a payload of at most 4000000 bytes: the
  -- bytes are all taken, txid is the double SHA-256 of the serialization without flag and
  -- witnesses, and wtxid that of the whole.
  pub satoshi_tx_round_trip_segwit :
      (bytes stripped : List ℕ)
      → IsSegwit calloc t bytes
      → satoshi_tx_serialize (record t { has_flag = false }) ≡ ok stripped
      → satoshi_tx_parse p_end calloc h tx_zero (bs ++ rest)
        ≡ ok (record t { txid = hash256 h stripped; wtxid = hash256 h bs }, length bs)
  satoshi_tx_round_trip_segwit bytes stripped w e =
      let same = ok-injective (sym written ∙ serialize_segwit p_end calloc h v w) in
      let same' = ok-injective (sym e ∙ serialize_stripped p_end calloc h v) in
      rw (same, same') (parse_segwit p_end calloc h v rest w (rw same at place) (rw same at small))
