-- ===== src/Tests/Txs.antt =====
-- Transactions, and blocks of them.
use bitcoin_clib.Base.{
  ℕ, ◌≡◌, refl, List, [], ◌∷◌, ◌++◌, Bool, true, false, arith, length, replicate, ok, abort, read,
  le_put, drop, ◌≤◌,
}
use bitcoin_clib.Varint.{varint_bytes, varint_size, varint_get, varint_width}
use bitcoin_clib.Varstr.{varstr_size}
use bitcoin_clib.Varstr.Laws.{varstr_of}
use bitcoin_clib.Hash.{hash256, trivial_hash}
use bitcoin_clib.Payload.{IsPlaced}
use bitcoin_clib.Txin.{satoshi_txin_serialize, outpoint_bytes}
use bitcoin_clib.Txout.{satoshi_txout_serialize}
use bitcoin_clib.Tx.{
  Witness, Tx, tx_zero, serialize_txins, serialize_txouts, serialize_items, serialize_witnesses,
  serialize_witness_section, satoshi_tx_serialize,
}
use bitcoin_clib.Tx.Parse.{satoshi_tx_parse}
use bitcoin_clib.Tx.Legacy.{IsPlainTx, IsLegacy, IsSegwit}
use bitcoin_clib.Tx.RoundTrip.{satoshi_tx_round_trip_legacy, satoshi_tx_round_trip_segwit}
use bitcoin_clib.Tx.Unwitnessed.{satoshi_tx_parse_no_witness}
use bitcoin_clib.Tests.Parts.{script, input, output, input-IsValidTxin, output-IsValidTxout}

abbrev pub always : ℕ → Bool
always n = true

abbrev pub payment : Tx
payment = record tx_zero { version = 1; txins = input ∷ []; txouts = output ∷ [] }

abbrev pub payment_bytes : List ℕ
payment_bytes =
    (1 ∷ 0 ∷ 0 ∷ 0 ∷ 1 ∷ replicate 32 1)
    ++ ((0 ∷ 0 ∷ 0 ∷ 0 ∷ 1 ∷ 81 ∷ 7 ∷ 0 ∷ 0 ∷ 0 ∷ 1 ∷ 5 ∷ 0 ∷ 0 ∷ 0 ∷ 0 ∷ 0 ∷ 0 ∷ 0 ∷ [])
        ++ (1 ∷ 81 ∷ 0 ∷ 0 ∷ 0 ∷ 0 ∷ []))

payment_written : satoshi_tx_serialize payment ≡ ok payment_bytes
unfolding satoshi_tx_serialize serialize_txins serialize_txouts satoshi_txin_serialize
    satoshi_txout_serialize outpoint_bytes varint_bytes le_put varstr_size varint_size varint_get
    varint_width read
payment_written = refl

payment-IsPlainTx : IsPlainTx always payment
payment-IsPlainTx = record {
  version_fits = omega arith;
  lock_time_fits = omega arith;
  txins_valid = (
    record {
      script = script;
      valid = input-IsValidTxin;
      not_p2sh = refl;
      no_redeem = refl;
      no_start = refl;
    },
    tt,
  );
  txouts_valid = (record { op = 81; script = []; valid = output-IsValidTxout }, tt);
  some_txin = omega arith;
  some_txout = omega arith;
  txins_fit = omega arith;
  txouts_fit = omega arith;
  txins_granted = refl;
  txouts_granted = refl;
}

payment-IsLegacy : IsLegacy payment
payment-IsLegacy = record {
  no_flag = refl;
  no_bytes = refl;
  no_witnesses = refl;
  no_size = refl;
  no_wtxid = refl;
}

satoshi_tx_round_trip_legacy_example :
    satoshi_tx_parse 1000 always trivial_hash tx_zero (payment_bytes ++ 9 ∷ [])
    ≡ ok (record payment { txid = hash256 trivial_hash payment_bytes }, length payment_bytes)
satoshi_tx_round_trip_legacy_example =
    satoshi_tx_round_trip_legacy 1000 always trivial_hash payment payment_bytes (9 ∷ [])
      payment-IsPlainTx payment_written (omega arith, omega arith) (omega arith) payment-IsLegacy

abbrev signature : Witness
signature = record { num_items = 2; items = (1 ∷ 7 ∷ []) ∷ (0 ∷ []) ∷ [] }

abbrev witness_bytes : List ℕ
witness_bytes = 2 ∷ 1 ∷ 7 ∷ 0 ∷ []

abbrev spending : Tx
spending = record payment {
  has_flag = true;
  flag = 0 ∷ 1 ∷ [];
  witnesses = signature ∷ [];
  cb_witnesses = 4;
}

abbrev spending_bytes : List ℕ
spending_bytes =
    (1 ∷ 0 ∷ 0 ∷ 0 ∷ 0 ∷ 1 ∷ 1 ∷ replicate 32 1)
    ++ ((0 ∷ 0 ∷ 0 ∷ 0 ∷ 1 ∷ 81 ∷ 7 ∷ 0 ∷ 0 ∷ 0 ∷ 1 ∷ 5 ∷ 0 ∷ 0 ∷ 0 ∷ 0 ∷ 0 ∷ 0 ∷ 0 ∷ [])
        ++ (1 ∷ 81 ∷ 2 ∷ 1 ∷ 7 ∷ 0 ∷ 0 ∷ 0 ∷ 0 ∷ 0 ∷ []))

spending_written : satoshi_tx_serialize spending ≡ ok spending_bytes
unfolding satoshi_tx_serialize serialize_txins serialize_txouts serialize_items serialize_witnesses
    serialize_witness_section satoshi_txin_serialize satoshi_txout_serialize outpoint_bytes
    varint_bytes le_put varstr_size varint_size varint_get varint_width read
spending_written = refl

stripped_written : satoshi_tx_serialize (record spending { has_flag = false }) ≡ ok payment_bytes
unfolding satoshi_tx_serialize serialize_txins serialize_txouts satoshi_txin_serialize
    satoshi_txout_serialize outpoint_bytes varint_bytes le_put varstr_size varint_size varint_get
    varint_width read
stripped_written = refl

spending-IsPlainTx : IsPlainTx always spending
spending-IsPlainTx = record {
  version_fits = omega arith;
  lock_time_fits = omega arith;
  txins_valid = payment-IsPlainTx.txins_valid;
  txouts_valid = payment-IsPlainTx.txouts_valid;
  some_txin = omega arith;
  some_txout = omega arith;
  txins_fit = omega arith;
  txouts_fit = omega arith;
  txins_granted = refl;
  txouts_granted = refl;
}

spending-IsSegwit : IsSegwit always spending witness_bytes
unfolding serialize_witnesses serialize_items varint_bytes varstr_of varstr_size varint_size
    varint_get varint_width read
spending-IsSegwit = record {
  flag = refl;
  flag_bytes = refl;
  matched = refl;
  stored = (
    record {
      counted = refl;
      count_fits = omega arith;
      granted = refl;
      stored = (
        record { text = 7 ∷ []; fits = omega arith; stored = refl },
        (record { text = []; fits = omega arith; stored = refl }, tt),
      );
    },
    tt,
  );
  written = refl;
  sized = refl;
  bytes_fit = omega arith;
}

satoshi_tx_round_trip_segwit_example :
    satoshi_tx_parse 1000 always trivial_hash tx_zero (spending_bytes ++ 9 ∷ [])
    ≡ ok (
      record spending {
        txid = hash256 trivial_hash payment_bytes;
        wtxid = hash256 trivial_hash spending_bytes;
      },
      length spending_bytes,
    )
satoshi_tx_round_trip_segwit_example =
    satoshi_tx_round_trip_segwit 1000 always trivial_hash spending spending_bytes (9 ∷ [])
      spending-IsPlainTx spending_written (omega arith, omega arith) (omega arith) witness_bytes
      payment_bytes spending-IsSegwit stripped_written

abbrev unsigned : Tx
unsigned = record payment { has_flag = true }

unsigned-IsPlainTx : IsPlainTx always unsigned
unsigned-IsPlainTx = record {
  version_fits = omega arith;
  lock_time_fits = omega arith;
  txins_valid = payment-IsPlainTx.txins_valid;
  txouts_valid = payment-IsPlainTx.txouts_valid;
  some_txin = omega arith;
  some_txout = omega arith;
  txins_fit = omega arith;
  txouts_fit = omega arith;
  txins_granted = refl;
  txouts_granted = refl;
}

abbrev unsigned_body : List ℕ
unsigned_body = drop 4 payment_bytes

unsigned_written :
    satoshi_tx_serialize (record unsigned { has_flag = false }) ≡ ok (le_put 4 1 ++ unsigned_body)
unfolding satoshi_tx_serialize serialize_txins serialize_txouts satoshi_txin_serialize
    satoshi_txout_serialize outpoint_bytes varint_bytes le_put varstr_size varint_size varint_get
    varint_width read
unsigned_written = refl

unsigned_place : IsPlaced 1000 (le_put 4 1 ++ (0 ∷ 1 ∷ unsigned_body))
unfolding le_put
unsigned_place = (omega arith, omega arith)

unsigned_size : length (le_put 4 1 ++ (0 ∷ 1 ∷ unsigned_body)) ≤ 4000000
unfolding le_put
unsigned_size = omega arith

satoshi_tx_parse_no_witness_example :
    (u : Tx) × (satoshi_tx_parse 1000 always trivial_hash tx_zero
        (le_put 4 1 ++ (0 ∷ 1 ∷ unsigned_body))
      ≡ ok (u, length (le_put 4 1 ++ (0 ∷ 1 ∷ unsigned_body))))
    × (satoshi_tx_serialize u ≡ abort)
satoshi_tx_parse_no_witness_example =
    satoshi_tx_parse_no_witness 1000 always trivial_hash unsigned unsigned-IsPlainTx unsigned_body
      unsigned_written unsigned_place unsigned_size
