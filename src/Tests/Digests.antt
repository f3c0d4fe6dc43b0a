-- ===== src/Tests/Digests.antt =====
-- The digests of a transaction with two inputs.
use bitcoin_clib.Base.{
  ℕ, ◌≡◌, refl, List, [], ◌∷◌, ◌++◌, arith, replicate, true, false, some, ok, read, le_put, le_get,
  write,
}
use bitcoin_clib.Hash.{trivial_hash, hash256}
use bitcoin_clib.Varint.{
  varint_bytes, varint_size, varint_get, varint_width, varint_new, varint_calc_size,
}
use bitcoin_clib.Varstr.{varstr_size, varstr_new, varstr_getdata_ptr, fill_data, write_at}
use bitcoin_clib.Varstr.Laws.{varstr_of}
use bitcoin_clib.Payload.{bytes_eq}
use bitcoin_clib.Txin.{
  Txin, satoshi_txin_serialize, outpoint_bytes, satoshi_txin_get_redeem_scripts,
}
use bitcoin_clib.Txout.{satoshi_txout_serialize}
use bitcoin_clib.Tx.{Tx, tx_zero, serialize_txins, serialize_txouts, satoshi_tx_serialize}
use bitcoin_clib.TxHash.{
  prehash_outputs, hashed_txouts, hashed_txout, hashed_varstr, prehash_prevouts, prehash_sequences,
}
use bitcoin_clib.RawTx.{
  RawTx, rawtx_zero, raw_txin, satoshi_rawtx_attach, satoshi_rawtx_attach_segwit_tx,
  satoshi_rawtx_get_digest, segwit_utxo_get_digest,
}
use bitcoin_clib.RawTx.Hashed.{signed_txins}
use bitcoin_clib.RawTx.Legacy.{
  blank_bytes, satoshi_rawtx_get_digest_legacy, satoshi_rawtx_get_digest_again,
}
use bitcoin_clib.RawTx.Segwit.{Written, Sighash, bip143, segwit_utxo_get_digest_lem}
use bitcoin_clib.Tests.Parts.{input, output}

abbrev pub signing : Txin
signing = record input { redeem_scripts = some (1 ∷ 81 ∷ []) }

abbrev pub two_inputs : Tx
two_inputs = record tx_zero { version = 1; txins = input ∷ signing ∷ []; txouts = output ∷ [] }

abbrev pub two_attached : RawTx
two_attached = record rawtx_zero {
  legacy_sha = 1 ∷ 0 ∷ 0 ∷ 0 ∷ 2 ∷ [];
  txins = raw_txin input ∷ raw_txin signing ∷ [];
}

pub two_attached_run : satoshi_rawtx_attach trivial_hash rawtx_zero two_inputs ≡ ok two_attached
unfolding satoshi_rawtx_attach varint_bytes le_put
two_attached_run = refl

pub signing_script : satoshi_txin_get_redeem_scripts signing ≡ ok (some (1 ∷ 81 ∷ []))
unfolding satoshi_txin_get_redeem_scripts varstr_getdata_ptr varint_size varint_get varint_width
    varstr_new fill_data varint_bytes read le_get varint_new varint_calc_size write write_at
signing_script = refl

abbrev pub outpoint_of_input : List ℕ
outpoint_of_input = replicate 32 1 ++ (0 ∷ 0 ∷ 0 ∷ 0 ∷ [])

-- What is written in front of the second input.
abbrev pub signed_front : List ℕ
signed_front = 1 ∷ 0 ∷ 0 ∷ 0 ∷ 2 ∷ (outpoint_of_input ++ (0 ∷ 7 ∷ 0 ∷ 0 ∷ 0 ∷ []))

abbrev pub signed_bytes : List ℕ
signed_bytes =
    signed_front
    ++ (outpoint_of_input
        ++ (1 ∷ 81 ∷ 7 ∷ 0 ∷ 0 ∷ 0 ∷ 1 ∷ 5 ∷ 0 ∷ 0 ∷ 0 ∷ 0 ∷ 0 ∷ 0 ∷ 0 ∷ 1 ∷ 81 ∷ 0 ∷ 0 ∷ 0 ∷ 0
            ∷ []))

pub signed_written :
    satoshi_tx_serialize (record two_inputs {
      has_flag = false;
      txins = signed_txins two_inputs 1 signing (1 ∷ 81 ∷ []);
    })
    ≡ ok signed_bytes
unfolding satoshi_tx_serialize serialize_txins serialize_txouts satoshi_txin_serialize raw_txin
    satoshi_txout_serialize outpoint_bytes varint_bytes le_put varstr_size varint_size varint_get
    varint_width read
signed_written = refl

satoshi_rawtx_get_digest_legacy_example :
    (rawtx' : RawTx) × (satoshi_rawtx_get_digest trivial_hash two_attached two_inputs 1 1
        (some output)
      ≡ ok (some (hash256 trivial_hash (signed_bytes ++ le_put 4 1)), rawtx'))
satoshi_rawtx_get_digest_legacy_example =
    satoshi_rawtx_get_digest_legacy trivial_hash two_inputs 1 signing (1 ∷ 81 ∷ []) signed_bytes
      rawtx_zero two_attached two_attached_run refl signing_script (omega arith) signed_written
      output refl refl

satoshi_rawtx_get_digest_again_example :
    (x : List ℕ) × (y : List ℕ) × (rawtx' : RawTx) × (rawtx'' : RawTx) × (signed_bytes ≡ x ++ y)
    × (satoshi_rawtx_get_digest trivial_hash two_attached two_inputs 1 1 (some output)
        ≡ ok (some (hash256 trivial_hash (signed_bytes ++ le_put 4 1)), rawtx'))
    × (satoshi_rawtx_get_digest trivial_hash rawtx' two_inputs 1 1 (some output)
        ≡ ok (some (hash256 trivial_hash (x ++ (blank_bytes input ++ (y ++ le_put 4 1)))), rawtx''))
satoshi_rawtx_get_digest_again_example =
    satoshi_rawtx_get_digest_again trivial_hash two_inputs 1 signing (1 ∷ 81 ∷ []) signed_bytes
      rawtx_zero two_attached two_attached_run refl signing_script (omega arith) signed_written
      output 0 input refl refl refl refl

abbrev flagged : Tx
flagged = record two_inputs { has_flag = true; flag = 0 ∷ 1 ∷ [] }

abbrev flagged_attached : RawTx
flagged_attached = record two_attached {
  segwit_sha = some ((1 ∷ 0 ∷ 0 ∷ 0 ∷ []) ++ replicate 64 0);
  txouts_hash = replicate 32 0;
}

flagged_run : satoshi_rawtx_attach trivial_hash rawtx_zero flagged ≡ ok flagged_attached
unfolding satoshi_rawtx_attach varint_bytes le_put prehash_outputs hashed_txouts hashed_txout
    hashed_varstr prehash_prevouts prehash_sequences satoshi_rawtx_attach_segwit_tx varstr_size
    varint_size varint_get varint_width read bytes_eq
flagged_run = refl

output_written : satoshi_txout_serialize output ≡ ok (5 ∷ 0 ∷ 0 ∷ 0 ∷ 0 ∷ 0 ∷ 0 ∷ 0 ∷ 1 ∷ 81 ∷ [])
unfolding satoshi_txout_serialize le_put varstr_size varint_size varint_get varint_width read
output_written = refl

signing_stored : satoshi_txin_get_redeem_scripts signing ≡ ok (some (varstr_of (81 ∷ [])))
unfolding varstr_of varint_bytes
signing_stored = signing_script

-- SINGLE, for an input without an output at its place.
segwit_utxo_get_digest_lem_example :
    segwit_utxo_get_digest trivial_hash flagged_attached flagged 1 3 output
    ≡ ok (
        hash256 trivial_hash (
          bip143 trivial_hash flagged
            ((5 ∷ 0 ∷ 0 ∷ 0 ∷ 0 ∷ 0 ∷ 0 ∷ 0 ∷ 1 ∷ 81 ∷ []) ∷ [])
            1
            signing
            (81 ∷ [])
            output
            Sighash.single
            false))
segwit_utxo_get_digest_lem_example =
    segwit_utxo_get_digest_lem trivial_hash flagged rawtx_zero flagged_attached
      ((5 ∷ 0 ∷ 0 ∷ 0 ∷ 0 ∷ 0 ∷ 0 ∷ 0 ∷ 1 ∷ 81 ∷ []) ∷ []) refl flagged_run
      (Written.next output_written Written.end) 1 signing (81 ∷ []) output Sighash.single false refl
      signing_stored (omega arith)
