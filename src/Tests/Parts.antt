-- ===== src/Tests/Parts.antt =====
-- Inputs and outputs of a transaction.
use bitcoin_clib.Base.{
  ℕ, ◌≤◌, ◌<◌, ◌≡◌, refl, List, [], ◌∷◌, ◌++◌, arith, length, take, replicate, false, some, ok,
  fault, load, read, le_get, le_put, All, IsByte,
}
use bitcoin_clib.Varint.{varint_bytes, varint_size, varint_get, varint_width}
use bitcoin_clib.Varstr.{varstr_size, varstr_clone, varstr_getdata_ptr}
use bitcoin_clib.Varstr.Laws.{varstr_of}
use bitcoin_clib.Payload.{IsPlaced, bytes_eq}
use bitcoin_clib.Txin.{
  Outpoint, Txin, txin_zero, outpoint_bytes, load_outpoint, coinbase_outpoint, checked_clone,
  satoshi_txin_parse, satoshi_txin_serialize,
}
use bitcoin_clib.Txin.Laws.{IsValidTxin, txin_wire, parsed_over, satoshi_txin_parse_lem}
use bitcoin_clib.Txin.Sound.{satoshi_txin_parse_sound, satoshi_txin_parse_overread}
use bitcoin_clib.Txout.{
  legacy, Txout, txout_zero, txout_flags, satoshi_txout_parse, satoshi_txout_serialize,
}
use bitcoin_clib.Txout.Laws.{IsValidTxout, txout_wire, satoshi_txout_parse_lem}
use bitcoin_clib.Txout.Sound.{satoshi_txout_parse_sound, satoshi_txout_parse_empty_script}

abbrev pub script : List ℕ
script = 81 ∷ []

abbrev pub spent : Outpoint
spent = record { prev_hash = replicate 32 1; index = 0 }

abbrev pub input : Txin
input = record txin_zero {
  outpoint = spent;
  scripts = some (1 ∷ script);
  cb_scripts = 1;
  sequence = 7;
}

script_bytes : varstr_of script ≡ 1 ∷ script
unfolding varstr_of varint_bytes
script_bytes = refl

pub input-IsValidTxin : IsValidTxin input script
unfolding varstr_of varint_bytes bytes_eq outpoint_bytes coinbase_outpoint le_put
input-IsValidTxin = record {
  outpoint_valid = record { hash_size = refl; index_fits = omega arith };
  coinbase_flag = refl;
  script = refl;
  script_fits = omega arith;
  script_length = refl;
  sequence_fits = omega arith;
}

input-IsPlaced : IsPlaced 1000 (txin_wire input script ++ 9 ∷ [])
unfolding txin_wire varstr_of varint_bytes outpoint_bytes le_put
input-IsPlaced = (omega arith, omega arith)

satoshi_txin_parse_lem_example :
    satoshi_txin_parse 1000 txin_zero (txin_wire input script ++ 9 ∷ [])
    ≡ ok (parsed_over txin_zero input, length (txin_wire input script))
satoshi_txin_parse_lem_example =
    satoshi_txin_parse_lem input-IsValidTxin 1000 txin_zero (9 ∷ []) input-IsPlaced

abbrev payload : List ℕ
payload = replicate 32 1 ++ 0 ∷ 0 ∷ 0 ∷ 0 ∷ 1 ∷ 81 ∷ 7 ∷ 0 ∷ 0 ∷ 0 ∷ 9 ∷ []

payload-IsByte : All IsByte payload
payload-IsByte = ground arith

parse_run : satoshi_txin_parse 1000 txin_zero payload ≡ ok (input, 42)
unfolding satoshi_txin_parse load_outpoint load read le_get outpoint_bytes coinbase_outpoint
    bytes_eq le_put checked_clone varstr_clone varstr_size varint_size varint_get varint_width
parse_run = refl

satoshi_txin_parse_sound_example :
    (satoshi_txin_serialize input ≡ ok (take 42 payload)) × (42 ≤ length payload)
satoshi_txin_parse_sound_example =
    satoshi_txin_parse_sound 1000 txin_zero input payload 42 payload-IsByte parse_run

width_of_marker : length {A = ℕ} (0xFD ∷ 1 ∷ []) < varint_width 0xFD
unfolding varint_width
width_of_marker = omega arith

satoshi_txin_parse_overread_example :
    satoshi_txin_parse 1000 txin_zero (replicate 36 0 ++ (0xFD ∷ 1 ∷ [])) ≡ fault
satoshi_txin_parse_overread_example =
    satoshi_txin_parse_overread 1000 0xFD txin_zero (replicate 36 0) (1 ∷ []) refl (omega arith)
      width_of_marker

abbrev pub output : Txout
output = record { value = 5; scripts = some (1 ∷ script); flags = legacy; p2sh_segwit = false }

pub output-IsValidTxout : IsValidTxout output 81 []
unfolding varstr_of varint_bytes
output-IsValidTxout = record {
  value_fits = omega arith;
  script = refl;
  script_fits = omega arith;
  flag = refl;
  not_p2sh_segwit = refl;
}

output-IsPlaced : IsPlaced 1000 (txout_wire output script ++ 9 ∷ [])
unfolding txout_wire varstr_of varint_bytes le_put
output-IsPlaced = (omega arith, omega arith)

satoshi_txout_parse_lem_example :
    satoshi_txout_parse 1000 txout_zero (txout_wire output script ++ 9 ∷ [])
    ≡ ok (output, length (txout_wire output script))
satoshi_txout_parse_lem_example =
    satoshi_txout_parse_lem output-IsValidTxout 1000 txout_zero (9 ∷ []) output-IsPlaced

abbrev output_bytes : List ℕ
output_bytes = 5 ∷ 0 ∷ 0 ∷ 0 ∷ 0 ∷ 0 ∷ 0 ∷ 0 ∷ 1 ∷ 81 ∷ 9 ∷ []

output_run : satoshi_txout_parse 1000 txout_zero output_bytes ≡ ok (output, 10)
unfolding satoshi_txout_parse txout_flags load read le_get checked_clone varstr_clone varstr_size
    varint_size varint_get varint_width varstr_getdata_ptr
output_run = refl

output_bytes-IsByte : All IsByte output_bytes
output_bytes-IsByte = ground arith

satoshi_txout_parse_sound_example :
    (satoshi_txout_serialize output ≡ ok (take 10 output_bytes)) × (10 ≤ length output_bytes)
satoshi_txout_parse_sound_example =
    satoshi_txout_parse_sound 1000 txout_zero output output_bytes 10 output_bytes-IsByte output_run

satoshi_txout_parse_empty_script_example :
    satoshi_txout_parse 1000 txout_zero (replicate 8 0 ++ (0 ∷ 4 ∷ [])) ≡ fault
satoshi_txout_parse_empty_script_example =
    satoshi_txout_parse_empty_script 1000 txout_zero (replicate 8 0) (4 ∷ []) refl
      (omega arith, omega arith)
