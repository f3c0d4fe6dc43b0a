-- ===== src/Txout/Laws.antt =====
-- `satoshi_txout_parse` against `satoshi_txout_serialize`.
use bitcoin_clib.Base.{
  ℕ, ◌+◌, ◌^◌, ◌≤◌, ◌<◌, ◌≡◌, sym, ap, List, ◌∷◌, ◌++◌, false, leb, arith, length, some, ok,
  if◌then◌else◌, le_put, length-append, length-le_put, append_assoc, drop-append, load-le_put,
  lt→ltb, ge→ltb,
}
use bitcoin_clib.Varint.Codec.{varint_calc_size_bounds}
use bitcoin_clib.Varstr.{varstr_size}
use bitcoin_clib.Varstr.Copies.{read_all}
use bitcoin_clib.Varstr.Laws.{
  varstr_of, Fits, length-varstr_of, varstr_size-varstr_of, varstr_size_exact,
  varstr_getdata_ptr_exact,
}
use bitcoin_clib.Payload.{past_end, IsPlaced}
use bitcoin_clib.Payload.Laws.{past_end_within}
use bitcoin_clib.Txin.{checked_clone}
use bitcoin_clib.Txin.Laws.{checked_clone_lem}
use bitcoin_clib.Txout.{
  legacy, segwit, Txout, txout_flags, satoshi_txout_parse, satoshi_txout_size,
  satoshi_txout_serialize,
}

-- `op ∷ d` is the script, and the flag is the one that its first byte gives.
pub record IsValidTxout (txout : Txout) (op : ℕ) (d : List ℕ) : Type 0 where
  pub value_fits : txout.value < 2 ^ 64
  pub script : txout.scripts ≡ some (varstr_of (op ∷ d))
  pub script_fits : Fits (op ∷ d)
  pub flag : txout.flags ≡ (if leb op 16 then segwit else legacy)
  pub not_p2sh_segwit : txout.p2sh_segwit ≡ false

-- The bytes of an output on the wire: the value, and the script behind its length.
unfoldable pub txout_wire : Txout → List ℕ → List ℕ
txout_wire txout d = le_put 8 txout.value ++ varstr_of d

module _ {t : Txout} {op : ℕ} {d : List ℕ} (v : IsValidTxout t op d) where
  pub length-txout_wire : length (txout_wire t (op ∷ d)) ≡ 8 + length (varstr_of (op ∷ d))
  unfolding txout_wire
  length-txout_wire =
      omega (arith, length-append (le_put 8 t.value) (varstr_of (op ∷ d)), length-le_put 8 t.value)

  script_size_bounds : (1 ≤ length (varstr_of (op ∷ d))) × (length (varstr_of (op ∷ d)) < 2 ^ 63)
  script_size_bounds =
      omega
        (arith, v.script_fits, length-varstr_of (op ∷ d), varint_calc_size_bounds (length (op ∷ d)))

  pub satoshi_txout_serialize_lem : satoshi_txout_serialize t ≡ ok (txout_wire t (op ∷ d))
  unfolding satoshi_txout_serialize txout_wire
  satoshi_txout_serialize_lem = rw (
    v.script,
    varstr_size_exact (op ∷ d) v.script_fits,
    lt→ltb 0 (length (varstr_of (op ∷ d))) script_size_bounds.0,
    read_all (varstr_of (op ∷ d)),
  )

  pub satoshi_txout_size_lem : satoshi_txout_size t ≡ ok (length (txout_wire t (op ∷ d)))
  unfolding satoshi_txout_size
  satoshi_txout_size_lem =
      rw (length-txout_wire, v.script, varstr_size_exact (op ∷ d) v.script_fits)
        (ap ok (omega (arith, script_size_bounds)))

  module _ (p_end : ℕ) (txout : Txout) (rest : List ℕ)
      (place : IsPlaced p_end (txout_wire t (op ∷ d) ++ rest)) where
    after_value : List ℕ
    after_value = varstr_of (op ∷ d) ++ rest

    regroup : txout_wire t (op ∷ d) ++ rest ≡ le_put 8 t.value ++ after_value
    unfolding txout_wire after_value
    regroup = append_assoc (le_put 8 t.value) (varstr_of (op ∷ d)) rest

    length-after_value : length after_value ≡ length (varstr_of (op ∷ d)) + length rest
    unfolding after_value
    length-after_value = length-append (varstr_of (op ∷ d)) rest

    length-whole : length (le_put 8 t.value ++ after_value) ≡ 8 + length after_value
    length-whole =
        omega (arith, length-append (le_put 8 t.value) after_value, length-le_put 8 t.value)

    within : past_end p_end after_value (length (varstr_of (op ∷ d))) ≡ false
    within =
        past_end_within p_end (length (varstr_of (op ∷ d))) after_value
          (omega (arith, place, length-whole, ap length regroup), place.1)
          (omega (arith, length-after_value))

    same_fields :
        record {
          value = t.value;
          scripts = some (varstr_of (op ∷ d));
          flags = if leb op 16 then segwit else legacy;
          p2sh_segwit = false;
        }
        ≡ t
    same_fields = ground (arith, v.script, v.flag, v.not_p2sh_segwit)

    -- A valid output (value in range, a script that is not empty stored behind its length, the
    -- flag that the script's first byte gives) is parsed back by satoshi_txout_parse from its
    -- wire form, whatever follows in the payload; all bytes of that form are taken.
    pub satoshi_txout_parse_lem :
        satoshi_txout_parse p_end txout (txout_wire t (op ∷ d) ++ rest)
        ≡ ok (t, length (txout_wire t (op ∷ d)))
    unfolding satoshi_txout_parse txout_flags
    satoshi_txout_parse_lem = rw (
      regroup,
      lt→ltb 0 (length (le_put 8 t.value ++ after_value)) (omega (arith, length-whole)),
      ge→ltb (length (le_put 8 t.value ++ after_value)) 8 (omega (arith, length-whole)),
      load-le_put 8 t.value after_value v.value_fits,
      drop-append 8 (le_put 8 t.value) after_value (sym (length-le_put 8 t.value)),
      ge→ltb (length after_value) 1 (omega (arith, length-after_value, script_size_bounds)),
      size_here,
      within,
      clone_here,
      varstr_getdata_ptr_exact (op ∷ d),
      length-txout_wire,
      same_fields,
    )
      where
        size_here : varstr_size after_value ≡ ok (length (varstr_of (op ∷ d)))
        size_here = unfold after_value in varstr_size-varstr_of (op ∷ d) _ v.script_fits

        clone_here :
            checked_clone after_value (length (varstr_of (op ∷ d))) ≡ ok (varstr_of (op ∷ d))
        clone_here = unfold after_value in checked_clone_lem (op ∷ d) _ v.script_fits
