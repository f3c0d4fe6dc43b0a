-- ===== src/Txin/Laws.antt =====
-- `satoshi_txin_parse` against `satoshi_txin_serialize`.
use bitcoin_clib.Base.{
  ℕ, ◌+◌, ◌^◌, ◌<◌, ◌≡◌, refl, sym, ap, ◌∙◌, List, ◌++◌, true, false, ◌==◌, arith, length, drop,
  some, ok, le_put, length-append, length-le_put, append_assoc, drop-append, read-append,
  load-le_put, lt→ltb, ge→ltb,
}
use bitcoin_clib.Varint.Codec.{varint_calc_size_bounds}
use bitcoin_clib.Varstr.{varstr_size, is_positive}
use bitcoin_clib.Varstr.Laws.{
  varstr_of, Fits, length-varstr_of, varint_get_exact, varstr_size-varstr_of, varstr_size_exact,
}
use bitcoin_clib.Varstr.Copies.{read_all}
use bitcoin_clib.Varstr.Create.{varstr_clone_lem}
use bitcoin_clib.Payload.{past_end, IsPlaced, bytes_eq}
use bitcoin_clib.Payload.Laws.{past_end_within}
use bitcoin_clib.Txin.{
  Outpoint, Txin, outpoint_bytes, load_outpoint, coinbase_outpoint, checked_clone,
  satoshi_txin_parse, satoshi_txin_size, satoshi_txin_serialize,
}

pub record IsValidOutpoint (o : Outpoint) : Type 0 where
  pub hash_size : length o.prev_hash ≡ 32
  pub index_fits : o.index < 2 ^ 32

-- The fields that a parse fills in agree with one another, and `d` is the script.
pub record IsValidTxin (txin : Txin) (d : List ℕ) : Type 0 where
  pub outpoint_valid : IsValidOutpoint txin.outpoint
  pub coinbase_flag :
      txin.is_coinbase ≡ bytes_eq (outpoint_bytes txin.outpoint) (outpoint_bytes coinbase_outpoint)
  pub script : txin.scripts ≡ some (varstr_of d)
  pub script_fits : Fits d
  pub script_length : txin.cb_scripts ≡ length d
  pub sequence_fits : txin.sequence < 2 ^ 32

pub length-outpoint_bytes : {o : Outpoint} → IsValidOutpoint o → length (outpoint_bytes o) ≡ 36
unfolding outpoint_bytes
length-outpoint_bytes {o} v =
    omega (arith, length-append o.prev_hash (le_put 4 o.index), length-le_put 4 o.index)

pub load_outpoint_lem :
    {o : Outpoint} (rest : List ℕ)
    → IsValidOutpoint o
    → load_outpoint (outpoint_bytes o ++ rest) ≡ ok o
unfolding load_outpoint outpoint_bytes
load_outpoint_lem {o} rest v = rw (
  append_assoc o.prev_hash (le_put 4 o.index) rest,
  read-append 32 o.prev_hash (le_put 4 o.index ++ rest) (sym v.hash_size),
  drop-append 32 o.prev_hash (le_put 4 o.index ++ rest) (sym v.hash_size),
  load-le_put 4 o.index rest v.index_fits,
)

pub checked_clone_lem :
    (d rest : List ℕ)
    → Fits d
    → checked_clone (varstr_of d ++ rest) (length (varstr_of d)) ≡ ok (varstr_of d)
unfolding checked_clone
checked_clone_lem d rest h =
    rw (varstr_clone_lem d rest h, varstr_size_exact d h) (rw (same (length (varstr_of d))))
  where
    same : (n : ℕ) → (n == n) ≡ true
    same n = ground arith

-- The bytes of an input on the wire: the outpoint, the script behind its length, the sequence.
unfoldable pub txin_wire : Txin → List ℕ → List ℕ
txin_wire txin d = outpoint_bytes txin.outpoint ++ (varstr_of d ++ le_put 4 txin.sequence)

-- `txin` as a parse of the input `t` leaves it.
abbrev pub parsed_over : Txin → Txin → Txin
parsed_over txin t = record txin {
  outpoint = t.outpoint;
  is_coinbase = t.is_coinbase;
  scripts = t.scripts;
  cb_scripts = t.cb_scripts;
  sequence = t.sequence;
}

module _ {t : Txin} {d : List ℕ} (v : IsValidTxin t d) where
  positive : is_positive (length (varstr_of d)) ≡ true
  positive = ground (arith, v.script_fits, length-varstr_of d, varint_calc_size_bounds (length d))

  pub length-txin_wire : length (txin_wire t d) ≡ 36 + length (varstr_of d) + 4
  unfolding txin_wire
  length-txin_wire = omega (
    arith,
    length-append (outpoint_bytes t.outpoint) (varstr_of d ++ le_put 4 t.sequence),
    length-append (varstr_of d) (le_put 4 t.sequence),
    length-le_put 4 t.sequence,
    length-outpoint_bytes v.outpoint_valid,
  )

  pub satoshi_txin_serialize_lem : satoshi_txin_serialize t ≡ ok (txin_wire t d)
  unfolding satoshi_txin_serialize txin_wire
  satoshi_txin_serialize_lem =
      rw (v.script, varstr_size_exact d v.script_fits, positive, read_all (varstr_of d))

  -- The size that `satoshi_txin_serialize` answers without a buffer is the number of bytes written.
  pub satoshi_txin_size_lem : satoshi_txin_size t ≡ ok (length (txin_wire t d))
  unfolding satoshi_txin_size
  satoshi_txin_size_lem =
      rw (length-txin_wire, v.script, varstr_size_exact d v.script_fits, positive)
        (ap ok
          (omega (arith, v.script_fits, length-varstr_of d, varint_calc_size_bounds (length d))))

  module _ (p_end : ℕ) (txin : Txin) (rest : List ℕ)
      (place : IsPlaced p_end (txin_wire t d ++ rest)) where
    after_outpoint : List ℕ
    after_outpoint = varstr_of d ++ (le_put 4 t.sequence ++ rest)

    regroup : txin_wire t d ++ rest ≡ outpoint_bytes t.outpoint ++ after_outpoint
    unfolding txin_wire after_outpoint
    regroup =
        append_assoc (outpoint_bytes t.outpoint) (varstr_of d ++ le_put 4 t.sequence) rest
        ∙ ap (λ r. outpoint_bytes t.outpoint ++ r)
            (append_assoc (varstr_of d) (le_put 4 t.sequence) rest)

    length-after_outpoint :
        length after_outpoint ≡ length (varstr_of d) + length (le_put 4 t.sequence ++ rest)
    unfolding after_outpoint
    length-after_outpoint = length-append (varstr_of d) (le_put 4 t.sequence ++ rest)

    length-tail : length (le_put 4 t.sequence ++ rest) ≡ 4 + length rest
    length-tail =
        omega (arith, length-append (le_put 4 t.sequence) rest, length-le_put 4 t.sequence)

    length-whole : length (outpoint_bytes t.outpoint ++ after_outpoint) ≡ 36 + length after_outpoint
    length-whole = omega (
      arith,
      length-append (outpoint_bytes t.outpoint) after_outpoint,
      length-outpoint_bytes v.outpoint_valid,
    )

    within : past_end p_end after_outpoint (length (varstr_of d)) ≡ false
    within =
        past_end_within p_end (length (varstr_of d)) after_outpoint
          (omega (arith, place, length-whole, ap length regroup), place.1)
          (omega (arith, length-after_outpoint))

    same_fields :
        record txin {
          outpoint = t.outpoint;
          is_coinbase = bytes_eq (outpoint_bytes t.outpoint) (outpoint_bytes coinbase_outpoint);
          scripts = some (varstr_of d);
          cb_scripts = length d;
          sequence = t.sequence;
        }
        ≡ parsed_over txin t
    same_fields = ground (arith, v.coinbase_flag, v.script, v.script_length)

    -- A valid input (outpoint and sequence in range, script stored behind its length, coinbase
    -- flag as the outpoint gives it) is parsed back by satoshi_txin_parse from its wire form,
    -- whatever follows in the payload; all bytes of that form are taken.
    pub satoshi_txin_parse_lem :
        satoshi_txin_parse p_end txin (txin_wire t d ++ rest)
        ≡ ok (parsed_over txin t, length (txin_wire t d))
    unfolding satoshi_txin_parse
    satoshi_txin_parse_lem = rw (
      regroup,
      lt→ltb 0 (length (outpoint_bytes t.outpoint ++ after_outpoint)) (omega (arith, length-whole)),
      ge→ltb (length (outpoint_bytes t.outpoint ++ after_outpoint)) 36
          (omega (arith, length-whole)),
      load_outpoint_lem after_outpoint v.outpoint_valid,
      drop-append 36 (outpoint_bytes t.outpoint) after_outpoint
          (sym (length-outpoint_bytes v.outpoint_valid)),
      size_here,
      within,
      clone_here,
      varint_get_exact d (omega (arith, v.script_fits)),
      drop_here,
      ge→ltb (length (le_put 4 t.sequence ++ rest)) 4 (omega (arith, length-tail)),
      load-le_put 4 t.sequence rest v.sequence_fits,
      same_fields,
      length-txin_wire,
    )
      where
        size_here : varstr_size after_outpoint ≡ ok (length (varstr_of d))
        size_here = unfold after_outpoint in varstr_size-varstr_of d _ v.script_fits

        clone_here : checked_clone after_outpoint (length (varstr_of d)) ≡ ok (varstr_of d)
        clone_here = unfold after_outpoint in checked_clone_lem d _ v.script_fits

        drop_here : drop (length (varstr_of d)) after_outpoint ≡ le_put 4 t.sequence ++ rest
        drop_here = unfold after_outpoint in drop-append _ (varstr_of d) _ refl
