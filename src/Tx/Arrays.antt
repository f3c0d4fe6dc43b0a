-- ===== src/Tx/Arrays.antt =====
-- The loops over the inputs and the outputs: what was serialized is parsed back.
use bitcoin_clib.Base.{
  ℕ, suc, ◌+◌, ◌<◌, ◌≡◌, refl, sym, List, [], ◌∷◌, ◌++◌, Bool, false, leb, arith, length, All, none,
  ok, ◌>>=◌, length-append, append_assoc, drop-append,
}
use bitcoin_clib.Varint.{IsU64, varint_bytes, varint_calc_size}
use bitcoin_clib.Varint.Codec.{
  length-varint_bytes, varint_calc_size_bounds, varint_get-varint_bytes, varint_size-varint_bytes,
}
use bitcoin_clib.Payload.{IsPlaced}
use bitcoin_clib.Payload.Laws.{past_end_within}
use bitcoin_clib.Txin.{Txin, txin_zero}
use bitcoin_clib.Txin.Laws.{
  IsValidTxin, txin_wire, parsed_over, length-txin_wire, satoshi_txin_parse_lem,
  satoshi_txin_serialize_lem,
}
use bitcoin_clib.Txout.{Txout, txout_zero}
use bitcoin_clib.Txout.Laws.{
  IsValidTxout, txout_wire, length-txout_wire, satoshi_txout_parse_lem, satoshi_txout_serialize_lem,
}
use bitcoin_clib.Tx.{serialize_txins, serialize_txouts}
use bitcoin_clib.Tx.Parse.{parse_varint, parse_txins, parse_txouts}

-- An input as a parse makes it: no redeem script yet.
pub record IsParsedTxin (t : Txin) : Type 0 where
  pub script : List ℕ
  pub valid : IsValidTxin t script
  pub not_p2sh : t.is_p2sh ≡ false
  pub no_redeem : t.redeem_scripts ≡ none
  pub no_start : t.redeem_scripts_start_pos ≡ 0

-- An output with a script that is not empty.
pub record IsParsedTxout (t : Txout) : Type 0 where
  pub op : ℕ
  pub script : List ℕ
  pub valid : IsValidTxout t op script

pub IsPlaced-append : (p_end : ℕ) (xs ys : List ℕ) → IsPlaced p_end (xs ++ ys) → IsPlaced p_end ys
IsPlaced-append p_end xs ys h = omega (arith, length-append xs ys)

pub positive_leb : (n : ℕ) → 0 < n → leb n 0 ≡ false
positive_leb n h = ground arith

same_txin : {t : Txin} → IsParsedTxin t → parsed_over txin_zero t ≡ t
same_txin v = ground (arith, v.not_p2sh, v.no_redeem, v.no_start)

module _ (p_end : ℕ) (calloc : ℕ → Bool) where
  pub parse_varint_lem :
      (v : ℕ) (rest : List ℕ)
      → IsU64 v
      → IsPlaced p_end (varint_bytes v ++ rest)
      → parse_varint p_end calloc (varint_bytes v ++ rest) ≡ ok (v, rest)
  unfolding parse_varint
  parse_varint_lem v rest h place =
      let long : length (varint_bytes v ++ rest) ≡ varint_calc_size v + length rest =
        omega (arith, length-append (varint_bytes v) rest, length-varint_bytes v) in
      let some_left : leb (length (varint_bytes v ++ rest)) 0 ≡ false =
        positive_leb (length (varint_bytes v ++ rest))
          (omega (arith, long, varint_calc_size_bounds v)) in
      rw (
        some_left,
        varint_size-varint_bytes v rest,
        past_end_within p_end (varint_calc_size v) (varint_bytes v ++ rest) place
            (omega (arith, long)),
        varint_get-varint_bytes v rest h,
        drop-append (varint_calc_size v) (varint_bytes v) rest (sym (length-varint_bytes v)),
      )

  -- One round of the loop, on the wire form of an element.
  parse_txins_step :
      {t : Txin} (v : IsParsedTxin t) (count : ℕ) (q : List ℕ)
      → IsPlaced p_end (txin_wire t v.script ++ q)
      → parse_txins p_end calloc (suc count) (txin_wire t v.script ++ q) ≡ (
          parse_txins p_end calloc count q >>= λ (ts, r).
          let p : List Txin × List ℕ = (t ∷ ts, r) in ok p)
  unfolding parse_txins
  parse_txins_step {t} v count q place =
      let w : List ℕ = txin_wire t v.script in
      let positive : 0 < length w = omega (arith, length-txin_wire v.valid) in
      rw (
        positive_leb (length (w ++ q)) (omega (arith, length-append w q)),
        satoshi_txin_parse_lem v.valid p_end txin_zero q place,
        same_txin v,
        positive_leb (length w) positive,
        drop-append (length w) w q refl,
      )

  pub parse_txins-serialize :
      (ts : List Txin)
      → All IsParsedTxin ts
      → (bs : List ℕ) × (serialize_txins ts ≡ ok bs)
        × ((rest : List ℕ)
            → IsPlaced p_end (bs ++ rest)
            → parse_txins p_end calloc (length ts) (bs ++ rest) ≡ ok (ts, rest))
  unfolding serialize_txins
  parse_txins-serialize [] h = ([], refl, λ rest place. unfold parse_txins in refl)
  parse_txins-serialize (t ∷ ts) (v, vs) =
      let (bs, e, back) = parse_txins-serialize ts vs in
      let w : List ℕ = txin_wire t v.script in
      (
        w ++ bs,
        rw (satoshi_txin_serialize_lem v.valid, e),
        λ rest place.
            let place' : IsPlaced p_end (w ++ (bs ++ rest)) = rw append_assoc at place in
            rw (
              append_assoc w bs rest,
              parse_txins_step v (length ts) (bs ++ rest) place',
              back rest (IsPlaced-append p_end w (bs ++ rest) place'),
            ),
      )

  -- One round of the loop, on the wire form of an element.
  parse_txouts_step :
      {t : Txout} (v : IsParsedTxout t) (count : ℕ) (q : List ℕ)
      → IsPlaced p_end (txout_wire t (v.op ∷ v.script) ++ q)
      → parse_txouts p_end calloc (suc count) (txout_wire t (v.op ∷ v.script) ++ q) ≡ (
          parse_txouts p_end calloc count q >>= λ (ts, r).
          let p : List Txout × List ℕ = (t ∷ ts, r) in ok p)
  unfolding parse_txouts
  parse_txouts_step {t} v count q place =
      let w : List ℕ = txout_wire t (v.op ∷ v.script) in
      let positive : 0 < length w = omega (arith, length-txout_wire v.valid) in
      rw (
        positive_leb (length (w ++ q)) (omega (arith, length-append w q)),
        satoshi_txout_parse_lem v.valid p_end txout_zero q place,
        positive_leb (length w) positive,
        drop-append (length w) w q refl,
      )

  pub parse_txouts-serialize :
      (ts : List Txout)
      → All IsParsedTxout ts
      → (bs : List ℕ) × (serialize_txouts ts ≡ ok bs)
        × ((rest : List ℕ)
            → IsPlaced p_end (bs ++ rest)
            → parse_txouts p_end calloc (length ts) (bs ++ rest) ≡ ok (ts, rest))
  unfolding serialize_txouts
  parse_txouts-serialize [] h = ([], refl, λ rest place. unfold parse_txouts in refl)
  parse_txouts-serialize (t ∷ ts) (v, vs) =
      let (bs, e, back) = parse_txouts-serialize ts vs in
      let w : List ℕ = txout_wire t (v.op ∷ v.script) in
      (
        w ++ bs,
        rw (satoshi_txout_serialize_lem v.valid, e),
        λ rest place.
            let place' : IsPlaced p_end (w ++ (bs ++ rest)) = rw append_assoc at place in
            rw (
              append_assoc w bs rest,
              parse_txouts_step v (length ts) (bs ++ rest) place',
              back rest (IsPlaced-append p_end w (bs ++ rest) place'),
            ),
      )
