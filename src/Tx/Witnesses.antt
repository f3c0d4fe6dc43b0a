-- ===== src/Tx/Witnesses.antt =====
-- The witness section: what was serialized is parsed back.
use bitcoin_clib.Base.{
  ℕ, zero, suc, ◌+◌, ◌^◌, ◌≤◌, ◌<◌, ◌≡◌, refl, ◌∙◌, List, [], ◌∷◌, ◌++◌, Bool, true, arith, length,
  All, some, ok, ok-injective, ◌>>=◌, length-append, append_assoc, drop-append,
}
use bitcoin_clib.Varint.{varint_bytes}
use bitcoin_clib.Varint.Codec.{length-varint_bytes, varint_calc_size_bounds}
use bitcoin_clib.Varstr.{is_positive, varstr_size}
use bitcoin_clib.Varstr.Copies.{read_all}
use bitcoin_clib.Varstr.Laws.{
  varstr_of, Fits, length-varstr_of, varstr_size-varstr_of, varstr_size_exact,
}
use bitcoin_clib.Varstr.Create.{varstr_clone_lem}
use bitcoin_clib.Payload.{IsPlaced}
use bitcoin_clib.Payload.Laws.{past_end_within}
use bitcoin_clib.Tx.{Witness, serialize_items, serialize_witnesses}
use bitcoin_clib.Tx.Parse.{parse_varstr, parse_items, parse_witness, parse_witnesses}
use bitcoin_clib.Tx.Arrays.{IsPlaced-append, positive_leb, parse_varint_lem}

-- A stored string.
pub record IsItem (item : List ℕ) : Type 0 where
  pub text : List ℕ
  pub fits : Fits text
  pub stored : item ≡ varstr_of text

-- The count is right, and there is memory for the items.
pub record IsValidWitness (calloc : ℕ → Bool) (w : Witness) : Type 0 where
  pub counted : w.num_items ≡ length w.items
  pub count_fits : w.num_items < 2 ^ 63
  pub granted : calloc w.num_items ≡ true
  pub stored : All IsItem w.items

head : (n : ℕ) (q : List ℕ) → length q + 1 ≤ length (varint_bytes n ++ q)
head n q =
    omega
      (arith, length-append (varint_bytes n) q, length-varint_bytes n, varint_calc_size_bounds n)

module _ (p_end : ℕ) (calloc : ℕ → Bool) where
  pub parse_varstr_lem :
      (d rest : List ℕ)
      → Fits d
      → IsPlaced p_end (varstr_of d ++ rest)
      → parse_varstr p_end calloc (varstr_of d ++ rest) ≡ ok (some (varstr_of d), rest)
  unfolding parse_varstr
  parse_varstr_lem d rest h place =
      let long : length (varstr_of d ++ rest) ≡ length (varstr_of d) + length rest =
        length-append (varstr_of d) rest in
      let positive : 0 < length (varstr_of d) =
        omega (arith, length-varstr_of d, varint_calc_size_bounds (length d)) in
      rw (
        positive_leb (length (varstr_of d ++ rest)) (omega (arith, long)),
        varstr_size-varstr_of d rest h,
        past_end_within p_end (length (varstr_of d)) (varstr_of d ++ rest) place
            (omega (arith, long)),
        varstr_clone_lem d rest h,
        drop-append (length (varstr_of d)) (varstr_of d) rest refl,
      )

  parse_items_step :
      {item : List ℕ} (v : IsItem item) (count : ℕ) (q : List ℕ)
      → IsPlaced p_end (item ++ q)
      → parse_items p_end calloc (suc count) (item ++ q) ≡ (
          parse_items p_end calloc count q >>= λ (items, r).
          let p : List (List ℕ) × List ℕ = (item ∷ items, r) in ok p)
  unfolding parse_items
  parse_items_step v count q place =
      let place' : IsPlaced p_end (varstr_of v.text ++ q) = rw v.stored at place in
      let positive : 0 < length (varstr_of v.text ++ q) = omega (
        arith,
        length-varstr_of v.text,
        varint_calc_size_bounds (length v.text),
        length-append (varstr_of v.text) q,
      ) in
      rw (v.stored, positive_leb (length (varstr_of v.text ++ q)) positive)
        (rw (parse_varstr_lem v.text q v.fits place'))

  parse_items-serialize :
      (items : List (List ℕ))
      → All IsItem items
      → (bs : List ℕ) × (serialize_items (length items) items ≡ ok bs)
        × ((rest : List ℕ)
            → IsPlaced p_end (bs ++ rest)
            → parse_items p_end calloc (length items) (bs ++ rest) ≡ ok (items, rest))
  unfolding serialize_items
  parse_items-serialize [] h = ([], refl, λ rest place. unfold parse_items in refl)
  parse_items-serialize (item ∷ items) (v, vs) =
      let (bs, e, back) = parse_items-serialize items vs in
      let size : varstr_size item ≡ ok (length item) =
        rw v.stored (varstr_size_exact v.text v.fits) in
      (
        item ++ bs,
        rw (size, read_all item, e),
        λ rest place.
            let place' : IsPlaced p_end (item ++ (bs ++ rest)) = rw append_assoc at place in
            rw (
              append_assoc item bs rest,
              parse_items_step v (length items) (bs ++ rest) place',
              back rest (IsPlaced-append p_end item (bs ++ rest) place'),
            ),
      )

  parse_witness_lem :
      (n : ℕ) (items : List (List ℕ)) (bs rest : List ℕ)
      → n ≡ length items
      → n < 2 ^ 63
      → calloc n ≡ true
      → serialize_items n items ≡ ok bs
      → parse_items p_end calloc n (bs ++ rest) ≡ ok (items, rest)
      → IsPlaced p_end (varint_bytes n ++ (bs ++ rest))
      → parse_witness p_end calloc (varint_bytes n ++ (bs ++ rest))
        ≡ ok (record { num_items = n; items = items }, rest)
  unfolding parse_witness
  parse_witness_lem zero [] bs rest c f g e back place =
      let none_written : [] ≡ bs = ok-injective (unfold serialize_items in e) in
      rw (
        positive_leb (length (varint_bytes 0 ++ (bs ++ rest))) (omega (arith, head 0 (bs ++ rest))),
        parse_varint_lem p_end calloc 0 (bs ++ rest) (omega arith) place,
        ← none_written,
      )
  parse_witness_lem zero (x ∷ items) bs rest c f g e back place = absurd (omega arith)
  parse_witness_lem (suc n) items bs rest c f g e back place =
      let positive : is_positive (suc n) ≡ true = ground arith in
      rw (
        positive_leb (length (varint_bytes (suc n) ++ (bs ++ rest)))
            (omega (arith, head (suc n) (bs ++ rest))),
        parse_varint_lem p_end calloc (suc n) (bs ++ rest) (omega arith) place,
        positive,
        g,
        back,
      )

  parse_witnesses_step :
      (w : Witness) (count : ℕ) (p q : List ℕ)
      → parse_witness p_end calloc (varint_bytes w.num_items ++ p) ≡ ok (w, q)
      → parse_witnesses p_end calloc (suc count) (varint_bytes w.num_items ++ p) ≡ (
          parse_witnesses p_end calloc count q >>= λ (ws, r).
          let p : List Witness × List ℕ = (w ∷ ws, r) in ok p)
  unfolding parse_witnesses
  parse_witnesses_step w count p q e = rw e

  -- All witnesses of a transaction, and something is written for each.
  pub parse_witnesses-serialize :
      (ws : List Witness)
      → All (IsValidWitness calloc) ws
      → (bs : List ℕ) × (serialize_witnesses ws ≡ ok bs)
        × (length ws ≤ length bs)
        × ((rest : List ℕ)
            → IsPlaced p_end (bs ++ rest)
            → parse_witnesses p_end calloc (length ws) (bs ++ rest) ≡ ok (ws, rest))
  unfolding serialize_witnesses
  parse_witnesses-serialize [] h =
      ([], refl, omega arith, λ rest place. unfold parse_witnesses in refl)
  parse_witnesses-serialize (w ∷ ws) (v, vs) =
      let (bs, e, long, back) = parse_witnesses-serialize ws vs in
      let (is, f, back_items) = parse_items-serialize w.items v.stored in
      let f' : serialize_items w.num_items w.items ≡ ok is = rw v.counted f in
      (
        varint_bytes w.num_items ++ (is ++ bs),
        rw (f', e),
        omega (arith, head w.num_items (is ++ bs), length-append is bs),
        λ rest place.
            let place' : IsPlaced p_end (varint_bytes w.num_items ++ (is ++ (bs ++ rest))) =
              rw (append_assoc, append_assoc is bs rest) at place in
            let place_items =
              IsPlaced-append p_end (varint_bytes w.num_items) (is ++ (bs ++ rest)) place' in
            let parsed : parse_items p_end calloc w.num_items (is ++ (bs ++ rest))
                ≡ ok (w.items, bs ++ rest) =
              rw v.counted (back_items (bs ++ rest) place_items) in
            rw (append_assoc (varint_bytes w.num_items) (is ++ bs) rest, append_assoc is bs rest)
              (parse_witnesses_step w (length ws) (is ++ (bs ++ rest)) (bs ++ rest) (
                  parse_witness_lem w.num_items w.items is (bs ++ rest) v.counted v.count_fits
                    v.granted f' parsed place')
                ∙ rw (back rest (IsPlaced-append p_end is (bs ++ rest) place_items))),
      )
