-- ===== src/Varstr/Resize.antt =====
-- `varstr_resize`: what is kept and what is zero.
use bitcoin_clib.Base.{
  inl, inr, le→leb, Bool-cases, ℕ, zero, suc, ◌+◌, ◌-◌, ◌^◌, ◌≤◌, ◌<◌, ◌≡◌, refl, sym, ap, ◌∙◌,
  List, [], ◌∷◌, ◌++◌, true, false, arith, ltb, lt→ltb, ge→ltb, ◌==◌, if◌then◌else◌, length, take,
  replicate, length-append, length-take, length-replicate, append-nil, some, ok, read,
}
use bitcoin_clib.Varint.{varint_calc_size, varint_bytes}
use bitcoin_clib.Varint.Codec.{length-varint_bytes, varint_size-varint_bytes}
use bitcoin_clib.Varstr.{copy_data, varstr_resize}
use bitcoin_clib.Varstr.Copies.{drop-replicate, write_at-front}
use bitcoin_clib.Varstr.Laws.{varstr_of, Fits, varstr_getdata_ptr_exact, varint_get_exact}
use bitcoin_clib.Varstr.Create.{varstr_new-none}

copy_data_lem :
    (d : List ℕ) (n len : ℕ)
    → len ≤ length d
    → len ≤ n
    → copy_data (varstr_of d) (varint_bytes n ++ replicate n 0) len
      ≡ ok (varint_bytes n ++ (take len d ++ replicate (n - len) 0))
unfolding copy_data
copy_data_lem d n len hd hn = rw (
  varstr_getdata_ptr_exact d,
  varint_size-varint_bytes n (replicate n 0),
  read_front len d hd,
  write_at-front (varint_calc_size n) (take len d) (varint_bytes n) (replicate n 0)
      (sym (length-varint_bytes n))
      (omega (arith, length-replicate {A = ℕ} n 0, length-take len d hd)),
  length-take len d hd,
  drop-replicate len (n - len) n (omega arith),
)
  where
    read_front : (k : ℕ) (xs : List ℕ) → k ≤ length xs → read k xs ≡ ok (take k xs)
    read_front k xs h = unfold read in rw (le→leb k _ h)

take_min : (n : ℕ) (d : List ℕ) → length d ≤ n → take n d ≡ d
take_min zero [] h = refl
take_min zero (x ∷ d) h = absurd (omega arith)
take_min (suc n) [] h = refl
take_min (suc n) (x ∷ d) h = ap (λ r. x ∷ r) (take_min n d (omega arith))

length-resized : (d : List ℕ) (n : ℕ) → length (take n d ++ replicate (n - length d) 0) ≡ n
length-resized d n = omega (
  arith,
  length-append (take n d) (replicate (n - length d) 0),
  length-replicate {A = ℕ} (n - length d) 0,
  length_front n d,
)
  where
    length_front : (k : ℕ) (xs : List ℕ) → length (take k xs) + (k - length xs) ≡ k
    length_front zero xs = omega arith
    length_front (suc k) [] = omega arith
    length_front (suc k) (x ∷ xs) = omega (arith, length_front k xs)

-- Each of the three ways of `varstr_resize` leaves the same object.
resized_body :
    (d : List ℕ) (n : ℕ)
    → (if ltb 0 (if ltb (length d) n then length d else n)
        then copy_data
            (varstr_of d)
            (varint_bytes n ++ replicate n 0)
            (if ltb (length d) n then length d else n)
        else ok (varint_bytes n ++ replicate n 0))
      ≡ ok (varint_bytes n ++ (take n d ++ replicate (n - length d) 0))
resized_body [] zero = refl
resized_body [] (suc n) =
    let all_left : suc n - 0 ≡ suc n = omega arith in rw (lt→ltb 0 (suc n) (omega arith), all_left)
resized_body (x ∷ d) zero =
    let all_gone : 0 - length (x ∷ d) ≡ 0 = omega arith in
    rw (ge→ltb (length (x ∷ d)) 0 (omega arith), all_gone)
resized_body (x ∷ d) (suc n) = elim (Bool-cases (ltb (length (x ∷ d)) (suc n))) [
  | inl grow ↦
      rw (grow, lt→ltb 0 (length (x ∷ d)) (omega arith))
        (copy_data_lem (x ∷ d) (suc n) (length (x ∷ d)) (omega arith) (grow_le grow)
          ∙ ap (λ t. ok (varint_bytes (suc n) ++ (t ++ replicate (suc n - length (x ∷ d)) 0)))
              (take_min (length (x ∷ d)) (x ∷ d) (omega arith)
                ∙ sym (take_min (suc n) (x ∷ d) (grow_le grow))))
  | inr shrink ↦
      rw (shrink, lt→ltb 0 (suc n) (omega arith))
        (copy_data_lem (x ∷ d) (suc n) (suc n) (shrink_le shrink) (omega arith)
          ∙ ap (λ k. ok (varint_bytes (suc n) ++ (take (suc n) (x ∷ d) ++ replicate {A = ℕ} k 0)))
              (omega (arith, shrink_le shrink)))
]
  where
    grow_le : ltb (length (x ∷ d)) (suc n) ≡ true → length (x ∷ d) ≤ suc n
    grow_le h = ground arith

    shrink_le : ltb (length (x ∷ d)) (suc n) ≡ false → suc n ≤ length (x ∷ d)
    shrink_le h = ground arith

-- For lengths below 2 ^ 63 - 9, varstr_resize of a stored string gives the stored form of the
-- string's front, filled up with zeros to the new length.
pub varstr_resize_lem :
    (d : List ℕ) (n : ℕ)
    → Fits d
    → n + 9 < 2 ^ 63
    → varstr_resize (some (varstr_of d)) n ≡ ok (varstr_of (take n d ++ replicate (n - length d) 0))
unfolding varstr_resize
varstr_resize_lem d n h k =
    rw (varint_get_exact d (omega arith), varstr_new-none n k, whole)
      (elim (Bool-cases (length d == n)) [
        | inl same ↦ rw same (unchanged (ground arith))
        | inr other ↦ rw other (resized_body d n)
      ])
  where
    whole :
        varstr_of (take n d ++ replicate (n - length d) 0)
        ≡ varint_bytes n ++ (take n d ++ replicate (n - length d) 0)
    whole =
        unfold varstr_of in
        ap (λ k. varint_bytes k ++ (take n d ++ replicate (n - length d) 0)) (length-resized d n)

    unchanged :
        length d ≡ n
        → ok (varstr_of d) ≡ ok (varint_bytes n ++ (take n d ++ replicate (n - length d) 0))
    unchanged e =
        let none_left : length d - length d ≡ 0 = omega arith in
        rw (← e, take_min (length d) d (omega arith), none_left)
          (unfold varstr_of in ap (λ t. ok (varint_bytes (length d) ++ t)) (sym (append-nil d)))
