-- ===== src/AutoBuffer/Stored.antt =====
-- The bytes of the allocation around those in use, after a store and after a read.
use bitcoin_clib.Base.{
  ℕ, ◌+◌, ◌≤◌, ◌≡◌, refl, sym, ap, ◌∙◌, List, ◌++◌, append_assoc, ◌==◌, if◌then◌else◌, arith,
  length, take, drop, drop_prefix, drop-take, drop-drop, take-append, length-take, length-drop,
  length-append, ok, Bool-cases, inl, inr, equal→eq,
}
use bitcoin_clib.Varstr.{write_at}
use bitcoin_clib.Varstr.Copies.{write_fits}

-- Bytes stored behind those in use are the next ones in use.
pub contents_stored :
    (start used n : ℕ) (bytes bs rest : List ℕ)
    → start + used ≤ length bytes
    → length bs ≡ n
    → take (used + n) (drop start (take (start + used) bytes ++ (bs ++ rest)))
      ≡ take used (drop start bytes) ++ bs
contents_stored start used n bytes bs rest inside size =
    let front = take used (drop start bytes) in
    let long : length front ≡ used =
      length-take used (drop start bytes) (omega (arith, inside, length-drop start bytes)) in
    ap (take (used + n)) (
      drop_prefix start (take (start + used) bytes) (bs ++ rest)
        (omega (arith, length-take (start + used) bytes inside))
      ∙ ap (λ l. l ++ (bs ++ rest)) (drop-take (start + used) start used bytes refl)
      ∙ sym (append_assoc front bs rest))
    ∙ take-append (used + n) (front ++ bs) rest (omega (arith, long, size, length-append front bs))

pub length_stored :
    (offset : ℕ) (bs xs : List ℕ)
    → offset + length bs ≤ length xs
    → length (take offset xs ++ (bs ++ drop (length bs) (drop offset xs))) ≡ length xs
length_stored offset bs xs h =
    let rest = drop (length bs) (drop offset xs) in
    omega (
      arith,
      length-append (take offset xs) (bs ++ rest),
      length-append bs rest,
      length-take offset xs (omega (arith, h)),
      length-drop (length bs) (drop offset xs),
      length-drop offset xs,
    )

pub write_at_fits :
    (offset : ℕ) (bs xs : List ℕ)
    → offset + length bs ≤ length xs
    → write_at offset bs xs ≡ ok (take offset xs ++ (bs ++ drop (length bs) (drop offset xs)))
unfolding write_at
write_at_fits offset bs xs h =
    rw (write_fits bs (drop offset xs) (omega (arith, h, length-drop offset xs))) refl

-- What is left after a pop; the start is reset when nothing is.
pub contents_left :
    (start used k left : ℕ) (bytes : List ℕ)
    → used ≡ k + left
    → take left (drop (if left == 0 then 0 else start + k) bytes)
      ≡ drop k (take used (drop start bytes))
contents_left start used k left bytes e = elim (Bool-cases (left == 0)) [
  | inl c ↦
      let empty : left ≡ 0 = equal→eq left 0 c in
      ap (λ n. take n (drop (if left == 0 then 0 else start + k) bytes)) empty
      ∙ sym (
          drop-take used k left (drop start bytes) e
          ∙ ap (λ n. take n (drop k (drop start bytes))) empty)
  | inr c ↦ rw c (
      sym (
        drop-take used k left (drop start bytes) e
        ∙ ap (take left) (drop-drop (start + k) start k bytes refl)))
]
