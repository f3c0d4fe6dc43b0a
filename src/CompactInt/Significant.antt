-- ===== src/CompactInt/Significant.antt =====
-- The bytes of a number that are not zero, and what `uint256_to_compact` makes from them.
use bitcoin_clib.Base.{
  ℕ, zero, suc, ◌+◌, ◌-◌, ◌≤◌, ◌≡◌, refl, sym, ap, ◌∙◌, List, [], ◌∷◌, ◌++◌, ◌⊎◌, inl, inr, leb,
  ◌==◌, arith, length, get_or, take, take_next, length-take, le_get, le_get-append, Uint256,
  Bool-cases,
}
use bitcoin_clib.CompactInt.{significant_bytes, has_sign_bit, compact_of, uint256_to_compact}

zero_top : (n : ℕ) (xs : List ℕ) (b : ℕ) → length xs ≡ n → b ≡ 0 → le_get (xs ++ b ∷ []) ≡ le_get xs
unfolding le_get
zero_top n xs b long zero_b = rw zero_b (omega (arith, le_get-append n xs (0 ∷ []) (sym long)))

-- Reading as far as the last byte that is not zero reads the whole number.
pub significant_bytes_lem :
    (n m : ℕ) (t : Uint256)
    → n ≤ length t
    → significant_bytes n t ≤ m
    → m ≤ n
    → le_get (take m t) ≡ le_get (take n t)
unfolding significant_bytes
significant_bytes_lem zero m t long low high =
    let same : m ≡ 0 = omega (arith, high) in ap (λ k. le_get (take k t)) same
significant_bytes_lem (suc n) m t long low high = elim (Bool-cases (get_or t n 0 == 0)) [
  | inl e ↦
      let fewer = rw e at low in
      let top : get_or t n 0 ≡ 0 = ground (arith, e) in
      let shorter : le_get (take (suc n) t) ≡ le_get (take n t) =
        rw (take_next n t 0 long)
          (zero_top n (take n t) (get_or t n 0) (length-take n t (omega arith)) top) in
      elim (Bool-cases (leb m n)) [
        | inl within ↦ significant_bytes_lem n m t (omega arith) fewer (ground arith) ∙ sym shorter
        | inr all ↦ let same : m ≡ suc n = ground arith in ap (λ k. le_get (take k t)) same
      ]
  | inr e ↦
      let more = rw e at low in
      let same : m ≡ suc n = omega (arith, more, high) in ap (λ k. le_get (take k t)) same
]

pub significant_bytes_le : (n : ℕ) (t : Uint256) → significant_bytes n t ≤ n
unfolding significant_bytes
significant_bytes_le zero t = omega arith
significant_bytes_le (suc n) t = ground (arith, significant_bytes_le n t)

pub compact_of-exp : (t : Uint256) (size : ℕ) → size ≤ 32 → (compact_of t size).exp ≡ size
unfolding compact_of
compact_of-exp t size high = omega (arith, high)

-- Every result is zero, not a number, or made from the bytes that are not zero and at most one more.
pub uint256_to_compact_cases :
    (t : Uint256)
    → ((uint256_to_compact t).exp ≡ 0)
      ⊎ ((uint256_to_compact t).exp ≡ 255)
      ⊎ ((size : ℕ) × (uint256_to_compact t ≡ compact_of t size)
          × (significant_bytes 32 t ≤ size)
          × (size ≤ 32)
          × ((uint256_to_compact t).exp ≡ size))
unfolding uint256_to_compact
uint256_to_compact_cases t =
    let size = significant_bytes 32 t in
    let most = significant_bytes_le 32 t in
    elim (Bool-cases (size == 0)) [
      | inl e ↦ inl (rw e refl)
      | inr e ↦ elim (Bool-cases (has_sign_bit (get_or t (size - 1) 0))) [
        | inl s ↦ elim (Bool-cases (size == 32)) [
          | inl f ↦ inr (inl (rw (e, s, f) refl))
          | inr f ↦
              let fits : size + 1 ≤ 32 = ground arith in
              inr (
                inr (
                  size + 1,
                  rw (e, s, f) refl,
                  omega arith,
                  fits,
                  rw (e, s, f) (compact_of-exp t (size + 1) fits),
                ))
        ]
        | inr s ↦
            inr (
              inr (size, rw (e, s) refl, omega arith, most, rw (e, s) (compact_of-exp t size most)))
      ]
    ]
