-- ===== src/CompactInt/Rounding.antt =====
-- What `uint256_to_compact` keeps of a number.
use bitcoin_clib.Base.{
  ℕ, ◌+◌, ◌-◌, ◌*◌, ◌^◌, ◌≤◌, ◌<◌, ◌≡◌, refl, sym, ap, ◌∙◌, ◌++◌, inl, inr, ◌==◌, arith, append-nil,
  mul_assoc, length, take, drop, take_sum, take_all, length-append, length-replicate, length-take,
  length-drop, All, replicate, le_get, le_get-append, le_get-lt, le_get_zeros, All-take, IsByte,
  Uint256, Bool-cases,
}
use bitcoin_clib.CompactInt.{
  CompactUint256, significant_bytes, mantissa_bytes, compact_of, uint256_to_compact,
  compact_to_uint256,
}
use bitcoin_clib.CompactInt.Value.{compact_to_uint256_lem}
use bitcoin_clib.CompactInt.Significant.{
  significant_bytes_lem, compact_of-exp, uint256_to_compact_cases,
}

mantissa_bytes_lem : (size : ℕ) → 3 ≤ size → size ≤ 29 → mantissa_bytes size (32 - size) ≡ 3
unfolding mantissa_bytes
mantissa_bytes_lem size low high = ground (arith, low, high)

-- The mantissa's three bytes are the highest of the first `size`.
compact_of_lem :
    (t : Uint256) (size : ℕ)
    → 3 ≤ size
    → size ≤ 29
    → compact_of t size ≡ record { mantissa = take 3 (drop (size - 3) t); exp = size }
unfolding compact_of
compact_of_lem t size low high =
    let back : 32 - (32 - size) ≡ size = omega (arith, high) in
    rw (back, mantissa_bytes_lem size low high)
      (ap (λ l. record { mantissa = l; exp = size }) (append-nil _))

-- A number whose bytes from `size` on are zero is rounded down by less than the last place.
compact_of_round :
    (t : Uint256) (size : ℕ)
    → 3 ≤ size
    → size ≤ 29
    → All IsByte t
    → length t ≡ 32
    → significant_bytes 32 t ≤ size
    → (le_get (compact_to_uint256 (compact_of t size)) ≤ le_get t)
      × (le_get t
          < le_get (compact_to_uint256 (compact_of t size)) + 256 ^ ((compact_of t size).exp - 3))
compact_of_round t size low high bytes long sig =
    let part = take 3 (drop (size - 3) t) in
    let below = take (size - 3) t in
    let c : CompactUint256 = record { mantissa = part; exp = size } in
    let short : length below ≡ size - 3 = length-take (size - 3) t (omega (arith, high, long)) in
    let three : length part ≡ 3 =
      length-take 3 (drop (size - 3) t)
        (omega (arith, high, long, low, length-drop (size - 3) t)) in
    let (value, _) = compact_to_uint256_lem c three low (omega (arith, high)) in
    let whole : le_get (take size t) ≡ le_get t =
      significant_bytes_lem 32 size t (omega (arith, long)) sig (omega (arith, high))
      ∙ ap le_get (take_all 32 t (sym long)) in
    let split : le_get (take size t) ≡ le_get below + 256 ^ (size - 3) * le_get part =
      ap le_get (take_sum size (size - 3) 3 t (omega (arith, low)))
      ∙ le_get-append (size - 3) below part (sym short) in
    let small : le_get below < 256 ^ (size - 3) =
      rw short at (le_get-lt below (All-take (size - 3) t bytes)) in
    rw (compact_of_lem t size low high)
      (omega (arith, value, whole, split), omega (arith, value, whole, split, small))

-- For a number of 32 bytes for which uint256_to_compact gives an exponent from 3 to 29, the
-- number that compact_to_uint256 makes of the result is at most the number, and smaller by less
-- than 256 ^ (exponent - 3), one unit of the mantissa's last place.
pub uint256_to_compact_lem :
    (t : Uint256)
    → All IsByte t
    → length t ≡ 32
    → 3 ≤ (uint256_to_compact t).exp
    → (uint256_to_compact t).exp ≤ 29
    → (le_get (compact_to_uint256 (uint256_to_compact t)) ≤ le_get t)
      × (le_get t
          < le_get (compact_to_uint256 (uint256_to_compact t))
            + 256 ^ ((uint256_to_compact t).exp - 3))
uint256_to_compact_lem t bytes long low high = elim (uint256_to_compact_cases t) [
  | inl e ↦ absurd (omega (arith, e, low))
  | inr (inl e) ↦ absurd (omega (arith, e, high))
  | inr (inr (size, e, sig, most, same)) ↦ rw e (
      compact_of_round t size (omega (arith, low, same)) (omega (arith, high, same)) bytes long sig)
]

mantissa_bytes_high :
    (size : ℕ) → 30 ≤ size → size ≤ 32 → mantissa_bytes size (32 - size) ≡ 32 - size
unfolding mantissa_bytes
mantissa_bytes_high size low high = ground (arith, low, high)

compact_of_high :
    (t : Uint256) (size : ℕ)
    → 30 ≤ size
    → size ≤ 32
    → compact_of t size ≡ record {
      mantissa = take (32 - size) (drop (size - (32 - size)) t) ++ replicate (3 - (32 - size)) 0;
      exp = size;
    }
unfolding compact_of
compact_of_high t size low high =
    let back : 32 - (32 - size) ≡ size = omega (arith, high) in
    rw (back, mantissa_bytes_high size low high) refl

-- A mantissa cut to its `n` highest bytes, and put at the low end: `k` is what that divides by.
compact_of_shrink :
    (t : Uint256) (size n k : ℕ)
    → 30 ≤ size
    → size ≤ 32
    → n ≡ 32 - size
    → length t ≡ 32
    → 256 ^ (size - n) ≡ k * 256 ^ (size - 3)
    → significant_bytes 32 t ≤ size
    → k * le_get (compact_to_uint256 (compact_of t size)) ≤ le_get t
compact_of_shrink t size n k low high en long place sig =
    let part = take n (drop (size - n) t) in
    let below = take (size - n) t in
    let c : CompactUint256 = record { mantissa = part ++ replicate (3 - n) 0; exp = size } in
    let same : compact_of t size ≡ c = rw en (compact_of_high t size low high) in
    let short : length below ≡ size - n = length-take (size - n) t (omega (arith, high, long)) in
    let few : length part ≡ n =
      length-take n (drop (size - n) t) (omega (arith, en, low, long, length-drop (size - n) t)) in
    let three : length (part ++ replicate (3 - n) 0) ≡ 3 = omega (
      arith,
      few,
      en,
      low,
      length-append part (replicate (3 - n) 0),
      length-replicate {A = ℕ} (3 - n) 0,
    ) in
    let (value, _) = compact_to_uint256_lem c three (omega (arith, low)) high in
    let whole : le_get (take size t) ≡ le_get t =
      significant_bytes_lem 32 size t (omega (arith, long)) sig high
      ∙ ap le_get (take_all 32 t (sym long)) in
    let split : le_get (take size t) ≡ le_get below + 256 ^ (size - n) * le_get part =
      ap le_get (take_sum size (size - n) n t (omega (arith, en, low)))
      ∙ le_get-append (size - n) below part (sym short) in
    let mantissa : le_get (part ++ replicate (3 - n) 0) ≡ le_get part =
      rw (le_get-append n part (replicate (3 - n) 0) (sym few), le_get_zeros (3 - n))
        (omega arith) in
    let moved : k * (256 ^ (size - 3) * le_get part) ≡ 256 ^ (size - n) * le_get part =
      rw place (sym (mul_assoc k (256 ^ (size - 3)) (le_get part))) in
    rw (same, value, mantissa, moved) (omega (arith, whole, split))

places_eq :
    (size : ℕ)
    → 30 ≤ size
    → size ≤ 32
    → 256 ^ (size - (32 - size)) ≡ 256 ^ (size - 29) * 256 ^ (size - 3)
places_eq size low high = elim (Bool-cases (size == 30)) [
  | inl e ↦ let same : size ≡ 30 = ground (arith, e) in rw same refl
  | inr e ↦ elim (Bool-cases (size == 31)) [
    | inl f ↦ let same : size ≡ 31 = ground (arith, f) in rw same refl
    | inr f ↦ let same : size ≡ 32 = ground arith in rw same refl
  ]
]

-- For a number of 32 bytes for which uint256_to_compact gives an exponent from 30 to 32, the
-- number that compact_to_uint256 makes of the result, times 256 ^ (exponent - 29), is at most the
-- number: it is too small by a factor of at least 256.
pub uint256_to_compact_shrink :
    (t : Uint256)
    → length t ≡ 32
    → 30 ≤ (uint256_to_compact t).exp
    → (uint256_to_compact t).exp ≤ 32
    → 256 ^ ((uint256_to_compact t).exp - 29) * le_get (compact_to_uint256 (uint256_to_compact t))
      ≤ le_get t
uint256_to_compact_shrink t long low high = elim (uint256_to_compact_cases t) [
  | inl e ↦ absurd (omega (arith, e, low))
  | inr (inl e) ↦ absurd (omega (arith, e, high))
  | inr (inr (size, e, sig, most, same)) ↦
      let at : 256 ^ ((compact_of t size).exp - 29) ≡ 256 ^ (size - 29) =
        ap (λ x. 256 ^ (x - 29)) (compact_of-exp t size most) in
      let least : 30 ≤ size = omega (arith, low, same) in
      rw e (
        rw at (
          compact_of_shrink t size (32 - size) (256 ^ (size - 29)) least most refl long
            (places_eq size least most) sig))
]
