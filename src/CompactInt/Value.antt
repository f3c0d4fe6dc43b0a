-- ===== src/CompactInt/Value.antt =====
-- The compact form against the number that it stands for, mantissa * 256 ^ (exp - 3).
use bitcoin_clib.Base.{
  ℕ, zero, suc, ◌+◌, ◌-◌, ◌*◌, ◌^◌, ◌≤◌, ◌≡◌, refl, sym, List, ◌++◌, false, inl, inr, ltb, leb,
  if◌then◌else◌, arith, length, take, drop, take_all, length-append, length-take, length-drop, All,
  replicate, le_get, le_get-append, le_get_zeros, All-take, All-drop, IsByte, uint256_zero,
  Bool-cases, All-append,
}
use bitcoin_clib.CompactInt.{CompactUint256, compact_to_uint256}

le_get-take_zeros : (n m : ℕ) → le_get (take n (replicate m 0)) ≡ 0
unfolding le_get
le_get-take_zeros zero m = refl
le_get-take_zeros (suc n) zero = refl
le_get-take_zeros (suc n) (suc m) = omega (arith, le_get-take_zeros n m)

le_get-drop_zeros : (n m : ℕ) → le_get (drop n (replicate m 0)) ≡ 0
unfolding le_get
le_get-drop_zeros zero m = le_get_zeros m
le_get-drop_zeros (suc n) zero = refl
le_get-drop_zeros (suc n) (suc m) = le_get-drop_zeros n m

-- For a compact number with a mantissa of three bytes and an exponent from 3 to 32,
-- compact_to_uint256 gives 32 bytes that stand for mantissa * 256 ^ (exponent - 3).
pub compact_to_uint256_lem :
    (c : CompactUint256)
    → length c.mantissa ≡ 3
    → 3 ≤ c.exp
    → c.exp ≤ 32
    → (le_get (compact_to_uint256 c) ≡ 256 ^ (c.exp - 3) * le_get c.mantissa)
      × (length (compact_to_uint256 c) ≡ 32)
unfolding compact_to_uint256
compact_to_uint256_lem c three low high =
    let low_zeros = take (c.exp - 3) uint256_zero in
    let high_zeros = drop c.exp uint256_zero in
    let c1 : ltb 32 c.exp ≡ false = ground (arith, high) in
    let c2 : ltb c.exp 3 ≡ false = ground (arith, low) in
    let same : (if leb 32 (32 - c.exp + 3) then 32 - (32 - c.exp) else 3) ≡ 3 =
      ground (arith, low, high) in
    let long = length-take (c.exp - 3) uint256_zero (omega (arith, high)) in
    let value = le_get-append (c.exp - 3) low_zeros (c.mantissa ++ high_zeros) (sym long) in
    let upper = le_get-append 3 c.mantissa high_zeros (sym three) in
    rw (c1, c2, same, take_all 3 c.mantissa (sym three))
      (
        rw (value, upper, le_get-take_zeros (c.exp - 3) 32, le_get-drop_zeros c.exp 32)
            (omega arith),
        omega (
          arith,
          long,
          three,
          length-drop c.exp uint256_zero,
          length-append low_zeros (c.mantissa ++ high_zeros),
          length-append c.mantissa high_zeros,
        ),
      )

placed_length :
    (n exp : ℕ) (mantissa : List ℕ)
    → n ≤ exp
    → n ≤ length mantissa
    → exp ≤ 32
    → length (take (exp - n) uint256_zero ++ (take n mantissa ++ drop exp uint256_zero)) ≡ 32
placed_length n exp mantissa low fits high = omega (
  arith,
  length-append (take (exp - n) uint256_zero) (take n mantissa ++ drop exp uint256_zero),
  length-append (take n mantissa) (drop exp uint256_zero),
  length-take (exp - n) uint256_zero (omega (arith, high)),
  length-take n mantissa fits,
  length-drop exp uint256_zero,
)

-- Whatever the exponent, 32 bytes come out.
pub length-compact_to_uint256 :
    (c : CompactUint256) → length c.mantissa ≡ 3 → length (compact_to_uint256 c) ≡ 32
unfolding compact_to_uint256
length-compact_to_uint256 c three =
    let at_most : ℕ = if ltb c.exp 3 then c.exp else 3 in
    let n : ℕ = if leb 32 (32 - c.exp + at_most) then 32 - (32 - c.exp) else at_most in
    elim (Bool-cases (ltb 32 c.exp)) [
      | inl e ↦ rw e refl
      | inr e ↦
          let high : c.exp ≤ 32 = ground (arith, e) in
          let low : n ≤ c.exp = ground (arith, high) in
          let few : n ≤ 3 = ground (arith, high) in
          rw e (placed_length n c.exp c.mantissa low (omega (arith, few, three)) high)
    ]

zeros-IsByte : (n : ℕ) → All IsByte (replicate n 0)
zeros-IsByte zero = tt
zeros-IsByte (suc n) = (omega arith, zeros-IsByte n)

ones-IsByte : (n : ℕ) → All IsByte (replicate n 255)
ones-IsByte zero = tt
ones-IsByte (suc n) = (omega arith, ones-IsByte n)

pub compact_to_uint256-IsByte :
    (c : CompactUint256) → All IsByte c.mantissa → All IsByte (compact_to_uint256 c)
unfolding compact_to_uint256
compact_to_uint256-IsByte c bytes =
    let at_most : ℕ = if ltb c.exp 3 then c.exp else 3 in
    let n : ℕ = if leb 32 (32 - c.exp + at_most) then 32 - (32 - c.exp) else at_most in
    elim (Bool-cases (ltb 32 c.exp)) [
      | inl e ↦ rw e (ones-IsByte 32)
      | inr e ↦ rw e (
          All-append IsByte (take (c.exp - n) uint256_zero)
            (take n c.mantissa ++ drop c.exp uint256_zero)
            (All-take (c.exp - n) uint256_zero (zeros-IsByte 32))
            (All-append IsByte (take n c.mantissa) (drop c.exp uint256_zero)
              (All-take n c.mantissa bytes) (All-drop c.exp uint256_zero (zeros-IsByte 32))))
    ]
