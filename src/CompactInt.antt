-- ===== src/CompactInt.antt =====
-- src/compact_int.c: 256-bit targets, their compact form of a three-byte mantissa and an exponent, and
-- the comparisons. The arithmetic through GMP and floating point is not modelled.
pub mod Order
pub mod Value
pub mod Significant
pub mod Rounding
use bitcoin_clib.Base.{
  ℕ, zero, suc, ◌+◌, ◌-◌, ◌*◌, ◌/◌, ◌%◌, ◌≤◌, ◌<◌, List, [], ◌∷◌, ◌++◌, Bool, true, false, ◌&&◌,
  ltb, leb, ◌==◌, if◌then◌else◌, length, get_or, take, drop, replicate, le_get, Uint256,
  uint256_zero, ℤ, pos, negsuc, ◌⊖◌,
}

-- The union of `bits` and its bytes, the mantissa's three and the exponent.
pub record CompactUint256 : Type 0 where
  pub mantissa : List ℕ
  pub exp : ℕ

abbrev pub compact_uint256_nan : CompactUint256
compact_uint256_nan = record { mantissa = replicate 3 255; exp = 255 }

abbrev pub uint256_nan : Uint256
uint256_nan = replicate 32 255

-- The loop that drops the zeros at the high end: how many of the first `n` bytes it leaves.
unfoldable pub significant_bytes : ℕ → Uint256 → ℕ
significant_bytes zero target = 0
significant_bytes (suc n) target =
    let fewer = significant_bytes n target in if get_or target n 0 == 0 then fewer else suc n

-- `b & 0x80`
abbrev pub has_sign_bit : ℕ → Bool
has_sign_bit b = b / 128 % 2 == 1

-- `num_bytes` of the two tests that limit it.
unfoldable pub mantissa_bytes : ℕ → ℕ → ℕ
mantissa_bytes exp num_zeros =
    let num_bytes : ℕ = if leb 32 (exp + 3) then 32 - exp else 3 in
    if leb 32 (num_zeros + num_bytes) then 32 - num_zeros else num_bytes

-- From the number of bytes left, `p_end - target`.
unfoldable pub compact_of : Uint256 → ℕ → CompactUint256
compact_of target size =
    let num_zeros = 32 - size in
    let exp = 32 - num_zeros in
    let num_bytes = mantissa_bytes exp num_zeros in
    record {
      mantissa = take num_bytes (drop (size - num_bytes) target) ++ replicate (3 - num_bytes) 0;
      exp = exp;
    }

unfoldable pub uint256_to_compact : Uint256 → CompactUint256
uint256_to_compact target =
    let size = significant_bytes 32 target in
    if size == 0
    then record { mantissa = replicate 3 0; exp = 0 }
    else if has_sign_bit (get_or target (size - 1) 0)
    then (if size == 32 then compact_uint256_nan else compact_of target (size + 1))
    else compact_of target size

unfoldable pub compact_to_uint256 : CompactUint256 → Uint256
compact_to_uint256 cint =
    if ltb 32 cint.exp
    then uint256_nan
    else (let num_zeros = 32 - cint.exp in
        let at_most : ℕ = if ltb cint.exp 3 then cint.exp else 3 in
        let num_bytes : ℕ = if leb 32 (num_zeros + at_most) then 32 - num_zeros else at_most in
        take (cint.exp - num_bytes) uint256_zero
        ++ (take num_bytes cint.mantissa ++ drop cint.exp uint256_zero))

-- The mantissa and the exponent without a zero that was put in front; the exponent is kept one
-- higher, since it may be -1.
unfoldable pub compact_parts : CompactUint256 → ℕ × ℕ
compact_parts a =
    if (get_or a.mantissa 2 0 == 0) && has_sign_bit (get_or a.mantissa 1 0)
    then (le_get a.mantissa * 256, a.exp)
    else (le_get a.mantissa, a.exp + 1)

unfoldable pub compact_uint256_compare : CompactUint256 → CompactUint256 → ℤ
compact_uint256_compare a b =
    let (value_a, exp_a) = compact_parts a in
    let (value_b, exp_b) = compact_parts b in
    if exp_a == exp_b then value_a ⊖ value_b else exp_a ⊖ exp_b

-- The loop over the 64-bit words below index `n`, the highest first.
unfoldable pub compare_words : ℕ → Uint256 → Uint256 → ℤ
compare_words zero a b = pos 0
compare_words (suc i) a b =
    let x = le_get (take 8 (drop (i * 8) a)) in
    let y = le_get (take 8 (drop (i * 8) b)) in
    let lower = compare_words i a b in if x == y then lower else if ltb y x then pos 1 else negsuc 0

unfoldable pub uint256_compare : Uint256 → Uint256 → ℤ
uint256_compare a b = compare_words 4 a b

unfoldable pub uint256_compare_with_compact : Uint256 → CompactUint256 → ℤ
uint256_compare_with_compact hash target = uint256_compare hash (compact_to_uint256 target)
