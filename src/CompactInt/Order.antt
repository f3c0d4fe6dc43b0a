-- ===== src/CompactInt/Order.antt =====
-- The comparisons of src/compact_int.c against the order of the numbers that the bytes stand for.
use bitcoin_clib.Base.{
  ℕ, zero, suc, ◌+◌, ◌*◌, ◌^◌, ◌≤◌, ◌<◌, ◌≡◌, refl, sym, ap, ◌∙◌, ltb, ◌==◌, if◌then◌else◌, arith,
  mul-le-mul_left, mul-suc, take_sum, take_all, length, take, drop, length-take, All, le_get,
  le_get-append, le_get-lt, All-take, IsByte, Uint256, ℤ, pos, negsuc,
}
use bitcoin_clib.CompactInt.{compare_words, uint256_compare}

-- -1, 0 or 1 by the order of two numbers.
unfoldable pub order : ℕ → ℕ → ℤ
order x y = if x == y then pos 0 else if ltb y x then pos 1 else negsuc 0

order_step : (base xl yl xh yh : ℕ) → xl < base → xh < yh → xl + base * xh < yl + base * yh
order_step base xl yl xh yh hx h = omega (arith, hx, mul-le-mul_left base h, mul-suc base xh)

order_word :
    (base xl yl xh yh : ℕ)
    → xl < base
    → yl < base
    → (if xh == yh then order xl yl else if ltb yh xh then pos 1 else negsuc 0)
      ≡ order (xl + base * xh) (yl + base * yh)
unfolding order
order_word base xl yl xh yh hx hy =
    ground (arith, order_step base xl yl xh yh hx, order_step base yl xl yh xh hy)

take_word_split :
    (i : ℕ) (a : Uint256)
    → suc i * 8 ≤ length a
    → le_get (take (suc i * 8) a)
      ≡ le_get (take (i * 8) a) + 256 ^ (i * 8) * le_get (take 8 (drop (i * 8) a))
take_word_split i a h =
    ap le_get (take_sum (suc i * 8) (i * 8) 8 a (omega arith))
    ∙ le_get-append (i * 8) (take (i * 8) a) (take 8 (drop (i * 8) a))
        (sym (length-take (i * 8) a (omega (arith, h))))

low_words-lt :
    (i : ℕ) (a : Uint256)
    → All IsByte a
    → suc i * 8 ≤ length a
    → le_get (take (i * 8) a) < 256 ^ (i * 8)
low_words-lt i a ha h =
    rw (length-take (i * 8) a (omega (arith, h))) at
      (le_get-lt (take (i * 8) a) (All-take (i * 8) a ha))

compare_words_lem :
    (n : ℕ) (a b : Uint256)
    → All IsByte a
    → All IsByte b
    → n * 8 ≤ length a
    → n * 8 ≤ length b
    → compare_words n a b ≡ order (le_get (take (n * 8) a)) (le_get (take (n * 8) b))
unfolding compare_words order le_get
compare_words_lem zero a b ha hb la lb = refl
compare_words_lem (suc i) a b ha hb la lb =
    let lower = compare_words_lem i a b ha hb (omega (arith, la)) (omega (arith, lb)) in
    rw (lower, take_word_split i a la, take_word_split i b lb)
      (order_word (256 ^ (i * 8)) _ _ _ _ (low_words-lt i a ha la) (low_words-lt i b hb lb))

-- On two strings of 32 bytes uint256_compare returns -1, 0 or 1 by the order of the numbers that
-- they stand for in little-endian.
pub uint256_compare_lem :
    (a b : Uint256)
    → All IsByte a
    → All IsByte b
    → length a ≡ 32
    → length b ≡ 32
    → uint256_compare a b ≡ order (le_get a) (le_get b)
unfolding uint256_compare
uint256_compare_lem a b ha hb la lb =
    rw (take_all 32 a (sym la), take_all 32 b (sym lb)) at
      (compare_words_lem 4 a b ha hb (omega (arith, la)) (omega (arith, lb)))
