-- ===== src/Base/Bytes.antt =====
-- Memory as a list of bytes from a pointer to the end of its object, and little-endian words.
use Prim.Native.Nat.{ℕ, zero, suc, ◌+◌, ◌*◌, ◌/◌, ◌%◌, ◌^◌, ◌≤◌, ◌<◌}
use mathlib.Core.Path.{◌≡◌, refl, ap, ap₂}
use mathlib.Core.List.{List, [], ◌∷◌, ◌++◌}
use native.Mathlib.Nat.{mul_assoc}
use native.Mathlib.Omega.{arith}
use bitcoin_clib.Base.Tests.{le→leb, leb, if◌then◌else◌}
use bitcoin_clib.Base.Lists.{
  length, take, drop, replicate, All, length-append, take-append, take-append-drop, length-take,
}
use bitcoin_clib.Base.Outcomes.{Outcome, ok, fault, ◌>>=◌, >>=-eq-ok}

-- `uint256_t`: 32 bytes, the lowest first.
abbrev pub Uint256 : Type 0
Uint256 = List ℕ

abbrev pub uint256_zero : Uint256
uint256_zero = replicate 32 0

abbrev pub IsByte : ℕ → Type 0
IsByte b = b < 256

-- The `n` bytes of a word, lowest first: what `htole16/32/64` and a store write.
unfoldable pub le_put : ℕ → ℕ → List ℕ
le_put zero v = []
le_put (suc n) v = (v % 256) ∷ le_put n (v / 256)

-- The word that a little-endian load reads.
unfoldable pub le_get : List ℕ → ℕ
le_get [] = 0
le_get (b ∷ bs) = b + 256 * le_get bs

pub length-le_put : (n v : ℕ) → length (le_put n v) ≡ n
unfolding le_put
length-le_put zero v = refl
length-le_put (suc n) v = ap suc (length-le_put n (v / 256))

pub le_put-IsByte : (n v : ℕ) → All IsByte (le_put n v)
unfolding le_put
le_put-IsByte zero v = tt
le_put-IsByte (suc n) v = (omega arith, le_put-IsByte n (v / 256))

pow_step : (n : ℕ) → 256 ^ suc n ≡ 256 * 256 ^ n
pow_step n = omega arith

pub le_get-le_put : (n v : ℕ) → v < 256 ^ n → le_get (le_put n v) ≡ v
unfolding le_put le_get
le_get-le_put zero v h = omega arith
le_get-le_put (suc n) v h = omega (arith, le_get-le_put n (v / 256) (omega (arith, pow_step n)))

pub le_get-lt : (bs : List ℕ) → All IsByte bs → le_get bs < 256 ^ length bs
unfolding le_get
le_get-lt [] h = omega arith
le_get-lt (b ∷ bs) h = omega (arith, le_get-lt bs h.1, pow_step (length bs))

pub le_put-le_get : (bs : List ℕ) → All IsByte bs → le_put (length bs) (le_get bs) ≡ bs
unfolding le_put le_get
le_put-le_get [] h = refl
le_put-le_get (b ∷ bs) h = ap₂ ◌∷◌ (omega (arith, h.0)) (rw quotient (le_put-le_get bs h.1))
  where
    quotient : (b + 256 * le_get bs) / 256 ≡ le_get bs
    quotient = omega (arith, h.0)

-- `memcpy(dst, p, n)`: the bytes read, for a pointer with the bytes `xs` up to its object's end.
unfoldable pub read : ℕ → List ℕ → Outcome (List ℕ)
read n xs = if leb n (length xs) then ok (take n xs) else fault

-- `memcpy(p, bs, n)` into the object that `p` points into.
unfoldable pub write : List ℕ → List ℕ → Outcome (List ℕ)
write bs xs = if leb (length bs) (length xs) then ok (bs ++ drop (length bs) xs) else fault

-- `memcpy(&u, p, n)` and the conversion from little-endian.
unfoldable pub load : ℕ → List ℕ → Outcome ℕ
load n p = read n p >>= λ bs. ok (le_get bs)

pub read-append : (n : ℕ) (xs ys : List ℕ) → n ≡ length xs → read n (xs ++ ys) ≡ ok xs
unfolding read
read-append n xs ys h = ground (arith, take-append n xs ys h, length-append xs ys)

pub read-eq-ok :
    (n : ℕ) (xs bs : List ℕ)
    → read n xs ≡ ok bs
    → (bs ++ drop n xs ≡ xs) × (length bs ≡ n) × (bs ≡ take n xs) × (n ≤ length xs)
unfolding read
read-eq-ok n xs bs h = ground (arith, take-append-drop n xs, length-take n xs)

pub read_short : (n : ℕ) (xs : List ℕ) → length xs < n → read n xs ≡ fault
unfolding read
read_short n xs h = ground arith

pub All-take : (n : ℕ) (xs : List ℕ) → All IsByte xs → All IsByte (take n xs)
All-take zero xs h = tt
All-take (suc n) [] h = tt
All-take (suc n) (x ∷ xs) h = (h.0, All-take n xs h.1)

pub All-drop : (n : ℕ) (xs : List ℕ) → All IsByte xs → All IsByte (drop n xs)
All-drop zero xs h = h
All-drop (suc n) [] h = tt
All-drop (suc n) (x ∷ xs) h = All-drop n xs h.1

pub load-le_put : (n v : ℕ) (rest : List ℕ) → v < 256 ^ n → load n (le_put n v ++ rest) ≡ ok v
unfolding load
load-le_put n v rest h =
    ground (arith, read-append n (le_put n v) rest, length-le_put n v, le_get-le_put n v h)

pub load-eq-ok :
    (n : ℕ) (xs : List ℕ) (v : ℕ) → load n xs ≡ ok v → (v ≡ le_get (take n xs)) × (n ≤ length xs)
unfolding load
load-eq-ok n xs v h =
    let (bs, e, f) = >>=-eq-ok (read n xs) (λ bs. ok (le_get bs)) h in
    let (j, l, t, s) = read-eq-ok n xs bs e in ground arith

pub take_word-lt :
    (n : ℕ) (xs : List ℕ) → All IsByte xs → n ≤ length xs → le_get (take n xs) < 256 ^ n
take_word-lt n xs hb h = rw (length-take n xs h) at (le_get-lt (take n xs) (All-take n xs hb))

pub load-lt : (n : ℕ) (xs : List ℕ) (v : ℕ) → All IsByte xs → load n xs ≡ ok v → v < 256 ^ n
load-lt n xs v hb h = let (e, s) = load-eq-ok n xs v h in rw e (take_word-lt n xs hb s)

pub take-le_put :
    (n : ℕ) (xs : List ℕ)
    → All IsByte xs
    → n ≤ length xs
    → le_put n (le_get (take n xs)) ≡ take n xs
take-le_put n xs hb h = rw (length-take n xs h) at (le_put-le_get (take n xs) (All-take n xs hb))

pub read_enough : (n : ℕ) (xs : List ℕ) → n ≤ length xs → read n xs ≡ ok (take n xs)
unfolding read
read_enough n xs h = rw (le→leb n (length xs) h)

pub load_enough : (n : ℕ) (xs : List ℕ) → n ≤ length xs → load n xs ≡ ok (le_get (take n xs))
unfolding load
load_enough n xs h = rw (read_enough n xs h)

-- The bytes from the one at `n` on count `256 ^ n` times.
pub le_get-append :
    (n : ℕ) (xs ys : List ℕ) → n ≡ length xs → le_get (xs ++ ys) ≡ le_get xs + 256 ^ n * le_get ys
unfolding le_get
le_get-append zero [] ys h = omega arith
le_get-append zero (x ∷ xs) ys h = absurd (omega arith)
le_get-append (suc n) [] ys h = absurd (omega arith)
le_get-append (suc n) (x ∷ xs) ys h =
    let product : 256 ^ suc n * le_get ys ≡ 256 * (256 ^ n * le_get ys) =
      rw (pow_step n) (mul_assoc 256 (256 ^ n) (le_get ys)) in
    omega (arith, le_get-append n xs ys (omega arith), product)

pub le_get_zeros : (n : ℕ) → le_get (replicate n 0) ≡ 0
unfolding le_get
le_get_zeros zero = refl
le_get_zeros (suc n) = omega (arith, le_get_zeros n)
