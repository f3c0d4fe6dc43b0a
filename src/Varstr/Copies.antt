-- ===== src/Varstr/Copies.antt =====
-- Copies into and out of memory, for the string functions.
use bitcoin_clib.Base.{
  le→leb, ℕ, zero, suc, ◌+◌, ◌≤◌, ◌≡◌, refl, ap, List, [], ◌∷◌, ◌++◌, arith, length, take, drop,
  replicate, length-append, take-append, drop-append, append-nil, ok, read, write, read-append,
}
use bitcoin_clib.Varstr.{write_at}

pub write_fits :
    (bs xs : List ℕ) → length bs ≤ length xs → write bs xs ≡ ok (bs ++ drop (length bs) xs)
unfolding write
write_fits bs xs h = rw (le→leb _ _ h)

pub write-exact : (bs xs : List ℕ) → length bs ≡ length xs → write bs xs ≡ ok bs
unfolding write
write-exact bs xs h = ground (arith, drop_exact (length bs) xs h, append-nil bs)
  where
    drop_exact : (n : ℕ) (ys : List ℕ) → n ≡ length ys → drop n ys ≡ []
    drop_exact n ys e = rw append-nil at (drop-append n ys [] e)

pub write_at-append :
    (k : ℕ) (bs a b : List ℕ)
    → k ≡ length a
    → length bs ≡ length b
    → write_at k bs (a ++ b) ≡ ok (a ++ bs)
unfolding write_at
write_at-append k bs a b hk hb =
    rw (drop-append k a b hk, write-exact bs b hb, take-append k a b hk)

pub drop-replicate : (k n m : ℕ) → m ≡ k + n → drop k (replicate m 0) ≡ replicate {A = ℕ} n 0
drop-replicate zero n m h = ap (λ k. replicate k 0) (omega arith)
drop-replicate (suc k) n zero h = absurd (omega arith)
drop-replicate (suc k) n (suc m) h = drop-replicate k n m (omega arith)

pub read_all : (xs : List ℕ) → read (length xs) xs ≡ ok xs
read_all xs = rw append-nil at (read-append (length xs) xs [] refl)

pub write_at-front :
    (k : ℕ) (bs a b : List ℕ)
    → k ≡ length a
    → length bs ≤ length b
    → write_at k bs (a ++ b) ≡ ok (a ++ (bs ++ drop (length bs) b))
unfolding write_at write
write_at-front k bs a b hk hb = rw (drop-append k a b hk, take-append k a b hk, le→leb _ _ hb)

pub drop-drop : (m n k : ℕ) (xs : List ℕ) → k ≡ n + m → drop m (drop n xs) ≡ drop k xs
drop-drop m zero k xs h = ap (λ k. drop k xs) (omega arith)
drop-drop zero (suc n) zero [] h = refl
drop-drop zero (suc n) (suc k) [] h = refl
drop-drop (suc m) (suc n) zero [] h = refl
drop-drop (suc m) (suc n) (suc k) [] h = refl
drop-drop m (suc n) zero (x ∷ xs) h = absurd (omega arith)
drop-drop m (suc n) (suc k) (x ∷ xs) h = drop-drop m n k xs (omega arith)

pub read_part : (n : ℕ) (d rest : List ℕ) → n ≤ length d → read n (d ++ rest) ≡ ok (take n d)
unfolding read
read_part n d rest h =
    rw (le→leb n (length (d ++ rest)) (omega (arith, length-append d rest))) (ap ok (front n d h))
  where
    front : (k : ℕ) (xs : List ℕ) → k ≤ length xs → take k (xs ++ rest) ≡ take k xs
    front zero xs h = refl
    front (suc k) [] h = absurd (omega arith)
    front (suc k) (x ∷ xs) h = ap (λ t. x ∷ t) (front k xs (omega arith))
