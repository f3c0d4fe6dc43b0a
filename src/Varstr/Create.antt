-- ===== src/Varstr/Create.antt =====
-- `varstr_new` and `varstr_clone`.
use bitcoin_clib.Base.{
  inl, inr, Bool-cases, ℕ, suc, ◌+◌, ◌%◌, ◌^◌, ◌≤◌, ◌<◌, ◌≡◌, refl, sym, ap, ◌∙◌, List, [], ◌∷◌,
  ◌++◌, true, ◌&&◌, arith, ltb, lt→ltb, leb, length, drop, replicate, length-replicate, none, some,
  ok, ◌>>=◌, read, read-append, read-eq-ok, >>=-eq-ok,
}
use bitcoin_clib.Varint.{varint_calc_size, varint_bytes, varint_set_data, varint_set}
use bitcoin_clib.Varint.Codec.{length-varint_bytes, varint_calc_size_bounds, varint_set_lem}
use bitcoin_clib.Varstr.{is_positive, varstr_size, fill_data, varstr_new, varstr_clone}
use bitcoin_clib.Varstr.Copies.{write_at-append, drop-replicate, read_all}
use bitcoin_clib.Varstr.Laws.{varstr_of, Fits, length-varstr_of, varstr_size-varstr_of}

size_test :
    (n : ℕ)
    → n + 9 < 2 ^ 63
    → (leb 1 (varint_calc_size n)
        && leb (varint_calc_size n) 9
        && ltb n ((varint_calc_size n + n) % 2 ^ 64))
      ≡ true
size_test n h = ground (arith, varint_calc_size_bounds n)

header_lem :
    (n : ℕ)
    → varint_set_data (replicate (varint_calc_size n + n) 0) n
      ≡ ok (varint_bytes n ++ replicate n 0)
header_lem n =
    let zeros : List ℕ = replicate (varint_calc_size n + n) 0 in
    set_lem (omega (arith, length-replicate {A = ℕ} (varint_calc_size n + n) 0))
    ∙ ap (λ r. ok (varint_bytes n ++ r)) (drop-replicate (varint_calc_size n) n _ refl)
  where
    set_lem :
        varint_calc_size n ≤ length (replicate {A = ℕ} (varint_calc_size n + n) 0)
        → varint_set_data (replicate (varint_calc_size n + n) 0) n
          ≡ ok (varint_bytes n ++ drop (varint_calc_size n) (replicate (varint_calc_size n + n) 0))
    set_lem h = unfold varint_set in varint_set_lem _ n h

-- `varstr_new` of NULL makes a string of zeros.
pub varstr_new-none :
    (n : ℕ) → n + 9 < 2 ^ 63 → varstr_new none n ≡ ok (varint_bytes n ++ replicate n 0)
unfolding varstr_new
varstr_new-none n h = rw (size_test n h, header_lem n)

fill_lem :
    (d : List ℕ)
    → fill_data
        (varint_calc_size (length d))
        (some d)
        (length d)
        (varint_bytes (length d) ++ replicate (length d) 0)
      ≡ ok (varstr_of d)
unfolding fill_data varstr_of
fill_lem [] = refl
fill_lem (x ∷ d) =
    let n : ℕ = suc (length d) in
    rw (read_all (x ∷ d), lt→ltb 0 n (omega arith))
      (write_at-append (varint_calc_size n) (x ∷ d) (varint_bytes n) (replicate n 0)
        (sym (length-varint_bytes n)) (sym (length-replicate {A = ℕ} n 0)))

-- `varstr_new` stores the string behind its length.
pub varstr_new_lem : (d : List ℕ) → Fits d → varstr_new (some d) (length d) ≡ ok (varstr_of d)
unfolding varstr_new
varstr_new_lem d h = rw (size_test (length d) h, header_lem (length d)) (fill_lem d)

-- For a string whose length is below 2 ^ 63 - 9, varstr_clone of a pointer to it, stored behind
-- its length, copies length and string and nothing of what follows.
pub varstr_clone_lem :
    (d rest : List ℕ) → Fits d → varstr_clone (some (varstr_of d ++ rest)) ≡ ok (some (varstr_of d))
unfolding varstr_clone
varstr_clone_lem d rest h =
    rw (varstr_size-varstr_of d rest h, positive, read-append _ (varstr_of d) rest refl)
  where
    positive :
        (ltb 0 (length (varstr_of d)) && ltb (length (varstr_of d)) 9223372036854775808) ≡ true
    positive = ground (arith, length-varstr_of d, varint_calc_size_bounds (length d))

-- If varstr_clone of any memory succeeds, the clone is a prefix of that memory, as long as
-- varstr_size says, and its length is positive as a signed number.
pub varstr_clone_sound :
    (p v : List ℕ)
    → varstr_clone (some p) ≡ ok (some v)
    → (varstr_size p ≡ ok (length v))
      × (v ++ drop (length v) p ≡ p)
      × (is_positive (length v) ≡ true)
unfolding varstr_clone
varstr_clone_sound p v h =
    let (size, e, f) = >>=-eq-ok (varstr_size p) _ h in
    elim (Bool-cases (ltb 0 size && ltb size (2 ^ 63))) [
      | inr bad ↦ cc (rw bad at f)
      | inl good ↦ clone_part size e good (rw good at f)
    ]
  where
    clone_part :
        (size : ℕ)
        → varstr_size p ≡ ok size
        → (ltb 0 size && ltb size (2 ^ 63)) ≡ true
        → (read size p >>= λ dst. ok (some dst)) ≡ ok (some v)
        → (varstr_size p ≡ ok (length v))
          × (v ++ drop (length v) p ≡ p)
          × (is_positive (length v) ≡ true)
    clone_part size e good f =
        let (bs, g, k) = >>=-eq-ok (read size p) (λ dst. ok (some dst)) f in
        let (j, l, t, s) = read-eq-ok size p bs g in ground arith
