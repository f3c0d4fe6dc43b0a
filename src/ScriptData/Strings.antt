-- ===== src/ScriptData/Strings.antt =====
-- Strings as script data: what a push makes of them, and how they are read, compared and copied.
use bitcoin_clib.Base.{
  ℕ, ◌^◌, ◌≤◌, ◌<◌, ◌≡◌, refl, sym, ap, List, [], ◌∷◌, Bool, true, false, ◌&&◌, ltb, ◌==◌,
  if◌then◌else◌, arith, length, take, take_all, lt→ltb, none, some, ok, read, read_enough,
  length-take, Bool-cases, inl, inr, le_get, suc, ◌>>=◌,
}
use bitcoin_clib.ScriptData.{
  ScriptData, script_data_zero, pointer, satoshi_script_data_new, satoshi_script_data_clone,
  satoshi_script_data_get, satoshi_script_data_compare, scripts_data_get_ptr, follow,
  follow_asserted,
}
use bitcoin_clib.Payload.{bytes_eq}
use bitcoin_clib.Varstr.{is_positive}

and_false : (b : Bool) → (b && false) ≡ false
and_false true = refl
and_false false = refl

-- The script data of a pushed string. No object is made for the empty one.
unfoldable pub pushed : List ℕ → ScriptData
pushed bs = record script_data_zero {
  kind = pointer;
  target = if ltb 0 (length bs) then some bs else none;
  size = length bs;
}

pub satoshi_script_data_new_ptr :
    (n : ℕ) (bs : List ℕ)
    → n ≤ length bs
    → satoshi_script_data_new pointer (some bs) n ≡ ok (pushed (take n bs))
unfolding satoshi_script_data_new pushed
satoshi_script_data_new_ptr n bs h =
    let size = length-take n bs h in
    elim (Bool-cases (ltb 0 n)) [
      | inl c ↦ rw (c, read_enough n bs h, size, c) refl
      | inr c ↦
          rw (c, size, c)
            (let empty : n ≡ 0 = ground arith in
              ap (λ k. ok (record script_data_zero { kind = pointer; target = none; size = k }))
                (sym empty))
    ]

pub satoshi_script_data_get-pushed :
    (d : List ℕ)
    → satoshi_script_data_get (pushed d) ≡ ok (if ltb 0 (length d) then some d else none, length d)
unfolding satoshi_script_data_get pushed le_get
satoshi_script_data_get-pushed d = elim (Bool-cases (ltb 0 (length d))) [
  | inl c ↦ rw (c, c, read_enough (length d) d (omega arith), take_all (length d) d refl) refl
  | inr c ↦ rw c refl
]

-- A pushed string that is not empty is copied.
pub satoshi_script_data_clone-pushed :
    (d : List ℕ) → 0 < length d → satoshi_script_data_clone (pushed d) ≡ ok (pushed d)
unfolding satoshi_script_data_clone pushed
satoshi_script_data_clone-pushed d h =
    let c = lt→ltb 0 (length d) h in
    rw (c, c, read_enough (length d) d (omega arith), take_all (length d) d refl) refl

pub get_ptr_pushed : (d : List ℕ) → scripts_data_get_ptr (pushed d) ≡ ok (d, length d)
unfolding scripts_data_get_ptr pushed
get_ptr_pushed [] = refl
get_ptr_pushed (x ∷ xs) =
    let c : (suc (length xs) == 0) ≡ false = ground arith in
    let there : ltb 0 (suc (length xs)) ≡ true = ground arith in rw (c, there) refl

-- Two strings of different lengths differ.
bytes_eq-length : (a b : List ℕ) → (length a == length b) ≡ false → bytes_eq a b ≡ false
unfolding bytes_eq
bytes_eq-length [] [] h = cc
bytes_eq-length [] (y ∷ ys) h = refl
bytes_eq-length (x ∷ xs) [] h = refl
bytes_eq-length (x ∷ xs) (y ∷ ys) h =
    let rest : bytes_eq xs ys ≡ false = bytes_eq-length xs ys (ground (arith, h)) in
    rw rest (and_false (x == y))

compare_sized :
    (a b : List ℕ)
    → length a < 2 ^ 63
    → (if is_positive (length a) && (is_positive (length b) && length a == length b)
        then (read (length a) a >>= λ x. read (length a) b >>= λ y. ok (bytes_eq x y))
        else ok false)
      ≡ ok (ltb 0 (length a) && bytes_eq a b)
compare_sized a b small = elim (Bool-cases (length a == length b)) [
  | inl e ↦
      let same : length a ≡ length b = ground arith in
      let fits : ltb (length a) (2 ^ 63) ≡ true = lt→ltb _ _ small in
      rw
        (
          e,
          ← same,
          fits,
          read_enough (length a) a (omega arith),
          read_enough (length a) b (omega (arith, same)),
          take_all (length a) a refl,
          take_all (length a) b same,
        )
        (elim (Bool-cases (ltb 0 (length a))) [ inl c ↦ rw c refl | inr c ↦ rw c refl ])
  | inr e ↦ rw (e, bytes_eq-length a b e, and_false, and_false, and_false) refl
]

-- Two pushed strings are equal to the engine if they are equal and not empty.
pub satoshi_script_data_compare-pushed :
    (a b : List ℕ)
    → length a < 2 ^ 63
    → satoshi_script_data_compare (pushed a) (pushed b) ≡ ok (ltb 0 (length a) && bytes_eq a b)
unfolding satoshi_script_data_compare
satoshi_script_data_compare-pushed a b small =
    rw (get_ptr_pushed a, get_ptr_pushed b) (compare_sized a b small)

pub is_static-pushed : (d : List ℕ) → (pushed d).is_static ≡ false
unfolding pushed
is_static-pushed d = refl

pub size-pushed : (d : List ℕ) → (pushed d).size ≡ length d
unfolding pushed
size-pushed d = refl

pub follow_asserted-pushed : (d : List ℕ) → 0 < length d → follow_asserted (pushed d) ≡ ok d
unfolding follow_asserted pushed
follow_asserted-pushed d h = rw (lt→ltb 0 (length d) h) refl

pub follow-pushed : (d : List ℕ) → 0 < length d → follow (pushed d) ≡ ok d
unfolding follow pushed
follow-pushed d h = rw (lt→ltb 0 (length d) h) refl
