-- ===== src/Payload/Laws.antt =====
-- When the checks against `p_end` pass, and what a copy from a payload then holds.
use bitcoin_clib.Base.{ℕ, ◌^◌, ◌≤◌, ◌<◌, ◌≡◌, ◌↔◌, refl, List, [], ◌∷◌, true, false, arith, length}
use bitcoin_clib.Payload.{past_end, IsPlaced, bytes_eq}

pub past_end_within :
    (p_end size : ℕ) (p : List ℕ)
    → IsPlaced p_end p
    → size ≤ length p
    → past_end p_end p size ≡ false
past_end_within p_end size p h k = ground arith

-- A size below 2 ^ 63 passes only if the bytes are there.
pub past_end_sound :
    (p_end size : ℕ) (p : List ℕ)
    → IsPlaced p_end p
    → size < 2 ^ 63
    → past_end p_end p size ≡ false
    → size ≤ length p
past_end_sound p_end size p h k e = ground arith

pub bytes_eq_iff : (xs ys : List ℕ) → (bytes_eq xs ys ≡ true) ↔ (xs ≡ ys)
unfolding bytes_eq
bytes_eq_iff [] [] = ((λ _. refl), (λ _. refl))
bytes_eq_iff [] (y ∷ ys) = ((λ h. cc), (λ h. cc))
bytes_eq_iff (x ∷ xs) [] = ((λ h. cc), (λ h. cc))
bytes_eq_iff (x ∷ xs) (y ∷ ys) = ground (arith, bytes_eq_iff xs ys)
