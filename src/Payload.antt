-- ===== src/Payload.antt =====
-- The parsers of src/satoshi-types.c, src/satoshi-tx.c and src/satoshi-block.c walk a pointer `p`
-- through a payload up to `p_end`. Here `p` is the list of the bytes from `p` to `p_end`, and `p_end`
-- is an address below 2 ^ 64.
pub mod Laws
use bitcoin_clib.Base.{
  ℕ, ◌+◌, ◌-◌, ◌%◌, ◌^◌, ◌≤◌, ◌<◌, List, [], ◌∷◌, Bool, true, false, ◌&&◌, ltb, ◌==◌, length,
}

-- `(p + size) > p_end`. A size that was read from the payload may wrap the address; a size that is a
-- constant of the source does not, and is compared with the bytes left.
abbrev pub past_end : ℕ → List ℕ → ℕ → Bool
past_end p_end p size = ltb p_end ((p_end - length p + size) % 2 ^ 64)

-- The bytes of an object end at an address that is not the last one.
abbrev pub IsPlaced : ℕ → List ℕ → Type 0
IsPlaced p_end p = (length p ≤ p_end) × (p_end < 2 ^ 63)

-- `0 == memcmp(a, b, n)` on n bytes of both.
unfoldable pub bytes_eq : List ℕ → List ℕ → Bool
bytes_eq [] [] = true
bytes_eq (x ∷ xs) (y ∷ ys) = x == y && bytes_eq xs ys
bytes_eq _ _ = false
