-- ===== src/Hash.antt =====
-- The hash functions that the sources call and whose code lies outside this repository's src/ and
-- include/: SHA-256 over a byte string. `sha256_update` calls in a row hash the concatenation.
use bitcoin_clib.Base.{ℕ, ◌≡◌, refl, List, length, replicate}

pub record HashFunctions : Type 0 where
  pub sha256 : List ℕ → List ℕ
  pub length-sha256 : (bs : List ℕ) → length (sha256 bs) ≡ 32

-- `hash256`: SHA-256 twice.
abbrev pub hash256 : HashFunctions → List ℕ → List ℕ
hash256 h bs = h.sha256 (h.sha256 bs)

-- A value of the interface, for concrete runs: every digest is 32 zeros.
abbrev pub trivial_hash : HashFunctions
trivial_hash = record { sha256 = λ bs. replicate 32 0; length-sha256 = λ bs. refl }
