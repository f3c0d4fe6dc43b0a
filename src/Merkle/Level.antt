-- ===== src/Merkle/Level.antt =====
-- One layer of the tree against its description by recursion on the list below it.
use bitcoin_clib.Base.{
  Uint256, uint256_zero, ℕ, zero, suc, ◌+◌, ◌-◌, ◌*◌, ◌/◌, ◌%◌, ◌≡◌, refl, ap, ap₂, List, [], ◌∷◌,
  ◌++◌, arith, length, get_or,
}
use bitcoin_clib.Merkle.{hash_pairs, hash_layer}

module _ (hash_func : List ℕ → Uint256) where
  -- The layer above a list: neighbours are hashed in pairs, an odd last one with itself.
  unfoldable pub next_level : List Uint256 → List Uint256
  next_level [] = []
  next_level (x ∷ []) = hash_func (x ++ x) ∷ []
  next_level (x ∷ y ∷ xs) = hash_func (x ++ y) ∷ next_level xs

  pub length-next_level : (xs : List Uint256) → length (next_level xs) ≡ (length xs + 1) / 2
  unfolding next_level
  length-next_level [] = refl
  length-next_level (x ∷ []) = refl
  length-next_level (x ∷ y ∷ xs) = omega (arith, length-next_level xs)

  -- The loop over pairs does not see two elements in front, if it starts one round later.
  hash_pairs-cons :
      (x y : Uint256) (xs : List Uint256) (i rounds : ℕ)
      → hash_pairs hash_func (x ∷ y ∷ xs) (i + 1) rounds ≡ hash_pairs hash_func xs i rounds
  unfolding hash_pairs
  hash_pairs-cons x y xs i zero = refl
  hash_pairs-cons x y xs i (suc rounds) =
      let even : (i + 1) * 2 ≡ suc (suc (i * 2)) = omega arith in
      let odd : (i + 1) * 2 + 1 ≡ suc (suc (i * 2 + 1)) = omega arith in
      ap₂ ◌∷◌
        (ap hash_func (
          ap₂ ◌++◌ (ap (λ k. get_or (x ∷ y ∷ xs) k uint256_zero) even)
            (ap (λ k. get_or (x ∷ y ∷ xs) k uint256_zero) odd)))
        (hash_pairs-cons x y xs (i + 1) rounds)

  -- The loop of the source computes the layer above; what lies behind the `n` elements is not read.
  pub hash_layer-eq-next_level :
      (xs ys : List Uint256) (n : ℕ)
      → n ≡ length xs
      → hash_layer hash_func (xs ++ ys) n ≡ next_level xs
  unfolding hash_layer next_level hash_pairs
  hash_layer-eq-next_level [] ys n h = rw h refl
  hash_layer-eq-next_level (x ∷ []) ys n h = rw h refl
  hash_layer-eq-next_level (x ∷ y ∷ []) ys n h = rw h refl
  hash_layer-eq-next_level (x ∷ y ∷ z ∷ zs) ys n h =
      let half : n / 2 ≡ suc (length (z ∷ zs) / 2) = omega (arith, h) in
      let odd : n % 2 ≡ length (z ∷ zs) % 2 = omega (arith, h) in
      let last : n - 1 ≡ suc (suc (length zs)) = omega (arith, h) in
      let later = hash_pairs-cons x y (z ∷ zs ++ ys) 0 (length (z ∷ zs) / 2) in
      let back : suc (length zs) - 1 ≡ length zs = omega arith in
      let rest = rw back at (hash_layer-eq-next_level (z ∷ zs) ys (length (z ∷ zs)) refl) in
      rw (half, odd, last, later) (ap (λ l. hash_func (x ++ y) ∷ l) rest)

  -- An odd last element stands for itself twice.
  pub next_level_duplicate :
      (xs : List Uint256) (x : Uint256)
      → length xs % 2 ≡ 0
      → next_level (xs ++ x ∷ x ∷ []) ≡ next_level (xs ++ x ∷ [])
  unfolding next_level
  next_level_duplicate [] x h = refl
  next_level_duplicate (y ∷ []) x h = absurd (omega (arith, h))
  next_level_duplicate (y ∷ z ∷ xs) x h =
      ap (λ l. hash_func (y ++ z) ∷ l) (next_level_duplicate xs x (omega (arith, h)))
