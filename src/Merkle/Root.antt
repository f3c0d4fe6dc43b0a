-- ===== src/Merkle/Root.antt =====
-- The root over the layers, against the tree as a derivation, and the elements it does not tell apart.
use bitcoin_clib.Base.{
  Uint256, ℕ, zero, suc, ◌+◌, ◌/◌, ◌%◌, ◌^◌, ◌≤◌, ◌<◌, ◌-◌, ◌≡◌, refl, sym, ap, ap₂, ◌∙◌,
  append-nil, take, drop, length-take, take-append-drop, take_all, length-append, List, [], ◌∷◌,
  ◌++◌, true, false, ltb, leb, ◌==◌, arith, length, none, some, ok,
}
use bitcoin_clib.Merkle.{
  hash_pairs, hash_layer, recalc_layers, recalc_int, merkle_tree_recalc, MerkleTree,
}
use bitcoin_clib.Merkle.Level.{
  next_level, next_level_duplicate, length-next_level, hash_layer-eq-next_level,
}

module _ (hash_func : List ℕ → Uint256) where
  -- `IsRoot xs r`: levels of pairs above `xs` end in the single hash `r`.
  pub data IsRoot : List Uint256 → Uint256 → Type 0 where
    single : (r : Uint256) → IsRoot (r ∷ []) r
    level :
        (xs : List Uint256) (r : Uint256)
        → 2 ≤ length xs
        → IsRoot (next_level hash_func xs) r
        → IsRoot xs r

  recalc_layers_step :
      (left : ℕ) (items : List Uint256) (n : ℕ)
      → 3 ≤ n
      → recalc_layers hash_func (suc left) items n
        ≡ recalc_layers hash_func left (hash_layer hash_func items n) ((n + 1) / 2)
  unfolding recalc_layers
  recalc_layers_step left items n h =
      let more : ((n + 1) / 2 == 1) ≡ false = ground (arith, h) in rw more refl

  -- Enough layers reach the root.
  recalc_layers_lem :
      (left : ℕ) (xs ys : List Uint256)
      → 2 ≤ length xs
      → length xs ≤ 2 ^ left
      → (r : Uint256) × (recalc_layers hash_func left (xs ++ ys) (length xs) ≡ some r) × IsRoot xs r
  unfolding recalc_layers next_level hash_layer hash_pairs
  recalc_layers_lem zero xs ys low high = absurd (omega arith)
  recalc_layers_lem (suc left) [] ys low high = absurd (omega arith)
  recalc_layers_lem (suc left) (x ∷ []) ys low high = absurd (omega arith)
  recalc_layers_lem (suc left) (x ∷ y ∷ []) ys low high =
      let r = hash_func (x ++ y) in (r, refl, level (x ∷ y ∷ []) r low (single r))
  recalc_layers_lem (suc left) (x ∷ y ∷ z ∷ zs) ys low high =
      let xs : List Uint256 = x ∷ y ∷ z ∷ zs in
      let layer =
        hash_layer-eq-next_level hash_func xs ys (length xs) refl
        ∙ sym (append-nil (next_level hash_func xs)) in
      let size = length-next_level hash_func xs in
      let (r, e, root) =
        recalc_layers_lem left (next_level hash_func xs) [] (omega (arith, size))
          (omega (arith, size, high)) in
      let step = recalc_layers_step left (xs ++ ys) (length xs) (omega arith) in
      (r, step ∙ ap₂ (recalc_layers hash_func left) layer (sym size) ∙ e, level xs r low root)

  -- A list has at most one root.
  pub IsRoot-unique : (xs : List Uint256) (r s : Uint256) → IsRoot xs r → IsRoot xs s → r ≡ s
  IsRoot-unique _ _ s (single r) (single _) = refl
  IsRoot-unique _ _ s (single r) (level _ _ low _) = absurd (omega arith)
  IsRoot-unique _ _ s (level _ _ low _) (single _) = absurd (omega arith)
  IsRoot-unique _ _ s (level xs r low above) (level _ _ _ other) = IsRoot-unique _ r s above other

  -- For a tree with at least 2 and fewer than 2 ^ 31 - 1 elements in use, all inside the array,
  -- merkle_tree_recalc over all elements stores the root of the elements in use: the hash at the
  -- end of levels in which neighbours are hashed in pairs and an odd last element with itself.
  -- Nothing else of the tree changes.
  pub merkle_tree_recalc_lem :
      (t : MerkleTree)
      → 2 ≤ t.count
      → t.count ≤ length t.items
      → t.count < 2 ^ 31 - 1
      → (r : Uint256) × (merkle_tree_recalc hash_func t 0 none ≡ ok (record t { merkle_root = r }))
        × IsRoot (take t.count t.items) r
  unfolding merkle_tree_recalc recalc_int
  merkle_tree_recalc_lem t low fits high =
      let used = take t.count t.items in
      let size = length-take t.count t.items fits in
      let (r, e, root) =
        recalc_layers_lem 32 used (drop t.count t.items) (omega (arith, size, low))
          (omega (arith, size, high)) in
      let e' = rw (take-append-drop t.count t.items, size) at e in
      let c1 : leb t.count 1 ≡ false = ground (arith, low) in
      let c2 : ltb 0 t.count ≡ true = ground (arith, low) in
      let c3 : ltb (length t.items) t.count ≡ false = ground (arith, fits) in
      let c4 : (t.count - 0) % 2 ^ 32 ≡ t.count = omega (arith, high) in
      let c5 : (t.count == 2 ^ 31 - 1) ≡ false = ground (arith, high) in
      let c6 : ltb t.count (2 ^ 31) ≡ true = ground (arith, high) in
      (r, rw (c1, c2) (rw (c4, c5, c6) (rw (c3, e') refl)), root)

  IsRoot-cong : (xs ys : List Uint256) (r : Uint256) → xs ≡ ys → IsRoot xs r → IsRoot ys r
  IsRoot-cong xs ys r e root = rw (← e) root

  IsRoot-above :
      (xs ys : List Uint256) (r : Uint256)
      → IsRoot ys r
      → ys ≡ xs
      → 2 ≤ length xs
      → IsRoot (next_level hash_func xs) r
  IsRoot-above xs _ r (single _) e low = absurd (omega (arith, ap length e))
  IsRoot-above xs _ r (level _ _ _ above) e low = rw (← e) above

  -- The second of two equal last hashes at an even place is not seen by the root.
  pub IsRoot-duplicate :
      (xs : List Uint256) (x r : Uint256)
      → 2 ≤ length xs
      → length xs % 2 ≡ 0
      → IsRoot (xs ++ x ∷ []) r
      → IsRoot (xs ++ x ∷ x ∷ []) r
  IsRoot-duplicate xs x r low even root =
      let above =
        IsRoot-above (xs ++ x ∷ []) _ r root refl (omega (arith, low, length-append xs (x ∷ []))) in
      level _ r (omega (arith, low, length-append xs (x ∷ x ∷ [])))
        (rw (next_level_duplicate hash_func xs x even) above)

  -- Two trees get the same root from merkle_tree_recalc if one holds an even number, at least 2,
  -- of elements and one more, and the other the same elements with that last one twice (fewer
  -- than 2 ^ 31 - 1 in all): a repeated last element is not seen by the root.
  pub merkle_tree_recalc_duplicate :
      (t u : MerkleTree) (xs : List Uint256) (x : Uint256)
      → 2 ≤ length xs
      → length xs % 2 ≡ 0
      → length xs + 2 < 2 ^ 31 - 1
      → t.items ≡ xs ++ x ∷ []
      → t.count ≡ length xs + 1
      → u.items ≡ xs ++ x ∷ x ∷ []
      → u.count ≡ length xs + 2
      → (r : Uint256) × (merkle_tree_recalc hash_func t 0 none ≡ ok (record t { merkle_root = r }))
        × (merkle_tree_recalc hash_func u 0 none ≡ ok (record u { merkle_root = r }))
  merkle_tree_recalc_duplicate t u xs x low even high ti tc ui uc =
      let one : length t.items ≡ t.count = rw (ti, tc) (length-append xs (x ∷ [])) in
      let two : length u.items ≡ u.count = rw (ui, uc) (length-append xs (x ∷ x ∷ [])) in
      let (r, e, root) =
        merkle_tree_recalc_lem t (omega (arith, low, tc)) (omega (arith, one))
          (omega (arith, high, tc)) in
      let (s, f, other) =
        merkle_tree_recalc_lem u (omega (arith, low, uc)) (omega (arith, two))
          (omega (arith, high, uc)) in
      let same_root =
        IsRoot-duplicate xs x r low even
          (IsRoot-cong _ _ r (take_all t.count t.items (sym one) ∙ ti) root) in
      let other_root = IsRoot-cong _ _ s (take_all u.count u.items (sym two) ∙ ui) other in
      let same : s ≡ r = IsRoot-unique _ s r other_root same_root in
      (r, e, f ∙ ap (λ k. ok (record u { merkle_root = k })) same)
