-- ===== src/Block/Ids.antt =====
-- The tree of the transactions' ids while a block is parsed.
use bitcoin_clib.Base.{
  ℕ, zero, suc, ◌+◌, ◌^◌, ◌≤◌, ◌<◌, ◌≡◌, inl, inr, refl, sym, ap, ◌∙◌, List, [], ◌∷◌, ◌++◌, map,
  append-nil, append_assoc, Bool, true, false, leb, ◌==◌, arith, length, take, drop, get_or,
  length-take, length-append, length-drop, none, ok, ok-injective, >>=-eq-ok, reject_if-eq-ok,
  Uint256, uint256_zero, Bool-cases, leb-false, ◌-◌,
}
use bitcoin_clib.Hash.{HashFunctions}
use bitcoin_clib.Tx.{Tx, tx_zero}
use bitcoin_clib.Tx.Parse.{satoshi_tx_parse}
use bitcoin_clib.Merkle.{MerkleTree, merkle_tree_add, merkle_tree_recalc}
use bitcoin_clib.Merkle.Array.{elements, IsWellFormed, merkle_tree_add_lem}
use bitcoin_clib.Merkle.Root.{IsRoot, single, merkle_tree_recalc_lem}
use bitcoin_clib.Block.{parse_txns}

pub length-elements : (t : MerkleTree) → IsWellFormed t → length (elements t) ≡ t.count
unfolding elements IsWellFormed
length-elements t (full, low) = length-take t.count t.items (omega (arith, full, low))

-- A tree that took one more element had room for it.
merkle_tree_add_one :
    (t u : MerkleTree) (x : Uint256)
    → IsWellFormed t
    → t.count + 1 < 2 ^ 31
    → merkle_tree_add t (x ∷ []) ≡ ok u
    → IsWellFormed u × (elements u ≡ elements t ++ x ∷ []) × (u.count ≡ t.count + 1)
merkle_tree_add_one t u x wf small h =
    let (v, e, wf_v, kept) = merkle_tree_add_lem t (x ∷ []) wf (omega arith) small in
    let same : v ≡ u = ok-injective (sym e ∙ h) in
    let wf_u : IsWellFormed u = rw (← same) wf_v in
    let kept_u : elements u ≡ elements t ++ x ∷ [] = rw (← same) kept in
    (
      wf_u,
      kept_u,
      omega (
        arith,
        ap length kept_u,
        length-elements u wf_u,
        length-elements t wf,
        length-append (elements t) (x ∷ []),
      ),
    )

take_one : (xs : List Uint256) (d : Uint256) → 1 ≤ length xs → take 1 xs ≡ get_or xs 0 d ∷ []
take_one [] d h = absurd (omega (arith, h))
take_one (x ∷ xs) d h = refl

items_enough : (t : MerkleTree) → IsWellFormed t → t.count ≤ length t.items
unfolding IsWellFormed
items_enough t (full, low) = omega (arith, full, low)

IsRoot-at :
    (hash_func : List ℕ → Uint256) (t : MerkleTree) (r s : Uint256)
    → r ≡ s
    → IsRoot hash_func (take t.count t.items) r
    → IsRoot hash_func (elements t) s
unfolding elements
IsRoot-at hash_func t r s e root = rw (← e) root

recalc_single :
    (hash_func : List ℕ → Uint256) (t u : MerkleTree)
    → IsWellFormed t
    → t.count ≡ 1
    → merkle_tree_recalc hash_func t 0 none ≡ ok u
    → IsRoot hash_func (elements t) u.merkle_root
unfolding elements merkle_tree_recalc
recalc_single hash_func t u wf one h =
    let first = get_or t.items 0 uint256_zero in
    let c1 : leb t.count 1 ≡ true = ground (arith, one) in
    let c2 : (t.count == 1) ≡ true = ground (arith, one) in
    let same : record t { merkle_root = first } ≡ u = ok-injective (sym (rw (c1, c2) refl) ∙ h) in
    let root : first ≡ u.merkle_root = ap (λ v. v.merkle_root) same in
    let whole : take t.count t.items ≡ first ∷ [] =
      ap (λ k. take k t.items) one
      ∙ take_one t.items uint256_zero (omega (arith, one, items_enough t wf)) in
    rw (whole, ← root) (single first)

-- The root that the recalculation stores is the root of the elements in use.
pub recalc_sound :
    (hash_func : List ℕ → Uint256) (t u : MerkleTree)
    → IsWellFormed t
    → 1 ≤ t.count
    → t.count < 2 ^ 31 - 1
    → merkle_tree_recalc hash_func t 0 none ≡ ok u
    → IsRoot hash_func (elements t) u.merkle_root
recalc_sound hash_func t u wf some_element high h = elim (Bool-cases (leb t.count 1)) [
  | inl e ↦ recalc_single hash_func t u wf (ground arith) h
  | inr e ↦
      let (r, f, root) =
        merkle_tree_recalc_lem hash_func t (leb-false t.count 1 e) (items_enough t wf) high in
      let same = ok-injective (sym f ∙ h) in
      let same_root : r ≡ u.merkle_root = ap (λ v. v.merkle_root) same in
      IsRoot-at hash_func t r u.merkle_root same_root root
]

-- What the loop leaves: the ids are behind the elements of the tree, one for each transaction.
unfoldable pub IsAdded : MerkleTree → ℕ → List Tx × MerkleTree × List ℕ → Type 0
IsAdded t count r =
    IsWellFormed r.1 × (elements r.1 ≡ elements t ++ map (λ tx. tx.txid) r.0) × (length r.0 ≡ count)

IsAdded-cons :
    (t next full : MerkleTree) (count : ℕ) (r : List ℕ) (tx : Tx) (rest : List Tx)
    → elements next ≡ elements t ++ tx.txid ∷ []
    → IsAdded next count (rest, full, r)
    → IsAdded t (suc count) (tx ∷ rest, full, r)
unfolding IsAdded
IsAdded-cons t next full count r tx rest kept (wf_full, all, count_rest) = (
  wf_full,
  all
      ∙ ap (λ l. l ++ map (λ x. x.txid) rest) kept
      ∙ append_assoc (elements t) (tx.txid ∷ []) (map (λ x. x.txid) rest),
  ap suc count_rest,
)

IsAdded-nil : (t : MerkleTree) (p : List ℕ) → IsWellFormed t → IsAdded t 0 ([], t, p)
unfolding IsAdded
IsAdded-nil t p wf = (wf, sym (append-nil (elements t)), refl)

IsAdded-of :
    (t : MerkleTree) (count : ℕ) (r s : List Tx × MerkleTree × List ℕ)
    → ok r ≡ ok s
    → IsAdded t count r
    → IsAdded t count s
IsAdded-of t count r s e added = rw (← ok-injective e) added

-- Each transaction takes a byte or more.
taken :
    (count tx_size : ℕ) (p : List ℕ) (r s : List Tx × MerkleTree × List ℕ)
    → ok r ≡ ok s
    → leb (length p) 0 ≡ false
    → leb tx_size 0 ≡ false
    → count + length r.2 ≤ length (drop tx_size p)
    → suc count + length s.2 ≤ length p
taken count tx_size p r s e left some_bytes later =
    let same : length r.2 ≡ length s.2 = ap (λ x. length x.2) (ok-injective e) in
    let positive = leb-false tx_size 0 some_bytes in
    let more = leb-false (length p) 0 left in
    omega (arith, same, later, positive, more, length-drop tx_size p)

module _ (h : HashFunctions) (p_end : ℕ) (calloc : ℕ → Bool) where
  -- There are at most as many transactions as bytes taken.
  pub parse_txns_position :
      (count : ℕ) (t : MerkleTree) (p : List ℕ) (s : List Tx × MerkleTree × List ℕ)
      → parse_txns h p_end calloc count t p ≡ ok s
      → count + length s.2 ≤ length p
  unfolding parse_txns
  parse_txns_position zero t p s e =
      let same : length p ≡ length s.2 = ap (λ x. length x.2) (ok-injective e) in
      omega (arith, same)
  parse_txns_position (suc count) t p s e =
      let (left, e1) = reject_if-eq-ok (leb (length p) 0) _ e in
      let ((tx, tx_size), _, e2) = >>=-eq-ok (satoshi_tx_parse p_end calloc h tx_zero p) _ e1 in
      let (some_bytes, e3) = reject_if-eq-ok (leb tx_size 0) _ e2 in
      let (next, _, e4) = >>=-eq-ok (merkle_tree_add t (tx.txid ∷ [])) _ e3 in
      let ((rest, full, r), later, e5) =
        >>=-eq-ok (parse_txns h p_end calloc count next (drop tx_size p)) _ e4 in
      taken count tx_size p (tx ∷ rest, full, r) s e5 left some_bytes
        (parse_txns_position count next (drop tx_size p) (rest, full, r) later)

  -- The ids of the transactions are added in order.
  pub parse_txns_sound :
      (count : ℕ) (t : MerkleTree) (p : List ℕ) (s : List Tx × MerkleTree × List ℕ)
      → IsWellFormed t
      → t.count + count < 2 ^ 31
      → parse_txns h p_end calloc count t p ≡ ok s
      → IsAdded t count s
  unfolding parse_txns
  parse_txns_sound zero t p s wf small e = IsAdded-of t 0 ([], t, p) s e (IsAdded-nil t p wf)
  parse_txns_sound (suc count) t p s wf small e =
      let (_, e1) = reject_if-eq-ok (leb (length p) 0) _ e in
      let ((tx, tx_size), _, e2) = >>=-eq-ok (satoshi_tx_parse p_end calloc h tx_zero p) _ e1 in
      let (_, e3) = reject_if-eq-ok (leb tx_size 0) _ e2 in
      let (next, added, e4) = >>=-eq-ok (merkle_tree_add t (tx.txid ∷ [])) _ e3 in
      let ((rest, full, r), later, e5) =
        >>=-eq-ok (parse_txns h p_end calloc count next (drop tx_size p)) _ e4 in
      let (wf_next, kept, size) =
        merkle_tree_add_one t next tx.txid wf (omega (arith, small)) added in
      let later_added =
        parse_txns_sound count next (drop tx_size p) (rest, full, r) wf_next
          (omega (arith, small, size)) later in
      IsAdded-of t (suc count) (tx ∷ rest, full, r) s e5
        (IsAdded-cons t next full count r tx rest kept later_added)
