-- ===== src/Merkle/Array.antt =====
-- The array of a tree: what the operations do to the elements in use.
use bitcoin_clib.Base.{
  Uint256, uint256_zero, ℕ, suc, ◌+◌, ◌-◌, ◌*◌, ◌/◌, ◌^◌, ◌≤◌, ◌<◌, ◌≡◌, refl, sym, ap, ◌∙◌,
  append-nil, append_assoc, List, [], ◌∷◌, ◌++◌, true, false, ltb, leb, arith, length, take, set,
  get_or, replicate, length-take, length-set, take_prefix, set_beyond, take-take, get_or-take,
  lt→ltb, leb→le, ltb→lt, ge→ltb, take-set_next, take-set_outside, take-set_inside, leb-false,
  length-append, length-replicate, ok, Bool-cases, inl, inr,
}
use bitcoin_clib.Merkle.{
  MerkleTree, merkle_tree_resize, uint256_merkle_tree_new, store_items, merkle_tree_add,
  merkle_tree_remove, merkle_tree_set,
}

-- The elements in use.
unfoldable pub elements : MerkleTree → List Uint256
elements t = take t.count t.items

-- The array has `max_size` elements and the elements in use are among them.
unfoldable pub IsWellFormed : MerkleTree → Type 0
IsWellFormed t = (length t.items ≡ t.max_size) × (t.count ≤ t.max_size)

merkle_tree_resize_lem :
    (t : MerkleTree) (size : ℕ)
    → IsWellFormed t
    → (length (merkle_tree_resize t size).items ≡ (merkle_tree_resize t size).max_size)
      × (t.count ≤ (merkle_tree_resize t size).max_size)
      × (size ≤ (merkle_tree_resize t size).max_size)
      × ((merkle_tree_resize t size).count ≡ t.count)
      × (elements (merkle_tree_resize t size) ≡ elements t)
unfolding merkle_tree_resize elements IsWellFormed
merkle_tree_resize_lem t size (full, low) =
    let new_size : ℕ = (size + 4096 - 1) / 4096 * 4096 in
    elim (Bool-cases (leb new_size t.max_size)) [
      | inl e ↦ rw e (full, low, ground arith, refl, refl)
      | inr e ↦ rw e (
        omega (
          arith,
          full,
          length-append t.items (replicate (new_size - t.max_size) uint256_zero),
          length-replicate (new_size - t.max_size) uint256_zero,
          leb-false _ _ e,
        ),
        omega (arith, low, leb-false _ _ e),
        omega arith,
        refl,
        take_prefix t.count t.items _ (omega (arith, full, low)),
      )
    ]

length-store_items :
    (array : List Uint256) (i : ℕ) (items : List Uint256)
    → length (store_items array i items) ≡ length array
unfolding store_items
length-store_items array i [] = refl
length-store_items array i (x ∷ items) =
    length-store_items (set array i x) (i + 1) items ∙ length-set array i x

store_items_lem :
    (array : List Uint256) (i : ℕ) (items : List Uint256)
    → i + length items ≤ length array
    → take (i + length items) (store_items array i items) ≡ take i array ++ items
unfolding store_items
store_items_lem array i [] h =
    ap (λ k. take k array) (omega arith) ∙ sym (append-nil (take i array))
store_items_lem array i (x ∷ items) h =
    let later =
      store_items_lem (set array i x) (i + 1) items (omega (arith, h, length-set array i x)) in
    let one_more : i + 1 ≡ suc i = omega arith in
    ap (λ k. take k (store_items (set array i x) (i + 1) items)) (omega arith)
    ∙ later
    ∙ ap (λ k. take k (set array i x) ++ items) one_more
    ∙ ap (λ l. l ++ items) (take-set_next i array x (omega (arith, h)))
    ∙ append_assoc (take i array) (x ∷ []) items

-- On a well-formed tree (an array of max_size elements, of which count are in use)
-- merkle_tree_add of at least one element, for fewer than 2 ^ 31 in all, succeeds, appends the
-- new elements to those in use and leaves a well-formed tree.
pub merkle_tree_add_lem :
    (t : MerkleTree) (items : List Uint256)
    → IsWellFormed t
    → 1 ≤ length items
    → t.count + length items < 2 ^ 31
    → (u : MerkleTree) × (merkle_tree_add t items ≡ ok u)
      × IsWellFormed u
      × (elements u ≡ elements t ++ items)
unfolding merkle_tree_add elements IsWellFormed
merkle_tree_add_lem t items wf some_items small =
    let r = merkle_tree_resize t (t.count + length items) in
    let (full, low, room, same, kept) = merkle_tree_resize_lem t (t.count + length items) wf in
    let c1 = lt→ltb t.count (t.count + length items) (omega arith) in
    (
      record r { items = store_items r.items r.count items; count = r.count + length items },
      rw c1 refl,
      (length-store_items r.items r.count items ∙ full, omega (arith, room, same)),
      store_items_lem r.items r.count items (omega (arith, full, room, same))
          ∙ ap (λ l. l ++ items) kept,
    )

-- On a well-formed tree merkle_tree_remove of an index in use succeeds: the last element takes
-- the place of the removed one, one element fewer is in use, and the tree is well formed.
pub merkle_tree_remove_lem :
    (t : MerkleTree) (index : ℕ)
    → IsWellFormed t
    → index < t.count
    → (u : MerkleTree) × (merkle_tree_remove t index ≡ (true, u))
      × IsWellFormed u
      × (elements u
          ≡ take
              (t.count - 1)
              (set (elements t) index (get_or (elements t) (t.count - 1) uint256_zero)))
unfolding merkle_tree_remove elements IsWellFormed
merkle_tree_remove_lem t index (full, low) inside =
    let last = t.count - 1 in
    let v = get_or t.items last uint256_zero in
    let c1 : leb t.count index ≡ false = ground (arith, inside) in
    let read = get_or-take last t.count t.items uint256_zero (omega (arith, inside)) in
    let shorter = take-take last t.count t.items (omega arith) in
    elim (Bool-cases (ltb index last)) [
      | inl e ↦ (
        record t { count = last; items = set (set t.items index v) last uint256_zero },
        rw (c1, e) refl,
        (length-set _ last uint256_zero ∙ length-set t.items index v ∙ full, omega (arith, low)),
        take-set_outside last last (set t.items index v) uint256_zero (omega arith)
            ∙ take-set_inside last index t.items v (ltb→lt index last e)
            ∙ sym (
                rw
                  (
                    read,
                    take-set_inside last index (take t.count t.items) v (ltb→lt index last e),
                    shorter,
                  )
                  refl),
      )
      | inr e ↦ (
        record t { count = last; items = set t.items last uint256_zero },
        rw (c1, e) refl,
        (length-set t.items last uint256_zero ∙ full, omega (arith, low)),
        take-set_outside last last t.items uint256_zero (omega arith)
            ∙ sym (take-set_outside last index (take t.count t.items) _ (ground arith) ∙ shorter),
      )
    ]

-- A new tree is empty and has room for at least `size` elements.
pub uint256_merkle_tree_new_lem :
    (size : ℕ)
    → IsWellFormed (uint256_merkle_tree_new size)
      × (elements (uint256_merkle_tree_new size) ≡ [])
      × (size ≤ (uint256_merkle_tree_new size).max_size)
unfolding uint256_merkle_tree_new elements IsWellFormed
uint256_merkle_tree_new_lem size =
    let (full, low, room, same, kept) =
      merkle_tree_resize_lem
        (record { max_size = 0; count = 0; merkle_root = uint256_zero; items = [] }) size
        (refl, omega arith) in
    ((full, omega (arith, low, same)), kept, room)

-- On a well-formed tree merkle_tree_set returns 0 exactly for an index in use, where it sets that
-- element in use; otherwise the elements in use stay. The tree stays well formed.
pub merkle_tree_set_lem :
    (t : MerkleTree) (index : ℕ) (item : Uint256)
    → IsWellFormed t
    → (u : MerkleTree) × (merkle_tree_set t index item ≡ (ltb index t.count, u))
      × IsWellFormed u
      × (elements u ≡ set (elements t) index item)
unfolding merkle_tree_set elements IsWellFormed
merkle_tree_set_lem t index item (full, low) = elim (Bool-cases (leb t.count index)) [
  | inl e ↦ (
    t,
    rw (e, ge→ltb index t.count (leb→le t.count index e)) refl,
    (full, low),
    sym (
        set_beyond (take t.count t.items) index item (
          omega (
            arith,
            full,
            low,
            leb→le t.count index e,
            length-take t.count t.items (omega (arith, full, low)),
          ))),
  )
  | inr e ↦ (
    record t { items = set t.items index item },
    rw (e, lt→ltb index t.count (leb-false t.count index e)) refl,
    (length-set t.items index item ∙ full, low),
    take-set_inside t.count index t.items item (leb-false t.count index e),
  )
]
