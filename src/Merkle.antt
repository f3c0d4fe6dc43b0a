-- ===== src/Merkle.antt =====
-- src/merkle_tree.c: a growing array of hashes and the root of the binary hash tree over it.
-- A `uint256` is the list of its 32 bytes. `items` is the whole array of `max_size` elements, of
-- which the first `count` are in use; an allocation never fails.
pub mod Level
pub mod Root
pub mod Array
use bitcoin_clib.Base.{
  Uint256, uint256_zero, ℕ, zero, suc, ◌+◌, ◌-◌, ◌*◌, ◌/◌, ◌%◌, ◌≤◌, ◌<◌, List, [], ◌∷◌, ◌++◌, Bool,
  true, false, ◌^◌, ltb, leb, ◌==◌, if◌then◌else◌, length, take, get_or, set, replicate, Option,
  none, some, Outcome, ok, abort, fault, ◌>>=◌, ◌>>◌, assert,
}

pub record MerkleTree : Type 0 where
  pub max_size : ℕ
  pub count : ℕ
  pub merkle_root : Uint256
  pub items : List Uint256

-- Rounded up to the allocation size; the new elements are zero.
unfoldable pub merkle_tree_resize : MerkleTree → ℕ → MerkleTree
merkle_tree_resize t size =
    let new_size = (size + 4096 - 1) / 4096 * 4096 in
    if leb new_size t.max_size then t else record t {
      items = t.items ++ replicate (new_size - t.max_size) uint256_zero;
      max_size = new_size;
    }

unfoldable pub uint256_merkle_tree_new : ℕ → MerkleTree
uint256_merkle_tree_new max_size =
    merkle_tree_resize (record { max_size = 0; count = 0; merkle_root = uint256_zero; items = [] })
      max_size

-- `for(i) dst[i] = items[i];` from index `i` of the array on.
unfoldable pub store_items : List Uint256 → ℕ → List Uint256 → List Uint256
store_items array i [] = array
store_items array i (x ∷ xs) = store_items (set array i x) (i + 1) xs

-- `count`, an int, is the length of `items`, so there are fewer than 2 ^ 31 of them. The assert on the
-- sum, an `ssize_t`, fails for none.
unfoldable pub merkle_tree_add : MerkleTree → List Uint256 → Outcome MerkleTree
merkle_tree_add t items = do
  assert (ltb t.count (t.count + length items))
  let r = merkle_tree_resize t (t.count + length items)
  ok (record r { items = store_items r.items r.count items; count = r.count + length items })

-- The return value, 0 or -1, and the tree: the last element takes the place of the removed one.
unfoldable pub merkle_tree_remove : MerkleTree → ℕ → Bool × MerkleTree
merkle_tree_remove t index =
    if leb t.count index
    then (false, t)
    else (let last = t.count - 1 in
        let moved =
          if ltb index last
          then set t.items index (get_or t.items last uint256_zero)
          else t.items in
        (true, record t { count = last; items = set moved last uint256_zero }))

unfoldable pub merkle_tree_set : MerkleTree → ℕ → Uint256 → Bool × MerkleTree
merkle_tree_set t index item =
    if leb t.count index then (false, t) else (true, record t { items = set t.items index item })

-- `hash_func(data, 64, ...)` on two hashes that lie side by side.
module _ (hash_func : List ℕ → Uint256) where
  -- The pairs from index `i` on, for `rounds` rounds of the loop.
  unfoldable pub hash_pairs : List Uint256 → ℕ → ℕ → List Uint256
  hash_pairs items i zero = []
  hash_pairs items i (suc rounds) =
      hash_func (get_or items (i * 2) uint256_zero ++ get_or items (i * 2 + 1) uint256_zero)
      ∷ hash_pairs items (i + 1) rounds

  -- One layer from the `count` elements below it; an odd last element is hashed with itself.
  unfoldable pub hash_layer : List Uint256 → ℕ → List Uint256
  unfolding hash_pairs
  hash_layer items count =
      let last = get_or items (count - 1) uint256_zero in
      hash_pairs items 0 (count / 2)
      ++ (if count % 2 == 1 then hash_func (last ++ last) ∷ [] else [])

  -- The loop over the layers with `left` of them to go, for a count of at least 0; the root if it was
  -- reached.
  unfoldable pub recalc_layers : ℕ → List Uint256 → ℕ → Option Uint256
  unfolding hash_layer
  recalc_layers zero items count = none
  recalc_layers (suc left) items count =
      let layer = hash_layer items count in
      let layer_size = (count + 1) / 2 in
      let above = recalc_layers left layer layer_size in
      if layer_size == 1 then some (get_or layer 0 uint256_zero) else above

  -- The same loop for the count `- below`: no pair is hashed, an odd count reads in front of the
  -- array, and the next count is `(1 - below) / 2`, rounded towards 0.
  unfoldable pub recalc_layers_below : ℕ → ℕ → Outcome (Option Uint256)
  recalc_layers_below zero below = ok none
  recalc_layers_below (suc left) below =
      let above = recalc_layers_below left ((below - 1) / 2) in
      if below % 2 == 1 then fault else above

  -- The loop for a count that is an int, given by its 32 bits. The sum of the highest int and 1
  -- overflows; a count past the array reads behind it.
  unfoldable pub recalc_int : List Uint256 → ℕ → Outcome (Option Uint256)
  recalc_int items count =
      if count == 2 ^ 31 - 1
      then fault
      else if ltb count (2 ^ 31)
      then (if ltb (length items) count then fault else ok (recalc_layers 32 items count))
      else recalc_layers_below 32 (2 ^ 32 - count)

  -- `count`, an int, is `none` when it is negative; 0 too stands for the `ssize_t` number of all
  -- elements behind `start_index`, of which an int keeps the low 32 bits.
  unfoldable pub merkle_tree_recalc : MerkleTree → ℕ → Option ℕ → Outcome MerkleTree
  merkle_tree_recalc t start_index count =
      if leb t.count 1
      then ok (if t.count == 1 then record t { merkle_root = get_or t.items 0 uint256_zero } else t)
      else do
        assert (ltb start_index t.count)
        assert (start_index == 0)
        let all : ℕ = (t.count - start_index) % 2 ^ 32
        let chosen : ℕ = elim count [ none ↦ all | some n ↦ if n == 0 then all else n ]
        root ← recalc_int t.items chosen
        elim root [ none ↦ ok t | some r ↦ ok (record t { merkle_root = r }) ]
