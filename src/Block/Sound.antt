-- ===== src/Block/Sound.antt =====
-- What an accepted block satisfies.
use bitcoin_clib.Base.{
  ℕ, suc, ◌+◌, ◌-◌, ◌^◌, ◌≤◌, ◌<◌, ◌≡◌, ◌⊎◌, inl, inr, refl, sym, ap, ◌∙◌, List, [], ◌∷◌, ◌++◌, map,
  Bool, true, false, not, ltb, leb, ◌==◌, arith, length, drop, length-drop, none, Outcome, ok,
  ok-injective, >>=-eq-ok, reject_if-eq-ok, assert-eq-ok, Uint256, Bool-cases, ltb-false, equal→eq,
  leb→le,
}
use bitcoin_clib.Varint.{varint_size, varint_get}
use bitcoin_clib.Varstr.{is_positive}
use bitcoin_clib.Payload.{past_end, bytes_eq}
use bitcoin_clib.Payload.Laws.{bytes_eq_iff}
use bitcoin_clib.Hash.{HashFunctions, hash256}
use bitcoin_clib.Tx.{Tx}
use bitcoin_clib.Merkle.{MerkleTree, uint256_merkle_tree_new, merkle_tree_recalc}
use bitcoin_clib.Merkle.Array.{elements, uint256_merkle_tree_new_lem}
use bitcoin_clib.Merkle.Root.{IsRoot}
use bitcoin_clib.Block.{
  BlockHeader, Block, parse_txns, parse_body, load_header, satoshi_block_header_verify,
  satoshi_block_parse,
}
use bitcoin_clib.Block.Ids.{
  recalc_sound, length-elements, IsAdded, parse_txns_position, parse_txns_sound,
}

length-txids : (txns : List Tx) → length (map (λ tx. tx.txid) txns) ≡ length txns
length-txids [] = refl
length-txids (tx ∷ txns) = ap suc (length-txids txns)

not-false : (b : Bool) → not b ≡ false → b ≡ true
not-false true h = refl
not-false false h = cc

positive_of : (n : ℕ) → not (is_positive n) ≡ false → 1 ≤ n
positive_of n h = ground arith

IsRoot-of :
    (h : HashFunctions) (rest txns : List Tx) (r q : List ℕ) (root other : Uint256)
    (held : List Uint256) (p : List ℕ)
    → ◌≡◌ {A = List Tx × List ℕ} (rest, r) (txns, q)
    → held ≡ map (λ tx. tx.txid) rest
    → root ≡ other
    → IsRoot (hash256 h) held other
    → length r ≤ length p
    → IsRoot (hash256 h) (map (λ tx. tx.txid) txns) root × (length q ≤ length p)
IsRoot-of h rest txns r q root other held p result ids same is_root back =
    let txns_eq : rest ≡ txns = ap (λ x. x.0) result in
    let position : r ≡ q = ap (λ x. x.1) result in
    rw (← txns_eq, ← position, ← ids, same) (is_root, back)

body_facts :
    (h : HashFunctions) (hdr : BlockHeader) (count vint_size : ℕ) (p q r : List ℕ)
    (txns rest : List Tx) (mtree tree : MerkleTree)
    → not (is_positive count) ≡ false
    → IsAdded (uint256_merkle_tree_new count) count (rest, mtree, r)
    → count + length r ≤ length (drop vint_size p)
    → count < 2 ^ 31 - 1
    → merkle_tree_recalc (hash256 h) mtree 0 none ≡ ok tree
    → not (bytes_eq hdr.merkle_root tree.merkle_root) ≡ false
    → ◌≡◌ {A = Outcome (List Tx × List ℕ)} (ok (rest, r)) (ok (txns, q))
    → IsRoot (hash256 h) (map (λ tx. tx.txid) txns) hdr.merkle_root × (length q ≤ length p)
unfolding IsAdded
body_facts h hdr count vint_size p q r txns rest mtree tree some_tx (wf, all, size) back small
      calculated equal e =
    let (_, empty, _) = uint256_merkle_tree_new_lem count in
    let ids : List Uint256 = map (λ tx. tx.txid) rest in
    let held : elements mtree ≡ ids = all ∙ ap (λ l. l ++ ids) empty in
    let many : mtree.count ≡ count =
      sym (length-elements mtree wf) ∙ ap length held ∙ length-txids rest ∙ size in
    let some_element = positive_of count some_tx in
    let root =
      recalc_sound (hash256 h) mtree tree wf (omega (arith, many, some_element))
        (omega (arith, small, many)) calculated in
    let same_root : hdr.merkle_root ≡ tree.merkle_root =
      (bytes_eq_iff hdr.merkle_root tree.merkle_root).0 (not-false _ equal) in
    let result : ◌≡◌ {A = List Tx × List ℕ} (rest, r) (txns, q) = ok-injective e in
    IsRoot-of h rest txns r q hdr.merkle_root tree.merkle_root (elements mtree) p result held
      same_root root (omega (arith, back, length-drop vint_size p))

-- A result of the parser, taken apart.
block_eq :
    (b result : Block) (n size : ℕ)
    → ◌≡◌ {A = Outcome (Block × ℕ)} (ok (b, n)) (ok (result, size))
    → (b ≡ result) × (n ≡ size)
block_eq b result n size e =
    let same : ◌≡◌ {A = Block × ℕ} (b, n) (result, size) = ok-injective e in
    (ap (λ x. x.0) same, ap (λ x. x.1) same)

header_facts :
    (hdr : BlockHeader) (hash : Uint256) (result : Block) (payload : List ℕ) (size : ℕ)
    → length payload ≡ 80
    → ◌≡◌ {A = Outcome (Block × ℕ)}
        (ok (record { hdr = hdr; txns = []; hash = hash }, 80))
        (ok (result, size))
    → (result.txns ≡ []) × (size ≡ 80) × (length payload ≡ 80)
header_facts hdr hash result payload size long e =
    let (block, taken) = block_eq _ result 80 size e in
    (sym (ap (λ b. b.txns) block), sym taken, long)

block_facts :
    (h : HashFunctions) (hdr : BlockHeader) (hash : Uint256) (result : Block) (payload q : List ℕ)
    (txns : List Tx) (size : ℕ)
    → IsRoot (hash256 h) (map (λ tx. tx.txid) txns) hdr.merkle_root
    → length q ≤ length (drop 80 payload)
    → 80 ≤ length payload
    → leb (length payload - length q) 4000000 ≡ true
    → ◌≡◌ {A = Outcome (Block × ℕ)}
        (ok (record { hdr = hdr; txns = txns; hash = hash }, length payload - length q))
        (ok (result, size))
    → IsRoot (hash256 h) (map (λ tx. tx.txid) result.txns) result.hdr.merkle_root
      × (80 ≤ size)
      × (size ≤ length payload)
      × (size ≤ 4000000)
block_facts h hdr hash result payload q txns size root back long limit e =
    let (block, taken) = block_eq _ result _ size e in
    let txns_eq : txns ≡ result.txns = ap (λ b. b.txns) block in
    let root_eq : hdr.merkle_root ≡ result.hdr.merkle_root = ap (λ b. b.hdr.merkle_root) block in
    let few = leb→le _ 4000000 limit in
    (
      rw (← txns_eq, ← root_eq) root,
      omega (arith, taken, back, long, length-drop 80 payload),
      omega (arith, taken),
      omega (arith, taken, few),
    )

module _ (h : HashFunctions) (p_end : ℕ) (calloc : ℕ → Bool) where
  -- The body: the ids of the transactions have the root of the header.
  parse_body_sound :
      (hdr : BlockHeader) (p q : List ℕ) (txns : List Tx)
      → parse_body h p_end calloc hdr p ≡ ok (txns, q)
      → length p ≤ length q + 4000000
      → IsRoot (hash256 h) (map (λ tx. tx.txid) txns) hdr.merkle_root × (length q ≤ length p)
  unfolding parse_body
  parse_body_sound hdr p q txns e limit =
      let (vint_size, _, e1) = >>=-eq-ok (varint_size p) _ e in
      let (_, e2) = reject_if-eq-ok (past_end p_end p vint_size) _ e1 in
      let (count, _, e3) = >>=-eq-ok (varint_get p) _ e2 in
      let (some_tx, e4) = reject_if-eq-ok (not (is_positive count)) _ e3 in
      let (_, e5) = assert-eq-ok (calloc count) _ e4 in
      let start = uint256_merkle_tree_new count in
      let (wf, empty, _) = uint256_merkle_tree_new_lem count in
      let ((rest, mtree, r), parsed, e6) =
        >>=-eq-ok (parse_txns h p_end calloc count start (drop vint_size p)) _ e5 in
      let (tree, calculated, e7) = >>=-eq-ok (merkle_tree_recalc (hash256 h) mtree 0 none) _ e6 in
      let (equal, e8) = reject_if-eq-ok (not (bytes_eq hdr.merkle_root tree.merkle_root)) _ e7 in
      let position =
        parse_txns_position h p_end calloc count start (drop vint_size p) (rest, mtree, r) parsed in
      let same : length r ≡ length q = ap (λ x. length x.1) (ok-injective e8) in
      let few : count ≤ 4000000 = omega (arith, position, same, limit, length-drop vint_size p) in
      let none_yet = ap length empty in
      let small : start.count + count < 2 ^ 31 =
        omega (arith, few, none_yet, length-elements start wf) in
      body_facts h hdr count vint_size p q r txns rest mtree tree some_tx
        (parse_txns_sound h p_end calloc count start (drop vint_size p) (rest, mtree, r) wf small
          parsed)
        position (omega (arith, few)) calculated equal e8

  -- If satoshi_block_parse accepts a payload, then either the payload is a header of 80 bytes and
  -- the block has no transactions, or the Merkle root in the header is the root of the ids of the
  -- parsed transactions and the number of bytes taken is at least 80, at most the length of the
  -- payload and at most 4000000.
  pub satoshi_block_parse_sound :
      (local : Uint256) (block result : Block) (payload : List ℕ) (size : ℕ)
      → satoshi_block_parse h p_end calloc local block payload ≡ ok (result, size)
      → ((result.txns ≡ []) × (size ≡ 80) × (length payload ≡ 80))
        ⊎ (IsRoot (hash256 h) (map (λ tx. tx.txid) result.txns) result.hdr.merkle_root
            × (80 ≤ size)
            × (size ≤ length payload)
            × (size ≤ 4000000))
  unfolding satoshi_block_parse
  satoshi_block_parse_sound local block result payload size e =
      let (_, e1) = assert-eq-ok (ltb 0 (length payload)) _ e in
      let (long, e2) = reject_if-eq-ok (ltb (length payload) 80) _ e1 in
      let (hdr, _, e3) = >>=-eq-ok (load_header payload) _ e2 in
      let verified = satoshi_block_header_verify h local true hdr in
      let (_, e4) = reject_if-eq-ok (not verified.0) _ e3 in
      elim (Bool-cases (length payload == 80)) [
        | inl c ↦
            inl (header_facts hdr verified.1 result payload size (equal→eq _ 80 c) (rw c at e4))
        | inr c ↦
            let e5 = rw c at e4 in
            let ((txns, q), parsed, e6) =
              >>=-eq-ok (parse_body h p_end calloc hdr (drop 80 payload)) _ e5 in
            let (limit, e7) = assert-eq-ok (leb (length payload - length q) 4000000) _ e6 in
            let few = leb→le _ 4000000 limit in
            let (root, back) =
              parse_body_sound hdr (drop 80 payload) q txns parsed
                (omega (arith, few, length-drop 80 payload)) in
            inr (
              block_facts h hdr verified.1 result payload q txns size root back (ltb-false _ _ long)
                limit e7)
      ]
