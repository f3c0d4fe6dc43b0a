-- ===== src/Block.antt =====
-- src/satoshi-block.c: the block header, its proof-of-work test, and the block parser and serializer.
-- The array `txns` of `txn_count` elements is a list, which is empty for NULL.
pub mod Work
pub mod Ids
pub mod Sound
use bitcoin_clib.Base.{
  ℕ, zero, suc, ◌+◌, ◌-◌, ◌*◌, ◌/◌, ◌%◌, ◌^◌, ◌≤◌, ◌<◌, List, [], ◌∷◌, ◌++◌, Bool, true, false, not,
  ltb, leb, ◌==◌, if◌then◌else◌, length, take, drop, Option, none, some, Outcome, ok, err, abort,
  fault, ◌>>=◌, ◌>>◌, reject_if, assert, le_put, le_get, read, load, Uint256, uint256_zero,
  is_gt_zero,
}
use bitcoin_clib.Varint.{varint_calc_size, varint_bytes, varint_size, varint_get}
use bitcoin_clib.Varstr.{is_positive}
use bitcoin_clib.Payload.{past_end, bytes_eq}
use bitcoin_clib.Hash.{HashFunctions, hash256}
use bitcoin_clib.Tx.{Tx, tx_zero, satoshi_tx_serialize, satoshi_tx_size, sum_sizes}
use bitcoin_clib.Tx.Parse.{satoshi_tx_parse}
use bitcoin_clib.Merkle.{MerkleTree, uint256_merkle_tree_new, merkle_tree_add, merkle_tree_recalc}
use bitcoin_clib.CompactInt.{CompactUint256, uint256_compare_with_compact}

pub record BlockHeader : Type 0 where
  pub version : ℕ
  pub prev_hash : Uint256
  pub merkle_root : Uint256
  pub timestamp : ℕ
  pub bits : ℕ
  pub nonce : ℕ

pub record Block : Type 0 where
  pub hdr : BlockHeader
  pub txns : List Tx
  pub hash : Uint256

-- The 80 bytes of the packed struct, the same in memory and on the wire.
unfoldable pub header_bytes : BlockHeader → List ℕ
header_bytes hdr =
    le_put 4 hdr.version
    ++ (hdr.prev_hash
        ++ (hdr.merkle_root
            ++ (le_put 4 hdr.timestamp ++ (le_put 4 hdr.bits ++ le_put 4 hdr.nonce))))

-- `memcpy(&block->hdr, p, 80)`
unfoldable pub load_header : List ℕ → Outcome BlockHeader
load_header p = do
  version ← load 4 p
  prev_hash ← read 32 (drop 4 p)
  merkle_root ← read 32 (drop 36 p)
  timestamp ← load 4 (drop 68 p)
  bits ← load 4 (drop 72 p)
  nonce ← load 4 (drop 76 p)
  ok (record {
    version = version;
    prev_hash = prev_hash;
    merkle_root = merkle_root;
    timestamp = timestamp;
    bits = bits;
    nonce = nonce;
  })

-- `(compact_uint256_t *)&hdr->bits`
unfoldable pub compact_at_bits : ℕ → CompactUint256
compact_at_bits bits = record { mantissa = le_put 3 bits; exp = bits / 2 ^ 24 % 256 }

unfoldable pub satoshi_block_cleanup : Block → Block
satoshi_block_cleanup block = record block { txns = [] }

module _ (h : HashFunctions) where
  -- Whether 0 is returned, and the hash. `local` is what the function's own array holds before the
  -- call; the hash is stored there only where the caller gives no place for it.
  unfoldable pub satoshi_block_header_verify : Uint256 → Bool → BlockHeader → Bool × Uint256
  satoshi_block_header_verify local has_output hdr =
      let value = hash256 h (header_bytes hdr) in
      let hash = if has_output then local else value in
      let compare_diff = uint256_compare_with_compact hash (compact_at_bits hdr.bits) in
      (not (is_gt_zero compare_diff), value)

  module _ (p_end : ℕ) (calloc : ℕ → Bool) where
    -- The loop over the transactions, with the tree of their ids.
    unfoldable pub parse_txns : ℕ → MerkleTree → List ℕ → Outcome (List Tx × MerkleTree × List ℕ)
    parse_txns zero mtree p = ok ([], mtree, p)
    parse_txns (suc count) mtree p = do
      reject_if (leb (length p) 0)
      (tx, tx_size) ← satoshi_tx_parse p_end calloc h tx_zero p
      reject_if (leb tx_size 0)
      next ← merkle_tree_add mtree (tx.txid ∷ [])
      (txns, full, q) ← parse_txns count next (drop tx_size p)
      ok (tx ∷ txns, full, q)

    -- Everything behind the header, and the position after it.
    unfoldable pub parse_body : BlockHeader → List ℕ → Outcome (List Tx × List ℕ)
    parse_body hdr p = do
      vint_size ← varint_size p
      reject_if (past_end p_end p vint_size)
      txn_count ← varint_get p
      reject_if (not (is_positive txn_count))
      assert (calloc txn_count)
      (txns, mtree, q) ← parse_txns txn_count (uint256_merkle_tree_new txn_count) (drop vint_size p)
      tree ← merkle_tree_recalc (hash256 h) mtree 0 none
      reject_if (not (bytes_eq hdr.merkle_root tree.merkle_root))
      ok (txns, q)

    -- The block, and the number of bytes taken. A payload of the header alone is a block without
    -- transactions.
    unfoldable pub satoshi_block_parse : Uint256 → Block → List ℕ → Outcome (Block × ℕ)
    satoshi_block_parse local block payload = do
      assert (ltb 0 (length payload))
      reject_if (ltb (length payload) 80)
      hdr ← load_header payload
      let (valid, hash) = satoshi_block_header_verify local true hdr
      reject_if (not valid)
      if length payload == 80
          then ok (record { hdr = hdr; txns = []; hash = hash }, 80)
          else (parse_body hdr (drop 80 payload) >>= λ (txns, q).
              assert (leb (length payload - length q) 4000000)
              >> ok (record { hdr = hdr; txns = txns; hash = hash }, length payload - length q))

unfoldable pub serialize_txns : List Tx → Outcome (List ℕ)
serialize_txns [] = ok []
serialize_txns (tx ∷ txns) = do
  bs ← satoshi_tx_serialize tx
  assert (ltb 0 (length bs))
  rest ← serialize_txns txns
  ok (bs ++ rest)

-- With `p_data == NULL`: the size alone.
unfoldable pub satoshi_block_size : Block → Outcome ℕ
satoshi_block_size block = do
  tx_size ← sum_sizes satoshi_tx_size block.txns
  let vint_size : ℕ = if ltb 0 (length block.txns) then varint_calc_size (length block.txns) else 0
  assert (leb (80 + vint_size + tx_size) 4000000)
  ok (80 + vint_size + tx_size)

-- The bytes written into a buffer of that size.
unfoldable pub satoshi_block_serialize : Block → Outcome (List ℕ)
satoshi_block_serialize block = do
  block_size ← satoshi_block_size block
  if block_size == 80
      then ok (header_bytes block.hdr)
      else (serialize_txns block.txns >>= λ txns.
          let bs = header_bytes block.hdr ++ (varint_bytes (length block.txns) ++ txns) in
          if ltb block_size (length bs) then fault else (assert (length bs == block_size) >> ok bs))
