-- ===== src/Tests/Blocks.antt =====
-- Targets, Merkle trees and blocks.
use bitcoin_clib.Base.{
  ℕ, ◌+◌, ◌-◌, ◌*◌, ◌^◌, ◌≤◌, ◌<◌, ◌≡◌, ◌↔◌, ◌⊎◌, refl, List, [], ◌∷◌, ◌++◌, true, false, arith,
  length, take, replicate, none, ok, load, read, le_get, le_put, All, IsByte, Uint256, uint256_zero,
}
use bitcoin_clib.Varint.{varint_size, varint_get, varint_width}
use bitcoin_clib.Varstr.{varstr_size, varstr_clone, varstr_getdata_ptr}
use bitcoin_clib.Txin.{load_outpoint, checked_clone, outpoint_bytes, satoshi_txin_parse}
use bitcoin_clib.Txout.{txout_flags, satoshi_txout_parse}
use bitcoin_clib.Tx.Parse.{
  satoshi_tx_parse, parse_flag, parse_txin_section, parse_varint, parse_txins, parse_txout_section,
  parse_txouts, parse_witness_section,
}
use bitcoin_clib.Tests.Txs.{always, payment, payment_bytes}
use bitcoin_clib.Payload.{bytes_eq}
use bitcoin_clib.Hash.{hash256, trivial_hash}
use bitcoin_clib.CompactInt.{
  CompactUint256, significant_bytes, compact_of, uint256_to_compact, compact_to_uint256,
  compare_words, uint256_compare, uint256_compare_with_compact,
}
use bitcoin_clib.CompactInt.Order.{order, uint256_compare_lem}
use bitcoin_clib.CompactInt.Value.{compact_to_uint256_lem}
use bitcoin_clib.CompactInt.Rounding.{uint256_to_compact_lem, uint256_to_compact_shrink}
use bitcoin_clib.Merkle.{
  MerkleTree, merkle_tree_resize, uint256_merkle_tree_new, store_items, merkle_tree_add, recalc_int,
  merkle_tree_recalc,
}
use bitcoin_clib.Merkle.Array.{elements, IsWellFormed, merkle_tree_add_lem}
use bitcoin_clib.Merkle.Root.{IsRoot, merkle_tree_recalc_lem, merkle_tree_recalc_duplicate}
use bitcoin_clib.Block.{
  BlockHeader, Block, header_bytes, load_header, parse_txns, parse_body, compact_at_bits,
  satoshi_block_header_verify, satoshi_block_parse,
}
use bitcoin_clib.Block.Work.{
  target_of, satoshi_block_header_verify_lem, satoshi_block_header_verify_stored,
}
use bitcoin_clib.Block.Sound.{satoshi_block_parse_sound}

abbrev number : Uint256
number = replicate 4 3 ++ (17 ∷ replicate 27 0)

abbrev large : Uint256
large = replicate 29 0 ++ (1 ∷ 2 ∷ 3 ∷ [])

number-IsByte : All IsByte number
number-IsByte = ground arith

large-IsByte : All IsByte large
large-IsByte = ground arith

abbrev bits_of_one : CompactUint256
bits_of_one = record { mantissa = 255 ∷ 255 ∷ 0 ∷ []; exp = 29 }

compact_to_uint256_lem_example :
    (le_get (compact_to_uint256 bits_of_one) ≡ 256 ^ 26 * le_get (255 ∷ 255 ∷ 0 ∷ []))
    × (length (compact_to_uint256 bits_of_one) ≡ 32)
compact_to_uint256_lem_example = compact_to_uint256_lem bits_of_one refl (omega arith) (omega arith)

number_exp : (uint256_to_compact number).exp ≡ 5
unfolding uint256_to_compact significant_bytes compact_of
number_exp = refl

uint256_to_compact_lem_example :
    (le_get (compact_to_uint256 (uint256_to_compact number)) ≤ le_get number)
    × (le_get number
        < le_get (compact_to_uint256 (uint256_to_compact number))
          + 256 ^ ((uint256_to_compact number).exp - 3))
uint256_to_compact_lem_example =
    uint256_to_compact_lem number number-IsByte refl (omega (arith, number_exp))
      (omega (arith, number_exp))

large_exp : (uint256_to_compact large).exp ≡ 32
unfolding uint256_to_compact significant_bytes compact_of
large_exp = refl

uint256_to_compact_shrink_example :
    256 ^ ((uint256_to_compact large).exp - 29)
      * le_get (compact_to_uint256 (uint256_to_compact large))
    ≤ le_get large
uint256_to_compact_shrink_example =
    uint256_to_compact_shrink large refl (omega (arith, large_exp)) (omega (arith, large_exp))

uint256_compare_lem_example : uint256_compare number large ≡ order (le_get number) (le_get large)
uint256_compare_lem_example = uint256_compare_lem number large number-IsByte large-IsByte refl refl

abbrev first_hash : List ℕ → Uint256
first_hash bs = take 32 bs

abbrev tree : MerkleTree
tree = record {
  max_size = 3;
  count = 3;
  merkle_root = uint256_zero;
  items = number ∷ large ∷ number ∷ [];
}

abbrev longer_tree : MerkleTree
longer_tree = record {
  max_size = 4;
  count = 4;
  merkle_root = uint256_zero;
  items = number ∷ large ∷ number ∷ number ∷ [];
}

merkle_tree_recalc_lem_example :
    (r : Uint256) × (merkle_tree_recalc first_hash tree 0 none
      ≡ ok (record tree { merkle_root = r }))
    × IsRoot first_hash (number ∷ large ∷ number ∷ []) r
merkle_tree_recalc_lem_example =
    merkle_tree_recalc_lem first_hash tree (omega arith) (omega arith) (omega arith)

merkle_tree_recalc_duplicate_example :
    (r : Uint256) × (merkle_tree_recalc first_hash tree 0 none
      ≡ ok (record tree { merkle_root = r }))
    × (merkle_tree_recalc first_hash longer_tree 0 none
        ≡ ok (record longer_tree { merkle_root = r }))
merkle_tree_recalc_duplicate_example =
    merkle_tree_recalc_duplicate first_hash tree longer_tree (number ∷ large ∷ []) number
      (omega arith) refl (omega arith) refl refl refl refl

tree-IsWellFormed : IsWellFormed tree
unfolding IsWellFormed
tree-IsWellFormed = (refl, omega arith)

merkle_tree_add_lem_example :
    (u : MerkleTree) × (merkle_tree_add tree (large ∷ []) ≡ ok u)
    × IsWellFormed u
    × (elements u ≡ elements tree ++ large ∷ [])
merkle_tree_add_lem_example =
    merkle_tree_add_lem tree (large ∷ []) tree-IsWellFormed (omega arith) (omega arith)

abbrev hdr : BlockHeader
hdr = record {
  version = 1;
  prev_hash = replicate 32 0;
  merkle_root = replicate 32 0;
  timestamp = 0;
  bits = 0x1d00ffff;
  nonce = 0;
}

zeros-IsByte : All IsByte (replicate 32 0)
zeros-IsByte = ground arith

satoshi_block_header_verify_lem_example :
    ((satoshi_block_header_verify trivial_hash uint256_zero false hdr).0 ≡ true)
    ↔ (le_get (replicate 32 0) ≤ le_get (target_of hdr))
satoshi_block_header_verify_lem_example =
    satoshi_block_header_verify_lem trivial_hash uint256_zero hdr zeros-IsByte

satoshi_block_header_verify_stored_example :
    ((satoshi_block_header_verify trivial_hash number true hdr).1
      ≡ hash256 trivial_hash (header_bytes hdr))
    × (((satoshi_block_header_verify trivial_hash number true hdr).0 ≡ true)
        ↔ (le_get number ≤ le_get (target_of hdr)))
satoshi_block_header_verify_stored_example =
    satoshi_block_header_verify_stored trivial_hash number hdr number-IsByte refl

abbrev header_payload : List ℕ
header_payload =
    (1 ∷ 0 ∷ 0 ∷ 0 ∷ replicate 32 0)
    ++ (replicate 32 0 ++ (0 ∷ 0 ∷ 0 ∷ 0 ∷ 0xff ∷ 0xff ∷ 0 ∷ 0x1d ∷ 0 ∷ 0 ∷ 0 ∷ 0 ∷ []))

abbrev block_payload : List ℕ
block_payload = header_payload ++ (1 ∷ payment_bytes)

abbrev empty_block : Block
empty_block = record { hdr = hdr; txns = []; hash = uint256_zero }

abbrev block : Block
block = record { hdr = hdr; txns = payment ∷ []; hash = uint256_zero }

block_run :
    satoshi_block_parse trivial_hash 1000 always uint256_zero empty_block block_payload
    ≡ ok (block, 81 + length payment_bytes)
unfolding satoshi_block_parse load_header load read le_get le_put satoshi_block_header_verify
    header_bytes compact_at_bits uint256_compare_with_compact uint256_compare compare_words
    compact_to_uint256 parse_body parse_txns varint_size varint_get varint_width merkle_tree_add
    merkle_tree_resize uint256_merkle_tree_new store_items merkle_tree_recalc recalc_int bytes_eq
    satoshi_tx_parse parse_flag parse_txin_section parse_varint parse_txins satoshi_txin_parse
    load_outpoint checked_clone varstr_clone varstr_size outpoint_bytes parse_txout_section
    parse_txouts satoshi_txout_parse txout_flags varstr_getdata_ptr parse_witness_section
block_run = refl

satoshi_block_parse_sound_example :
    ((block.txns ≡ []) × (81 + length payment_bytes ≡ 80) × (length block_payload ≡ 80))
    ⊎ (IsRoot (hash256 trivial_hash) (replicate 32 0 ∷ []) (replicate 32 0)
        × (80 ≤ 81 + length payment_bytes)
        × (81 + length payment_bytes ≤ length block_payload)
        × (81 + length payment_bytes ≤ 4000000))
satoshi_block_parse_sound_example =
    satoshi_block_parse_sound trivial_hash 1000 always uint256_zero empty_block block block_payload
      (81 + length payment_bytes) block_run
