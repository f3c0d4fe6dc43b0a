-- ===== src/Block/Work.antt =====
-- The proof-of-work test of a header.
use bitcoin_clib.Base.{
  ℕ, ◌-◌, ◌/◌, ◌%◌, ◌^◌, ◌≤◌, ◌<◌, ◌≡◌, ◌↔◌, refl, true, false, not, ltb, arith, length, All,
  IsByte, length-le_put, le_put-IsByte, le_get, le_get-lt, Uint256, is_gt_zero,
}
use bitcoin_clib.Hash.{HashFunctions, hash256}
use bitcoin_clib.CompactInt.{compact_to_uint256, uint256_compare_with_compact}
use bitcoin_clib.CompactInt.Order.{order, uint256_compare_lem}
use bitcoin_clib.CompactInt.Value.{length-compact_to_uint256, compact_to_uint256-IsByte}
use bitcoin_clib.Block.{BlockHeader, header_bytes, compact_at_bits, satoshi_block_header_verify}

-- The target of a header.
unfoldable pub target_of : BlockHeader → Uint256
target_of hdr = compact_to_uint256 (compact_at_bits hdr.bits)

length-target_of : (hdr : BlockHeader) → length (target_of hdr) ≡ 32
unfolding target_of compact_at_bits
length-target_of hdr =
    length-compact_to_uint256 (compact_at_bits hdr.bits) (length-le_put 3 hdr.bits)

target_of-IsByte : (hdr : BlockHeader) → All IsByte (target_of hdr)
unfolding target_of compact_at_bits
target_of-IsByte hdr =
    compact_to_uint256-IsByte (compact_at_bits hdr.bits) (le_put-IsByte 3 hdr.bits)

order_le : (x y : ℕ) → (not (is_gt_zero (order x y)) ≡ true) ↔ (x ≤ y)
unfolding order
order_le x y = (λ h. ground arith, λ h. ground arith)

-- Called without a place for the hash, satoshi_block_header_verify returns 0 exactly if the
-- double SHA-256 of the 80 header bytes, a string of bytes read as a little-endian number, is at
-- most the target that the header's bits stand for.
pub satoshi_block_header_verify_lem :
    (h : HashFunctions) (local : Uint256) (hdr : BlockHeader)
    → All IsByte (hash256 h (header_bytes hdr))
    → ((satoshi_block_header_verify h local false hdr).0 ≡ true)
      ↔ (le_get (hash256 h (header_bytes hdr)) ≤ le_get (target_of hdr))
unfolding satoshi_block_header_verify target_of uint256_compare_with_compact
satoshi_block_header_verify_lem h local hdr bytes =
    let value = hash256 h (header_bytes hdr) in
    let compared =
      uint256_compare_lem value (target_of hdr) bytes (target_of-IsByte hdr)
        (h.length-sha256 (h.sha256 (header_bytes hdr))) (length-target_of hdr) in
    rw compared (order_le (le_get value) (le_get (target_of hdr)))

-- Called with a place for the hash, satoshi_block_header_verify stores the double SHA-256 of the
-- 80 header bytes there, but returns 0 exactly if what its own array held before the call (32
-- bytes, read as a little-endian number) is at most the target that the header's bits stand for:
-- the hash is not what is compared.
pub satoshi_block_header_verify_stored :
    (h : HashFunctions) (local : Uint256) (hdr : BlockHeader)
    → All IsByte local
    → length local ≡ 32
    → ((satoshi_block_header_verify h local true hdr).1 ≡ hash256 h (header_bytes hdr))
      × (((satoshi_block_header_verify h local true hdr).0 ≡ true)
          ↔ (le_get local ≤ le_get (target_of hdr)))
unfolding satoshi_block_header_verify target_of uint256_compare_with_compact
satoshi_block_header_verify_stored h local hdr bytes size =
    let compared =
      uint256_compare_lem local (target_of hdr) bytes (target_of-IsByte hdr) size
        (length-target_of hdr) in
    (refl, rw compared (order_le (le_get local) (le_get (target_of hdr))))

nan_value :
    (hdr : BlockHeader) → 32 < hdr.bits / 2 ^ 24 % 256 → le_get (target_of hdr) ≡ 256 ^ 32 - 1
unfolding target_of compact_at_bits compact_to_uint256 le_get
nan_value hdr big =
    let c : ltb 32 (hdr.bits / 2 ^ 24 % 256) ≡ true = ground (arith, big) in rw c refl

-- A header whose bits have an exponent above 32 is accepted by satoshi_block_header_verify
-- without a place for the hash, whatever the hash (a string of bytes): the target is the highest
-- number.
pub satoshi_block_header_verify_nan :
    (h : HashFunctions) (local : Uint256) (hdr : BlockHeader)
    → All IsByte (hash256 h (header_bytes hdr))
    → 32 < hdr.bits / 2 ^ 24 % 256
    → (satoshi_block_header_verify h local false hdr).0 ≡ true
satoshi_block_header_verify_nan h local hdr bytes big =
    let value = hash256 h (header_bytes hdr) in
    let most : le_get (target_of hdr) ≡ 256 ^ 32 - 1 = nan_value hdr big in
    let small = rw (h.length-sha256 (h.sha256 (header_bytes hdr))) at (le_get-lt value bytes) in
    (satoshi_block_header_verify_lem h local hdr bytes).1 (rw most (omega (arith, small)))
