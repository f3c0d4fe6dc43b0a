-- ===== src/Lib.antt =====
-- A verification library for the parts of bitcoin-clib that read, write and check transactions and
-- blocks, that run scripts, and for the containers beside them.
--
-- Base holds what the modules share: Boolean tests (Tests), C arrays as lists (Lists), what a C
-- function does (Outcomes: it returns, takes its error return, stops in an assert, or accesses memory
-- outside an object), memory and little-endian words (Bytes), and signed results (Ints).
--
-- The program's parts, bottom up, and the file that models each:
--   src/satoshi-types.c, varint_*: Varint; proofs in Varint/Codec.
--   src/satoshi-types.c, varstr_*: Varstr; Create, Resize and Update say what each operation does.
--   src/satoshi-types.c, satoshi_txin_* and satoshi_txout_*: Txin and Txout; Laws goes from the object
--     to the bytes and back, Sound from arbitrary bytes to the object and back.
--   src/satoshi-tx.c, satoshi_tx_parse: Tx/Parse; satoshi_tx_serialize and satoshi_tx_cleanup: Tx.
--     Arrays, Witnesses and Sections take the loops apart, Legacy and Segwit the two wire forms,
--     RoundTrip puts them together, and Unwitnessed is about the flag without witnesses.
--   src/merkle_tree.c: Merkle; Level describes a layer, Root the whole tree, Array the operations.
--   src/compact_int.c: CompactInt; Order, Value, Significant and Rounding relate it to numbers.
--   src/satoshi-block.c: Block, which calls Tx, Merkle and CompactInt; Work is about the proof of work,
--     Ids and Sound about accepted blocks.
--   src/satoshi-script.c, the data on the stack: ScriptData, with Strings for pushed strings; the
--     stack and the push of data: ScriptStack, with Array, PushData, and Held for its items as a list.
--   src/satoshi-script.c, the engine: Script has its state, Script/Ops, Script/Checks and
--     Script/Branches the opcodes, Script/Parse the loop of scripts_parse and the redeem scripts,
--     and Script/Entry scripts_parse itself with the segwit programs. Hashes, Imports and
--     Signatures say what opcodes do on a stack held as a list, Rounds and PayToPubkeyHash what the
--     standard script does, Spend the same with the digest of an attached transaction, Multisig
--     what a multisignature check does, Ends, Termination and Total are about termination,
--     Balanced, Scan and Conditional about OP_IF.
--   src/satoshi-tx.c, satoshi_rawtx_*, and src/segwit-tx.c: RawTx, which the engine calls for its
--     digests, and TxHash with the parts that are hashed; Hashed and Legacy relate the digest of a
--     legacy input to serialized transactions, Segwit that of a segwit input to the items of BIP
--     143.
--   src/crypto.c, what the engine calls of it: Crypto.
--   utils/auto_buffer.c: AutoBuffer.   utils/clib-stack.c: ClibStack, with its nodes in a heap.
-- Payload has the bounds test that the parsers share, and Tests the concrete runs.
--
-- Correspondence. A function keeps its C name. A pointer into memory is the list of the bytes from it
-- to the end of its object, so a read past the end is the outcome `fault`; `none` is NULL. A pointer
-- `p` of a parser is the list of the bytes up to `p_end`, an address that the parsers take as a
-- parameter since `p + size` may wrap. A size read from a payload wraps at 2 ^ 64. Allocations are
-- taken to succeed, except that the arrays of a transaction or a block whose length is read from a
-- payload, and the byte buffer, ask a parameter whether there is memory. The error path's cleanup is
-- part of `err`.
-- A call with `p_data == NULL`, which only asks for the size, is a function of its own (`_size`).
-- SHA-256 is code outside this repository and a parameter, HashFunctions, of which only the length of
-- a digest is used; where a theorem needs that a digest consists of bytes, it says so.
--
-- The engine's functions take its state and return it, in `done` with a result or in `fail` with the
-- error return; `stopped` is an assert that fails, `wrong` an access that is undefined. What the engine
-- calls is a record of parameters, Env: the hash functions, secp256k1, and what is left open by the
-- language: the low byte of an address, which OP_CHECKMULTISIG reads as a count where a string is on
-- the stack, and memory before the first store. A hash context is the list of the bytes it was updated
-- with.
-- A call of scripts->parse from an opcode is the argument `parse` of that opcode.
--
-- Bounds. The loop of scripts_parse and the branches of conditionals inside it run on one fuel, one
-- more than the payload's length: each round takes its opcode, and a branch is shorter than the
-- payload. The scan for an endif has the same fuel, since each of its rounds takes a byte. Merkle
-- trees have at most 32 layers in the source (MERKLE_TREE_MAX_LAYERS), and the loop over the layers
-- counts down from 32. merkle_tree_recalc keeps the low 32 bits of the number of elements, an `int`:
-- one that is negative or overflows has its own branches, so the theorems on roots are for fewer than
-- 2 ^ 31 - 1 elements. The count of a stack or queue is an `int` too; a push that overflows it is a
-- `fault`. last_hashed_txin_index, an `int`, is not cut to 32 bits: it is less than the number of
-- inputs, and satoshi_tx_parse takes at most 4000000 bytes. All other loops are structural.
--
-- Not modelled: logging and dumping; GMP and floating point in src/compact_int.c; the deprecated
-- digests in src/satoshi-tx.c and the rest of src/crypto.c; the block chain, the message codecs and
-- the remaining utilities; the database, network, JSON and SPV node code, which is input and
-- output.
pub mod Base
pub mod Varint
pub mod Varstr
pub mod Payload
pub mod Txin
pub mod Txout
pub mod Hash
pub mod Tx
pub mod Merkle
pub mod CompactInt
pub mod Block
pub mod AutoBuffer
pub mod ClibStack
pub mod Tests
pub mod ScriptData
pub mod ScriptStack
pub mod Crypto
pub mod TxHash
pub mod RawTx
pub mod Script
