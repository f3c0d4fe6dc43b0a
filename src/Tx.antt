-- ===== src/Tx.antt =====
-- src/satoshi-tx.c: `satoshi_tx_t`, its parser, its serializer and its cleanup.
pub mod Parse
pub mod Arrays
pub mod Witnesses
pub mod Sections
pub mod Legacy
pub mod Segwit
pub mod RoundTrip
pub mod Unwitnessed
use bitcoin_clib.Base.{
  ℕ, zero, suc, ◌+◌, ◌-◌, ◌%◌, ◌^◌, ◌≤◌, ◌<◌, List, [], ◌∷◌, ◌++◌, Bool, true, false, ◌&&◌, ◌||◌,
  ltb, leb, ◌==◌, if◌then◌else◌, length, take, drop, replicate, Option, none, some, Outcome, ok,
  err, abort, fault, ◌>>=◌, ◌>>◌, reject_if, assert, le_put, read, load,
}
use bitcoin_clib.Varint.{varint_size, varint_get, varint_bytes, varint_calc_size}
use bitcoin_clib.Varstr.{is_positive, varstr_size, varstr_clone}
use bitcoin_clib.Payload.{past_end}
use bitcoin_clib.Txin.{Txin, satoshi_txin_size, satoshi_txin_serialize}
use bitcoin_clib.Txout.{Txout, satoshi_txout_size, satoshi_txout_serialize}
use bitcoin_clib.Hash.{HashFunctions, hash256}

-- `bitcoin_tx_witness_t`. `num_items` is the bit pattern of an `ssize_t`.
pub record Witness : Type 0 where
  pub num_items : ℕ
  pub items : List (List ℕ)

-- `flag` is the two bytes behind the version, 0 and 1 where they are present. `txins` and `txouts` hold
-- `txin_count` and `txout_count` elements.
pub record Tx : Type 0 where
  pub version : ℕ
  pub has_flag : Bool
  pub flag : List ℕ
  pub txins : List Txin
  pub txouts : List Txout
  pub cb_witnesses : ℕ
  pub witnesses : List Witness
  pub lock_time : ℕ
  pub txid : List ℕ
  pub wtxid : List ℕ

abbrev pub tx_zero : Tx
tx_zero = record {
  version = 0;
  has_flag = false;
  flag = 0 ∷ 0 ∷ [];
  txins = [];
  txouts = [];
  cb_witnesses = 0;
  witnesses = [];
  lock_time = 0;
  txid = replicate 32 0;
  wtxid = replicate 32 0;
}

-- The bytes that an array of inputs is written as, one after the other.
unfoldable pub serialize_txins : List Txin → Outcome (List ℕ)
serialize_txins [] = ok []
serialize_txins (t ∷ ts) = do
  bs ← satoshi_txin_serialize t
  rest ← serialize_txins ts
  ok (bs ++ rest)

unfoldable pub serialize_txouts : List Txout → Outcome (List ℕ)
serialize_txouts [] = ok []
serialize_txouts (t ∷ ts) = do
  bs ← satoshi_txout_serialize t
  rest ← serialize_txouts ts
  ok (bs ++ rest)

-- `items` are read up to `num_items`; a null array or a null item fails an assert.
unfoldable pub serialize_items : ℕ → List (List ℕ) → Outcome (List ℕ)
serialize_items zero items = ok []
serialize_items (suc n) [] = abort
serialize_items (suc n) (item ∷ items) = do
  item_size ← varstr_size item
  bs ← read item_size item
  rest ← serialize_items n items
  ok (bs ++ rest)

unfoldable pub serialize_witnesses : List Witness → Outcome (List ℕ)
serialize_witnesses [] = ok []
serialize_witnesses (w ∷ ws) = do
  bs ← serialize_items w.num_items w.items
  rest ← serialize_witnesses ws
  ok (varint_bytes w.num_items ++ (bs ++ rest))

-- The witness section of a transaction with the flag. Its buffer has `cb_witnesses` bytes and four
-- more for the lock time; what is written beyond that is outside the buffer.
unfoldable pub serialize_witness_section : Tx → Outcome (List ℕ)
serialize_witness_section tx = do
  assert (is_positive tx.cb_witnesses && ltb 0 (length tx.witnesses))
  bs ← serialize_witnesses tx.witnesses
  if ltb (tx.cb_witnesses + 4) (length bs)
      then fault
      else (assert (tx.cb_witnesses == length bs) >> ok bs)

-- The bytes written into a buffer of the size that `tx_size` adds up. The asserts on the positions
-- in between compare sums of the same sizes.
unfoldable pub satoshi_tx_serialize : Tx → Outcome (List ℕ)
satoshi_tx_serialize tx = do
  txins ← serialize_txins tx.txins
  txouts ← serialize_txouts tx.txouts
  witnesses ← (if tx.has_flag then serialize_witness_section tx else ok [])
  let front = varint_bytes (length tx.txins) ++ txins
  let back = varint_bytes (length tx.txouts) ++ txouts
  let flag = if tx.has_flag then 0 ∷ 1 ∷ [] else []
  ok (le_put 4 tx.version ++ (flag ++ (front ++ (back ++ (witnesses ++ le_put 4 tx.lock_time)))))

-- With `p_data == NULL`: the size alone, from the sizes of the parts.
unfoldable pub sum_sizes {ℓ} : {A : Type ℓ} → (A → Outcome ℕ) → List A → Outcome ℕ
sum_sizes size [] = ok 0
sum_sizes size (t ∷ ts) = do
  cb ← size t
  assert (is_positive cb)
  rest ← sum_sizes size ts
  ok (cb + rest)

unfoldable pub satoshi_tx_size : Tx → Outcome ℕ
satoshi_tx_size tx = do
  txins_size ← sum_sizes satoshi_txin_size tx.txins
  txouts_size ← sum_sizes satoshi_txout_size tx.txouts
  let flag_size : ℕ = if tx.has_flag then 2 else 0
  let cb_witnesses : ℕ = if tx.has_flag then tx.cb_witnesses else 0
  let txin_vint_size = varint_calc_size (length tx.txins)
  let txout_vint_size = varint_calc_size (length tx.txouts)
  ok (
      4 + flag_size + txin_vint_size + txins_size + txout_vint_size + txouts_size + cb_witnesses
      + 4)

unfoldable pub satoshi_tx_cleanup : Tx → Tx
satoshi_tx_cleanup tx = record tx {
  witnesses = if tx.has_flag then [] else tx.witnesses;
  txins = [];
  txouts = [];
}
