-- ===== src/Txin.antt =====
-- src/satoshi-types.c: transaction inputs. `satoshi_txin_t` with the fields that its parser,
-- serializer and redeem-script accessors use.
pub mod Laws
pub mod Sound
pub mod Redeem
use bitcoin_clib.Base.{
  ℕ, ◌+◌, ◌-◌, ◌%◌, ◌^◌, ◌≤◌, ◌<◌, List, [], ◌∷◌, ◌++◌, Bool, true, false, ltb, leb, ◌==◌,
  if◌then◌else◌, length, drop, replicate, Option, none, some, Outcome, ok, err, abort, ◌>>=◌, ◌>>◌,
  reject_if, assert, le_put, read, load,
}
use bitcoin_clib.Varint.{varint_get}
use bitcoin_clib.Varstr.{is_positive, varstr_size, varstr_getdata_ptr, varstr_new, varstr_clone}
use bitcoin_clib.Payload.{past_end, bytes_eq}

pub record Outpoint : Type 0 where
  pub prev_hash : List ℕ
  pub index : ℕ

pub record Txin : Type 0 where
  pub outpoint : Outpoint
  pub is_coinbase : Bool
  pub scripts : Option (List ℕ)
  pub cb_scripts : ℕ
  pub sequence : ℕ
  pub is_p2sh : Bool
  pub redeem_scripts : Option (List ℕ)
  pub redeem_scripts_start_pos : ℕ

-- `calloc`ed.
abbrev pub txin_zero : Txin
txin_zero = record {
  outpoint = record { prev_hash = replicate 32 0; index = 0 };
  is_coinbase = false;
  scripts = none;
  cb_scripts = 0;
  sequence = 0;
  is_p2sh = false;
  redeem_scripts = none;
  redeem_scripts_start_pos = 0;
}

-- `sizeof(struct satoshi_outpoint)` bytes in memory.
unfoldable pub outpoint_bytes : Outpoint → List ℕ
outpoint_bytes o = o.prev_hash ++ le_put 4 o.index

unfoldable pub load_outpoint : List ℕ → Outcome Outpoint
load_outpoint p = do
  hash ← read 32 p
  index ← load 4 (drop 32 p)
  ok (record { prev_hash = hash; index = index })

abbrev pub coinbase_outpoint : Outpoint
coinbase_outpoint = record { prev_hash = replicate 32 0; index = 0xffffffff }

-- `assert(txin->scripts && varstr_size(txin->scripts) == vstr_size)`.
unfoldable pub check_clone : ℕ → Option (List ℕ) → Outcome (List ℕ)
check_clone vstr_size none = abort
check_clone vstr_size (some vstr) = do size ← varstr_size vstr; assert (size == vstr_size); ok vstr

unfoldable pub checked_clone : List ℕ → ℕ → Outcome (List ℕ)
unfolding check_clone
checked_clone p vstr_size = varstr_clone (some p) >>= check_clone vstr_size

-- The object after a successful parse, and the number of bytes taken.
unfoldable pub satoshi_txin_parse : ℕ → Txin → List ℕ → Outcome (Txin × ℕ)
satoshi_txin_parse p_end txin payload = do
  assert (ltb 0 (length payload))
  reject_if (ltb (length payload) 36)
  outpoint ← load_outpoint payload
  let is_coinbase = bytes_eq (outpoint_bytes outpoint) (outpoint_bytes coinbase_outpoint)
  let p = drop 36 payload
  vstr_size ← varstr_size p
  reject_if (past_end p_end p vstr_size)
  scripts ← checked_clone p vstr_size
  cb_scripts ← varint_get scripts
  let q = drop vstr_size p
  reject_if (ltb (length q) 4)
  sequence ← load 4 q
  ok (
    record txin {
      outpoint = outpoint;
      is_coinbase = is_coinbase;
      scripts = some scripts;
      cb_scripts = cb_scripts;
      sequence = sequence;
    },
    36 + vstr_size + 4,
  )

-- With `p_data == NULL`: the size alone.
unfoldable pub satoshi_txin_size : Txin → Outcome ℕ
satoshi_txin_size txin = elim txin.scripts [
  | none ↦ abort
  | some scripts ↦ do
    vstr_size ← varstr_size scripts
    assert (is_positive vstr_size)
    ok ((36 + vstr_size + 4) % 2 ^ 64)
]

-- The bytes written, into a buffer of `satoshi_txin_size` bytes.
unfoldable pub satoshi_txin_serialize : Txin → Outcome (List ℕ)
satoshi_txin_serialize txin = elim txin.scripts [
  | none ↦ abort
  | some scripts ↦ do
    vstr_size ← varstr_size scripts
    assert (is_positive vstr_size)
    bs ← read vstr_size scripts
    ok (outpoint_bytes txin.outpoint ++ (bs ++ le_put 4 txin.sequence))
]

unfoldable pub satoshi_txin_cleanup : Txin → Txin
satoshi_txin_cleanup txin = record txin { scripts = none; redeem_scripts = none }

-- The bytes behind the start position, or `none` where the source returns NULL.
unfoldable pub satoshi_txin_get_redeem_scripts : Txin → Outcome (Option (List ℕ))
satoshi_txin_get_redeem_scripts txin = elim txin.redeem_scripts [
  | none ↦ ok none
  | some vstr ↦ do
    all ← varstr_getdata_ptr vstr
    len ← varint_get vstr
    let start = txin.redeem_scripts_start_pos
    if leb len start
        then ok none
        else (varstr_new (some (drop start all)) (len - start) >>= λ s. ok (some s))
]

-- The pointer is the bytes from it on; `none` is the return value -1.
unfoldable pub satoshi_txin_query_redeem_scripts_data : Txin → Outcome (Option (ℕ × List ℕ))
satoshi_txin_query_redeem_scripts_data txin = elim txin.redeem_scripts [
  | none ↦ ok none
  | some vstr ↦ do
    all ← varstr_getdata_ptr vstr
    len ← varint_get vstr
    let start = txin.redeem_scripts_start_pos
    if ltb len start then ok none else ok (some (len - start, drop start all))
]

unfoldable pub satoshi_txin_set_redeem_scripts : Txin → Option (List ℕ) → ℕ → Outcome Txin
satoshi_txin_set_redeem_scripts txin src length = do
  redeem_scripts ← varstr_new src length
  ok (record txin { redeem_scripts = some redeem_scripts; redeem_scripts_start_pos = 0 })
