-- ===== src/Txout.antt =====
-- src/satoshi-types.c: transaction outputs. `value`, an `int64_t`, is its bit pattern.
pub mod Laws
pub mod Sound
use bitcoin_clib.Base.{
  ℕ, ◌+◌, ◌%◌, ◌^◌, ◌≤◌, ◌<◌, List, [], ◌∷◌, ◌++◌, Bool, true, false, ltb, leb, ◌==◌, if◌then◌else◌,
  length, drop, Option, none, some, Outcome, ok, err, abort, fault, ◌>>=◌, ◌>>◌, reject_if, assert,
  le_put, read, load,
}
use bitcoin_clib.Varstr.{varstr_size, varstr_getdata_ptr}
use bitcoin_clib.Payload.{past_end}
use bitcoin_clib.Txin.{checked_clone}

-- `enum satoshi_txout_type`, but for the bit `p2sh_segwit_flags`.
pub data TxoutType : Type 0 where
  unknown legacy segwit : TxoutType

-- `p2sh_segwit` is the bit of that name of the flags.
pub record Txout : Type 0 where
  pub value : ℕ
  pub scripts : Option (List ℕ)
  pub flags : TxoutType
  pub p2sh_segwit : Bool

abbrev pub txout_zero : Txout
txout_zero = record { value = 0; scripts = none; flags = unknown; p2sh_segwit = false }

-- The flag from `scripts_data[0]`, a read of the clone.
unfoldable pub txout_flags : List ℕ → Outcome TxoutType
txout_flags [] = fault
txout_flags (op ∷ _) = ok (if leb op 16 then segwit else legacy)

unfoldable pub satoshi_txout_parse : ℕ → Txout → List ℕ → Outcome (Txout × ℕ)
satoshi_txout_parse p_end txout payload = do
  assert (ltb 0 (length payload))
  reject_if (ltb (length payload) 8)
  value ← load 8 payload
  let p = drop 8 payload
  reject_if (ltb (length p) 1)
  vstr_size ← varstr_size p
  reject_if (past_end p_end p vstr_size)
  scripts ← checked_clone p vstr_size
  scripts_data ← varstr_getdata_ptr scripts
  flags ← txout_flags scripts_data
  ok (
    record { value = value; scripts = some scripts; flags = flags; p2sh_segwit = false },
    8 + vstr_size,
  )

-- With `p_data == NULL`: the size alone.
unfoldable pub satoshi_txout_size : Txout → Outcome ℕ
satoshi_txout_size txout = elim txout.scripts [
  | none ↦ fault
  | some scripts ↦ varstr_size scripts >>= λ scripts_size. ok ((8 + scripts_size) % 2 ^ 64)
]

-- The assert says that there is a byte behind the value.
unfoldable pub satoshi_txout_serialize : Txout → Outcome (List ℕ)
satoshi_txout_serialize txout = elim txout.scripts [
  | none ↦ fault
  | some scripts ↦ do
    scripts_size ← varstr_size scripts
    assert (ltb 0 scripts_size)
    bs ← read scripts_size scripts
    ok (le_put 8 txout.value ++ bs)
]

unfoldable pub satoshi_txout_cleanup : Txout → Txout
satoshi_txout_cleanup txout = record txout { scripts = none }
