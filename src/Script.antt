-- ===== src/Script.antt =====
-- src/satoshi-script.c: the script engine. Its state is a record that every function returns anew;
-- the stack keeps what was popped before an error, so an error return carries the state too.
-- `Script/Ops`, `Script/Checks`, `Script/Branches` and `Script/Parse` hold the opcodes and the parser.
pub mod Ops
pub mod Checks
pub mod Branches
pub mod Parse
pub mod Entry
pub mod Stack
pub mod Hashes
pub mod Imports
pub mod Signatures
pub mod Multisig
pub mod Rounds
pub mod PayToPubkeyHash
pub mod Spend
pub mod Ends
pub mod Termination
pub mod Total
pub mod Balanced
pub mod Scan
pub mod Conditional
use bitcoin_clib.Base.{
  ℕ, ◌+◌, ◌-◌, ◌<◌, List, [], ◌∷◌, Bool, true, false, ltb, ◌==◌, if◌then◌else◌, get_or, length,
  get_elem?, set, Option, none, some, Outcome, ok, err, abort, fault,
}
use bitcoin_clib.Hash.{HashFunctions}
use bitcoin_clib.Crypto.{Secp}
use bitcoin_clib.Txin.{Txin}
use bitcoin_clib.Txout.{Txout}
use bitcoin_clib.Tx.{Tx}
use bitcoin_clib.RawTx.{RawTx, rawtx_zero, satoshi_rawtx_attach}
use bitcoin_clib.ScriptData.{
  ScriptData, boolean, op_code, uint8, s_sdata_true, satoshi_script_data_new_boolean,
}
use bitcoin_clib.ScriptStack.{
  ScriptStack, script_stack_push, script_stack_pop, satoshi_script_stack_init,
  satoshi_script_stack_cleanup,
}

-- `enum satoshi_tx_script_type`.
pub data ScriptType : Type 0 where
  free txin txout : ScriptType

-- `satoshi_script_t` with its private part.
pub record Script : Type 0 where
  pub main_stack : ScriptStack
  pub alt_stack : ScriptStack
  pub digest : Option (List ℕ)
  pub tx : Option Tx
  pub rawtx : RawTx
  pub txin_index : ℕ
  pub utxo : Option Txout
  pub type : ScriptType
  pub if_statement_depth : ℕ

-- What the engine calls: the hash functions, secp256k1, the low byte of an object's address, which
-- `b` of a union with a pointer is, and what memory holds before a first store.
pub record Env : Type 0 where
  pub hash : HashFunctions
  pub ripemd160 : List ℕ → List ℕ
  pub secp : Secp
  pub low_byte : List ℕ → ℕ
  pub unset : Option ScriptData
  pub unset_digest : List ℕ

-- How a call ends: it returns 0 or a count, it returns an error, it stops in an assert, it does
-- something undefined, or the model's fuel ran out.
pub data Run {ℓ} (A : Type ℓ) : Type ℓ where
  done : A → Script → Run A
  fail : Script → Run A
  stopped wrong starved : Run A

abbrev pub Action : Type 0 → Type 0
Action A = Script → Run A

-- `return value;`
abbrev pub return : {A : Type 0} → A → Action A
return a s = done a s

-- `return -1;`
abbrev pub give_up : {A : Type 0} → Action A
give_up s = fail s

infixl 5 ◌>>=◌ ◌>>◌
abbrev pub continue_with : {A B : Type 0} → (A → Action B) → Run A → Run B
continue_with f (done a s) = f a s
continue_with f (fail s) = fail s
continue_with f stopped = stopped
continue_with f wrong = wrong
continue_with f starved = starved

abbrev pub ◌>>=◌ : {A B : Type 0} → Action A → (A → Action B) → Action B
◌>>=◌ m f s = continue_with f (m s)

abbrev pub ◌>>◌ : {B : Type 0} → Action (Unit {0}) → Action B → Action B
m >> k = m >>= λ _. k

-- A call that does not touch the engine's state.
abbrev pub lift : {A : Type 0} → Outcome A → Action A
lift (ok a) s = done a s
lift err s = fail s
lift abort s = stopped
lift fault s = wrong

-- `assert(b);`
abbrev pub require : Bool → Action (Unit {0})
require true s = done tt s
require false s = stopped

-- `if(bad) return -1;`
abbrev pub reject : Bool → Action (Unit {0})
reject true s = fail s
reject false s = done tt s

-- Whether a call returned 0.
abbrev pub returns_zero : Run (Unit {0}) → Run Bool
returns_zero (done _ s) = done true s
returns_zero (fail s) = done false s
returns_zero stopped = stopped
returns_zero wrong = wrong
returns_zero starved = starved

abbrev pub settle : Action (Unit {0}) → Action Bool
settle m s = returns_zero (m s)

abbrev pub current : {A : Type 0} → (Script → A) → Action A
current f s = done (f s) s

abbrev pub modify : (Script → Script) → Action (Unit {0})
modify f s = done tt (f s)

-- `main_stack->pop(main_stack)`.
unfoldable pub stack_pop : Action (Option ScriptData)
stack_pop s =
    let (top, rest) = script_stack_pop s.main_stack in done top (record s { main_stack = rest })

module _ (env : Env) where
  -- `main_stack->push(main_stack, sdata)`.
  unfoldable pub stack_push : ScriptData → Action (Unit {0})
  stack_push sdata s =
      done tt (record s { main_stack = script_stack_push env.unset s.main_stack sdata })

  -- `sdata->b`, whatever the union holds.
  unfoldable pub value_byte : ScriptData → ℕ
  value_byte d = elim d.target [ none ↦ get_or d.inline 0 0 | some bs ↦ env.low_byte bs ]

  -- With a new private part, and room on both stacks.
  unfoldable pub satoshi_script_init : Script → Script
  satoshi_script_init s = record s {
    main_stack = satoshi_script_stack_init env.unset s.main_stack 0;
    alt_stack = satoshi_script_stack_init env.unset s.alt_stack 0;
    tx = none;
    rawtx = rawtx_zero;
    txin_index = 0;
    utxo = none;
    type = free;
    if_statement_depth = 0;
  }

-- Whether the top item is true; it is taken off the stack.
unfoldable pub scripts_verify : Action (Unit {0})
unfolding stack_pop
scripts_verify s =
    if s.main_stack.count == 0
    then fail s
    else (stack_pop >>= λ top. elim top [
      | none ↦ give_up
      | some sdata ↦ elim sdata.kind [
        | boolean ↦ reject (get_or sdata.inline 0 0 == 0)
        | uint8 ↦ reject (get_or sdata.inline 0 0 == 0)
        | op_code ↦ reject (get_or sdata.inline 0 0 == 0)
        | _ ↦ give_up
      ]
    ])
        s

-- What `satoshi_rawtx_detach` leaves is set to zero.
unfoldable pub scripts_detach_tx : Script → Script
scripts_detach_tx s = elim s.tx [ none ↦ s | some _ ↦ record s { rawtx = rawtx_zero; tx = none } ]

-- With a transaction attached, that one is detached first.
unfoldable pub scripts_attach_tx : HashFunctions → Option Tx → Action (Unit {0})
unfolding scripts_detach_tx
scripts_attach_tx h none s = done tt (scripts_detach_tx s)
scripts_attach_tx h (some tx) s =
    let s' = scripts_detach_tx s in
    (lift (satoshi_rawtx_attach h s'.rawtx tx) >>= λ rawtx.
    modify (λ s. record s { tx = some tx; rawtx = rawtx }))
      s'

unfoldable pub scripts_set_txin_info : ℕ → Option Txout → Action (Unit {0})
scripts_set_txin_info index utxo s = elim s.tx [
  | none ↦ fail s
  | some tx ↦
      if ltb index (length tx.txins)
      then done tt (record s { txin_index = index; utxo = utxo })
      else stopped
]

unfoldable pub satoshi_script_reset : Script → Script
satoshi_script_reset s = record s {
  main_stack = satoshi_script_stack_cleanup s.main_stack;
  alt_stack = satoshi_script_stack_cleanup s.alt_stack;
}

unfoldable pub satoshi_script_cleanup : Script → Script
unfolding satoshi_script_reset scripts_detach_tx
satoshi_script_cleanup s = satoshi_script_reset (scripts_detach_tx s)
