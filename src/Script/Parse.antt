-- ===== src/Script/Parse.antt =====
-- `scripts_parse` and what it does in front of and behind the opcodes.
use bitcoin_clib.Base.{
  ℕ, zero, suc, ◌+◌, ◌-◌, List, [], ◌∷◌, Bool, true, false, not, ◌&&◌, ◌||◌, ltb, leb, ◌==◌,
  if◌then◌else◌, length, take, drop, get_elem?, set, Option, none, some,
}
use bitcoin_clib.Varint.{varint_get}
use bitcoin_clib.Varstr.{varstr_getdata_ptr}
use bitcoin_clib.Txin.{Txin, satoshi_txin_set_redeem_scripts}
use bitcoin_clib.Tx.{Tx}
use bitcoin_clib.ScriptData.{
  ScriptData, uint8, holds_pointer, s_sdata_false, satoshi_script_data_new,
}
use bitcoin_clib.Script.{
  ScriptType, free, txin, Env, done, fail, stopped, wrong, starved, Action, return, give_up, ◌>>=◌,
  ◌>>◌, lift, reject, require, modify, stack_pop, stack_push, scripts_verify,
}
use bitcoin_clib.Script.Ops.{
  parse_op_hash, parse_op_push_data, parse_op_dup, parse_op_equalverify, parse_op_equal,
}
use bitcoin_clib.Script.Checks.{parse_op_checksig, parse_op_checksigverify, parse_op_checkmultisig}
use bitcoin_clib.Script.Branches.{parse_op_if_notif}

-- The input at `txin_index`, of the attached transaction.
unfoldable pub current_txin : Action (Tx × Txin)
current_txin s = elim s.tx [
  | none ↦ stopped
  | some tx ↦ elim (get_elem? tx.txins s.txin_index) [ none ↦ stopped | some t ↦ done (tx, t) s ]
]

unfoldable pub set_txin : Txin → Action (Unit {0})
set_txin t s = elim s.tx [
  | none ↦ wrong
  | some tx ↦ done tt (record s { tx = some (record tx { txins = set tx.txins s.txin_index t }) })
]

-- `at` is the distance of the current position from the start of the redeem script, `none` for a
-- payload that is not in that object.
unfoldable pub parse_op_codeseparator : Option ℕ → Action (Unit {0})
unfolding set_txin
parse_op_codeseparator at s = elim s.tx [
  | none ↦ stopped
  | some tx ↦ elim (get_elem? tx.txins s.txin_index) [
    | none ↦ fail s
    | some t ↦ elim t.redeem_scripts [
      | none ↦ fail s
      | some vstr ↦
          (lift (varint_get vstr) >>= λ len. elim at [
            | none ↦ require false
            | some start ↦
                require (ltb start len) >> set_txin (record t { redeem_scripts_start_pos = start })
          ])
            s
    ]
  ]
]

unfoldable pub advance : ℕ → Option ℕ → Option ℕ
advance n at = elim at [ none ↦ none | some start ↦ some (start + n) ]

-- Opcodes that do nothing: OP_NOP, OP_RETURN, OP_NOP1 and OP_NOP4 to OP_NOP10.
unfoldable pub is_ignored : ℕ → Bool
is_ignored op = op == 0x61 || (op == 0x6a || (op == 0xb0 || (leb 0xb3 op && leb op 0xb9)))

-- `++priv->if_statement_depth`.
unfoldable pub enter_if : Action ℕ
enter_if s =
    done (s.if_statement_depth + 1) (record s { if_statement_depth = s.if_statement_depth + 1 })

module _ (env : Env) where
  -- The switch on the opcode; the bytes taken behind it. `at` is the position behind the opcode.
  unfoldable pub dispatch : (ℕ → List ℕ → Action ℕ) → Option ℕ → ℕ → List ℕ → Action ℕ
  unfolding is_ignored enter_if
  dispatch parse at op p =
      if op == 0xa6 || (op == 0xa9 || (op == 0xa8 || op == 0xaa))
      then parse_op_hash env op >> return 0
      else if op == 0x76
      then parse_op_dup env >> return 0
      else if op == 0x88
      then parse_op_equalverify >> return 0
      else if op == 0x87
      then parse_op_equal env >> return 0
      else if op == 0xac
      then parse_op_checksig env >> return 0
      else if op == 0xad
      then parse_op_checksigverify env >> return 0
      else if op == 0xae
      then parse_op_checkmultisig env >> return 0
      else if op == 0x63 || op == 0x64
      then (enter_if >>= λ depth. parse_op_if_notif parse depth op p)
      else if op == 0x69
      then scripts_verify >> return 0
      else if op == 0xab
      then parse_op_codeseparator at >> return 0
      else if is_ignored op
      then return 0
      else give_up

  -- One round of the loop.
  unfoldable pub step : (ℕ → List ℕ → Action ℕ) → ScriptType → Option ℕ → ℕ → List ℕ → Action ℕ
  unfolding dispatch
  step parse type at op p =
      if op == 0
      then stack_push env s_sdata_false >> return 0
      else if leb op 0x4e
      then require (ltb op 0x4e) >> parse_op_push_data env op p
      else elim type [
        | txin ↦ give_up
        | _ ↦
            if leb 0x51 op && leb op 0x60
            then (lift (satoshi_script_data_new uint8 (some ((op - 0x50) ∷ [])) 1) >>= λ made.
                stack_push env made >> return 0)
            else dispatch parse at op p
      ]

  -- `while(p < p_end)`. A branch of an `if` is shorter than the payload, so one fuel serves both.
  unfoldable pub run_ops : ℕ → ScriptType → Option ℕ → List ℕ → Action (Unit {0})
  unfolding step advance
  run_ops zero type at p s = starved
  run_ops (suc f) type at [] s = done tt s
  run_ops (suc f) type at (op ∷ p) s =
      (step
            (λ d q.
              require (ltb 0 (length q))
              >> modify (λ s. record s { type = free })
              >> run_ops f free (advance (1 + d) at) q
              >> return (length q))
            type (advance 1 at) op p
          >>= λ n. run_ops f type (advance (1 + n) at) (drop n p))
        s

  -- `scripts->parse` of a free script: no work in front of or behind the loop.
  unfoldable pub parse_free : Option ℕ → List ℕ → Action ℕ
  parse_free at p =
      require (ltb 0 (length p))
      >> modify (λ s. record s { type = free })
      >> run_ops (suc (length p)) free at p
      >> return (length p)

  -- `scripts->parse` of the data of the redeem script.
  unfoldable pub parse_redeem : List ℕ → Action ℕ
  parse_redeem vstr = lift (varstr_getdata_ptr vstr) >>= λ p.
      lift (varint_get vstr) >>= λ n. parse_free (some 0) (take n p)

  -- `assert(redeem_scripts);` in front of the parse.
  unfoldable pub parse_stored : Option (List ℕ) → Action ℕ
  parse_stored none = λ s. stopped
  parse_stored (some vstr) = parse_redeem vstr

  -- The redeem script is stored with the input, run, and put back if it left `true`.
  unfoldable pub run_redeem : Txin → ScriptData → Action (Unit {0})
  run_redeem t sdata = do
    t' ← lift (satoshi_txin_set_redeem_scripts t sdata.target sdata.size)
    set_txin t'
    cb ← parse_stored t'.redeem_scripts
    reject (not (cb == sdata.size))
    scripts_verify
    stack_push env sdata

  unfoldable pub txin_p2sh_scripts_post_process : Action (Unit {0})
  txin_p2sh_scripts_post_process = current_txin >>= λ (_, t).
      set_txin (record t { is_p2sh = true }) >> stack_pop >>= λ top. elim top [
        | none ↦ give_up
        | some sdata ↦
            if holds_pointer sdata.kind
            then run_redeem (record t { is_p2sh = true }) sdata
            else give_up
      ]
