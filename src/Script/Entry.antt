-- ===== src/Script/Entry.antt =====
-- `scripts_parse` of an input's or an output's script, and the segwit programs.
use bitcoin_clib.Base.{
  ℕ, suc, ◌^◌, List, [], ◌∷◌, ◌++◌, Bool, true, false, not, ltb, leb, ◌==◌, if◌then◌else◌, length,
  take, get_elem?, none, some, Outcome, ok, read,
}
use bitcoin_clib.Payload.{bytes_eq}
use bitcoin_clib.Varint.{varint_get}
use bitcoin_clib.Varstr.{varstr_getdata_ptr, varstr_new, is_positive}
use bitcoin_clib.Tx.{Tx}
use bitcoin_clib.ScriptData.{
  ScriptData, pointer, follow, follow_asserted, satoshi_script_data_new,
  satoshi_script_data_new_boolean,
}
use bitcoin_clib.Script.{
  ScriptType, free, txin, txout, Env, Run, done, fail, stopped, wrong, starved, Action, return,
  give_up, ◌>>=◌, ◌>>◌, lift, reject, require, current, modify, stack_pop, stack_push,
}
use bitcoin_clib.Script.Parse.{
  current_txin, set_txin, run_ops, parse_free, parse_redeem, txin_p2sh_scripts_post_process,
}

-- The template with the hash in its place, behind its length.
unfoldable pub satoshi_script_generate_p2pkh_script : List ℕ → ℕ → Outcome (List ℕ)
satoshi_script_generate_p2pkh_script h160 length =
    if length == 20
    then elim (read 20 h160) [
      | ok h ↦ ok (0x19 ∷ 0x76 ∷ 0xa9 ∷ 20 ∷ (h ++ (0x88 ∷ 0xac ∷ [])))
      | other ↦ other
    ]
    else Outcome.abort

-- `assert(cb == cb_scripts)` behind a parse: an error return stops the program.
unfoldable pub must_parse : Run ℕ → Run ℕ
must_parse (done n s) = done n s
must_parse (fail s) = stopped
must_parse stopped = stopped
must_parse wrong = wrong
must_parse starved = starved

module _ (env : Env) where
  -- The redeem script is made where there is none yet.
  unfoldable pub parse_p2sh_p2wpkh_scripts : List ℕ → ℕ → Action (Unit {0})
  parse_p2sh_p2wpkh_scripts witness_program program_length = current_txin >>= λ (_, t).
      (elim t.redeem_scripts [
        | none ↦ lift (satoshi_script_generate_p2pkh_script witness_program program_length)
        | some vstr ↦ return vstr
      ])
      >>= λ vstr.
          set_txin (record t { redeem_scripts = some vstr })
          >> (λ s. must_parse (parse_redeem env vstr s))
          >>= λ cb. return tt

  -- The witness script stands on the stack; it goes back there as the test of its hash.
  unfoldable pub parse_p2wsh : List ℕ → Action (Unit {0})
  parse_p2wsh witness_program = txin_p2sh_scripts_post_process env >> stack_pop >>= λ top.
      elim top [
        | none ↦ require false
        | some sdata ↦ lift (follow sdata) >>= λ bs. lift (read sdata.size bs) >>= λ script.
            stack_push env (
              satoshi_script_data_new_boolean
                (bytes_eq (env.hash.sha256 script) (take 32 witness_program)))
      ]

  -- A version byte, a length and the program.
  unfoldable pub parse_segwit_script : List ℕ → Action (Unit {0})
  parse_segwit_script [] = λ s. wrong
  parse_segwit_script (version_byte ∷ []) = give_up
  parse_segwit_script (version_byte ∷ program_length ∷ p) =
      reject (not (version_byte == 0))
      >> reject (ltb (length p) program_length)
      >> (if program_length == 20
          then parse_p2sh_p2wpkh_scripts p 20
          else if program_length == 32
          then parse_p2wsh p
          else give_up)

  -- The witness items that are not empty, each on the stack.
  unfoldable pub push_witnesses : List (List ℕ) → Action (Unit {0})
  push_witnesses [] = return tt
  push_witnesses (item ∷ items) =
      let rest = push_witnesses items in
      lift (varstr_getdata_ptr item) >>= λ bs. lift (varint_get item) >>= λ n.
      require (ltb n (2 ^ 63))
      >> (if n == 0
          then rest
          else (lift (satoshi_script_data_new pointer (some bs) n) >>= λ made.
              stack_push env made >> rest))

  -- Those of the input, where the transaction has any.
  unfoldable pub push_input_witnesses : Tx → Action (Unit {0})
  push_input_witnesses tx s =
      if tx.has_flag
      then elim (get_elem? tx.witnesses s.txin_index) [
        | none ↦ wrong
        | some w ↦ if is_positive w.num_items then push_witnesses w.items s else done tt s
      ]
      else done tt s

  -- Whether an output with a script that is not a witness program is spent the old way.
  unfoldable pub is_legacy_spend : Tx → Action Bool
  is_legacy_spend tx s =
      if tx.has_flag
      then elim (get_elem? tx.witnesses s.txin_index) [
        | none ↦ wrong
        | some w ↦ done (w.num_items == 0) s
      ]
      else done true s

  -- The program that the input's script pushed, at the top of the stack.
  unfoldable pub pop_segwit_script : Action ScriptData
  pop_segwit_script s = elim s.utxo [
    | none ↦ wrong
    | some utxo ↦
        (do
          modify (λ s. record s { utxo = some (record utxo { p2sh_segwit = true }) })
          count ← current (λ s. s.main_stack.count)
          reject (count == 0)
          top ← stack_pop
          elim top [
            | none ↦ λ s. stopped
            | some sdata ↦
                lift (follow_asserted sdata) >>= λ bs. require (ltb 0 sdata.size) >> return sdata
          ])
          s
  ]

  unfoldable pub parse_p2sh_segwit : ScriptData → Action (Unit {0})
  parse_p2sh_segwit sdata = do
    reject (leb sdata.size 2)
    bs ← lift (follow sdata)
    script ← lift (read sdata.size bs)
    parse_segwit_script script
    count ← current (λ s. s.main_stack.count)
    reject (count == 0)
    _ ← stack_pop
    stack_push env sdata

  -- The bytes that are left to the parser.
  unfoldable pub txout_scripts_pre_process : List ℕ → Action (List ℕ)
  txout_scripts_pre_process [] = λ s. stopped
  txout_scripts_pre_process (op ∷ p) = current_txin >>= λ (tx, t).
      if t.is_p2sh
      then return (op ∷ p)
      else if ltb 16 op
      then (is_legacy_spend tx >>= λ legacy.
          if legacy
          then (elim t.redeem_scripts [
            | some vstr ↦ return tt
            | none ↦ lift (varstr_new (some (op ∷ p)) (length (op ∷ p))) >>= λ vstr.
                set_txin (record t { redeem_scripts = some vstr })
          ])
            >> return (op ∷ p)
          else (pop_segwit_script >>= λ sdata.
              push_input_witnesses tx >> parse_p2sh_segwit sdata >> return (op ∷ p)))
      else (push_input_witnesses tx >> parse_segwit_script (op ∷ p) >> return [])

  unfoldable pub scripts_parse : ScriptType → List ℕ → Action ℕ
  scripts_parse free payload = parse_free env none payload
  scripts_parse txin [] = λ s. stopped
  scripts_parse txin (op ∷ p) =
      modify (λ s. record s { type = txin })
      >> (if op == 0
          then run_ops env (suc (length p)) txin none p >> txin_p2sh_scripts_post_process env
          else run_ops env (suc (length (op ∷ p))) txin none (op ∷ p))
      >> return (length (op ∷ p))
  scripts_parse txout payload =
      require (ltb 0 (length payload))
      >> modify (λ s. record s { type = txout })
      >> txout_scripts_pre_process payload
      >>= λ p. run_ops env (suc (length p)) txout none p >> return (length payload)
