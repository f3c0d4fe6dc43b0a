-- ===== src/Script/Total.antt =====
-- `scripts_parse` comes to an end for every script.
use bitcoin_clib.Base.{
  ℕ, suc, ◌≢◌, List, [], ◌∷◌, arith, length, ltb, ◌==◌, if◌then◌else◌, Option, none, some, Bool,
  true, false,
}
use bitcoin_clib.ScriptData.{ScriptData}
use bitcoin_clib.Tx.{Tx}
use bitcoin_clib.Txin.{Txin}
use bitcoin_clib.Script.{
  Script, ScriptType, free, txin, txout, Env, Run, starved, Action, return, ◌>>◌, stack_pop,
  stack_push,
}
use bitcoin_clib.Script.Parse.{
  run_ops, parse_free, parse_redeem, parse_stored, run_redeem, current_txin, set_txin,
  txin_p2sh_scripts_post_process,
}
use bitcoin_clib.Script.Entry.{
  must_parse, parse_p2sh_p2wpkh_scripts, parse_p2wsh, parse_segwit_script, push_witnesses,
  push_input_witnesses, is_legacy_spend, pop_segwit_script, parse_p2sh_segwit,
  txout_scripts_pre_process, scripts_parse,
}
use bitcoin_clib.Script.Ends.{Ends, Ends-bind, Ends-lift, Ends-verify}
use bitcoin_clib.Script.Termination.{run_ops-Ends, Ends-nested}

module _ (env : Env) where
  Ends-parse_free : (at : Option ℕ) (p : List ℕ) (s : Script) → Ends (parse_free env at p s)
  unfolding parse_free
  Ends-parse_free at p s =
      Ends-nested (ltb 0 (length p)) (run_ops env (suc (length p)) free at p) (length p)
        (λ s'. run_ops-Ends env (suc (length p)) free at p s' (omega arith)) s

  Ends-parse_redeem : (vstr : List ℕ) (s : Script) → Ends (parse_redeem env vstr s)
  unfolding parse_redeem
  Ends-parse_redeem vstr s = grind (arith, Ends-parse_free)

  Ends-stored : (o : Option (List ℕ)) (s : Script) → Ends (parse_stored env o s)
  unfolding parse_stored
  Ends-stored none s = tt
  Ends-stored (some vstr) s = Ends-parse_redeem vstr s

  Ends-run_redeem : (t : Txin) (d : ScriptData) (s : Script) → Ends (run_redeem env t d s)
  unfolding run_redeem set_txin stack_push
  Ends-run_redeem t d s = grind (arith, Ends-stored, Ends-verify)

  Ends-post_process : (s : Script) → Ends (txin_p2sh_scripts_post_process env s)
  unfolding txin_p2sh_scripts_post_process current_txin set_txin stack_pop stack_push
  Ends-post_process s = grind (arith, Ends-run_redeem)

  Ends-must_parse : (m : Run ℕ) → Ends m → Ends (must_parse m)
  unfolding must_parse
  Ends-must_parse m h = ground arith

  Ends-p2wpkh : (p : List ℕ) (n : ℕ) (s : Script) → Ends (parse_p2sh_p2wpkh_scripts env p n s)
  unfolding parse_p2sh_p2wpkh_scripts current_txin set_txin
  Ends-p2wpkh p n s = grind (arith, Ends-must_parse, Ends-parse_redeem)

  Ends-p2wsh : (p : List ℕ) (s : Script) → Ends (parse_p2wsh env p s)
  unfolding parse_p2wsh stack_pop stack_push
  Ends-p2wsh p s = grind (arith, Ends-post_process s)

  Ends-segwit : (p : List ℕ) (s : Script) → Ends (parse_segwit_script env p s)
  unfolding parse_segwit_script
  Ends-segwit [] s = tt
  Ends-segwit (v ∷ []) s = tt
  Ends-segwit (v ∷ n ∷ p) s = grind (arith, Ends-p2wpkh, Ends-p2wsh)

  Ends-push_witnesses : (items : List (List ℕ)) (s : Script) → Ends (push_witnesses env items s)
  unfolding push_witnesses stack_push
  Ends-push_witnesses [] s = tt
  Ends-push_witnesses (item ∷ items) s = grind (arith, Ends-push_witnesses items)

  Ends-input_witnesses : (tx : Tx) (s : Script) → Ends (push_input_witnesses env tx s)
  unfolding push_input_witnesses
  Ends-input_witnesses tx s = grind (arith, Ends-push_witnesses)

  Ends-pop_segwit : (s : Script) → Ends (pop_segwit_script env s)
  unfolding pop_segwit_script stack_pop
  Ends-pop_segwit s = ground arith

  Ends-p2sh_segwit : (d : ScriptData) (s : Script) → Ends (parse_p2sh_segwit env d s)
  unfolding parse_p2sh_segwit stack_pop stack_push
  Ends-p2sh_segwit d s = grind (arith, Ends-segwit)

  Ends-pre_process : (p : List ℕ) (s : Script) → Ends (txout_scripts_pre_process env p s)
  unfolding txout_scripts_pre_process current_txin set_txin is_legacy_spend
  Ends-pre_process [] s = tt
  Ends-pre_process (op ∷ p) s = grind (
    arith,
    Ends-input_witnesses,
    Ends-p2sh_segwit,
    Ends-segwit (op ∷ p),
    Ends-pop_segwit,
    Ends-lift,
  )

  Ends-txin :
      (p2sh : Bool) (m m' : Action (Unit {0})) (n : ℕ) (s : Script)
      → Ends (m s)
      → Ends (m' s)
      → Ends (((if p2sh then m >> txin_p2sh_scripts_post_process env else m') >> return n) s)
  Ends-txin true m m' n s h h' =
      Ends-bind {B = ℕ} ((m >> txin_p2sh_scripts_post_process env) s) (λ _. return n)
        (Ends-bind {B = Unit {0}} (m s) (λ _. txin_p2sh_scripts_post_process env) h
          (λ _ s'. Ends-post_process s'))
        (λ _ s'. tt)
  Ends-txin false m m' n s h h' = Ends-bind {B = ℕ} (m' s) (λ _. return n) h' (λ _ s'. tt)

  Ends-ne : {A : Type 0} (m : Run A) → Ends m → m ≢ starved
  Ends-ne m h = λ e. ground (arith, e)

  Ends-parse :
      (type : ScriptType) (payload : List ℕ) (s : Script) → Ends (scripts_parse env type payload s)
  unfolding scripts_parse
  Ends-parse free payload s = Ends-parse_free none payload s
  Ends-parse txin [] s = tt
  Ends-parse txin (op ∷ p) s =
      Ends-txin (op == 0) (run_ops env (suc (length p)) txin none p)
        (run_ops env (suc (length (op ∷ p))) txin none (op ∷ p)) (length (op ∷ p))
        (record s { type = txin })
        (run_ops-Ends env (suc (length p)) txin none p (record s { type = txin }) (omega arith))
        (run_ops-Ends env (suc (length (op ∷ p))) txin none (op ∷ p) (record s { type = txin })
          (omega arith))
  Ends-parse txout payload s = grind (
    arith,
    λ (p : List ℕ) (s' : Script). run_ops-Ends env (suc (length p)) txout none p s' (omega arith),
    Ends-pre_process,
  )

  -- scripts_parse, of any type, on any payload and state, ends: the fuel of its loops, the length
  -- of the payload and one, is never used up.
  pub scripts_parse_total :
      (type : ScriptType) (payload : List ℕ) (s : Script)
      → scripts_parse env type payload s ≢ starved
  scripts_parse_total type payload s =
      Ends-ne (scripts_parse env type payload s) (Ends-parse type payload s)
