-- ===== src/Script/Rounds.antt =====
-- The rounds of the parse loop for the opcodes of the script that
-- `satoshi_script_generate_p2pkh_script` makes, up to OP_EQUALVERIFY.
use bitcoin_clib.Base.{
  ℕ, suc, ◌+◌, ◌<◌, ◌≡◌, refl, sym, ap, ◌∙◌, List, [], ◌∷◌, ◌++◌, arith, length, drop, Option,
  if◌then◌else◌, Bool, true, false, drop-append, Bool-cases, inl, inr,
}
use bitcoin_clib.Payload.{bytes_eq}
use bitcoin_clib.ScriptData.{ScriptData, DataType}
use bitcoin_clib.ScriptData.Strings.{pushed}
use bitcoin_clib.ScriptStack.{ScriptStack, script_stack_push}
use bitcoin_clib.ScriptStack.Held.{Held-push}
use bitcoin_clib.ScriptStack.PushData.{push_of, short_size}
use bitcoin_clib.Script.{Script, free, Env, done, fail, Action}
use bitcoin_clib.Script.Stack.{with_stack, HasRoom}
use bitcoin_clib.Script.Ops.{parse_op_dup, parse_op_hash, parse_op_equalverify, parse_op_push_data}
use bitcoin_clib.Script.Checks.{parse_op_checksig}
use bitcoin_clib.Script.Hashes.{
  parse_op_dup_lem, hash_data, parse_op_hash160, parse_op_equalverify_hash160,
}
use bitcoin_clib.Script.Parse.{run_ops, step, advance}

-- The script without its length.
unfoldable pub p2pkh : List ℕ → List ℕ
p2pkh h160 = 0x76 ∷ 0xa9 ∷ 20 ∷ (h160 ++ (0x88 ∷ 0xac ∷ []))

-- A short push through the engine.
push_short :
    (env : Env) (s : Script) (d after : List ℕ) (xs : List ScriptData) (n : ℕ)
    → HasRoom s.main_stack xs (suc n)
    → length d < 0x4c
    → (stack : ScriptStack) × (parse_op_push_data env (length d) (d ++ after) s
        ≡ done (length d) (with_stack s stack))
      × HasRoom stack (pushed d ∷ xs) n
unfolding parse_op_push_data
push_short env s d after xs n h short =
    let (held, size) =
      Held-push env.unset s.main_stack (pushed d) xs h.held (omega (arith, h.room)) in
    let pushes =
      push_of env.unset s.main_stack (length d) [] d after (ground (arith, short))
        (short_size (length d) (d ++ after) short) in
    (
      script_stack_push env.unset s.main_stack (pushed d),
      rw pushes refl,
      record { held = held; room = omega (arith, h.room, size) },
    )

module _ (env : Env) where
  -- One round of the loop, where its opcode returns.
  pub run_ops-step :
      (f n : ℕ) (at : Option ℕ) (op : ℕ) (p : List ℕ) (s s' : Script)
      → ((parse : ℕ → List ℕ → Action ℕ) (at' : Option ℕ)
          → step env parse free at' op p s ≡ done n s')
      → run_ops env (suc f) free at (op ∷ p) s
        ≡ run_ops env f free (advance (1 + n) at) (drop n p) s'
  unfolding run_ops
  run_ops-step f n at op p s s' h = rw (h _ _) refl

  pub run_ops_fail :
      (f : ℕ) (at : Option ℕ) (op : ℕ) (p : List ℕ) (s s' : Script)
      → ((parse : ℕ → List ℕ → Action ℕ) (at' : Option ℕ)
          → step env parse free at' op p s ≡ fail s')
      → run_ops env (suc f) free at (op ∷ p) s ≡ fail s'
  unfolding run_ops
  run_ops_fail f at op p s s' h = rw (h _ _) refl

  module _ (parse : ℕ → List ℕ → Action ℕ) (at : Option ℕ) (p : List ℕ) (s : Script)
      (stack : ScriptStack) where
    step_dup :
        parse_op_dup env s ≡ done tt (with_stack s stack)
        → step env parse free at 0x76 p s ≡ done 0 (with_stack s stack)
    unfolding step
    step_dup e = rw e refl

    step_hash160 :
        parse_op_hash env 0xa9 s ≡ done tt (with_stack s stack)
        → step env parse free at 0xa9 p s ≡ done 0 (with_stack s stack)
    unfolding step
    step_hash160 e = rw e refl

    step_push20 :
        parse_op_push_data env 20 p s ≡ done 20 (with_stack s stack)
        → step env parse free at 20 p s ≡ done 20 (with_stack s stack)
    unfolding step
    step_push20 e = rw e refl

    pub step_checksig :
        (s' : Script)
        → parse_op_checksig env s ≡ done tt s'
        → step env parse free at 0xac p s ≡ done 0 s'
    unfolding step
    step_checksig s' e = rw e refl

    step_equalverify :
        (equal : Bool)
        → parse_op_equalverify s
          ≡ (if equal then done tt (with_stack s stack) else fail (with_stack s stack))
        → step env parse free at 0x88 p s
          ≡ (if equal then done 0 (with_stack s stack) else fail (with_stack s stack))
    unfolding step
    step_equalverify true e = rw e refl
    step_equalverify false e = rw e refl

  module _ (key h160 : List ℕ) (xs : List ScriptData) (n : ℕ) (key_pos : 0 < length key)
      (hash_size : length (env.ripemd160 (env.hash.sha256 key)) ≡ 20)
      (size : length h160 ≡ 20) where
    -- Up to the check of the hash.
    pub front :
        (s : Script) (at : Option ℕ) (f : ℕ)
        → HasRoom s.main_stack (pushed key ∷ xs) (suc (suc n))
        → (stack : ScriptStack) × (at' : Option ℕ) × (run_ops env
              (suc (suc (suc (suc f))))
              free
              at
              (p2pkh h160)
              s
            ≡ (if bytes_eq h160 (env.ripemd160 (env.hash.sha256 key))
                then run_ops env f free at' (0xac ∷ []) (with_stack s stack)
                else fail (with_stack s stack)))
          × HasRoom stack (pushed key ∷ xs) (suc (suc n))
    unfolding p2pkh
    front s at f h =
        let hash = env.ripemd160 (env.hash.sha256 key) in
        let rest = 0x88 ∷ 0xac ∷ [] in
        let (st1, e1, r1) = parse_op_dup_lem env s key xs (suc n) h key_pos in
        let s1 = with_stack s st1 in
        let (st2, e2, r2) =
          parse_op_hash160 env s1 key (pushed key ∷ xs) (suc n) r1 key_pos hash_size in
        let s2 = with_stack s st2 in
        let (st3, e3, r3) =
          push_short env s2 h160 rest (hash_data DataType.hash160 hash ∷ pushed key ∷ xs) n r2
            (omega (arith, size)) in
        let s3 = with_stack s st3 in
        let (st4, e4, r4) =
          parse_op_equalverify_hash160 s3 h160 hash (pushed key ∷ xs) n r3 size hash_size in
        let s4 = with_stack s st4 in
        let at1 = advance 1 at in
        let at2 = advance 1 at1 in
        let at3 = advance 21 at2 in
        (
          st4,
          advance 1 at3,
          run_ops-step (suc (suc (suc f))) 0 at 0x76 (0xa9 ∷ 20 ∷ (h160 ++ rest)) s s1
                (λ parse a. step_dup parse a _ s st1 e1)
              ∙ run_ops-step (suc (suc f)) 0 at1 0xa9 (20 ∷ (h160 ++ rest)) s1 s2
                  (λ parse a. step_hash160 parse a _ s1 st2 e2)
              ∙ run_ops-step (suc f) 20 at2 20 (h160 ++ rest) s2 s3
                  (λ parse a. step_push20 parse a _ s2 st3 (rw size at e3))
              ∙ ap (λ p. run_ops env (suc f) free at3 p s3) (drop-append 20 h160 rest (sym size))
              ∙ (elim (Bool-cases (bytes_eq h160 hash)) [
                | inl c ↦ rw c (
                    run_ops-step f 0 at3 0x88 (0xac ∷ []) s3 s4 (λ parse a.
                      rw c at
                        (step_equalverify parse a (0xac ∷ []) s3 st4 (bytes_eq h160 hash) e4)))
                | inr c ↦ rw c (
                    run_ops_fail f at3 0x88 (0xac ∷ []) s3 s4 (λ parse a.
                      rw c at
                        (step_equalverify parse a (0xac ∷ []) s3 st4 (bytes_eq h160 hash) e4)))
              ]),
          r4,
        )
