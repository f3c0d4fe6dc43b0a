-- ===== src/Script/Conditional.antt =====
-- What a conditional runs.
use bitcoin_clib.Base.{
  ℕ, suc, ◌+◌, ◌-◌, ◌≤◌, ◌≡◌, refl, sym, ap, ◌∙◌, List, [], ◌∷◌, ◌++◌, ◌⊎◌, append_assoc, arith,
  length, length-append, take, drop, take-append, drop-append, Option, none, some, Bool, true,
  false, not, ltb, ◌||◌, ◌==◌, if◌then◌else◌,
}
use bitcoin_clib.ScriptData.{ScriptData, satoshi_script_data_new_boolean}
use bitcoin_clib.ScriptStack.{ScriptStack}
use bitcoin_clib.Script.{Script, Run, done, fail, Action, return, ◌>>◌, returns_zero}
use bitcoin_clib.Script.Stack.{with_stack, HasRoom, scripts_verify_boolean}
use bitcoin_clib.Script.Branches.{
  found, scan_if, chosen_branch, run_branch, leave_if, after_scan, parse_op_if_notif,
}
use bitcoin_clib.Script.Balanced.{Balanced}
use bitcoin_clib.Script.Scan.{scan_two, scan_one}

-- Whether the first branch is run: OP_IF on true, OP_NOTIF on false.
unfoldable pub takes_first : ℕ → Bool → Bool
takes_first op top = if op == 0x63 then top else not top

settled :
    (top : Bool) (s : Script)
    → returns_zero (elim top as (λ _. Run (Unit {0})) [ true ↦ done tt s | false ↦ fail s ])
      ≡ done top s
settled true s = refl
settled false s = refl

take_first : (a r : List ℕ) (n : ℕ) → n ≡ length a + 1 → take (n - 1) (a ++ r) ≡ a
take_first a r n e = take-append (n - 1) a r (omega (arith, e))

chosen_one :
    (m : Bool) (a rest : List ℕ)
    → chosen_branch m none (length a + 1) (a ++ (0x68 ∷ rest)) ≡ (if m then some (0, a) else none)
unfolding chosen_branch
chosen_one true a rest = ap (λ l. some (0, l)) (take_first a _ (length a + 1) refl)
chosen_one false a rest = refl

-- The code up to the last `endif`, without the first branch.
second_branch :
    (a b rest : List ℕ)
    → drop
        (length a + 1)
        (take (length a + 1 + length b + 1 - 1) (a ++ (0x67 ∷ (b ++ (0x68 ∷ rest)))))
      ≡ b
second_branch a b rest =
    let front = a ++ (0x67 ∷ []) in
    let code = front ++ b in
    let whole : a ++ (0x67 ∷ (b ++ (0x68 ∷ rest))) ≡ code ++ (0x68 ∷ rest) =
      sym (append_assoc front b (0x68 ∷ rest) ∙ append_assoc a (0x67 ∷ []) (b ++ (0x68 ∷ rest))) in
    let size : length front ≡ length a + 1 = omega (arith, length-append a (0x67 ∷ [])) in
    ap (λ l. drop (length a + 1) (take (length a + 1 + length b + 1 - 1) l)) whole
    ∙ ap (drop (length a + 1)) (
        take-append (length a + 1 + length b + 1 - 1) code (0x68 ∷ rest)
          (omega (arith, size, length-append front b)))
    ∙ drop-append (length a + 1) front b (sym size)

chosen_two :
    (m : Bool) (a b rest : List ℕ)
    → chosen_branch m
        (some (length a + 1))
        (length a + 1 + length b + 1)
        (a ++ (0x67 ∷ (b ++ (0x68 ∷ rest))))
      ≡ (if m then some (0, a) else some (length a + 1, b))
unfolding chosen_branch
chosen_two true a b rest = ap (λ l. some (0, l)) (take_first a _ (length a + 1) refl)
chosen_two false a b rest = ap (λ l. some (length a + 1, l)) (second_branch a b rest)

module _ (parse : ℕ → List ℕ → Action ℕ) (op depth : ℕ) (top : Bool) (s : Script)
    (xs : List ScriptData) (n : ℕ) (is_if : (op ≡ 0x63) ⊎ (op ≡ 0x64)) (some_depth : 1 ≤ depth)
    (low_depth : depth ≤ 256)
    (held : HasRoom s.main_stack (satoshi_script_data_new_boolean top ∷ xs) n) where
  -- Up to the scan, with its result at hand.
  conditional :
      (payload : List ℕ) (p_else : Option ℕ) (p_endif : ℕ)
      → scan_if (suc (length payload)) 0 0 none payload ≡ found p_else p_endif
      → (stack : ScriptStack) × (parse_op_if_notif parse depth op payload s
          ≡ (run_branch parse (chosen_branch (takes_first op top) p_else p_endif payload)
                >> leave_if
                >> return p_endif)
              (with_stack s stack))
        × HasRoom stack xs (suc n)
  unfolding parse_op_if_notif takes_first after_scan
  conditional payload p_else p_endif e =
      let (stack, v, left) = scripts_verify_boolean s top xs n held in
      let c1 : ltb 256 depth ≡ false = ground arith in
      let c2 : ltb depth 1 ≡ false = ground arith in
      let c0 : (op == 0x63 || op == 0x64) ≡ true = ground (arith, is_if) in
      (stack, rw (c0, c1, c2, v, settled top (with_stack s stack), e) refl, left)

  -- At a depth from 1 to 256, with a truth value on the stack, parse_op_if_notif of well-nested
  -- code, an else, well-nested code, an endif and whatever follows takes the value off the stack,
  -- runs exactly one of the two codes, the first for OP_IF on true and OP_NOTIF on false, leaves
  -- the level and returns the distance behind the endif.
  pub parse_op_if_notif_else :
      (a b rest : List ℕ)
      → Balanced a
      → Balanced b
      → (stack : ScriptStack) × (parse_op_if_notif parse depth op
            (a ++ (0x67 ∷ (b ++ (0x68 ∷ rest))))
            s
          ≡ (run_branch parse (if takes_first op top then some (0, a) else some (length a + 1, b))
                >> leave_if
                >> return (length a + 1 + length b + 1))
              (with_stack s stack))
        × HasRoom stack xs (suc n)
  parse_op_if_notif_else a b rest ba bb =
      let payload = a ++ (0x67 ∷ (b ++ (0x68 ∷ rest))) in
      let (stack, e, left) =
        conditional payload (some (length a + 1)) (length a + 1 + length b + 1)
          (scan_two rest ba bb) in
      (
        stack,
        e
            ∙ ap
                (λ c.
                  (run_branch parse c >> leave_if >> return (length a + 1 + length b + 1))
                    (with_stack s stack))
                (chosen_two (takes_first op top) a b rest),
        left,
      )

  -- Without an `else`, nothing is run where the first branch is not.
  pub parse_op_if_notif_lem :
      (a rest : List ℕ)
      → Balanced a
      → (stack : ScriptStack) × (parse_op_if_notif parse depth op (a ++ (0x68 ∷ rest)) s
          ≡ (run_branch parse (if takes_first op top then some (0, a) else none)
                >> leave_if
                >> return (length a + 1))
              (with_stack s stack))
        × HasRoom stack xs (suc n)
  parse_op_if_notif_lem a rest ba =
      let (stack, e, left) =
        conditional (a ++ (0x68 ∷ rest)) none (length a + 1) (scan_one rest ba) in
      (
        stack,
        e
            ∙ ap
                (λ c.
                  (run_branch parse c >> leave_if >> return (length a + 1)) (with_stack s stack))
                (chosen_one (takes_first op top) a rest),
        left,
      )
