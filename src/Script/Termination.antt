-- ===== src/Script/Termination.antt =====
-- The parser comes to an end: fuel above the length of the code is enough, also for the branches of
-- conditionals in conditionals.
use bitcoin_clib.Base.{
  ℕ, zero, suc, ◌+◌, ◌-◌, ◌≤◌, ◌<◌, List, [], ◌∷◌, arith, length, take, drop, length-drop, Option,
  none, some, Bool, true, false, not, ◌==◌, ltb,
}
use bitcoin_clib.Script.{
  Script, ScriptType, free, Env, Action, reject, require, modify, return, ◌>>◌,
}
use bitcoin_clib.Script.Branches.{
  IfScan, found, unmatched, exhausted, ScanStep, halt, go, scan_step, scan_if, chosen_branch,
  run_branch, leave_if, after_scan, parse_op_if_notif,
}
use bitcoin_clib.Script.Parse.{run_ops, advance, step}
use bitcoin_clib.Script.Ends.{Ends, Ends-bind, Ends-verify, Ends-step}

-- The scan came to a result.
abbrev IsSettled : IfScan → Type 0
IsSettled exhausted = ⊥
IsSettled _ = Unit {0}

abbrev Halts : ScanStep → Type 0
Halts (halt r) = IsSettled r
Halts (go d e n) = Unit {0}

scan_step-Halts :
    (depth pos : ℕ) (p_else : Option ℕ) (op : ℕ) (p : List ℕ)
    → Halts (scan_step depth pos p_else op p)
unfolding scan_step
scan_step-Halts depth pos p_else op p = ground arith

scan_goes :
    (st : ScanStep) (f pos : ℕ) (p : List ℕ)
    → Halts st
    → ((d : ℕ) (e : Option ℕ) (n : ℕ) → IsSettled (scan_if f d (pos + 1 + n) e (drop n p)))
    → IsSettled (elim st [
      | halt result ↦ result
      | go depth' p_else' n ↦ scan_if f depth' (pos + 1 + n) p_else' (drop n p)
    ])
scan_goes (halt r) f pos p h k = h
scan_goes (go d e n) f pos p h k = k d e n

pub length-drop-le : (n : ℕ) (xs : List ℕ) → length (drop n xs) ≤ length xs
length-drop-le n xs = omega (arith, length-drop n xs)

length-take-le : (n : ℕ) (xs : List ℕ) → length (take n xs) ≤ length xs
length-take-le zero xs = omega arith
length-take-le (suc n) [] = omega arith
length-take-le (suc n) (x ∷ xs) = omega (arith, length-take-le n xs)

scan_if-IsSettled :
    (f depth pos : ℕ) (p_else : Option ℕ) (p : List ℕ)
    → length p < f
    → IsSettled (scan_if f depth pos p_else p)
unfolding scan_if
scan_if-IsSettled zero depth pos p_else p h = absurd (omega (arith, h))
scan_if-IsSettled (suc f) depth pos p_else [] h = tt
scan_if-IsSettled (suc f) depth pos p_else (op ∷ p) h =
    scan_goes (scan_step depth (pos + 1) p_else op p) f pos p
      (scan_step-Halts depth (pos + 1) p_else op p)
      (λ d e n.
        scan_if-IsSettled f d (pos + 1 + n) e (drop n p) (omega (arith, h, length-drop-le n p)))

-- A branch is not longer than the payload.
IsShort : List ℕ → Option (ℕ × List ℕ) → Type 0
IsShort p none = Unit {0}
IsShort p (some (at, q)) = length q ≤ length p

chosen_branch-IsShort :
    (m : Bool) (p_else : Option ℕ) (p_endif : ℕ) (p : List ℕ)
    → IsShort p (chosen_branch m p_else p_endif p)
unfolding chosen_branch IsShort
chosen_branch-IsShort true none e p = length-take-le (e - 1) p
chosen_branch-IsShort false none e p = tt
chosen_branch-IsShort true (some l) e p = length-take-le (l - 1) p
chosen_branch-IsShort false (some l) e p =
    omega (arith, length-take-le (e - 1) p, length-drop-le l (take (e - 1) p))

Ends-reject : (b : Bool) (s : Script) → Ends (reject b s)
Ends-reject true s = tt
Ends-reject false s = tt

Ends-require : (b : Bool) (s : Script) → Ends (require b s)
Ends-require true s = tt
Ends-require false s = tt

Ends-leave_if : (s : Script) → Ends (leave_if s)
unfolding leave_if
Ends-leave_if s =
    Ends-bind (require (ltb 0 s.if_statement_depth) s) _ (Ends-require _ s) (λ _ s'. tt)

module _ (parse : ℕ → List ℕ → Action ℕ) (p : List ℕ)
    (ends : (at : ℕ) (q : List ℕ) (s : Script) → length q ≤ length p → Ends (parse at q s)) where
  branch-Ends : (b : Option (ℕ × List ℕ)) (s : Script) → IsShort p b → Ends (run_branch parse b s)
  unfolding IsShort run_branch
  branch-Ends none s h = tt
  branch-Ends (some (at, q)) s h =
      Ends-bind (parse at q s) _ (ends at q s h) (λ cb s'. Ends-reject (not (cb == length q)) s')

  after_scan-Ends :
      (m : Bool) (r : IfScan) (s : Script) → IsSettled r → Ends (after_scan parse m p r s)
  unfolding after_scan
  after_scan-Ends m exhausted s h = h
  after_scan-Ends m unmatched s h = tt
  after_scan-Ends m (found l e) s h =
      let branch = run_branch parse (chosen_branch m l e p) in
      Ends-bind {B = ℕ} ((branch >> leave_if) s) (λ _. return e)
        (Ends-bind {B = Unit {0}} (branch s) (λ _. leave_if)
          (branch-Ends (chosen_branch m l e p) s (chosen_branch-IsShort m l e p))
          (λ _ s'. Ends-leave_if s'))
        (λ _ s'. tt)

  if_notif-Ends : (depth op : ℕ) (s : Script) → Ends (parse_op_if_notif parse depth op p s)
  unfolding parse_op_if_notif
  if_notif-Ends depth op s =
      let scanned = scan_if-IsSettled (suc (length p)) 0 0 none p (omega arith) in
      grind (
        arith,
        λ (m : Bool) (s' : Script).
            after_scan-Ends m (scan_if (suc (length p)) 0 0 none p) s' scanned,
        Ends-verify s,
      )

pub Ends-nested :
    (there : Bool) (run : Action (Unit {0})) (n : ℕ)
    → ((s : Script) → Ends (run s))
    → (s : Script)
    → Ends ((require there >> modify (λ s. record s { type = free }) >> run >> return n) s)
Ends-nested true run n h s =
    Ends-bind (run (record s { type = free })) (λ _. return n) (h (record s { type = free }))
      (λ _ s'. tt)
Ends-nested false run n h s = tt

module _ (env : Env) where
  -- Fuel above the length of the payload is enough.
  pub run_ops-Ends :
      (f : ℕ) (type : ScriptType) (at : Option ℕ) (p : List ℕ) (s : Script)
      → length p < f
      → Ends (run_ops env f type at p s)
  unfolding run_ops
  run_ops-Ends zero type at p s h = absurd (omega (arith, h))
  run_ops-Ends (suc f) type at [] s h = tt
  run_ops-Ends (suc f) type at (op ∷ p) s h =
      let nested : ℕ → List ℕ → Action ℕ = λ d q.
        require (ltb 0 (length q))
        >> modify (λ s. record s { type = free })
        >> run_ops env f free (advance (1 + d) at) q
        >> return (length q) in
      let nested_ends : (d : ℕ) (q : List ℕ) (s : Script)
          → length q ≤ length p
          → Ends (nested d q s) =
        λ d q s short.
          Ends-nested (ltb 0 (length q)) (run_ops env f free (advance (1 + d) at) q) (length q)
            (λ s'. run_ops-Ends f free (advance (1 + d) at) q s' (omega (arith, h, short))) s in
      Ends-bind (step env nested type (advance 1 at) op p s) _
        (Ends-step env nested type (advance 1 at) op p s
          (λ depth s'. if_notif-Ends nested p nested_ends depth op s'))
        (λ n s'.
          run_ops-Ends f type (advance (1 + n) at) (drop n p) s'
            (omega (arith, h, length-drop-le n p)))
