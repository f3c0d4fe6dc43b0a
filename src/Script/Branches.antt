-- ===== src/Script/Branches.antt =====
-- `OP_IF` and `OP_NOTIF`: the scan for the matching `OP_ELSE` and `OP_ENDIF`, and the run of one branch.
use bitcoin_clib.Base.{
  ℕ, zero, suc, ◌+◌, ◌-◌, List, [], ◌∷◌, Bool, not, ◌||◌, ltb, leb, ◌==◌, if◌then◌else◌, length,
  take, drop, le_get, Option, none, some,
}
use bitcoin_clib.Script.{
  starved, Action, return, give_up, ◌>>=◌, ◌>>◌, reject, require, settle, current, modify,
  scripts_verify,
}

-- Where the `else` that counts, if any, and the `endif` of the current level end, as distances.
pub data IfScan : Type 0 where
  found : Option ℕ → ℕ → IfScan
  unmatched exhausted : IfScan

-- What one round does: it ends the scan, or it goes on at a level, with an `else` position, behind
-- so many more bytes.
pub data ScanStep : Type 0 where
  halt : IfScan → ScanStep
  go : ℕ → Option ℕ → ℕ → ScanStep

-- The bytes that a push takes behind its opcode; `none` where its size is cut off.
unfoldable pub pushed_bytes : ℕ → List ℕ → Option ℕ
pushed_bytes op p =
    if ltb op 0x4c
    then some op
    else (let width : ℕ = if op == 0x4c then 1 else if op == 0x4d then 2 else 4 in
        if ltb (length p) width then none else some (width + le_get (take width p)))

-- `pos` is the distance behind the opcode, `depth` the level above that of the `if` itself.
unfoldable pub scan_step : ℕ → ℕ → Option ℕ → ℕ → List ℕ → ScanStep
unfolding pushed_bytes
scan_step depth pos p_else op p =
    if op == 0x63 || op == 0x64
    then go (depth + 1) p_else 0
    else if op == 0x67
    then go depth (if depth == 0 then some pos else p_else) 0
    else if op == 0x68
    then (if depth == 0 then halt (found p_else pos) else go (depth - 1) p_else 0)
    else if leb op 0x4e
    then elim (pushed_bytes op p) [ none ↦ halt unmatched | some n ↦ go depth p_else n ]
    else go depth p_else 0

-- `while(p < p_end)`: each round takes a byte at least, so fuel above the length is enough.
unfoldable pub scan_if : ℕ → ℕ → ℕ → Option ℕ → List ℕ → IfScan
scan_if zero depth pos p_else p = exhausted
scan_if (suc f) depth pos p_else [] = unmatched
scan_if (suc f) depth pos p_else (op ∷ p) = elim (scan_step depth (pos + 1) p_else op p) [
  | halt result ↦ result
  | go depth' p_else' n ↦ scan_if f depth' (pos + 1 + n) p_else' (drop n p)
]

-- The part of the payload that is run and its distance, `none` for no part: up to the `else` or else
-- the `endif`, or from the `else` to the `endif`.
unfoldable pub chosen_branch : Bool → Option ℕ → ℕ → List ℕ → Option (ℕ × List ℕ)
chosen_branch matched none p_endif payload =
    if matched then some (0, take (p_endif - 1) payload) else none
chosen_branch matched (some p_else) p_endif payload =
    if matched
    then some (0, take (p_else - 1) payload)
    else some (p_else, drop p_else (take (p_endif - 1) payload))

-- The run of the branch, which has to take all of it. `parse` is `scripts->parse` of a free script, at a
-- distance from the payload.
unfoldable pub run_branch : (ℕ → List ℕ → Action ℕ) → Option (ℕ × List ℕ) → Action (Unit {0})
run_branch parse none = return tt
run_branch parse (some (at, branch)) = do cb ← parse at branch; reject (not (cb == length branch))

-- `--priv->if_statement_depth`, with its assert.
unfoldable pub leave_if : Action (Unit {0})
leave_if = do
  depth ← current (λ s. s.if_statement_depth)
  require (ltb 0 depth)
  modify (λ s. record s { if_statement_depth = s.if_statement_depth - 1 })

-- The depth is decreased on success alone.
unfoldable pub after_scan : (ℕ → List ℕ → Action ℕ) → Bool → List ℕ → IfScan → Action ℕ
unfolding chosen_branch run_branch leave_if
after_scan parse matched payload exhausted = λ s. starved
after_scan parse matched payload unmatched = give_up
after_scan parse matched payload (found p_else p_endif) =
    run_branch parse (chosen_branch matched p_else p_endif payload) >> leave_if >> return p_endif

unfoldable pub parse_op_if_notif : (ℕ → List ℕ → Action ℕ) → ℕ → ℕ → List ℕ → Action ℕ
unfolding scan_if after_scan
parse_op_if_notif parse depth op_code payload = do
  require (op_code == 0x63 || op_code == 0x64)
  reject (ltb 256 depth)
  reject (ltb depth 1)
  verified ← settle scripts_verify
  after_scan parse (if op_code == 0x63 then verified else not verified) payload
      (scan_if (suc (length payload)) 0 0 none payload)
