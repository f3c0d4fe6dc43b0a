-- ===== src/Script/Stack.antt =====
-- The engine's stack operations on a stack that is held as a list, the newest item first.
use bitcoin_clib.Base.{
  ℕ, suc, ◌+◌, ◌≤◌, ◌≡◌, refl, List, ◌∷◌, arith, length, ◌==◌, some, Bool, true, false,
}
use bitcoin_clib.ScriptData.{ScriptData, satoshi_script_data_new_boolean}
use bitcoin_clib.ScriptStack.{ScriptStack, script_stack_push}
use bitcoin_clib.ScriptStack.Held.{Held, Held-push, Held-pop}
use bitcoin_clib.RawTx.{RawTx}
use bitcoin_clib.Script.{Script, Env, done, fail, stack_pop, stack_push, scripts_verify}

-- The state with another main stack.
abbrev pub with_stack : Script → ScriptStack → Script
with_stack s stack = record s { main_stack = stack }

-- The state with another object for the digests.
abbrev pub with_rawtx : Script → RawTx → Script
with_rawtx s rawtx = record s { rawtx = rawtx }

-- `stack` holds `xs` and has places for `n` items more.
pub record HasRoom (stack : ScriptStack) (xs : List ScriptData) (n : ℕ) : Type 0 where
  pub held : Held stack xs
  pub room : length xs + n ≤ stack.max_size

pub HasRoom-less :
    {stack : ScriptStack} {xs : List ScriptData} {n : ℕ} (m : ℕ)
    → m ≤ n
    → HasRoom stack xs n
    → HasRoom stack xs m
HasRoom-less m h r = record { held = r.held; room = omega (arith, h, r.room) }

pub stack_push_lem :
    (env : Env) (s : Script) (x : ScriptData) (xs : List ScriptData) (n : ℕ)
    → HasRoom s.main_stack xs (suc n)
    → (stack : ScriptStack) × (stack_push env x s ≡ done tt (with_stack s stack))
      × HasRoom stack (x ∷ xs) n
unfolding stack_push
stack_push_lem env s x xs n h =
    let (held, size) = Held-push env.unset s.main_stack x xs h.held (omega (arith, h.room)) in
    (
      script_stack_push env.unset s.main_stack x,
      refl,
      record { held = held; room = omega (arith, h.room, size) },
    )

pub stack_pop_lem :
    (s : Script) (x : ScriptData) (xs : List ScriptData) (n : ℕ)
    → HasRoom s.main_stack (x ∷ xs) n
    → (stack : ScriptStack) × (stack_pop s ≡ done (some x) (with_stack s stack))
      × HasRoom stack xs (suc n)
unfolding stack_pop
stack_pop_lem s x xs n h =
    let (rest, e, held, size) = Held-pop s.main_stack x xs h.held in
    (rest, rw e refl, record { held = held; room = omega (arith, h.room, size) })

pub scripts_verify_boolean :
    (s : Script) (b : Bool) (xs : List ScriptData) (n : ℕ)
    → HasRoom s.main_stack (satoshi_script_data_new_boolean b ∷ xs) n
    → (stack : ScriptStack) × (scripts_verify s
        ≡ elim b [ true ↦ done tt (with_stack s stack) | false ↦ fail (with_stack s stack) ])
      × HasRoom stack xs (suc n)
unfolding scripts_verify satoshi_script_data_new_boolean
scripts_verify_boolean s true xs n h =
    let (stack, e, left) = stack_pop_lem s (satoshi_script_data_new_boolean true) xs n h in
    let c : (s.main_stack.count == 0) ≡ false = ground (arith, h.held.count_eq) in
    (stack, rw (c, e) refl, left)
scripts_verify_boolean s false xs n h =
    let (stack, e, left) = stack_pop_lem s (satoshi_script_data_new_boolean false) xs n h in
    let c : (s.main_stack.count == 0) ≡ false = ground (arith, h.held.count_eq) in
    (stack, rw (c, e) refl, left)
