-- ===== src/Script/Ends.antt =====
-- Every opcode but the conditionals comes to an end whatever the fuel is.
use bitcoin_clib.Base.{
  ℕ, zero, suc, ◌+◌, ◌-◌, List, [], ◌∷◌, arith, Option, none, some, Bool, true, false, Outcome, ok,
  err, abort, fault, Bool-cases, inl, inr, ◌==◌, if◌then◌else◌, load, drop,
}
use bitcoin_clib.ScriptData.{ScriptData, follow}
use bitcoin_clib.Crypto.{crypto_signature_import, crypto_signature_export}
use bitcoin_clib.Script.{
  Script, ScriptType, Env, Run, done, fail, stopped, wrong, starved, Action, return, continue_with,
  lift, returns_zero, stack_pop, stack_push, scripts_verify,
}
use bitcoin_clib.Script.Ops.{
  parse_op_hash, parse_op_push_data, parse_op_dup, parse_op_equalverify, parse_op_equal,
}
use bitcoin_clib.Script.Checks.{
  get_digest, check_signature, parse_op_checksigverify, parse_op_checksig, pop_pubkeys, seek_pubkey,
  leave, use_pubkey, check_sigs, parse_op_checkmultisig,
}
use bitcoin_clib.Script.Branches.{parse_op_if_notif}
use bitcoin_clib.Script.Parse.{parse_op_codeseparator, dispatch, step}

-- The fuel did not run out.
abbrev pub Ends : {A : Type 0} → Run A → Type 0
Ends starved = ⊥
Ends _ = Unit {0}

pub Ends-bind :
    {A B : Type 0} (m : Run A) (f : A → Action B)
    → Ends m
    → ((a : A) (s : Script) → Ends (f a s))
    → Ends (continue_with f m)
Ends-bind (done a s) f h k = k a s
Ends-bind (fail s) f h k = tt
Ends-bind stopped f h k = tt
Ends-bind wrong f h k = tt
Ends-bind starved f h k = h

pub Ends-lift : {A : Type 0} (m : Outcome A) (s : Script) → Ends (lift m s)
Ends-lift (ok a) s = tt
Ends-lift err s = tt
Ends-lift abort s = tt
Ends-lift fault s = tt

pub Ends-settle : (m : Run (Unit {0})) → Ends m → Ends (returns_zero m)
Ends-settle (done a s) h = tt
Ends-settle (fail s) h = tt
Ends-settle stopped h = tt
Ends-settle wrong h = tt
Ends-settle starved h = h

pub Ends-pop : (s : Script) → Ends (stack_pop s)
unfolding stack_pop
Ends-pop s = tt

Ends-leave : (rc : Bool) (s : Script) → Ends (leave rc s)
unfolding leave
Ends-leave true s = tt
Ends-leave false s = tt

Ends-dup : (env : Env) (s : Script) → Ends (parse_op_dup env s)
unfolding parse_op_dup stack_push
Ends-dup env s = ground (arith)

Ends-hash : (env : Env) (op : ℕ) (s : Script) → Ends (parse_op_hash env op s)
unfolding parse_op_hash stack_push stack_pop
Ends-hash env op s = ground (arith)

Ends-push_data :
    (env : Env) (op : ℕ) (p : List ℕ) (s : Script) → Ends (parse_op_push_data env op p s)
unfolding parse_op_push_data
Ends-push_data env op p s = ground (arith)

pub Ends-verify : (s : Script) → Ends (scripts_verify s)
unfolding scripts_verify
Ends-verify s = ground (arith)

Ends-equalverify : (s : Script) → Ends (parse_op_equalverify s)
unfolding parse_op_equalverify stack_pop
Ends-equalverify s = ground (arith)

Ends-equal : (env : Env) (s : Script) → Ends (parse_op_equal env s)
unfolding parse_op_equal stack_push
Ends-equal env s =
    Ends-bind (returns_zero (parse_op_equalverify s)) _ (Ends-settle _ (Ends-equalverify s))
      (λ a t. tt)

Ends-check_signature :
    (env : Env) (pubkey : List ℕ) (d : ScriptData) (s : Script)
    → Ends (check_signature env pubkey d s)
unfolding check_signature
Ends-check_signature env pubkey d s = ground (arith)

Ends-checksigverify : (env : Env) (s : Script) → Ends (parse_op_checksigverify env s)
unfolding parse_op_checksigverify stack_pop
Ends-checksigverify env s = grind (arith, Ends-check_signature)

Ends-checksig : (env : Env) (s : Script) → Ends (parse_op_checksig env s)
unfolding parse_op_checksig stack_push
Ends-checksig env s =
    Ends-bind (returns_zero (parse_op_checksigverify env s)) _
      (Ends-settle _ (Ends-checksigverify env s)) (λ a t. tt)

Ends-pop_pubkeys : (env : Env) (n : ℕ) (s : Script) → Ends (pop_pubkeys env n s)
unfolding pop_pubkeys stack_pop
Ends-pop_pubkeys env zero s = tt
Ends-pop_pubkeys env (suc n) s = grind (arith, Ends-pop_pubkeys env n)

Ends-seek_pubkey :
    (env : Env) (digest der : List ℕ) (keys : List (List ℕ)) (s : Script)
    → Ends (seek_pubkey env digest der keys s)
unfolding seek_pubkey
Ends-seek_pubkey env digest der [] s = tt
Ends-seek_pubkey env digest der (key ∷ keys) s = grind (arith, Ends-seek_pubkey env digest der keys)

Ends-use_pubkey :
    (env : Env) (rest : Bool → List (List ℕ) → ℕ → Action (Option ℕ)) (digest der : List ℕ)
    (keys : List (List ℕ)) (k : ℕ) (s : Script)
    → ((found : Bool) (keys' : List (List ℕ)) (k' : ℕ) (s' : Script)
        → Ends (rest found keys' k' s'))
    → Ends (use_pubkey env rest digest der keys k s)
unfolding use_pubkey
Ends-use_pubkey env rest digest der keys k s h =
    Ends-bind (seek_pubkey env digest der keys s) _ (Ends-seek_pubkey env digest der keys s)
      (elim [ [] ↦ h false [] k | key ∷ keys' ↦ h true (key ∷ keys') (k + 1) ])

Ends-get_digest : (env : Env) (hash_type : ℕ) (s : Script) → Ends (get_digest env hash_type s)
unfolding get_digest
Ends-get_digest env hash_type s = ground (arith)

Ends-digest :
    (env : Env) (same : Bool) (hash_type : ℕ) (digest : List ℕ) (s : Script)
    → Ends ((if same then return digest else get_digest env hash_type) s)
Ends-digest env true hash_type digest s = tt
Ends-digest env false hash_type digest s = Ends-get_digest env hash_type s

Ends-check_sigs :
    (env : Env) (n : ℕ) (rc : Bool) (prev : ℕ) (digest : List ℕ) (keys : List (List ℕ)) (k : ℕ)
    (s : Script)
    → Ends (check_sigs env n rc prev digest keys k s)
unfolding check_sigs leave
Ends-check_sigs env zero rc prev digest keys k s = tt
Ends-check_sigs env (suc n) rc prev digest keys k s = Ends-bind (stack_pop s) _ (Ends-pop s) (elim [
  | none ↦ λ s1. Ends-leave rc s1
  | some sdata ↦ λ s1. elim (Bool-cases (sdata.size == 0)) [
    | inl c ↦ rw c (Ends-leave rc s1)
    | inr c ↦ rw c (
        Ends-bind (lift (follow sdata) s1) _ (Ends-lift (follow sdata) s1) (λ bs s2.
          Ends-bind (lift (load 1 (drop (sdata.size - 1) bs)) s2) _ (Ends-lift _ s2) (λ ty s3.
            Ends-bind (lift (crypto_signature_import env.secp bs (sdata.size - 1)) s3) _
              (Ends-lift _ s3)
              (elim [
                | none ↦ λ s4. Ends-leave rc s4
                | some sig ↦ λ s4.
                    Ends-bind (lift (crypto_signature_export env.secp sig) s4) _ (Ends-lift _ s4)
                      (elim [
                        | none ↦ λ s5. tt
                        | some der ↦ λ s5.
                            Ends-bind _ _ (Ends-digest env (ty == prev) ty digest s5) (λ digest' s6.
                              Ends-use_pubkey env _ digest' der keys k s6 (λ found keys' k' s'.
                                Ends-check_sigs env n found ty digest' keys' k' s'))
                      ])
              ]))))
  ]
])

Ends-checkmultisig : (env : Env) (s : Script) → Ends (parse_op_checkmultisig env s)
unfolding parse_op_checkmultisig stack_pop stack_push
Ends-checkmultisig env s = grind (arith, Ends-check_sigs, Ends-pop_pubkeys)

Ends-codeseparator : (at : Option ℕ) (s : Script) → Ends (parse_op_codeseparator at s)
unfolding parse_op_codeseparator
Ends-codeseparator at s = ground (arith)

Ends-then : (m : Run (Unit {0})) → Ends m → Ends (continue_with {B = ℕ} (λ _. return 0) m)
Ends-then m h = Ends-bind m (λ _. return 0) h (λ a s. tt)

-- The switch, where a conditional comes to an end.
pub Ends-dispatch :
    (env : Env) (parse : ℕ → List ℕ → Action ℕ) (at : Option ℕ) (op : ℕ) (p : List ℕ) (s : Script)
    → ((depth : ℕ) (s' : Script) → Ends (parse_op_if_notif parse depth op p s'))
    → Ends (dispatch env parse at op p s)
unfolding dispatch
Ends-dispatch env parse at op p s h = grind (
  arith, Ends-then, Ends-hash, Ends-dup, Ends-equalverify, Ends-equal, Ends-checksig,
  Ends-checksigverify, Ends-checkmultisig, Ends-verify, Ends-codeseparator, h,
)

pub Ends-step :
    (env : Env) (parse : ℕ → List ℕ → Action ℕ) (type : ScriptType) (at : Option ℕ) (op : ℕ)
    (p : List ℕ) (s : Script)
    → ((depth : ℕ) (s' : Script) → Ends (parse_op_if_notif parse depth op p s'))
    → Ends (step env parse type at op p s)
unfolding step stack_push
Ends-step env parse type at op p s h =
    grind (arith, Ends-dispatch env parse at op p, Ends-push_data, h)
