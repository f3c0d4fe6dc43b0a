-- ===== src/Tests/Engine.antt =====
-- The script engine: a signature check, a conditional and whole scripts.
use bitcoin_clib.Base.{
  ℕ, ◌≡◌, ◌≢◌, refl, List, [], ◌∷◌, ◌++◌, Bool, true, arith, length, replicate, Option, none, some,
  ok, inl, inr, if◌then◌else◌, ◌==◌,
}
use bitcoin_clib.Hash.{trivial_hash}
use bitcoin_clib.ScriptData.{ScriptData, satoshi_script_data_new_boolean}
use bitcoin_clib.ScriptData.Strings.{pushed}
use bitcoin_clib.ScriptStack.{ScriptStack}
use bitcoin_clib.ScriptStack.Array.{items_of, IsWellFormed}
use bitcoin_clib.ScriptStack.Held.{pointers}
use bitcoin_clib.RawTx.{rawtx_zero}
use bitcoin_clib.Script.{Script, free, txout, Env, done, fail, starved, Action, return, ◌>>◌}
use bitcoin_clib.Script.Stack.{with_stack, HasRoom}
use bitcoin_clib.Script.Branches.{run_branch, leave_if, parse_op_if_notif}
use bitcoin_clib.Script.Imports.{is_valid, digest_of}
use bitcoin_clib.Script.Rounds.{p2pkh}
use bitcoin_clib.Script.Parse.{parse_free}
use bitcoin_clib.Script.Entry.{satoshi_script_generate_p2pkh_script, scripts_parse}
use bitcoin_clib.Script.PayToPubkeyHash.{started, p2pkh_accept, p2pkh_unread, p2pkh_reject}
use bitcoin_clib.Script.Total.{scripts_parse_total}
use bitcoin_clib.Script.Balanced.{Balanced, end, plain}
use bitcoin_clib.Script.Conditional.{takes_first, parse_op_if_notif_else}

-- A library that reads keys and signatures as they are, but no signature that starts with 0, and
-- verifies every signature.
abbrev pub parse_signature : List ℕ → Option (List ℕ)
parse_signature [] = none
parse_signature (first ∷ bs) = if first == 0 then none else some (first ∷ bs)

abbrev pub env : Env
env = record {
  hash = trivial_hash;
  ripemd160 = λ bs. replicate 20 0;
  secp = record {
    pubkey_parse = λ bs. some bs;
    signature_parse_der = parse_signature;
    signature_serialize_der = λ sig. some sig;
    ecdsa_verify = λ sig digest key. true;
  };
  low_byte = λ bs. 0;
  unset = none;
  unset_digest = [];
}

abbrev pub no_items : ScriptStack
no_items = record { max_size = 64; count = 0; items = replicate 64 none }

abbrev pub idle : Script
idle = record {
  main_stack = no_items;
  alt_stack = no_items;
  digest = some (replicate 32 0);
  tx = none;
  rawtx = rawtx_zero;
  txin_index = 0;
  utxo = none;
  type = free;
  if_statement_depth = 0;
}

abbrev two : ScriptData → ScriptData → ScriptStack
two x y = record { max_size = 64; count = 2; items = some y ∷ some x ∷ replicate 62 none }

two-HasRoom : (x y : ScriptData) → HasRoom (two x y) (x ∷ y ∷ []) 62
unfolding items_of pointers IsWellFormed
two-HasRoom x y = record {
  held = record { formed = (refl, refl, omega arith); items_eq = refl; count_eq = refl };
  room = omega arith;
}

abbrev one : ScriptData → ScriptStack
one x = record { max_size = 64; count = 1; items = some x ∷ replicate 63 none }

one-HasRoom : (x : ScriptData) → HasRoom (one x) (x ∷ []) 63
unfolding items_of pointers IsWellFormed
one-HasRoom x = record {
  held = record { formed = (refl, refl, omega arith); items_eq = refl; count_eq = refl };
  room = omega arith;
}

abbrev pub key : List ℕ
key = replicate 33 2

-- A key on a signature with its hash type.
abbrev spending : List ℕ → Script
spending sig = with_stack idle (two (pushed key) (pushed (sig ++ 1 ∷ [])))

p2pkh_accept_example :
    (satoshi_script_generate_p2pkh_script (replicate 20 0) 20 ≡ ok (0x19 ∷ p2pkh (replicate 20 0)))
    × ((stack : ScriptStack) × (parse_free env none (p2pkh (replicate 20 0)) (spending (7 ∷ []))
          ≡ done 25 (with_stack (started (spending (7 ∷ []))) stack))
        × HasRoom stack
            (satoshi_script_data_new_boolean (is_valid env (replicate 32 0) key (7 ∷ [])) ∷ [])
            63)
unfolding digest_of
p2pkh_accept_example =
    p2pkh_accept env (spending (7 ∷ [])) none key (7 ∷ []) 1 [] 60 (two-HasRoom _ _) (omega arith)
      (omega arith) (omega arith) refl key (7 ∷ []) (7 ∷ []) (replicate 32 0) rawtx_zero refl refl
      refl refl (omega arith)

p2pkh_unread_example :
    (stack : ScriptStack) × (parse_free env none (p2pkh (replicate 20 0)) (spending (0 ∷ []))
      ≡ done 25 (with_stack (started (spending (0 ∷ []))) stack))
    × HasRoom stack (satoshi_script_data_new_boolean true ∷ []) 63
p2pkh_unread_example =
    p2pkh_unread env (spending (0 ∷ [])) none key (0 ∷ []) 1 [] 60 (two-HasRoom _ _) (omega arith)
      (omega arith) (omega arith) refl key refl refl

p2pkh_reject_example :
    (stack : ScriptStack) × (parse_free env none (p2pkh (replicate 20 9)) (spending (7 ∷ []))
      ≡ fail (with_stack (started (spending (7 ∷ []))) stack))
    × HasRoom stack (pushed key ∷ pushed (7 ∷ 1 ∷ []) ∷ []) 62
p2pkh_reject_example =
    p2pkh_reject env (spending (7 ∷ [])) none key (replicate 20 9) (pushed (7 ∷ 1 ∷ []) ∷ []) 60
      (two-HasRoom _ _) (omega arith) refl refl (λ e. ground (arith, e))

-- An `if` in an output's script.
scripts_parse_total_example :
    scripts_parse env txout (0x51 ∷ 0x63 ∷ 0x52 ∷ 0x67 ∷ 0x53 ∷ 0x68 ∷ []) idle ≢ starved
scripts_parse_total_example =
    scripts_parse_total env txout (0x51 ∷ 0x63 ∷ 0x52 ∷ 0x67 ∷ 0x53 ∷ 0x68 ∷ []) idle

abbrev nested : ℕ → List ℕ → Action ℕ
nested at p = return (length p)

-- At the level of one open `if`, with a truth value on the stack.
abbrev chosen : Bool → Script
chosen top = record (with_stack idle (one (satoshi_script_data_new_boolean top))) {
  if_statement_depth = 1;
}

two_ops-Balanced : Balanced (0x52 ∷ 0x93 ∷ [])
two_ops-Balanced =
    plain 0x52 (omega arith) (inl (omega arith)) (plain 0x93 (omega arith) (inr (omega arith)) end)

one_op-Balanced : Balanced (0x53 ∷ [])
one_op-Balanced = plain 0x53 (omega arith) (inl (omega arith)) end

parse_op_if_notif_else_example :
    (stack : ScriptStack) × (parse_op_if_notif nested 1 0x64
        (0x52 ∷ 0x93 ∷ 0x67 ∷ 0x53 ∷ 0x68 ∷ 0x51 ∷ [])
        (chosen true)
      ≡ (run_branch nested
              (if takes_first 0x64 true then some (0, 0x52 ∷ 0x93 ∷ []) else some (3, 0x53 ∷ []))
            >> leave_if
            >> return 5)
          (with_stack (chosen true) stack))
    × HasRoom stack [] 64
parse_op_if_notif_else_example =
    parse_op_if_notif_else nested 0x64 1 true (chosen true) [] 63 (inr refl) (omega arith)
      (omega arith) (one-HasRoom _) (0x52 ∷ 0x93 ∷ []) (0x53 ∷ []) (0x51 ∷ []) two_ops-Balanced
      one_op-Balanced
