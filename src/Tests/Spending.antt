-- ===== src/Tests/Spending.antt =====
-- Spending the second input: two of two signatures, both by the first key, and one signature.
use bitcoin_clib.Base.{
  le_put, ◌++◌, ◌≡◌, refl, ap, [], ◌∷◌, arith, replicate, some, none, inl, ok, true,
}
use bitcoin_clib.Hash.{hash256, trivial_hash}
use bitcoin_clib.ScriptData.{ScriptData, uint8, script_data_zero, satoshi_script_data_new_boolean}
use bitcoin_clib.ScriptData.Strings.{pushed}
use bitcoin_clib.ScriptStack.{ScriptStack}
use bitcoin_clib.ScriptStack.Array.{items_of, IsWellFormed}
use bitcoin_clib.ScriptStack.Held.{pointers}
use bitcoin_clib.RawTx.{RawTx, rawtx_zero, satoshi_rawtx_get_digest}
use bitcoin_clib.RawTx.Legacy.{satoshi_rawtx_get_digest_legacy}
use bitcoin_clib.Script.{Script, done, value_byte}
use bitcoin_clib.Script.Stack.{with_stack, with_rawtx, HasRoom}
use bitcoin_clib.Script.Imports.{given, is_valid}
use bitcoin_clib.Script.Checks.{parse_op_checkmultisig}
use bitcoin_clib.Script.Rounds.{p2pkh}
use bitcoin_clib.Script.Parse.{parse_free}
use bitcoin_clib.Script.PayToPubkeyHash.{started}
use bitcoin_clib.Script.Spend.{Spends, p2pkh_spend}
use bitcoin_clib.Script.Multisig.{IsSignature, Keys, parse_op_checkmultisig_one_key}
use bitcoin_clib.Tests.Parts.{output}
use bitcoin_clib.Tests.Digests.{
  signing, two_inputs, two_attached, two_attached_run, signing_script, signed_bytes, signed_written,
}
use bitcoin_clib.Tests.Engine.{env, idle, key}

-- What OP_2 pushes.
abbrev two_item : ScriptData
two_item = record script_data_zero { kind = uint8; inline = 2 ∷ replicate 31 0; size = 1 }

abbrev signature : ScriptData
signature = pushed (7 ∷ 1 ∷ [])

abbrev multisig_stack : ScriptStack
multisig_stack = record {
  max_size = 64;
  count = 6;
  items =
      some signature
      ∷ some signature
      ∷ some two_item
      ∷ some (pushed (replicate 33 3))
      ∷ some (pushed key)
      ∷ some two_item
      ∷ replicate 58 none;
}

abbrev spending_two : Script
spending_two = record idle {
  main_stack = multisig_stack;
  digest = none;
  tx = some two_inputs;
  rawtx = two_attached;
  txin_index = 1;
  utxo = some output;
}

multisig-HasRoom :
    HasRoom multisig_stack
      (two_item ∷ pushed key ∷ pushed (replicate 33 3) ∷ two_item ∷ signature ∷ signature ∷ [])
      58
unfolding items_of pointers IsWellFormed
multisig-HasRoom = record {
  held = record { formed = (refl, refl, omega arith); items_eq = refl; count_eq = refl };
  room = omega arith;
}

digest_run :
    (rawtx : RawTx) × (satoshi_rawtx_get_digest trivial_hash two_attached two_inputs 1 1
        (some output)
      ≡ ok (some (replicate 32 0), rawtx))
digest_run =
    satoshi_rawtx_get_digest_legacy trivial_hash two_inputs 1 signing (1 ∷ 81 ∷ []) signed_bytes
      rawtx_zero two_attached two_attached_run refl signing_script (omega arith) signed_written
      output refl refl

digest_given :
    given (satoshi_rawtx_get_digest trivial_hash two_attached two_inputs 1 1 (some output))
    ≡ some (replicate 32 0, digest_run.0)
unfolding given
digest_given = ap given digest_run.1

two_value : value_byte env two_item ≡ 2
unfolding value_byte
two_value = refl

good-IsSignature : IsSignature env (replicate 32 0) key (7 ∷ [])
unfolding is_valid
good-IsSignature = record {
  imported = 7 ∷ [];
  der = 7 ∷ [];
  some_bytes = omega arith;
  is_read = refl;
  is_written = refl;
  some_der = omega arith;
  valid = refl;
}

parse_op_checkmultisig_one_key_example :
    (stack : ScriptStack) × (parse_op_checkmultisig env spending_two
      ≡ done tt (with_rawtx (with_stack spending_two stack) digest_run.0))
    × HasRoom stack (satoshi_script_data_new_boolean true ∷ []) 63
parse_op_checkmultisig_one_key_example =
    parse_op_checkmultisig_one_key env spending_two two_inputs two_item two_item
      (key ∷ replicate 33 3 ∷ []) (replicate 33 3 ∷ []) key 1 (replicate 32 0) digest_run.0 (7 ∷ [])
      ((7 ∷ []) ∷ []) [] 58 multisig-HasRoom two_value two_value (omega arith) (omega arith)
      (Keys.next (inl refl) refl (Keys.next (inl refl) refl Keys.end)) refl digest_given
      (omega arith) (good-IsSignature, (good-IsSignature, tt))

-- A key on a signature, for the second input.
abbrev spending_one : Script
spending_one = record spending_two {
  main_stack = record {
    max_size = 64;
    count = 2;
    items = some signature ∷ some (pushed key) ∷ replicate 62 none;
  };
}

one-HasRoom : HasRoom spending_one.main_stack (pushed key ∷ signature ∷ []) 62
unfolding items_of pointers IsWellFormed
one-HasRoom = record {
  held = record { formed = (refl, refl, omega arith); items_eq = refl; count_eq = refl };
  room = omega arith;
}

one-Spends : Spends env spending_one two_inputs signing (1 ∷ 81 ∷ []) signed_bytes output
one-Spends = record {
  prior = rawtx_zero;
  no_digest = refl;
  attached_tx = refl;
  attached = two_attached_run;
  current = refl;
  redeem = signing_script;
  some_txout = omega arith;
  spent = refl;
  plain = refl;
  kind = refl;
  written = signed_written;
}

p2pkh_spend_example :
    (stack : ScriptStack) × (rawtx : RawTx) × (parse_free env none
        (p2pkh (replicate 20 0))
        spending_one
      ≡ done 25 (with_rawtx (with_stack (started spending_one) stack) rawtx))
    × HasRoom stack
        (satoshi_script_data_new_boolean
            (is_valid env (hash256 trivial_hash (signed_bytes ++ le_put 4 1)) key (7 ∷ []))
          ∷ [])
        63
p2pkh_spend_example =
    p2pkh_spend env spending_one none key (7 ∷ []) [] 60 two_inputs signing (1 ∷ 81 ∷ [])
      signed_bytes output key (7 ∷ []) (7 ∷ []) one-HasRoom (omega arith) (omega arith)
      (omega arith) refl refl refl refl (omega arith) one-Spends
