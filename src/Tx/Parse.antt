-- ===== src/Tx/Parse.antt =====
-- src/satoshi-tx.c: `satoshi_tx_parse` and its loops.
use bitcoin_clib.Base.{
  ℕ, zero, suc, ◌-◌, List, [], ◌∷◌, ◌++◌, Bool, true, ◌&&◌, ◌||◌, ltb, leb, ◌==◌, if◌then◌else◌,
  not, length, take, drop, Option, none, some, Outcome, ok, err, abort, ◌>>=◌, ◌>>◌, reject_if,
  assert, le_put, load,
}
use bitcoin_clib.Varint.{varint_size, varint_get}
use bitcoin_clib.Varstr.{is_positive, varstr_size, varstr_clone}
use bitcoin_clib.Payload.{past_end}
use bitcoin_clib.Txin.{Txin, txin_zero, satoshi_txin_parse}
use bitcoin_clib.Txout.{Txout, txout_zero, satoshi_txout_parse}
use bitcoin_clib.Hash.{HashFunctions, hash256}
use bitcoin_clib.Tx.{Witness, Tx}

-- The bytes between two positions of the payload.
abbrev pub span : List ℕ → List ℕ → List ℕ
span p q = take (length p - length q) p

-- `p_end` is the payload's end; `calloc n` says whether there is memory for an array of `n` elements.
module _ (p_end : ℕ) (calloc : ℕ → Bool) where
  -- The string and the next position. `err` stands for NULL, on which every caller fails.
  unfoldable pub parse_varstr : List ℕ → Outcome (Option (List ℕ) × List ℕ)
  parse_varstr p = do
    reject_if (leb (length p) 0)
    vstr_size ← varstr_size p
    reject_if (past_end p_end p vstr_size)
    dst ← varstr_clone (some p)
    ok (dst, drop vstr_size p)

  unfoldable pub parse_varint : List ℕ → Outcome (ℕ × List ℕ)
  parse_varint p = do
    reject_if (leb (length p) 0)
    vint_size ← varint_size p
    reject_if (past_end p_end p vint_size)
    value ← varint_get p
    ok (value, drop vint_size p)

  unfoldable pub parse_txins : ℕ → List ℕ → Outcome (List Txin × List ℕ)
  parse_txins zero p = ok ([], p)
  parse_txins (suc count) p = do
    reject_if (leb (length p) 0)
    (txin, cb) ← satoshi_txin_parse p_end txin_zero p
    reject_if (leb cb 0)
    (txins, q) ← parse_txins count (drop cb p)
    ok (txin ∷ txins, q)

  unfoldable pub parse_txouts : ℕ → List ℕ → Outcome (List Txout × List ℕ)
  parse_txouts zero p = ok ([], p)
  parse_txouts (suc count) p = do
    reject_if (leb (length p) 0)
    (txout, cb) ← satoshi_txout_parse p_end txout_zero p
    reject_if (leb cb 0)
    (txouts, q) ← parse_txouts count (drop cb p)
    ok (txout ∷ txouts, q)

  -- The items of one witness; the parser stores the pointer that `varstr_clone` returns.
  unfoldable pub parse_items : ℕ → List ℕ → Outcome (List (List ℕ) × List ℕ)
  parse_items zero p = ok ([], p)
  parse_items (suc count) p = do
    reject_if (leb (length p) 0)
    (item, q) ← parse_varstr p
    (items, r) ← parse_items count q
    elim item [ none ↦ abort | some vstr ↦ ok (vstr ∷ items, r) ]

  unfoldable pub parse_witness : List ℕ → Outcome (Witness × List ℕ)
  parse_witness p = do
    reject_if (leb (length p) 0)
    (num_items, q) ← parse_varint p
    if is_positive num_items
        then (assert (calloc num_items)
            >> (parse_items num_items q >>= λ (items, r).
                ok (record { num_items = num_items; items = items }, r)))
        else ok (record { num_items = num_items; items = [] }, q)

  unfoldable pub parse_witnesses : ℕ → List ℕ → Outcome (List Witness × List ℕ)
  parse_witnesses zero p = ok ([], p)
  parse_witnesses (suc count) p = do
    (witness, q) ← parse_witness p
    (witnesses, r) ← parse_witnesses count q
    ok (witness ∷ witnesses, r)

  -- The marker and the flag behind the version, and the position behind them. Where there are none,
  -- `has_flag` and `flag` stay.
  unfoldable pub parse_flag : Bool → List ℕ → List ℕ → Outcome (Bool × List ℕ × List ℕ)
  parse_flag has_flag flag [] = err
  parse_flag has_flag flag (m ∷ []) = err
  parse_flag has_flag flag (m ∷ f ∷ p) =
      if m == 0
      then (reject_if (ltb f 1 || ltb 1 f) >> ok (true, m ∷ f ∷ [], p))
      else ok (has_flag, flag, m ∷ f ∷ p)

  -- A count, and the array that it announces.
  unfoldable pub parse_txin_section : List ℕ → Outcome (List Txin × List ℕ)
  parse_txin_section p = do
    reject_if (leb (length p) 0)
    (count, q) ← parse_varint p
    reject_if (not (is_positive count))
    assert (calloc count)
    parse_txins count q

  unfoldable pub parse_txout_section : List ℕ → Outcome (List Txout × List ℕ)
  parse_txout_section p = do
    (count, q) ← parse_varint p
    reject_if (not (is_positive count))
    assert (calloc count)
    parse_txouts count q

  -- Only where the flag is set and more than the lock time is left.
  unfoldable pub parse_witness_section : Bool → ℕ → List ℕ → Outcome (List Witness × List ℕ)
  parse_witness_section has_flag txin_count p =
      if has_flag && ltb 4 (length p)
      then (assert (calloc txin_count) >> parse_witnesses txin_count p)
      else ok ([], p)

  module _ (h : HashFunctions) where
    -- The transaction, and the number of bytes taken. `tx` is the object before the call.
    unfoldable pub satoshi_tx_parse : Tx → List ℕ → Outcome (Tx × ℕ)
    satoshi_tx_parse tx payload = do
      assert (ltb 0 (length payload) && leb (length payload) 4000000)
      reject_if (ltb (length payload) 4)
      version ← load 4 payload
      (has_flag, flag, p) ← parse_flag tx.has_flag tx.flag (drop 4 payload)
      (txins, q) ← parse_txin_section p
      (txouts, r) ← parse_txout_section q
      (witnesses, s) ← parse_witness_section has_flag (length txins) r
      reject_if (ltb (length s) 4)
      lock_time ← load 4 s
      let end = drop 4 s
      let hashed = le_put 4 version ++ (span p q ++ (span q r ++ le_put 4 lock_time))
      let new_witnesses = if has_flag && ltb 4 (length r) then witnesses else tx.witnesses
      ok (
        record {
          version = version;
          has_flag = has_flag;
          flag = flag;
          txins = txins;
          txouts = txouts;
          cb_witnesses = length r - length s;
          witnesses = new_witnesses;
          lock_time = lock_time;
          txid = hash256 h hashed;
          wtxid = if has_flag then hash256 h (span payload end) else tx.wtxid;
        },
        length payload - length end,
      )
