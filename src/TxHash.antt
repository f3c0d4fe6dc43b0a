-- ===== src/TxHash.antt =====
-- The parts of a transaction as src/satoshi-tx.c and src/segwit-tx.c hash them for a signature.
use bitcoin_clib.Base.{
  ℕ, List, [], ◌∷◌, ◌++◌, ◌==◌, if◌then◌else◌, length, get_elem?, Option, none, some, Outcome, ok,
  abort, fault, ◌>>=◌, read, le_put, uint256_zero,
}
use bitcoin_clib.Hash.{HashFunctions, hash256}
use bitcoin_clib.Varstr.{varstr_size}
use bitcoin_clib.Txin.{Txin, outpoint_bytes}
use bitcoin_clib.Txout.{Txout}

-- A stored string, through a pointer.
unfoldable pub hashed_varstr : Option (List ℕ) → Outcome (List ℕ)
hashed_varstr none = fault
hashed_varstr (some vstr) = varstr_size vstr >>= λ n. read n vstr

unfoldable pub hashed_txout : Txout → Outcome (List ℕ)
unfolding hashed_varstr
hashed_txout t = hashed_varstr t.scripts >>= λ bs. ok (le_put 8 t.value ++ bs)

unfoldable pub hashed_txouts : List Txout → Outcome (List ℕ)
unfolding hashed_txout
hashed_txouts [] = ok []
hashed_txouts (t ∷ ts) =
    let rest = hashed_txouts ts in hashed_txout t >>= λ bs. rest >>= λ more. ok (bs ++ more)

unfoldable pub hashed_txin : Txin → Outcome (List ℕ)
unfolding hashed_varstr
hashed_txin t =
    hashed_varstr t.scripts >>= λ bs. ok (outpoint_bytes t.outpoint ++ (bs ++ le_put 4 t.sequence))

unfoldable pub hashed_txins : List Txin → Outcome (List ℕ)
unfolding hashed_txin
hashed_txins [] = ok []
hashed_txins (t ∷ ts) =
    let rest = hashed_txins ts in hashed_txin t >>= λ bs. rest >>= λ more. ok (bs ++ more)

unfoldable pub outpoints : List Txin → List ℕ
outpoints [] = []
outpoints (t ∷ ts) = outpoint_bytes t.outpoint ++ outpoints ts

unfoldable pub sequences : List Txin → List ℕ
sequences [] = []
sequences (t ∷ ts) = le_put 4 t.sequence ++ sequences ts

module _ (h : HashFunctions) where
  -- What the outer context is updated with.
  unfoldable pub prehash_prevouts : List Txin → List ℕ
  unfolding outpoints
  prehash_prevouts txins = if length txins == 0 then uint256_zero else hash256 h (outpoints txins)

  unfoldable pub prehash_sequences : List Txin → List ℕ
  unfolding sequences
  prehash_sequences txins = if length txins == 0 then uint256_zero else hash256 h (sequences txins)

  -- The hash, of all outputs or of that at an index. With no outputs it is not stored.
  unfoldable pub prehash_outputs : List Txout → Option ℕ → Outcome (List ℕ)
  unfolding hashed_txouts
  prehash_outputs txouts index = if length txouts == 0 then ok uint256_zero else elim index [
    | none ↦ hashed_txouts txouts >>= λ bs. ok (hash256 h bs)
    | some i ↦ elim (get_elem? txouts i) [
      | none ↦ abort
      | some t ↦ hashed_txout t >>= λ bs. ok (hash256 h bs)
    ]
  ]
