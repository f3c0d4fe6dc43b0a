-- ===== src/RawTx/Segwit.antt =====
-- The digest of a segwit input against the list of parts in BIP 143.
use bitcoin_clib.Base.{
  ℕ, zero, suc, ◌+◌, ◌*◌, ◌≤◌, ◌<◌, ◌≡◌, refl, sym, ap, ◌∙◌, List, [], ◌∷◌, ◌++◌, arith, length,
  get_elem?, ltb, leb, le→leb, ◌==◌, ◌⊎◌, ◌%◌, true, false, Bool, none, some, ok, >>=-eq-ok,
  assert-eq-ok, ok-injective, le_put, uint256_zero, if◌then◌else◌, inl, inr,
}
use bitcoin_clib.Hash.{HashFunctions, hash256}
use bitcoin_clib.Varstr.Laws.{varstr_of, Fits, varstr_size_exact}
use bitcoin_clib.Varstr.Copies.{read_all}
use bitcoin_clib.Payload.{bytes_eq}
use bitcoin_clib.Txin.{Txin, outpoint_bytes, satoshi_txin_get_redeem_scripts}
use bitcoin_clib.Txout.{Txout, satoshi_txout_serialize}
use bitcoin_clib.Tx.{Tx}
use bitcoin_clib.TxHash.{
  hashed_varstr, hashed_txout, hashed_txouts, outpoints, sequences, prehash_prevouts,
  prehash_sequences, prehash_outputs,
}
use bitcoin_clib.RawTx.{
  RawTx, anyone_canpay, segwit_front, segwit_outputs, segwit_utxo_get_digest,
  satoshi_rawtx_attach_segwit_tx, satoshi_rawtx_attach,
}
use bitcoin_clib.RawTx.Hashed.{hashed_txout-serialize}

-- The outputs with the bytes that each is written as.
pub data Written : List Txout → List (List ℕ) → Type 0 where
  end : Written [] []
  next :
      {t : Txout} {ts : List Txout} {w : List ℕ} {ws : List (List ℕ)}
      → satoshi_txout_serialize t ≡ ok w
      → Written ts ws
      → Written (t ∷ ts) (w ∷ ws)

-- The three base types of a signature hash.
pub data Sighash : Type 0 where
  all nothing single : Sighash

abbrev pub sighash_code : Sighash → ℕ
sighash_code all = 1
sighash_code nothing = 2
sighash_code single = 3

abbrev pub hash_type_of : Sighash → Bool → ℕ
hash_type_of kind anyone = sighash_code kind + (if anyone then 128 else 0)

abbrev pub concat : List (List ℕ) → List ℕ
concat [] = []
concat (w ∷ ws) = w ++ concat ws

module _ (h : HashFunctions) where
  -- Items 2, 3 and 8 of BIP 143.
  unfoldable pub bip143_prevouts : Tx → Bool → List ℕ
  bip143_prevouts tx anyone = if anyone then uint256_zero else hash256 h (outpoints tx.txins)

  unfoldable pub bip143_sequence : Tx → Sighash → Bool → List ℕ
  bip143_sequence tx all false = hash256 h (sequences tx.txins)
  bip143_sequence tx kind anyone = uint256_zero

  unfoldable pub bip143_outputs : List (List ℕ) → ℕ → Sighash → List ℕ
  bip143_outputs ws k all = hash256 h (concat ws)
  bip143_outputs ws k nothing = uint256_zero
  bip143_outputs ws k single = elim (get_elem? ws k) [ none ↦ uint256_zero | some w ↦ hash256 h w ]

  -- The ten items in their order.
  unfoldable pub bip143 : Tx → List (List ℕ) → ℕ → Txin → List ℕ → Txout → Sighash → Bool → List ℕ
  unfolding bip143_prevouts bip143_sequence bip143_outputs
  bip143 tx ws k t script utxo kind anyone =
      (le_put 4 tx.version ++ (bip143_prevouts tx anyone ++ bip143_sequence tx kind anyone))
      ++ (outpoint_bytes t.outpoint
          ++ (varstr_of script
              ++ (le_put 8 utxo.value
                  ++ (le_put 4 t.sequence
                      ++ (bip143_outputs ws k kind
                          ++ (le_put 4 tx.lock_time ++ le_put 4 (hash_type_of kind anyone)))))))

hashed_txouts-Written :
    {ts : List Txout} {ws : List (List ℕ)} → Written ts ws → hashed_txouts ts ≡ ok (concat ws)
unfolding hashed_txouts
hashed_txouts-Written end = refl
hashed_txouts-Written (next {t = t} {w = w} e rest) =
    rw (hashed_txout-serialize t w e, hashed_txouts-Written rest) refl

hashed_varstr_lem : (d : List ℕ) → Fits d → hashed_varstr (some (varstr_of d)) ≡ ok (varstr_of d)
unfolding hashed_varstr
hashed_varstr_lem d fits = rw (varstr_size_exact d fits, read_all (varstr_of d)) refl

some_hashed :
    (h : HashFunctions) (ts : List Txin)
    → 0 < length ts
    → prehash_prevouts h ts ≡ hash256 h (outpoints ts)
unfolding prehash_prevouts
some_hashed h ts pos = ground arith

some_sequences :
    (h : HashFunctions) (ts : List Txin)
    → 0 < length ts
    → prehash_sequences h ts ≡ hash256 h (sequences ts)
unfolding prehash_sequences
some_sequences h ts pos = ground arith

-- At an index there is an output with its bytes, or none of both.
place_of :
    {ts : List Txout} {ws : List (List ℕ)} (k : ℕ)
    → Written ts ws
    → ((length ts ≤ k) × (get_elem? ws k ≡ none))
      ⊎ ((t : Txout) × (w : List ℕ) × (k < length ts)
          × (get_elem? ts k ≡ some t)
          × (get_elem? ws k ≡ some w)
          × (hashed_txout t ≡ ok w))
place_of k end = inl (omega arith, refl)
place_of zero (next {t = t} {w = w} e rest) =
    inr (t, w, omega arith, refl, refl, hashed_txout-serialize t w e)
place_of (suc k) (next e rest) = elim (place_of k rest) [
  | inl (long, missing) ↦ inl (omega (arith, long), missing)
  | inr (t, w, short, et, ew, eh) ↦ inr (t, w, omega (arith, short), et, ew, eh)
]

single_output :
    (h : HashFunctions) {ts : List Txout} {ws : List (List ℕ)} (k : ℕ)
    → Written ts ws
    → (if leb (length ts) k then ok uint256_zero else prehash_outputs h ts (some k))
      ≡ ok (bip143_outputs h ws k single)
unfolding prehash_outputs bip143_outputs
single_output h {ts = ts} {ws = ws} k written = elim (place_of k written) [
  | inl (long, missing) ↦ rw (le→leb (length ts) k long, bip143_outputs, missing) refl
  | inr (t, w, short, et, ew, eh) ↦
      let c1 : leb (length ts) k ≡ false = ground (arith, short) in
      let c2 : (length ts == 0) ≡ false = ground (arith, short) in
      rw (c1, prehash_outputs, c2, et, eh, bip143_outputs, ew) refl
]

module _ (h : HashFunctions) (tx : Tx) (prior rawtx : RawTx) (ws : List (List ℕ))
    (flag : tx.has_flag ≡ true) (attached : satoshi_rawtx_attach h prior tx ≡ ok rawtx)
    (written : Written tx.txouts ws) where
  -- What an attach leaves for segwit inputs.
  attach_segwit :
      (0 < length tx.txins)
      × (0 < length tx.txouts)
      × (rawtx.segwit_sha
          ≡ some (
              le_put 4 tx.version
              ++ (hash256 h (outpoints tx.txins) ++ hash256 h (sequences tx.txins))))
      × (rawtx.txouts_hash ≡ hash256 h (concat ws))
  unfolding satoshi_rawtx_attach satoshi_rawtx_attach_segwit_tx prehash_outputs
  attach_segwit =
      let (c, e1) = assert-eq-ok (ltb 0 (length tx.txins)) _ attached in
      let (r, er, e2) =
        >>=-eq-ok (if tx.has_flag then satoshi_rawtx_attach_segwit_tx h prior tx else ok prior) _
          e1 in
      let er' : satoshi_rawtx_attach_segwit_tx h prior tx ≡ ok r =
        sym (ap (λ b. if b then satoshi_rawtx_attach_segwit_tx h prior tx else ok prior) flag)
        ∙ er in
      let (_, f1) = assert-eq-ok tx.has_flag _ er' in
      let (_, f2) = assert-eq-ok (bytes_eq tx.flag (0 ∷ 1 ∷ [])) _ f1 in
      let (_, e3) = assert-eq-ok (ltb 0 (length tx.txins)) _ f2 in
      let (d, e4) = assert-eq-ok (ltb 0 (length tx.txouts)) _ e3 in
      let (o, eo, e5) = >>=-eq-ok (prehash_outputs h tx.txouts none) _ e4 in
      let ins : 0 < length tx.txins = ground (arith, c) in
      let outs : 0 < length tx.txouts = ground (arith, d) in
      let same = ok-injective e2 in
      let inner = ok-injective e5 in
      (
        ins,
        outs,
        sym (ap (λ r. r.segwit_sha) same)
            ∙ sym (ap (λ r. r.segwit_sha) inner)
            ∙ rw (some_hashed h tx.txins ins, some_sequences h tx.txins ins) refl,
        sym (ap (λ r. r.txouts_hash) same)
            ∙ sym (ap (λ r. r.txouts_hash) inner)
            ∙ ok-injective (sym eo ∙ all_outputs outs),
      )
    where
      all_outputs :
          0 < length tx.txouts → prehash_outputs h tx.txouts none ≡ ok (hash256 h (concat ws))
      all_outputs outs =
          let c : (length tx.txouts == 0) ≡ false = ground (arith, outs) in
          rw (prehash_outputs, c, hashed_txouts-Written written) refl

  front_lem :
      (kind : Sighash) (anyone : Bool)
      → segwit_front h rawtx tx anyone (sighash_code kind)
        ≡ ok (
            le_put 4 tx.version
            ++ (bip143_prevouts h tx anyone ++ bip143_sequence h tx kind anyone))
  unfolding segwit_front bip143_prevouts bip143_sequence
  front_lem all true = refl
  front_lem nothing true = refl
  front_lem single true = refl
  front_lem all false = rw (segwit_front, attach_segwit.2) refl
  front_lem nothing false = rw (segwit_front, some_hashed h tx.txins attach_segwit.0) refl
  front_lem single false = rw (segwit_front, some_hashed h tx.txins attach_segwit.0) refl

  outputs_lem :
      (k : ℕ) (kind : Sighash)
      → segwit_outputs h rawtx tx k (sighash_code kind) ≡ ok (bip143_outputs h ws k kind)
  unfolding segwit_outputs bip143_outputs prehash_outputs
  outputs_lem k all = ap ok attach_segwit.3
  outputs_lem k nothing = refl
  outputs_lem k single = single_output h k written

  masks :
      (kind : Sighash) (anyone : Bool)
      → (hash_type_of kind anyone % 32 ≡ sighash_code kind)
        × ((anyone_canpay (hash_type_of kind anyone) == 1) ≡ anyone)
        × (sighash_code kind + 128 * anyone_canpay (hash_type_of kind anyone)
            ≡ hash_type_of kind anyone)
  unfolding anyone_canpay
  masks all true = (refl, refl, refl)
  masks nothing true = (refl, refl, refl)
  masks single true = (refl, refl, refl)
  masks all false = (refl, refl, refl)
  masks nothing false = (refl, refl, refl)
  masks single false = (refl, refl, refl)

  -- Behind satoshi_rawtx_attach of a transaction with the flag and outputs that can be written,
  -- for an input whose redeem script from its start position on is stored behind its length
  -- (below 2 ^ 63 - 9), and for the hash types ALL, NONE and SINGLE with and without
  -- ANYONECANPAY, segwit_utxo_get_digest gives the double SHA-256 of the ten items of BIP 143 in
  -- their order.
  pub segwit_utxo_get_digest_lem :
      (k : ℕ) (t : Txin) (script : List ℕ) (utxo : Txout) (kind : Sighash) (anyone : Bool)
      → get_elem? tx.txins k ≡ some t
      → satoshi_txin_get_redeem_scripts t ≡ ok (some (varstr_of script))
      → Fits script
      → segwit_utxo_get_digest h rawtx tx k (hash_type_of kind anyone) utxo
        ≡ ok (hash256 h (bip143 h tx ws k t script utxo kind anyone))
  unfolding segwit_utxo_get_digest bip143
  segwit_utxo_get_digest_lem k t script utxo kind anyone current redeem fits =
      let (low, high, whole) = masks kind anyone in
      rw
        (
          segwit_utxo_get_digest,
          current,
          low,
          high,
          front_lem kind anyone,
          redeem,
          hashed_varstr_lem script fits,
          low,
          outputs_lem k kind,
          whole,
        )
        refl
