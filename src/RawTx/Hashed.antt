-- ===== src/RawTx/Hashed.antt =====
-- What the legacy digest is made of: the inputs and outputs as they are serialized.
use bitcoin_clib.Base.{
  ℕ, zero, suc, ◌-◌, ◌≤◌, ◌<◌, ◌≡◌, refl, sym, ap, ◌∙◌, List, [], ◌∷◌, ◌++◌, append_assoc, arith,
  length, take, drop, set, get_elem?, map, ltb, lt→ltb, le→leb, ◌⊖◌, false, Option, none, some,
  Outcome, ok, abort, fault, >>=-eq-ok, assert-eq-ok, ok-injective, ◌>>=◌, ◌>>◌, assert, le_put,
  read,
}
use bitcoin_clib.Hash.{HashFunctions, hash256}
use bitcoin_clib.Varint.{varint_bytes}
use bitcoin_clib.Varstr.{varstr_size, is_positive}
use bitcoin_clib.Txin.{
  Txin, outpoint_bytes, satoshi_txin_serialize, satoshi_txin_get_redeem_scripts,
}
use bitcoin_clib.Txout.{Txout, satoshi_txout_serialize}
use bitcoin_clib.Tx.{Tx, serialize_txins, serialize_txouts}
use bitcoin_clib.TxHash.{hashed_varstr, hashed_txout, hashed_txouts, hashed_txin, hashed_txins}
use bitcoin_clib.RawTx.{
  RawTx, raw_txin, first_txin, legacy_txins, legacy_txouts, anyone_canpay, satoshi_utxo_get_digest,
}

hashed_txin-serialize :
    (t : Txin) (bs : List ℕ) → satoshi_txin_serialize t ≡ ok bs → hashed_txin t ≡ ok bs
unfolding satoshi_txin_serialize hashed_txin hashed_varstr
hashed_txin-serialize t bs e = from_scripts t.scripts e
  where
    from_scripts :
        (scripts : Option (List ℕ))
        → (elim scripts as (λ _. Outcome (List ℕ)) [
          | none ↦ abort
          | some scripts ↦ varstr_size scripts >>= λ vstr_size.
              (assert (is_positive vstr_size)
                >> (read vstr_size scripts >>= λ bs.
                    ok (outpoint_bytes t.outpoint ++ (bs ++ le_put 4 t.sequence))))
        ])
          ≡ ok bs
        → (hashed_varstr scripts >>= λ bs.
            ok (outpoint_bytes t.outpoint ++ (bs ++ le_put 4 t.sequence)))
          ≡ ok bs
    from_scripts none h = cc
    from_scripts (some v) h =
        let (n, en, h1) = >>=-eq-ok (varstr_size v) _ h in
        let (_, h2) = assert-eq-ok (is_positive n) _ h1 in rw en h2

pub hashed_txins-serialize :
    (ts : List Txin) (bs : List ℕ) → serialize_txins ts ≡ ok bs → hashed_txins ts ≡ ok bs
unfolding serialize_txins hashed_txins
hashed_txins-serialize [] bs e = e
hashed_txins-serialize (t ∷ ts) bs e =
    let (x, ex, e1) = >>=-eq-ok (satoshi_txin_serialize t) _ e in
    let (y, ey, e2) = >>=-eq-ok (serialize_txins ts) _ e1 in
    rw (hashed_txin-serialize t x ex, hashed_txins-serialize ts y ey) e2

pub hashed_txout-serialize :
    (t : Txout) (bs : List ℕ) → satoshi_txout_serialize t ≡ ok bs → hashed_txout t ≡ ok bs
unfolding satoshi_txout_serialize hashed_txout hashed_varstr
hashed_txout-serialize t bs e = from_scripts t.scripts e
  where
    from_scripts :
        (scripts : Option (List ℕ))
        → (elim scripts as (λ _. Outcome (List ℕ)) [
          | none ↦ fault
          | some scripts ↦ varstr_size scripts >>= λ n.
              (assert (ltb 0 n) >> (read n scripts >>= λ bs. ok (le_put 8 t.value ++ bs)))
        ])
          ≡ ok bs
        → (hashed_varstr scripts >>= λ bs. ok (le_put 8 t.value ++ bs)) ≡ ok bs
    from_scripts none h = cc
    from_scripts (some v) h =
        let (n, en, h1) = >>=-eq-ok (varstr_size v) _ h in
        let (_, h2) = assert-eq-ok (ltb 0 n) _ h1 in rw en h2

pub hashed_txouts-serialize :
    (ts : List Txout) (bs : List ℕ) → serialize_txouts ts ≡ ok bs → hashed_txouts ts ≡ ok bs
unfolding serialize_txouts hashed_txouts
hashed_txouts-serialize [] bs e = e
hashed_txouts-serialize (t ∷ ts) bs e =
    let (x, ex, e1) = >>=-eq-ok (satoshi_txout_serialize t) _ e in
    let (y, ey, e2) = >>=-eq-ok (serialize_txouts ts) _ e1 in
    rw (hashed_txout-serialize t x ex, hashed_txouts-serialize ts y ey) e2

-- The bytes of an array are those of its front and those of its rest.
pub hashed_txins-split :
    (k : ℕ) (ts : List Txin) (bs : List ℕ)
    → hashed_txins ts ≡ ok bs
    → (a : List ℕ) × (b : List ℕ) × (hashed_txins (take k ts) ≡ ok a)
      × (hashed_txins (drop k ts) ≡ ok b)
      × (bs ≡ a ++ b)
unfolding hashed_txins
hashed_txins-split zero ts bs e = ([], bs, refl, e, refl)
hashed_txins-split (suc k) [] bs e = ([], bs, refl, e, refl)
hashed_txins-split (suc k) (t ∷ ts) bs e =
    let (x, ex, e1) = >>=-eq-ok (hashed_txin t) _ e in
    let (y, ey, e2) = >>=-eq-ok (hashed_txins ts) _ e1 in
    let (a, b, ea, eb, eq) = hashed_txins-split k ts y ey in
    (
      x ++ a,
      b,
      rw (ex, ea) refl,
      eb,
      sym (ok-injective e2) ∙ ap (λ l. x ++ l) eq ∙ sym (append_assoc x a b),
    )

get_elem?-map :
    (ts : List Txin) (k : ℕ) (t : Txin)
    → get_elem? ts k ≡ some t
    → get_elem? (map raw_txin ts) k ≡ some (raw_txin t)
get_elem?-map [] k t e = cc
get_elem?-map (x ∷ ts) zero t e = ground (arith, e)
get_elem?-map (x ∷ ts) (suc k) t e = get_elem?-map ts k t e

get_elem?-set :
    (ts : List Txin) (k : ℕ) (t v : Txin)
    → get_elem? ts k ≡ some t
    → get_elem? (set ts k v) k ≡ some v
get_elem?-set [] k t v e = cc
get_elem?-set (x ∷ ts) zero t v e = refl
get_elem?-set (x ∷ ts) (suc k) t v e = get_elem?-set ts k t v e

get_elem?-lt : (ts : List Txin) (k : ℕ) (t : Txin) → get_elem? ts k ≡ some t → k < length ts
get_elem?-lt [] k t e = cc
get_elem?-lt (x ∷ ts) zero t e = omega arith
get_elem?-lt (x ∷ ts) (suc k) t e = omega (arith, get_elem?-lt ts k t e)

-- Every raw input has a script, whatever stands at one place.
scripts_there :
    (ts : List Txin) (f k : ℕ) (v : Txin) (script : List ℕ)
    → f < length ts
    → v.scripts ≡ some script
    → (x : Txin) × (s : List ℕ) × (get_elem? (set (map raw_txin ts) k v) f ≡ some x)
      × (x.scripts ≡ some s)
unfolding raw_txin
scripts_there [] f k v script h e = absurd (omega (arith, h))
scripts_there (t ∷ ts) zero zero v script h e = (v, script, refl, e)
scripts_there (t ∷ ts) zero (suc k) v script h e = (raw_txin t, 0 ∷ [], refl, refl)
scripts_there (t ∷ ts) (suc f) zero v script h e = there ts f (omega (arith, h))
  where
    there :
        (ts : List Txin) (f : ℕ)
        → f < length ts
        → (x : Txin) × (s : List ℕ) × (get_elem? (map raw_txin ts) f ≡ some x)
          × (x.scripts ≡ some s)
    there [] f h = absurd (omega (arith, h))
    there (t ∷ ts) zero h = (raw_txin t, 0 ∷ [], refl, refl)
    there (t ∷ ts) (suc f) h = there ts f (omega (arith, h))
scripts_there (t ∷ ts) (suc f) (suc k) v script h e =
    scripts_there ts f k v script (omega (arith, h)) e

legacy_txins_all :
    (rawtx : RawTx) (tx : Tx) (f k : ℕ) (ts : List Txin) (cur x : Txin) (s c rest : List ℕ)
    → first_txin rawtx ≡ f
    → get_elem? ts k ≡ some cur
    → get_elem? ts f ≡ some x
    → x.scripts ≡ some s
    → hashed_txins (take (k - f) (drop f ts)) ≡ ok c
    → hashed_txins (drop k ts) ≡ ok rest
    → legacy_txins rawtx tx false k ts
      ≡ ok (
        (rawtx.legacy_sha ++ c) ++ rest,
        record rawtx { legacy_sha = rawtx.legacy_sha ++ c; last_hashed_txin_index = k ⊖ 1 },
      )
unfolding legacy_txins
legacy_txins_all rawtx tx f k ts cur x s c rest e_first e_cur ex es e_c e_rest =
    rw (legacy_txins, e_cur, e_first, ex, es, e_first, e_c, e_rest) refl

legacy_txouts_all :
    (tx : Tx) (k : ℕ) (outs : List ℕ)
    → 0 < length tx.txouts
    → hashed_txouts tx.txouts ≡ ok outs
    → legacy_txouts tx k 1 ≡ ok (some (varint_bytes (length tx.txouts) ++ outs))
unfolding legacy_txouts
legacy_txouts_all tx k outs h e = rw (legacy_txouts, lt→ltb 0 (length tx.txouts) h, e) refl

-- The inputs with the script at its place.
abbrev pub signed_txins : Tx → ℕ → Txin → List ℕ → List Txin
signed_txins tx k t script =
    set (map raw_txin tx.txins) k (record (raw_txin t) { scripts = some script })

module _ (h : HashFunctions) (tx : Tx) (k : ℕ) (t : Txin) (script : List ℕ)
    (current : get_elem? tx.txins k ≡ some t)
    (redeem : satoshi_txin_get_redeem_scripts t ≡ ok (some script))
    (some_txout : 0 < length tx.txouts) where
  pub digest_all :
      (rawtx : RawTx) (f : ℕ) (c rest outs : List ℕ)
      → rawtx.txins ≡ map raw_txin tx.txins
      → first_txin rawtx ≡ f
      → f ≤ k
      → hashed_txins (take (k - f) (drop f (signed_txins tx k t script))) ≡ ok c
      → hashed_txins (drop k (signed_txins tx k t script)) ≡ ok rest
      → hashed_txouts tx.txouts ≡ ok outs
      → satoshi_utxo_get_digest h rawtx tx k 1
        ≡ ok (
          some (
              hash256 h (
                ((rawtx.legacy_sha ++ c) ++ rest)
                ++ ((varint_bytes (length tx.txouts) ++ outs)
                    ++ (le_put 4 tx.lock_time ++ le_put 4 1)))),
          record rawtx { legacy_sha = rawtx.legacy_sha ++ c; last_hashed_txin_index = k ⊖ 1 },
        )
  unfolding satoshi_utxo_get_digest anyone_canpay
  digest_all rawtx f c rest outs e_txins e_first low e_c e_rest e_outs =
      let there = get_elem?-lt tx.txins k t current in
      let cur : Txin = record (raw_txin t) { scripts = some script } in
      let (x, s, ex, es) = scripts_there tx.txins f k cur script (omega (arith, there, low)) refl in
      let raw = get_elem?-map tx.txins k t current in
      let raw' : get_elem? rawtx.txins k ≡ some (raw_txin t) =
        ap (λ ts. get_elem? ts k) e_txins ∙ raw in
      let signed : set rawtx.txins k cur ≡ (signed_txins tx k t script) =
        ap (λ ts. set ts k cur) e_txins in
      rw
        (
          satoshi_utxo_get_digest,
          current,
          e_first,
          lt→ltb f (length tx.txins) (omega (arith, there, low)),
          le→leb f k low,
          redeem,
          raw',
          signed,
          legacy_txins_all rawtx tx f k (signed_txins tx k t script) cur x s c rest e_first
              (get_elem?-set (map raw_txin tx.txins) k (raw_txin t) cur raw) ex es e_c e_rest,
          legacy_txouts_all tx k outs some_txout e_outs,
        )
        refl

pub length-map : (ts : List Txin) → length (map raw_txin ts) ≡ length ts
length-map [] = refl
length-map (t ∷ ts) = ap suc (length-map ts)

pub regroup : (v c a b o : List ℕ) → v ++ ((c ++ (a ++ b)) ++ o) ≡ ((v ++ c) ++ a) ++ (b ++ o)
regroup v c a b o =
    ap (λ l. v ++ l) (append_assoc c (a ++ b) o ∙ ap (λ l. c ++ l) (append_assoc a b o))
    ∙ sym (append_assoc (v ++ c) a (b ++ o) ∙ append_assoc v c (a ++ (b ++ o)))
