-- ===== src/RawTx/Legacy.antt =====
-- The digest of a legacy input against the serialization of a transaction, and what a second call gives.
use bitcoin_clib.Base.{
  ℕ, zero, suc, ◌-◌, ◌<◌, ◌≡◌, refl, sym, ap, ◌∙◌, List, [], ◌∷◌, ◌++◌, append_assoc, append-nil,
  arith, length, take, drop, set, get_elem?, map, length-set, ltb, ◌⊖◌, false, some, ok, >>=-eq-ok,
  assert-eq-ok, ok-injective, le_put, read, if◌then◌else◌,
}
use bitcoin_clib.Hash.{HashFunctions, hash256}
use bitcoin_clib.Varint.{varint_bytes, varint_size, varint_get, varint_width}
use bitcoin_clib.Varstr.{varstr_size}
use bitcoin_clib.Txin.{Txin, outpoint_bytes, satoshi_txin_get_redeem_scripts}
use bitcoin_clib.Txout.{Txout}
use bitcoin_clib.Tx.{Tx, serialize_txins, serialize_txouts, satoshi_tx_serialize}
use bitcoin_clib.TxHash.{hashed_varstr, hashed_txouts, hashed_txin, hashed_txins}
use bitcoin_clib.RawTx.{
  RawTx, raw_txin, first_txin, satoshi_utxo_get_digest, satoshi_rawtx_attach,
  satoshi_rawtx_attach_segwit_tx, satoshi_rawtx_get_digest,
}
use bitcoin_clib.Txout.{legacy}
use bitcoin_clib.RawTx.Hashed.{
  hashed_txins-serialize, hashed_txouts-serialize, hashed_txins-split, signed_txins, digest_all,
  length-map, regroup, signed_txins,
}

put_together : (x b o l t : List ℕ) → (x ++ b) ++ (o ++ (l ++ t)) ≡ (x ++ (b ++ (o ++ l))) ++ t
put_together x b o l t = simp append_assoc

put_apart :
    (x p b o l t : List ℕ) → ((x ++ p) ++ b) ++ (o ++ (l ++ t)) ≡ x ++ (p ++ ((b ++ (o ++ l)) ++ t))
put_apart x p b o l t = simp append_assoc

-- The bytes of an input with the empty script.
abbrev pub blank_bytes : Txin → List ℕ
blank_bytes t = outpoint_bytes t.outpoint ++ (0 ∷ le_put 4 t.sequence)

one_before :
    (ts : List Txin) (m : ℕ) (v prev : Txin)
    → get_elem? ts m ≡ some prev
    → hashed_txins (take 1 (drop m (set (map raw_txin ts) (suc m) v))) ≡ ok (blank_bytes prev ++ [])
unfolding raw_txin hashed_txins hashed_txin hashed_varstr varstr_size varint_size varint_get
    varint_width read
one_before [] m v prev e = cc
one_before (t ∷ ts) zero v prev e =
    let same : t ≡ prev = ground (arith, e) in ap (λ (t : Txin). ok (blank_bytes t ++ [])) same
one_before (t ∷ ts) (suc m) v prev e = one_before ts m v prev e

dispatched :
    (h : HashFunctions) (rawtx : RawTx) (tx : Tx) (k : ℕ) (utxo : Txout)
    → utxo.p2sh_segwit ≡ false
    → utxo.flags ≡ legacy
    → satoshi_rawtx_get_digest h rawtx tx k 1 (some utxo) ≡ satoshi_utxo_get_digest h rawtx tx k 1
unfolding satoshi_rawtx_get_digest
dispatched h rawtx tx k utxo plain kind = rw (satoshi_rawtx_get_digest, plain, kind) refl

-- What an attach leaves for legacy inputs.
record IsFresh (rawtx : RawTx) (tx : Tx) : Type 0 where
  sha_eq : rawtx.legacy_sha ≡ le_put 4 tx.version ++ varint_bytes (length tx.txins)
  txins_eq : rawtx.txins ≡ map raw_txin tx.txins
  first_eq : first_txin rawtx ≡ 0

attach-IsFresh :
    (h : HashFunctions) (prior rawtx : RawTx) (tx : Tx)
    → satoshi_rawtx_attach h prior tx ≡ ok rawtx
    → IsFresh rawtx tx
unfolding satoshi_rawtx_attach first_txin
attach-IsFresh h prior rawtx tx e =
    let (_, e1) = assert-eq-ok (ltb 0 (length tx.txins)) _ e in
    let (r, _, e2) =
      >>=-eq-ok (if tx.has_flag then satoshi_rawtx_attach_segwit_tx h prior tx else ok prior) _
        e1 in
    let same = ok-injective e2 in
    record {
      sha_eq = sym (ap (λ r. r.legacy_sha) same);
      txins_eq = sym (ap (λ r. r.txins) same);
      first_eq = sym (ap first_txin same);
    }

module _ (h : HashFunctions) (tx : Tx) (k : ℕ) (t : Txin) (script bytes : List ℕ)
    (prior rawtx : RawTx) (attached : satoshi_rawtx_attach h prior tx ≡ ok rawtx)
    (current : get_elem? tx.txins k ≡ some t)
    (redeem : satoshi_txin_get_redeem_scripts t ≡ ok (some script))
    (some_txout : 0 < length tx.txouts)
    (written : satoshi_tx_serialize
        (record tx { has_flag = false; txins = signed_txins tx k t script })
      ≡ ok bytes) where
  -- The parts of what is written, and the state behind a first digest.
  first_digest :
      (a : List ℕ) × (b : List ℕ) × (outs : List ℕ) × (hashed_txins
          (take k (signed_txins tx k t script))
        ≡ ok a)
      × (hashed_txins (drop k (signed_txins tx k t script)) ≡ ok b)
      × (hashed_txouts tx.txouts ≡ ok outs)
      × (bytes
          ≡ (rawtx.legacy_sha ++ a)
            ++ (b ++ ((varint_bytes (length tx.txouts) ++ outs) ++ le_put 4 tx.lock_time)))
  unfolding satoshi_tx_serialize
  first_digest =
      let fresh = attach-IsFresh h prior rawtx tx attached in
      let (ins, e_ins, e1) = >>=-eq-ok (serialize_txins (signed_txins tx k t script)) _ written in
      let (outs, e_outs, e2) = >>=-eq-ok (serialize_txouts tx.txouts) _ e1 in
      let (a, b, ea, eb, eq) = hashed_txins-split k _ ins (hashed_txins-serialize _ ins e_ins) in
      (
        a,
        b,
        outs,
        ea,
        eb,
        hashed_txouts-serialize tx.txouts outs e_outs,
        sym (ok-injective e2)
            ∙ ap
                (λ n.
                  le_put 4 tx.version
                  ++ ((varint_bytes n ++ ins)
                      ++ ((varint_bytes (length tx.txouts) ++ outs) ++ le_put 4 tx.lock_time)))
                length-signed_txins
            ∙ ap
                (λ l.
                  le_put 4 tx.version
                  ++ ((varint_bytes (length tx.txins) ++ l)
                      ++ ((varint_bytes (length tx.txouts) ++ outs) ++ le_put 4 tx.lock_time)))
                eq
            ∙ regroup (le_put 4 tx.version) (varint_bytes (length tx.txins)) a b _
            ∙ ap
                (λ l.
                  (l ++ a)
                  ++ (b ++ ((varint_bytes (length tx.txouts) ++ outs) ++ le_put 4 tx.lock_time)))
                (sym fresh.sha_eq),
      )
    where
      length-signed_txins : length (signed_txins tx k t script) ≡ length tx.txins
      length-signed_txins = length-set (map raw_txin tx.txins) k _ ∙ length-map tx.txins

  digest_first :
      (a : List ℕ) × (b : List ℕ) × (outs : List ℕ) × (hashed_txins
          (drop k (signed_txins tx k t script))
        ≡ ok b)
      × (hashed_txouts tx.txouts ≡ ok outs)
      × (bytes
          ≡ (rawtx.legacy_sha ++ a)
            ++ (b ++ ((varint_bytes (length tx.txouts) ++ outs) ++ le_put 4 tx.lock_time)))
      × (satoshi_utxo_get_digest h rawtx tx k 1
          ≡ ok (
            some (hash256 h (bytes ++ le_put 4 1)),
            record rawtx { legacy_sha = rawtx.legacy_sha ++ a; last_hashed_txin_index = k ⊖ 1 },
          ))
  digest_first =
      let fresh = attach-IsFresh h prior rawtx tx attached in
      let (a, b, outs, ea, eb, eo, whole) = first_digest in
      let whole_front : k - 0 ≡ k = omega arith in
      (
        a,
        b,
        outs,
        eb,
        eo,
        whole,
        digest_all h tx k t script current redeem some_txout rawtx 0 a b outs fresh.txins_eq
              fresh.first_eq (omega arith)
              (ap (λ n. hashed_txins (take n (signed_txins tx k t script))) whole_front ∙ ea) eb eo
            ∙ ap
                (λ l. ok (
                  some (hash256 h l),
                  record rawtx {
                    legacy_sha = rawtx.legacy_sha ++ a;
                    last_hashed_txin_index = k ⊖ 1;
                  },
                ))
                (put_together (rawtx.legacy_sha ++ a) b _ (le_put 4 tx.lock_time) (le_put 4 1)
                  ∙ ap (λ l. l ++ le_put 4 1) (sym whole)),
      )

  -- Behind satoshi_rawtx_attach of a transaction with at least one output, for an input with a
  -- redeem script, an output to spend with the legacy flag and hash type ALL,
  -- satoshi_rawtx_get_digest gives the double SHA-256 of what satoshi_tx_serialize writes, and of
  -- the hash type behind it, for the transaction without its flag in which every input has the
  -- empty script but the one that is signed, which has the redeem script from its start position
  -- on; the condition is that this serialization succeeds.
  pub satoshi_rawtx_get_digest_legacy :
      (utxo : Txout)
      → utxo.p2sh_segwit ≡ false
      → utxo.flags ≡ legacy
      → (rawtx' : RawTx) × (satoshi_rawtx_get_digest h rawtx tx k 1 (some utxo)
          ≡ ok (some (hash256 h (bytes ++ le_put 4 1)), rawtx'))
  satoshi_rawtx_get_digest_legacy utxo plain kind =
      let (a, b, outs, eb, eo, whole, e) = digest_first in
      (_, dispatched h rawtx tx k utxo plain kind ∙ e)

  -- Under the conditions of the digest of a legacy input with hash type ALL, for an input that is
  -- not the first: a second call for the same input gives the double SHA-256 of the same bytes
  -- with the blank form of the input in front of it inserted once more.
  pub satoshi_rawtx_get_digest_again :
      (utxo : Txout) (m : ℕ) (prev : Txin)
      → utxo.p2sh_segwit ≡ false
      → utxo.flags ≡ legacy
      → k ≡ suc m
      → get_elem? tx.txins m ≡ some prev
      → (x : List ℕ) × (y : List ℕ) × (rawtx' : RawTx) × (rawtx'' : RawTx) × (bytes ≡ x ++ y)
        × (satoshi_rawtx_get_digest h rawtx tx k 1 (some utxo)
            ≡ ok (some (hash256 h (bytes ++ le_put 4 1)), rawtx'))
        × (satoshi_rawtx_get_digest h rawtx' tx k 1 (some utxo)
            ≡ ok (some (hash256 h (x ++ (blank_bytes prev ++ (y ++ le_put 4 1)))), rawtx''))
  unfolding first_txin ◌⊖◌
  satoshi_rawtx_get_digest_again utxo m prev plain kind next before =
      let fresh = attach-IsFresh h prior rawtx tx attached in
      let (a, b, outs, eb, eo, whole, e) = digest_first in
      let x = rawtx.legacy_sha ++ a in
      let rawtx' : RawTx = record rawtx { legacy_sha = x; last_hashed_txin_index = k ⊖ 1 } in
      let rawtx'' : RawTx = record rawtx' {
        legacy_sha = x ++ (blank_bytes prev ++ []);
        last_hashed_txin_index = k ⊖ 1;
      } in
      let first : first_txin rawtx' ≡ m = ground (arith, next) in
      let less : k - m ≡ 1 = omega (arith, next) in
      let repeated : hashed_txins (take (k - m) (drop m (signed_txins tx k t script)))
          ≡ ok (blank_bytes prev ++ []) =
        rw (less, next) (one_before tx.txins m _ prev before) in
      (
        x,
        _,
        rawtx',
        rawtx'',
        whole,
        dispatched h rawtx tx k utxo plain kind ∙ e,
        dispatched h rawtx' tx k utxo plain kind
            ∙ digest_all h tx k t script current redeem some_txout rawtx' m (blank_bytes prev ++ [])
                b outs fresh.txins_eq first (omega (arith, next)) repeated eb eo
            ∙ ap (λ l. ok (some (hash256 h l), rawtx''))
                (put_apart x (blank_bytes prev ++ []) b _ (le_put 4 tx.lock_time) (le_put 4 1)
                  ∙ ap
                      (λ p.
                        x
                        ++ (p
                            ++ ((b
                                  ++ ((varint_bytes (length tx.txouts) ++ outs)
                                      ++ le_put 4 tx.lock_time))
                                ++ le_put 4 1)))
                      (append-nil (blank_bytes prev))),
      )
