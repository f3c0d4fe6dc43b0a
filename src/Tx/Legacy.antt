-- ===== src/Tx/Legacy.antt =====
-- Both forms of a transaction, and the form without witnesses on the wire.
use bitcoin_clib.Base.{
  ℕ, ◌+◌, ◌-◌, ◌^◌, ◌≤◌, ◌<◌, ◌≡◌, refl, sym, ap, ◌∙◌, List, [], ◌∷◌, ◌++◌, Bool, true, false,
  arith, length, replicate, All, Outcome, ok, length-append, append_assoc, le_put, length-le_put,
}
use bitcoin_clib.Varint.{varint_bytes}
use bitcoin_clib.Payload.{IsPlaced}
use bitcoin_clib.Hash.{HashFunctions, hash256}
use bitcoin_clib.Tx.{
  Tx, tx_zero, serialize_txins, serialize_txouts, serialize_witnesses, satoshi_tx_serialize,
}
use bitcoin_clib.Tx.Parse.{
  span, parse_flag, parse_txin_section, parse_txout_section, parse_witness_section,
  satoshi_tx_parse,
}
use bitcoin_clib.Tx.Arrays.{
  IsParsedTxin, IsParsedTxout, IsPlaced-append, parse_txins-serialize, parse_txouts-serialize,
}
use bitcoin_clib.Tx.Witnesses.{IsValidWitness}
use bitcoin_clib.Tx.Sections.{
  counted, span-append, parse_flag_unmarked, place_elements, parsed_tx, satoshi_tx_parse_parts,
  parse_txin_section_lem, parse_txout_section_lem,
}

-- What both forms have: inputs and outputs, as many as there is memory for.
pub record IsPlainTx (calloc : ℕ → Bool) (t : Tx) : Type 0 where
  pub version_fits : t.version < 2 ^ 32
  pub lock_time_fits : t.lock_time < 2 ^ 32
  pub txins_valid : All IsParsedTxin t.txins
  pub txouts_valid : All IsParsedTxout t.txouts
  pub some_txin : 0 < length t.txins
  pub some_txout : 0 < length t.txouts
  pub txins_fit : length t.txins < 2 ^ 63
  pub txouts_fit : length t.txouts < 2 ^ 63
  pub txins_granted : calloc (length t.txins) ≡ true
  pub txouts_granted : calloc (length t.txouts) ≡ true

-- Flag bytes of 0, no witness, and no hash of one.
pub record IsLegacy (t : Tx) : Type 0 where
  pub no_flag : t.has_flag ≡ false
  pub no_bytes : t.flag ≡ 0 ∷ 0 ∷ []
  pub no_witnesses : t.witnesses ≡ []
  pub no_size : t.cb_witnesses ≡ 0
  pub no_wtxid : t.wtxid ≡ replicate 32 0

-- The flag bytes are 0 and 1, the witnesses match the inputs, and `bytes` is what is written for them.
pub record IsSegwit (calloc : ℕ → Bool) (t : Tx) (bytes : List ℕ) : Type 0 where
  pub flag : t.has_flag ≡ true
  pub flag_bytes : t.flag ≡ 0 ∷ 1 ∷ []
  pub matched : length t.witnesses ≡ length t.txins
  pub stored : All (IsValidWitness calloc) t.witnesses
  pub written : serialize_witnesses t.witnesses ≡ ok bytes
  pub sized : t.cb_witnesses ≡ length bytes
  pub bytes_fit : length bytes < 2 ^ 63

pub ok_pair :
    {a b : Tx} {m n : ℕ} → a ≡ b → m ≡ n → ◌≡◌ {A = Outcome (Tx × ℕ)} (ok (a, m)) (ok (b, n))
ok_pair p q = λ i. ok (p i, q i)

pub wire_length :
    (ver : ℕ) (wire rest after : List ℕ)
    → wire ++ rest ≡ le_put 4 ver ++ after
    → length (le_put 4 ver ++ after) - length rest ≡ length wire
wire_length ver wire rest after e = omega (arith, ap length e, length-append wire rest)

module _ (p_end : ℕ) (calloc : ℕ → Bool) (h : HashFunctions) {t : Tx} (v : IsPlainTx calloc t) where
  unfoldable pub ins : List ℕ
  ins = (parse_txins-serialize p_end calloc t.txins v.txins_valid).0

  unfoldable pub outs : List ℕ
  outs = (parse_txouts-serialize p_end calloc t.txouts v.txouts_valid).0

  -- The counted arrays.
  unfoldable pub front : List ℕ
  front = counted (length t.txins) ins

  unfoldable pub back : List ℕ
  back = counted (length t.txouts) outs

  pub serialize_ins : serialize_txins t.txins ≡ ok ins
  unfolding ins
  serialize_ins = (parse_txins-serialize p_end calloc t.txins v.txins_valid).1

  pub serialize_outs : serialize_txouts t.txouts ≡ ok outs
  unfolding outs
  serialize_outs = (parse_txouts-serialize p_end calloc t.txouts v.txouts_valid).1

  unfoldable pub legacy_wire : List ℕ
  legacy_wire = le_put 4 t.version ++ (front ++ (back ++ le_put 4 t.lock_time))

  pub serialize_legacy : t.has_flag ≡ false → satoshi_tx_serialize t ≡ ok legacy_wire
  unfolding satoshi_tx_serialize legacy_wire front back counted
  serialize_legacy e = rw (serialize_ins, serialize_outs, e)

  pub parse_front :
      (q : List ℕ)
      → IsPlaced p_end (front ++ q)
      → parse_txin_section p_end calloc (front ++ q) ≡ ok (t.txins, q)
  unfolding front ins
  parse_front q place =
      parse_txin_section_lem p_end calloc (length t.txins) ins q v.some_txin v.txins_fit
        v.txins_granted place t.txins
        ((parse_txins-serialize p_end calloc t.txins v.txins_valid).2 q (
          place_elements p_end calloc (length t.txins) ins q v.some_txin v.txins_fit v.txins_granted
            place))

  pub parse_back :
      (q : List ℕ)
      → IsPlaced p_end (back ++ q)
      → parse_txout_section p_end calloc (back ++ q) ≡ ok (t.txouts, q)
  unfolding back outs
  parse_back q place =
      parse_txout_section_lem p_end calloc (length t.txouts) outs q v.some_txout v.txouts_fit
        v.txouts_granted place t.txouts
        ((parse_txouts-serialize p_end calloc t.txouts v.txouts_valid).2 q (
          place_elements p_end calloc (length t.txouts) outs q v.some_txout v.txouts_fit
            v.txouts_granted place))

  flag_unmarked :
      (q : List ℕ)
      → 0 < length q
      → parse_flag p_end calloc false (0 ∷ 0 ∷ []) (front ++ q) ≡ ok (false, 0 ∷ 0 ∷ [], front ++ q)
  unfolding front counted
  flag_unmarked q pos = rw (append_assoc (varint_bytes (length t.txins)) ins q) (
      parse_flag_unmarked p_end calloc (length t.txins) (ins ++ q) false (0 ∷ 0 ∷ []) v.some_txin
        (omega (arith, v.txins_fit)) (omega (arith, length-append ins q)))

  -- Without the flag the same transaction is written in the form that the txid is a hash of.
  pub serialize_stripped : satoshi_tx_serialize (record t { has_flag = false }) ≡ ok legacy_wire
  unfolding satoshi_tx_serialize legacy_wire front back counted
  serialize_stripped = rw (serialize_ins, serialize_outs)

  module _ (rest : List ℕ) where
    unfoldable pub end : List ℕ
    end = le_put 4 t.lock_time ++ rest

    pub length-end : length end ≡ 4 + length rest
    unfolding end
    length-end =
        omega (arith, length-append (le_put 4 t.lock_time) rest, length-le_put 4 t.lock_time)

    unfoldable pub after_version : List ℕ
    after_version = front ++ (back ++ end)

    pub regroup_legacy : legacy_wire ++ rest ≡ le_put 4 t.version ++ after_version
    unfolding legacy_wire after_version end
    regroup_legacy = simp append_assoc

    pub legacy_place :
        IsPlaced p_end (legacy_wire ++ rest)
        → IsPlaced p_end after_version × IsPlaced p_end (back ++ end)
    unfolding after_version
    legacy_place place =
        let p1 =
          IsPlaced-append p_end (le_put 4 t.version) after_version (rw regroup_legacy at place) in
        (p1, IsPlaced-append p_end front (back ++ end) p1)

    legacy_hash :
        le_put 4 t.version
          ++ (span after_version (back ++ end) ++ (span (back ++ end) end ++ le_put 4 t.lock_time))
        ≡ legacy_wire
    unfolding legacy_wire after_version
    legacy_hash = rw (span-append front (back ++ end), span-append back end)

    legacy_fields :
        IsLegacy t
        → parsed_tx p_end calloc h t.version t.lock_time false
            (0 ∷ 0 ∷ [])
            after_version
            after_version
            (back ++ end)
            end
            rest
            t.txins
            t.txouts
            []
          ≡ record t { txid = hash256 h legacy_wire }
    unfolding end
    legacy_fields l =
        let no_bytes : length (le_put 4 t.lock_time ++ rest) - length (le_put 4 t.lock_time ++ rest)
            ≡ 0 =
          omega arith in
        let hashed = ap (hash256 h) legacy_hash in
        λ i. record {
          version = t.version;
          has_flag = sym l.no_flag i;
          flag = sym l.no_bytes i;
          txins = t.txins;
          txouts = t.txouts;
          cb_witnesses = (no_bytes ∙ sym l.no_size) i;
          witnesses = sym l.no_witnesses i;
          lock_time = t.lock_time;
          txid = hashed i;
          wtxid = sym l.no_wtxid i;
        }

    pub parse_legacy :
        IsLegacy t
        → IsPlaced p_end (legacy_wire ++ rest)
        → length (legacy_wire ++ rest) ≤ 4000000
        → satoshi_tx_parse p_end calloc h tx_zero (legacy_wire ++ rest)
          ≡ ok (record t { txid = hash256 h legacy_wire }, length legacy_wire)
    parse_legacy l place small =
        let (p1, p2) = legacy_place place in
        let parts =
          satoshi_tx_parse_parts p_end calloc h t.version t.lock_time false (0 ∷ 0 ∷ [])
            after_version after_version (back ++ end) end rest t.txins t.txouts [] v.version_fits
            v.lock_time_fits (rw regroup_legacy at small)
            (unfold after_version in
              flag_unmarked (back ++ end) (omega (arith, length-append back end, length-end)))
            (unfold after_version in parse_front (back ++ end) p1) (parse_back end p2)
            (unfold parse_witness_section end in refl) in
        rw regroup_legacy (
          parts
          ∙ ok_pair (legacy_fields l)
              (wire_length t.version legacy_wire rest after_version regroup_legacy))
