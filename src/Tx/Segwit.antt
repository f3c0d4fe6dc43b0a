-- ===== src/Tx/Segwit.antt =====
-- The form with witnesses on the wire.
use bitcoin_clib.Base.{
  ℕ, ◌+◌, ◌-◌, ◌≤◌, ◌<◌, ◌≡◌, sym, ap, ◌∙◌, List, [], ◌∷◌, ◌++◌, Bool, true, false, ltb,
  if◌then◌else◌, arith, length, ok, ok-injective, length-append, append_assoc, le_put, lt→ltb,
}
use bitcoin_clib.Payload.{IsPlaced}
use bitcoin_clib.Hash.{HashFunctions, hash256}
use bitcoin_clib.Tx.{Tx, tx_zero, serialize_witness_section, satoshi_tx_serialize}
use bitcoin_clib.Tx.Parse.{span, parse_witness_section, satoshi_tx_parse}
use bitcoin_clib.Tx.Arrays.{IsPlaced-append}
use bitcoin_clib.Tx.Witnesses.{parse_witnesses-serialize}
use bitcoin_clib.Tx.Sections.{
  counted, span-append, parse_flag_marked, parsed_tx, satoshi_tx_parse_parts,
}
use bitcoin_clib.Tx.Legacy.{
  IsPlainTx, IsSegwit, ok_pair, wire_length, front, back, end, length-end, legacy_wire,
  serialize_ins, serialize_outs, parse_front, parse_back,
}

module _ (p_end : ℕ) (calloc : ℕ → Bool) (h : HashFunctions) {t : Tx} (v : IsPlainTx calloc t) where
  unfoldable pub segwit_wire : List ℕ → List ℕ
  segwit_wire bytes =
      le_put 4 t.version
      ++ (0
          ∷ 1
          ∷ ((front p_end calloc h v)
              ++ ((back p_end calloc h v) ++ (bytes ++ le_put 4 t.lock_time))))

  some_bytes : {bytes : List ℕ} → IsSegwit calloc t bytes → 0 < length bytes
  some_bytes {bytes} w =
      let (bs, e, long, _) = parse_witnesses-serialize p_end calloc t.witnesses w.stored in
      let same : bytes ≡ bs = ok-injective (sym w.written ∙ e) in
      omega (arith, ap length same, long, w.matched, v.some_txin)

  pub serialize_segwit :
      {bytes : List ℕ} → IsSegwit calloc t bytes → satoshi_tx_serialize t ≡ ok (segwit_wire bytes)
  unfolding satoshi_tx_serialize segwit_wire front back counted
  serialize_segwit {bytes} w =
      rw ((serialize_ins p_end calloc h v), (serialize_outs p_end calloc h v), section_lem, w.flag)
    where
      section_lem : serialize_witness_section t ≡ ok bytes
      section_lem =
          unfold serialize_witness_section in
          ground (arith, w.written, w.sized, w.bytes_fit, some_bytes w, w.matched, v.some_txin)

  module _ (rest : List ℕ) where
    module _ {bytes : List ℕ} (w : IsSegwit calloc t bytes) where
      tail : List ℕ
      tail = (back p_end calloc h v) ++ (bytes ++ (end p_end calloc h v rest))

      after_marker : List ℕ
      after_marker = (front p_end calloc h v) ++ tail

      regroup_segwit : segwit_wire bytes ++ rest ≡ le_put 4 t.version ++ (0 ∷ 1 ∷ after_marker)
      unfolding segwit_wire after_marker tail end
      regroup_segwit = simp append_assoc

      segwit_place :
          IsPlaced p_end (segwit_wire bytes ++ rest)
          → IsPlaced p_end after_marker
            × IsPlaced p_end tail
            × IsPlaced p_end (bytes ++ (end p_end calloc h v rest))
      unfolding after_marker tail
      segwit_place place =
          let p0 =
            IsPlaced-append p_end (le_put 4 t.version) (0 ∷ 1 ∷ after_marker)
              (rw regroup_segwit at place) in
          let p1 : IsPlaced p_end after_marker = omega (arith, p0) in
          let p2 = IsPlaced-append p_end (front p_end calloc h v) tail p1 in
          (
            p1,
            p2,
            IsPlaced-append p_end (back p_end calloc h v) (bytes ++ (end p_end calloc h v rest)) p2,
          )

      length-bytes-end :
          length (bytes ++ (end p_end calloc h v rest)) ≡ length bytes + 4 + length rest
      length-bytes-end = omega (
        arith,
        length-append bytes (end p_end calloc h v rest),
        (length-end p_end calloc h v rest),
      )

      witness_part :
          IsPlaced p_end (bytes ++ (end p_end calloc h v rest))
          → parse_witness_section p_end calloc true
              (length t.txins)
              (bytes ++ (end p_end calloc h v rest))
            ≡ ok (t.witnesses, (end p_end calloc h v rest))
      unfolding parse_witness_section
      witness_part place =
          let (bs, e, long, parsed) = parse_witnesses-serialize p_end calloc t.witnesses w.stored in
          let same : bytes ≡ bs = ok-injective (sym w.written ∙ e) in
          rw (
            lt→ltb 4 (length (bytes ++ (end p_end calloc h v rest)))
                (omega (arith, length-bytes-end, some_bytes w)),
            v.txins_granted,
            ← w.matched,
            same,
            parsed (end p_end calloc h v rest) (rw same at place),
          )

      segwit_hash :
          le_put 4 t.version
            ++ (span after_marker tail
                ++ (span tail (bytes ++ (end p_end calloc h v rest)) ++ le_put 4 t.lock_time))
          ≡ (legacy_wire p_end calloc h v)
      unfolding legacy_wire after_marker
      segwit_hash =
          let inner : span tail (bytes ++ (end p_end calloc h v rest)) ≡ (back p_end calloc h v) =
            unfold tail in
            span-append (back p_end calloc h v) (bytes ++ (end p_end calloc h v rest)) in
          rw (span-append (front p_end calloc h v) tail, inner)

      whole_span : span (le_put 4 t.version ++ (0 ∷ 1 ∷ after_marker)) rest ≡ segwit_wire bytes
      whole_span = rw (← regroup_segwit) (span-append (segwit_wire bytes) rest)

      segwit_fields :
          parsed_tx p_end calloc h t.version t.lock_time true
            (0 ∷ 1 ∷ [])
            (0 ∷ 1 ∷ after_marker)
            after_marker
            tail
            (bytes ++ (end p_end calloc h v rest))
            rest
            t.txins
            t.txouts
            t.witnesses
          ≡ record t {
            txid = hash256 h (legacy_wire p_end calloc h v);
            wtxid = hash256 h (segwit_wire bytes);
          }
      unfolding end
      segwit_fields =
          let bytes_left : length (bytes ++ (le_put 4 t.lock_time ++ rest))
                - length (le_put 4 t.lock_time ++ rest)
              ≡ length bytes =
            omega (arith, length-append bytes (le_put 4 t.lock_time ++ rest)) in
          let more : ltb 4 (length (bytes ++ (le_put 4 t.lock_time ++ rest))) ≡ true =
            lt→ltb 4 (length (bytes ++ (le_put 4 t.lock_time ++ rest)))
              (omega (arith, length-bytes-end, some_bytes w)) in
          let kept : (if ltb 4 (length (bytes ++ (le_put 4 t.lock_time ++ rest)))
                then t.witnesses
                else [])
              ≡ t.witnesses =
            rw more in
          let stripped = ap (hash256 h) segwit_hash in
          let whole = ap (hash256 h) whole_span in
          λ i. record {
            version = t.version;
            has_flag = sym w.flag i;
            flag = sym w.flag_bytes i;
            txins = t.txins;
            txouts = t.txouts;
            cb_witnesses = (bytes_left ∙ sym w.sized) i;
            witnesses = kept i;
            lock_time = t.lock_time;
            txid = stripped i;
            wtxid = whole i;
          }

      pub parse_segwit :
          IsPlaced p_end (segwit_wire bytes ++ rest)
          → length (segwit_wire bytes ++ rest) ≤ 4000000
          → satoshi_tx_parse p_end calloc h tx_zero (segwit_wire bytes ++ rest)
            ≡ ok (
              record t {
                txid = hash256 h (legacy_wire p_end calloc h v);
                wtxid = hash256 h (segwit_wire bytes);
              },
              length (segwit_wire bytes),
            )
      parse_segwit place small =
          let (p1, p2, p3) = segwit_place place in
          let parts =
            satoshi_tx_parse_parts p_end calloc h t.version t.lock_time true (0 ∷ 1 ∷ [])
              (0 ∷ 1 ∷ after_marker) after_marker tail (bytes ++ (end p_end calloc h v rest)) rest
              t.txins t.txouts t.witnesses v.version_fits v.lock_time_fits
              (rw regroup_segwit at small)
              (parse_flag_marked p_end calloc after_marker false (0 ∷ 0 ∷ []))
              (unfold after_marker in parse_front p_end calloc h v tail p1)
              (unfold tail in parse_back p_end calloc h v (bytes ++ (end p_end calloc h v rest)) p2)
              (unfold end in witness_part p3) in
          rw regroup_segwit (
            parts
            ∙ ok_pair segwit_fields (
                wire_length t.version (segwit_wire bytes) rest (0 ∷ 1 ∷ after_marker)
                  regroup_segwit))
