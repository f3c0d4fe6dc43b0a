-- ===== src/Tx/Unwitnessed.antt =====
-- A transaction with the flag and nothing between its outputs and its lock time.
use bitcoin_clib.Base.{
  ℕ, ◌-◌, ◌≤◌, ◌≡◌, refl, sym, ap, ◌∙◌, List, [], ◌∷◌, ◌++◌, Bool, true, false, arith, length, ok,
  ok-injective, abort, append-nil, le_put, length-le_put, ltb, ge→ltb, drop, drop-append,
}
use bitcoin_clib.Payload.{IsPlaced}
use bitcoin_clib.Hash.{HashFunctions}
use bitcoin_clib.Tx.{Tx, tx_zero, serialize_witness_section, satoshi_tx_serialize}
use bitcoin_clib.Tx.Parse.{parse_witness_section, satoshi_tx_parse}
use bitcoin_clib.Tx.Arrays.{IsPlaced-append}
use bitcoin_clib.Tx.Sections.{parse_flag_marked, parsed_tx, satoshi_tx_parse_parts}
use bitcoin_clib.Tx.Legacy.{
  IsPlainTx, ok_pair, front, back, end, length-end, legacy_wire, serialize_ins, serialize_outs,
  serialize_stripped, parse_front, parse_back, after_version, regroup_legacy,
}

module _ (p_end : ℕ) (calloc : ℕ → Bool) (h : HashFunctions) (t : Tx) (v : IsPlainTx calloc t) where
  -- The transaction that the parser makes.
  marked : Tx
  marked =
      parsed_tx p_end calloc h t.version t.lock_time true (0 ∷ 1 ∷ [])
        (0 ∷ 1 ∷ after_version p_end calloc h v []) (after_version p_end calloc h v [])
        (back p_end calloc h v ++ end p_end calloc h v []) (end p_end calloc h v []) [] t.txins
        t.txouts []

  marked_aborts : satoshi_tx_serialize marked ≡ abort
  unfolding satoshi_tx_serialize serialize_witness_section marked end
  marked_aborts =
      let stop = le_put 4 t.lock_time ++ [] in
      let no_bytes : length stop - length stop ≡ 0 = omega arith in
      rw (serialize_ins p_end calloc h v, serialize_outs p_end calloc h v, no_bytes) refl

  no_section :
      parse_witness_section p_end calloc true (length t.txins) (end p_end calloc h v [])
      ≡ ok ([], end p_end calloc h v [])
  unfolding parse_witness_section
  no_section =
      let stop = end p_end calloc h v [] in
      let short : ltb 4 (length stop) ≡ false =
        ge→ltb 4 (length stop) (omega (arith, length-end p_end calloc h v [])) in
      rw short refl

  parse_marked :
      (let wire = le_put 4 t.version ++ (0 ∷ 1 ∷ after_version p_end calloc h v []) in
        IsPlaced p_end wire
        → length wire ≤ 4000000
        → satoshi_tx_parse p_end calloc h tx_zero wire ≡ ok (marked, length wire))
  unfolding marked after_version end
  parse_marked place small =
      let stop = end p_end calloc h v [] in
      let tail = back p_end calloc h v ++ stop in
      let after = after_version p_end calloc h v [] in
      let wire = le_put 4 t.version ++ (0 ∷ 1 ∷ after) in
      let p0 = IsPlaced-append p_end (le_put 4 t.version) (0 ∷ 1 ∷ after) place in
      let p1 : IsPlaced p_end after = omega (arith, p0) in
      let p2 = IsPlaced-append p_end (front p_end calloc h v) tail p1 in
      let taken : length wire - 0 ≡ length wire = omega arith in
      satoshi_tx_parse_parts p_end calloc h t.version t.lock_time true (0 ∷ 1 ∷ []) (0 ∷ 1 ∷ after)
        after tail stop [] t.txins t.txouts [] v.version_fits v.lock_time_fits small
        (parse_flag_marked p_end calloc after false (0 ∷ 0 ∷ []))
        (parse_front p_end calloc h v tail p1) (parse_back p_end calloc h v stop p2) no_section
      ∙ ok_pair refl taken

  -- What is written behind the version without the flag.
  written_after :
      (body : List ℕ)
      → satoshi_tx_serialize (record t { has_flag = false }) ≡ ok (le_put 4 t.version ++ body)
      → after_version p_end calloc h v [] ≡ body
  written_after body written =
      let wire = ok-injective (sym (serialize_stripped p_end calloc h v) ∙ written) in
      let all : le_put 4 t.version ++ after_version p_end calloc h v []
          ≡ le_put 4 t.version ++ body =
        sym (regroup_legacy p_end calloc h v [])
        ∙ append-nil (legacy_wire p_end calloc h v)
        ∙ wire in
      let size = sym (length-le_put 4 t.version) in
      sym (drop-append 4 (le_put 4 t.version) (after_version p_end calloc h v []) size)
      ∙ ap (drop 4) all
      ∙ drop-append 4 (le_put 4 t.version) body size

  -- For a transaction whose fields fit their widths, with at least one input and one output,
  -- arrays that the allocator grants and well-formed scripts: its serialization without the flag,
  -- with marker and flag put in behind the version, in a payload of at most 4000000 bytes and
  -- nothing behind it, is accepted whole by satoshi_tx_parse, and satoshi_tx_serialize of the
  -- parsed transaction stops in an assert.
  pub satoshi_tx_parse_no_witness :
      (body : List ℕ)
      → satoshi_tx_serialize (record t { has_flag = false }) ≡ ok (le_put 4 t.version ++ body)
      → IsPlaced p_end (le_put 4 t.version ++ (0 ∷ 1 ∷ body))
      → length (le_put 4 t.version ++ (0 ∷ 1 ∷ body)) ≤ 4000000
      → (u : Tx) × (satoshi_tx_parse p_end calloc h tx_zero (le_put 4 t.version ++ (0 ∷ 1 ∷ body))
          ≡ ok (u, length (le_put 4 t.version ++ (0 ∷ 1 ∷ body))))
        × (satoshi_tx_serialize u ≡ abort)
  satoshi_tx_parse_no_witness body written place small =
      let same = written_after body written in
      (
        marked,
        rw (← same) (parse_marked (rw (← same) at place) (rw (← same) at small)),
        marked_aborts,
      )
