-- ===== src/Txout/Sound.antt =====
-- Any payload given to `satoshi_txout_parse`, well formed or not.
use bitcoin_clib.Base.{
  ℕ, suc, ◌+◌, ◌≤◌, ◌<◌, ◌≡◌, sym, ap, ◌∙◌, List, [], ◌∷◌, ◌++◌, true, false, ltb, arith, length,
  drop, take, some, ok, fault, ok-injective, >>=-eq-ok, assert-eq-ok, reject_if-eq-ok, All, IsByte,
  le_put, load, load_enough, load-eq-ok, take-le_put, take-append-drop, take_of_append,
  length-append, length-le_put, append_assoc, drop-append, lt→ltb, ge→ltb,
}
use bitcoin_clib.Varint.{varint_width, varint_bytes}
use bitcoin_clib.Varstr.{varstr_size, varstr_getdata_ptr, is_positive}
use bitcoin_clib.Varstr.Copies.{read_all}
use bitcoin_clib.Varstr.Laws.{
  varstr_of, varstr_size_short, varstr_size-varstr_of, varstr_getdata_ptr_exact,
}
use bitcoin_clib.Payload.{past_end, IsPlaced}
use bitcoin_clib.Payload.Laws.{past_end_within}
use bitcoin_clib.Txin.{checked_clone}
use bitcoin_clib.Txin.Laws.{checked_clone_lem}
use bitcoin_clib.Txin.Sound.{checked_clone_sound}
use bitcoin_clib.Txout.{Txout, txout_flags, satoshi_txout_parse, satoshi_txout_serialize}

positive→lt : (n : ℕ) → is_positive n ≡ true → ltb 0 n ≡ true
positive→lt n h = ground arith

parsed_bytes :
    (payload v : List ℕ) (size : ℕ) (t : Txout)
    → All IsByte payload
    → load 8 payload ≡ ok t.value
    → varstr_size (drop 8 payload) ≡ ok size
    → checked_clone (drop 8 payload) size ≡ ok v
    → t.scripts ≡ some v
    → (satoshi_txout_serialize t ≡ ok (take (8 + size) payload)) × (8 + size ≤ length payload)
unfolding satoshi_txout_serialize
parsed_bytes payload v size t hb ho hs hv es =
    let p : List ℕ = drop 8 payload in
    let (size_v, size_p, prefix, positive) = checked_clone_sound p v size hv in
    let same : size ≡ length v = ok-injective (sym hs ∙ size_p) in
    let (word, room) = load-eq-ok 8 payload t.value ho in
    let word' : le_put 8 t.value ≡ take 8 payload = rw word (take-le_put 8 payload hb room) in
    let size_v' : varstr_size v ≡ ok (length v) = rw same at size_v in
    let whole : (le_put 8 t.value ++ v) ++ drop (length v) p ≡ payload =
      rw (append_assoc (le_put 8 t.value) v (drop (length v) p), prefix, word')
        (take-append-drop 8 payload) in
    let (cut, fits) =
      take_of_append (8 + size) (le_put 8 t.value ++ v) (drop (length v) p) payload whole
        (omega (arith, length-append (le_put 8 t.value) v, length-le_put 8 t.value)) in
    (rw (es, size_v', positive→lt (length v) positive, read_all v, cut), fits)

-- If satoshi_txout_parse takes n bytes of a payload of bytes, there are that many, and
-- satoshi_txout_serialize writes exactly those n bytes for the parsed output.
pub satoshi_txout_parse_sound :
    (p_end : ℕ) (txout t : Txout) (payload : List ℕ) (n : ℕ)
    → All IsByte payload
    → satoshi_txout_parse p_end txout payload ≡ ok (t, n)
    → (satoshi_txout_serialize t ≡ ok (take n payload)) × (n ≤ length payload)
unfolding satoshi_txout_parse
satoshi_txout_parse_sound p_end txout t payload n hb h =
    let (_, h1) = assert-eq-ok (ltb 0 (length payload)) _ h in
    let (_, h2) = reject_if-eq-ok (ltb (length payload) 8) _ h1 in
    let (value, ho, h3) = >>=-eq-ok (load 8 payload) _ h2 in
    let (_, h4) = reject_if-eq-ok (ltb (length (drop 8 payload)) 1) _ h3 in
    let (size, hs, h5) = >>=-eq-ok (varstr_size (drop 8 payload)) _ h4 in
    let (_, h6) = reject_if-eq-ok (past_end p_end (drop 8 payload) size) _ h5 in
    let (v, hv, h7) = >>=-eq-ok (checked_clone (drop 8 payload) size) _ h6 in
    let (script, _, h8) = >>=-eq-ok (varstr_getdata_ptr v) _ h7 in
    let (flags, _, h9) = >>=-eq-ok (txout_flags script) _ h8 in
    let out = ok-injective h9 in
    rw (← ap (λ r. r.1) out) (
      parsed_bytes payload v size t hb (rw (ap (λ r. r.0.value) out) at ho) hs hv
        (sym (ap (λ r. r.0.scripts) out)))

module _ (p_end : ℕ) (txout : Txout) (value rest : List ℕ) (value_size : length value ≡ 8) where
  -- An output of 8 value bytes and an empty script, whatever follows, makes satoshi_txout_parse
  -- read behind the clone of the script.
  pub satoshi_txout_parse_empty_script :
      IsPlaced p_end (value ++ (0 ∷ rest))
      → satoshi_txout_parse p_end txout (value ++ (0 ∷ rest)) ≡ fault
  unfolding satoshi_txout_parse txout_flags
  satoshi_txout_parse_empty_script place = rw (
    lt→ltb 0 (length (value ++ (0 ∷ rest))) (omega (arith, longer)),
    ge→ltb (length (value ++ (0 ∷ rest))) 8 (omega (arith, longer)),
    load_enough 8 (value ++ (0 ∷ rest)) (omega (arith, longer)),
    drop-append 8 value (0 ∷ rest) (sym value_size),
    ge→ltb (suc (length rest)) 1 (omega arith),
    size_here,
    within,
    clone_here,
    varstr_getdata_ptr_exact [],
  )
    where
      longer : length (value ++ (0 ∷ rest)) ≡ 9 + length rest
      longer = omega (arith, length-append value (0 ∷ rest))

      size_here : varstr_size (0 ∷ rest) ≡ ok 1
      size_here = unfold varstr_of varint_bytes in varstr_size-varstr_of [] rest (omega arith)

      within : past_end p_end (0 ∷ rest) 1 ≡ false
      within = past_end_within p_end 1 (0 ∷ rest) (omega (arith, place, longer)) (omega arith)

      clone_here : checked_clone (0 ∷ rest) 1 ≡ ok (varstr_of [])
      clone_here = unfold varstr_of varint_bytes in checked_clone_lem [] rest (omega arith)

  -- So does a payload that ends inside the script's length.
  pub satoshi_txout_parse_overread :
      (b : ℕ) (tail : List ℕ)
      → IsByte b
      → length (b ∷ tail) < varint_width b
      → satoshi_txout_parse p_end txout (value ++ (b ∷ tail)) ≡ fault
  unfolding satoshi_txout_parse
  satoshi_txout_parse_overread b tail hb short = rw (
    lt→ltb 0 (length (value ++ (b ∷ tail))) (omega (arith, longer)),
    ge→ltb (length (value ++ (b ∷ tail))) 8 (omega (arith, longer)),
    load_enough 8 (value ++ (b ∷ tail)) (omega (arith, longer)),
    drop-append 8 value (b ∷ tail) (sym value_size),
    ge→ltb (suc (length tail)) 1 (omega arith),
    varstr_size_short b tail hb short,
  )
    where
      longer : length (value ++ (b ∷ tail)) ≡ 9 + length tail
      longer = omega (arith, length-append value (b ∷ tail))
