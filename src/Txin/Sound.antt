-- ===== src/Txin/Sound.antt =====
-- Any payload given to `satoshi_txin_parse`, well formed or not.
use bitcoin_clib.Base.{
  read_enough, load_enough, take_of_append, read-eq-ok, load-eq-ok, take-le_put, All-drop,
  take-append-drop, reject_if-eq-ok, assert-eq-ok, ℕ, ◌+◌, ◌≤◌, ◌<◌, ◌≡◌, refl, sym, ap, ◌∙◌, List,
  ◌∷◌, ◌++◌, true, ltb, ◌==◌, arith, length, drop, take, Option, none, some, ok, ok-injective,
  fault, le_put, le_get, read, load, length-append, length-drop, length-le_put, append_assoc,
  drop-append, lt→ltb, ge→ltb, >>=-eq-ok, All, IsByte,
}
use bitcoin_clib.Varint.{varint_get, varint_width}
use bitcoin_clib.Varstr.{varstr_size, varstr_clone, is_positive}
use bitcoin_clib.Varstr.Laws.{varstr_size_short}
use bitcoin_clib.Varstr.Copies.{read_all, drop-drop, read_all}
use bitcoin_clib.Varstr.Create.{varstr_clone_sound}
use bitcoin_clib.Payload.{past_end}
use bitcoin_clib.Txin.{
  check_clone, Outpoint, Txin, outpoint_bytes, load_outpoint, checked_clone, satoshi_txin_parse,
  satoshi_txin_serialize,
}

-- The bytes that a loaded outpoint was read from.
pub load_outpoint_sound :
    (p : List ℕ) (o : Outpoint)
    → All IsByte p
    → load_outpoint p ≡ ok o
    → (outpoint_bytes o ++ drop 36 p ≡ p) × (length (outpoint_bytes o) ≡ 36)
unfolding load_outpoint outpoint_bytes
load_outpoint_sound p o hb h =
    let (hash, e, f) = >>=-eq-ok (read 32 p) _ h in
    let (index, g, k) = >>=-eq-ok (load 4 (drop 32 p)) _ f in
    let (j, l, t, s) = read-eq-ok 32 p hash e in
    let (i, m) = load-eq-ok 4 (drop 32 p) index g in
    let word : le_put 4 index ≡ take 4 (drop 32 p) =
      rw i (take-le_put 4 (drop 32 p) (All-drop 32 p hb) m) in
    let whole : hash ++ (le_put 4 index ++ drop 36 p) ≡ p =
      rw (word, ← drop-drop 4 32 36 p (omega arith), take-append-drop 4 (drop 32 p)) j in
    let same : record { prev_hash = hash; index = index } ≡ o = ok-injective k in
    rw (← same) (
      rw (append_assoc hash (le_put 4 index) (drop 36 p)) whole,
      omega (arith, length-append hash (le_put 4 index), length-le_put 4 index),
    )

check_clone_sound :
    (size : ℕ) (c : Option (List ℕ)) (v : List ℕ)
    → check_clone size c ≡ ok v
    → (c ≡ some v) × (varstr_size v ≡ ok size)
unfolding check_clone
check_clone_sound size none v h = cc
check_clone_sound size (some vstr) v h =
    let (n, e, f) = >>=-eq-ok (varstr_size vstr) _ h in
    let (same, g) = assert-eq-ok (n == size) _ f in
    let eq : vstr ≡ v = ok-injective g in
    let num : n ≡ size = ground arith in rw (← eq) (refl, rw num at e)

pub checked_clone_sound :
    (p v : List ℕ) (size : ℕ)
    → checked_clone p size ≡ ok v
    → (varstr_size v ≡ ok size)
      × (varstr_size p ≡ ok (length v))
      × (v ++ drop (length v) p ≡ p)
      × (is_positive (length v) ≡ true)
unfolding checked_clone
checked_clone_sound p v size h =
    let (c, e, f) = >>=-eq-ok (varstr_clone (some p)) (check_clone size) h in
    let (g, k) = check_clone_sound size c v f in
    let (size_p, prefix, positive) = varstr_clone_sound p v (rw g at e) in
    (k, size_p, prefix, positive)

-- The bytes that a parse read, put together again.
parsed_bytes :
    (payload v : List ℕ) (size seq : ℕ) (t : Txin)
    → All IsByte payload
    → load_outpoint payload ≡ ok t.outpoint
    → varstr_size (drop 36 payload) ≡ ok size
    → checked_clone (drop 36 payload) size ≡ ok v
    → load 4 (drop size (drop 36 payload)) ≡ ok seq
    → t.scripts ≡ some v
    → t.sequence ≡ seq
    → (satoshi_txin_serialize t ≡ ok (take (36 + size + 4) payload))
      × (36 + size + 4 ≤ length payload)
unfolding satoshi_txin_serialize
parsed_bytes payload v size seq t hb ho hs hv hq es eq =
    let p : List ℕ = drop 36 payload in
    let (ob, lo) = load_outpoint_sound payload t.outpoint hb ho in
    let (size_v, size_p, prefix, positive) = checked_clone_sound p v size hv in
    let same : size ≡ length v = ok-injective (sym hs ∙ size_p) in
    let (word, room) = load-eq-ok 4 (drop size p) seq hq in
    let word' : le_put 4 seq ≡ take 4 (drop size p) =
      rw word (take-le_put 4 (drop size p) (All-drop size p (All-drop 36 payload hb)) room) in
    let front : List ℕ = outpoint_bytes t.outpoint ++ (v ++ le_put 4 seq) in
    let size_v' : varstr_size v ≡ ok (length v) = rw same at size_v in
    let whole : front ++ drop 4 (drop size p) ≡ payload =
      rw
        (
          append_assoc (outpoint_bytes t.outpoint) (v ++ le_put 4 seq) (drop 4 (drop size p)),
          append_assoc v (le_put 4 seq) (drop 4 (drop size p)),
          word',
          take-append-drop 4 (drop size p),
          same,
          prefix,
        )
        ob in
    let (cut, fits) = take_of_append (36 + size + 4) front (drop 4 (drop size p)) payload whole (
      omega (
        arith,
        length-append (outpoint_bytes t.outpoint) (v ++ le_put 4 seq),
        length-append v (le_put 4 seq),
        length-le_put 4 seq,
      )) in
    (rw (es, eq, size_v', positive, read_all v, cut), fits)

-- If satoshi_txin_parse takes n bytes of a payload of bytes, there are that many, and
-- satoshi_txin_serialize writes exactly those n bytes for the parsed input, also where the
-- script's length is stored in more bytes than it needs.
pub satoshi_txin_parse_sound :
    (p_end : ℕ) (txin t : Txin) (payload : List ℕ) (n : ℕ)
    → All IsByte payload
    → satoshi_txin_parse p_end txin payload ≡ ok (t, n)
    → (satoshi_txin_serialize t ≡ ok (take n payload)) × (n ≤ length payload)
unfolding satoshi_txin_parse
satoshi_txin_parse_sound p_end txin t payload n hb h =
    let (_, h1) = assert-eq-ok (ltb 0 (length payload)) _ h in
    let (_, h2) = reject_if-eq-ok (ltb (length payload) 36) _ h1 in
    let (o, ho, h3) = >>=-eq-ok (load_outpoint payload) _ h2 in
    let (size, hs, h4) = >>=-eq-ok (varstr_size (drop 36 payload)) _ h3 in
    let (_, h5) = reject_if-eq-ok (past_end p_end (drop 36 payload) size) _ h4 in
    let (v, hv, h6) = >>=-eq-ok (checked_clone (drop 36 payload) size) _ h5 in
    let (cb, _, h7) = >>=-eq-ok (varint_get v) _ h6 in
    let q : List ℕ = drop size (drop 36 payload) in
    let (_, h8) = reject_if-eq-ok (ltb (length q) 4) _ h7 in
    let (seq, hq, h9) = >>=-eq-ok (load 4 q) _ h8 in
    let out = ok-injective h9 in
    rw (← ap (λ r. r.1) out) (
      parsed_bytes payload v size seq t hb (rw (ap (λ r. r.0.outpoint) out) at ho) hs hv hq
        (sym (ap (λ r. r.0.scripts) out)) (sym (ap (λ r. r.0.sequence) out)))

load_outpoint_enough : (p : List ℕ) → 36 ≤ length p → (o : Outpoint) × (load_outpoint p ≡ ok o)
unfolding load_outpoint
load_outpoint_enough p h = (
  record { prev_hash = take 32 p; index = le_get (take 4 (drop 32 p)) },
  rw (read_enough 32 p (omega arith), load_enough 4 (drop 32 p) (omega (arith, length-drop 32 p))),
)

-- A payload of 36 bytes and the beginning of a script length that announces more bytes than are
-- left makes satoshi_txin_parse read past the end of the payload.
pub satoshi_txin_parse_overread :
    (p_end b : ℕ) (txin : Txin) (front tail : List ℕ)
    → length front ≡ 36
    → IsByte b
    → length (b ∷ tail) < varint_width b
    → satoshi_txin_parse p_end txin (front ++ (b ∷ tail)) ≡ fault
unfolding satoshi_txin_parse
satoshi_txin_parse_overread p_end b txin front tail hl hb short =
    let long : 36 ≤ length (front ++ (b ∷ tail)) = omega (arith, length-append front (b ∷ tail)) in
    let (o, e) = load_outpoint_enough (front ++ (b ∷ tail)) long in
    rw (
      lt→ltb 0 (length (front ++ (b ∷ tail))) (omega arith),
      ge→ltb (length (front ++ (b ∷ tail))) 36 long,
      e,
      drop-append 36 front (b ∷ tail) (sym hl),
      varstr_size_short b tail hb short,
    )
