-- ===== src/Tx/Sections.antt =====
-- The parts of a serialized transaction, each in front of what follows it.
use bitcoin_clib.Base.{
  replicate, lt→ltb, le→leb, ge→ltb, load-le_put, drop-append, length-le_put, ℕ, ◌+◌, ◌-◌, ◌^◌, ◌≤◌,
  ◌<◌, ◌≡◌, refl, sym, List, [], ◌∷◌, ◌++◌, Bool, true, false, ◌&&◌, ltb, if◌then◌else◌, arith,
  length, ok, length-append, append_assoc, take-append, le_put,
}
use bitcoin_clib.Varint.{IsU64, varint_bytes, varint_calc_size}
use bitcoin_clib.Varint.Codec.{length-varint_bytes, varint_calc_size_bounds}
use bitcoin_clib.Varstr.{is_positive}
use bitcoin_clib.Payload.{IsPlaced}
use bitcoin_clib.Txin.{Txin}
use bitcoin_clib.Txout.{Txout}
use bitcoin_clib.Hash.{HashFunctions, hash256}
use bitcoin_clib.Tx.{Witness, Tx, tx_zero}
use bitcoin_clib.Tx.Parse.{
  satoshi_tx_parse, parse_witness_section, span, parse_txins, parse_txouts, parse_flag,
  parse_txin_section, parse_txout_section,
}
use bitcoin_clib.Tx.Arrays.{IsPlaced-append, positive_leb, parse_varint_lem}

-- An array behind its count.
unfoldable pub counted : ℕ → List ℕ → List ℕ
counted n bs = varint_bytes n ++ bs

pub length-counted : (n : ℕ) (bs : List ℕ) → length (counted n bs) ≡ varint_calc_size n + length bs
unfolding counted
length-counted n bs = omega (arith, length-append (varint_bytes n) bs, length-varint_bytes n)

pub span-append : (front q : List ℕ) → span (front ++ q) q ≡ front
span-append front q =
    take-append (length (front ++ q) - length q) front q (omega (arith, length-append front q))

-- A count is not mistaken for the marker of a witness.
pub parse_flag_unmarked :
    (p_end : ℕ) (calloc : ℕ → Bool) (n : ℕ) (x : List ℕ) (has_flag : Bool) (flag : List ℕ)
    → 0 < n
    → IsU64 n
    → 0 < length x
    → parse_flag p_end calloc has_flag flag (varint_bytes n ++ x)
      ≡ ok (has_flag, flag, varint_bytes n ++ x)
unfolding parse_flag varint_bytes le_put
parse_flag_unmarked p_end calloc n [] has_flag flag h k l = absurd (omega arith)
parse_flag_unmarked p_end calloc n (y ∷ ys) has_flag flag h k l = ground arith

pub parse_flag_marked :
    (p_end : ℕ) (calloc : ℕ → Bool) (x : List ℕ) (has_flag : Bool) (flag : List ℕ)
    → parse_flag p_end calloc has_flag flag (0 ∷ 1 ∷ x) ≡ ok (true, 0 ∷ 1 ∷ [], x)
unfolding parse_flag
parse_flag_marked p_end calloc x has_flag flag = refl

is_positive_lem : (n : ℕ) → 0 < n → n < 2 ^ 63 → is_positive n ≡ true
is_positive_lem n h k = ground arith

module _ (p_end : ℕ) (calloc : ℕ → Bool) (n : ℕ) (bs q : List ℕ) (some_elements : 0 < n)
    (count_fits : n < 2 ^ 63) (granted : calloc n ≡ true)
    (place : IsPlaced p_end (counted n bs ++ q)) where
  regroup : counted n bs ++ q ≡ varint_bytes n ++ (bs ++ q)
  unfolding counted
  regroup = append_assoc (varint_bytes n) bs q

  place' : IsPlaced p_end (varint_bytes n ++ (bs ++ q))
  place' = rw regroup at place

  pub place_elements : IsPlaced p_end (bs ++ q)
  place_elements = IsPlaced-append p_end (varint_bytes n) (bs ++ q) place'

  pub parse_txin_section_lem :
      (ts : List Txin)
      → parse_txins p_end calloc n (bs ++ q) ≡ ok (ts, q)
      → parse_txin_section p_end calloc (counted n bs ++ q) ≡ ok (ts, q)
  unfolding parse_txin_section
  parse_txin_section_lem ts back = rw (
    positive_leb (length (counted n bs ++ q)) (
        omega
          (arith, length-append (counted n bs) q, length-counted n bs, varint_calc_size_bounds n)),
    regroup,
    parse_varint_lem p_end calloc n (bs ++ q) (omega arith) place',
    is_positive_lem n some_elements count_fits,
    granted,
    back,
  )

  pub parse_txout_section_lem :
      (ts : List Txout)
      → parse_txouts p_end calloc n (bs ++ q) ≡ ok (ts, q)
      → parse_txout_section p_end calloc (counted n bs ++ q) ≡ ok (ts, q)
  unfolding parse_txout_section
  parse_txout_section_lem ts back = rw (
    regroup,
    parse_varint_lem p_end calloc n (bs ++ q) (omega arith) place',
    is_positive_lem n some_elements count_fits,
    granted,
    back,
  )

-- The parser from its parts: `p`, `q` and `r` are the positions behind the flag, the inputs and the
-- outputs.
module _ (p_end : ℕ) (calloc : ℕ → Bool) (h : HashFunctions) (ver lock : ℕ) (f : Bool)
    (fl after p q r rest : List ℕ) (txins : List Txin) (txouts : List Txout)
    (ws : List Witness) where
  abbrev pub parsed_tx : Tx
  parsed_tx = record {
    version = ver;
    has_flag = f;
    flag = fl;
    txins = txins;
    txouts = txouts;
    cb_witnesses = length r - length (le_put 4 lock ++ rest);
    witnesses = if f && ltb 4 (length r) then ws else [];
    lock_time = lock;
    txid = hash256 h (le_put 4 ver ++ (span p q ++ (span q r ++ le_put 4 lock)));
    wtxid = if f then hash256 h (span (le_put 4 ver ++ after) rest) else replicate 32 0;
  }

  pub satoshi_tx_parse_parts :
      ver < 2 ^ 32
      → lock < 2 ^ 32
      → length (le_put 4 ver ++ after) ≤ 4000000
      → parse_flag p_end calloc false (0 ∷ 0 ∷ []) after ≡ ok (f, fl, p)
      → parse_txin_section p_end calloc p ≡ ok (txins, q)
      → parse_txout_section p_end calloc q ≡ ok (txouts, r)
      → parse_witness_section p_end calloc f (length txins) r ≡ ok (ws, le_put 4 lock ++ rest)
      → satoshi_tx_parse p_end calloc h tx_zero (le_put 4 ver ++ after)
        ≡ ok (parsed_tx, length (le_put 4 ver ++ after) - length rest)
  unfolding satoshi_tx_parse
  satoshi_tx_parse_parts hv hl small ef ei eo ew =
      let long : length (le_put 4 ver ++ after) ≡ 4 + length after =
        omega (arith, length-append (le_put 4 ver) after, length-le_put 4 ver) in
      let tail : length (le_put 4 lock ++ rest) ≡ 4 + length rest =
        omega (arith, length-append (le_put 4 lock) rest, length-le_put 4 lock) in
      rw
        (
          lt→ltb 0 (length (le_put 4 ver ++ after)) (omega (arith, long)),
          le→leb (length (le_put 4 ver ++ after)) 4000000 small,
          ge→ltb (length (le_put 4 ver ++ after)) 4 (omega (arith, long)),
          load-le_put 4 ver after hv,
          drop-append 4 (le_put 4 ver) after (sym (length-le_put 4 ver)),
          ef,
        )
        (rw ei (
          rw eo (
            rw (
              ew,
              ge→ltb (length (le_put 4 lock ++ rest)) 4 (omega (arith, tail)),
              load-le_put 4 lock rest hl,
              drop-append 4 (le_put 4 lock) rest (sym (length-le_put 4 lock)),
            ))))
