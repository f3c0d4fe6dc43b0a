-- ===== src/Varstr/Update.antt =====
-- `varstr_set` and `varstr_get` with the three kinds of destination.
use bitcoin_clib.Base.{
  ℕ, ◌≤◌, ◌<◌, ◌≡◌, refl, sym, ap, List, [], ◌∷◌, ◌++◌, true, ◌&&◌, ◌||◌, arith, ltb, ◌==◌,
  if◌then◌else◌, length, take, drop, length-drop, length-take, append_assoc, some, ok, ◌>>=◌, read,
  write, read-append,
}
use bitcoin_clib.Varint.{varint_calc_size, varint_bytes}
use bitcoin_clib.Varint.Codec.{length-varint_bytes, varint_size-varint_bytes, varint_set_lem}
use bitcoin_clib.Varstr.{varstr_set, query, allocate, buffer, varstr_get}
use bitcoin_clib.Varstr.Copies.{write_fits, read_all, write_at-front, drop-drop, read_part}
use bitcoin_clib.Varstr.Laws.{
  varstr_of, Fits, length-varstr_of, varint_get-varstr_of, varstr_getdata_ptr-varstr_of,
}

-- For a string whose length is below 2 ^ 63 - 9 and an object with room for its stored form,
-- varstr_set stores that form and leaves the bytes behind it as they were.
pub varstr_set_lem :
    (vstr d : List ℕ)
    → Fits d
    → length (varstr_of d) ≤ length vstr
    → varstr_set (some vstr) (some d) (length d)
      ≡ ok (varstr_of d ++ drop (length (varstr_of d)) vstr)
unfolding varstr_set
varstr_set_lem vstr d h room =
    rw
      (
        varint_set_lem vstr (length d) (omega (arith, length-varstr_of d)),
        varint_size-varint_bytes (length d) (drop (varint_calc_size (length d)) vstr),
        read_all d,
        write_at-front (varint_calc_size (length d)) d (varint_bytes (length d))
            (drop (varint_calc_size (length d)) vstr) (sym (length-varint_bytes (length d)))
            (omega (arith, length-varstr_of d, length-drop (varint_calc_size (length d)) vstr)),
        drop-drop (length d) (varint_calc_size (length d)) (length (varstr_of d)) vstr
            (length-varstr_of d),
      )
      (unfold varstr_of in ap ok (sym (append_assoc (varint_bytes (length d)) d _)))

cut_lem :
    (d dst rest : List ℕ) (n : ℕ)
    → n ≤ length d
    → length d ≤ length dst
    → (read n (d ++ rest) >>= λ bs. write bs dst >>= λ dst'. let r : ℕ × List ℕ = (n, dst') in ok r)
      ≡ ok (n, take n d ++ drop n dst)
cut_lem d dst rest n h room = rw (
  read_part n d rest h,
  write_fits (take n d) dst (omega (arith, length-take n d h)),
  length-take n d h,
)

-- For a stored string that is not empty, of a length below 2 ^ 63 - 9, and a buffer at least as
-- long: without p_data varstr_get returns the length; without a buffer it yields the string with
-- a NUL behind it; with the buffer it copies the string cut to the size asked for, where 0 asks
-- for all, and leaves the buffer's end.
pub varstr_get_lem :
    (d dst rest : List ℕ) (size : ℕ)
    → Fits d
    → 0 < length d
    → length d ≤ length dst
    → (varstr_get (varstr_of d ++ rest) query size ≡ ok (length d, []))
      × (varstr_get (varstr_of d ++ rest) allocate size ≡ ok (length d, d ++ (0 ∷ [])))
      × (let n = if size == 0 || ltb (length d) size then length d else size in
          varstr_get (varstr_of d ++ rest) (buffer dst) size ≡ ok (n, take n d ++ drop n dst))
unfolding varstr_get
varstr_get_lem d dst rest size h pos room =
    rw
      (
        varint_get-varstr_of d rest (omega arith),
        positive,
        varstr_getdata_ptr-varstr_of d rest,
        read-append (length d) d rest refl,
      )
      (refl, refl, cut_lem d dst rest _ (ground arith) room)
  where
    positive : (ltb 0 (length d) && ltb (length d) 9223372036854775808) ≡ true
    positive = ground arith
