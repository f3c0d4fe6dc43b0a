-- ===== src/Varstr.antt =====
-- src/satoshi-types.c, the varstr group: a byte string behind its length as a varint.
-- A `varstr_t *` is the list of bytes from the pointer to the end of its object, and `none` is NULL.
-- An allocation never fails. A copy is compared by its bytes: that `varstr_clone` and
-- `varstr_resize` return the static object `varstr_empty` itself, one zero byte, is the same value.
pub mod Copies
pub mod Laws
pub mod Create
pub mod Resize
pub mod Update
use bitcoin_clib.Base.{
  ℕ, ◌+◌, ◌%◌, ◌^◌, ◌<◌, List, [], ◌∷◌, ◌++◌, Bool, ◌&&◌, ◌||◌, ltb, leb, ◌==◌, if◌then◌else◌,
  replicate, take, drop, length, Option, none, some, Outcome, ok, ◌>>=◌, ◌>>◌, assert, read, write,
}
use bitcoin_clib.Varint.{varint_calc_size, varint_set_data, varint_set, varint_size, varint_get}

-- `memcpy(xs + offset, bs, ...)`.
unfoldable pub write_at : ℕ → List ℕ → List ℕ → Outcome (List ℕ)
write_at offset bs xs = write bs (drop offset xs) >>= λ r. ok (take offset xs ++ r)

-- A `size_t` that is positive when it is read as `ssize_t`.
abbrev pub is_positive : ℕ → Bool
is_positive n = ltb 0 n && ltb n (2 ^ 63)

unfoldable pub varstr_size : List ℕ → Outcome ℕ
varstr_size vstr = do
  vint_size ← varint_size vstr
  data_len ← varint_get vstr
  ok ((vint_size + data_len) % 2 ^ 64)

-- `varstr_getdata_ptr(vstr)`, up to the end of the object.
unfoldable pub varstr_getdata_ptr : List ℕ → Outcome (List ℕ)
varstr_getdata_ptr vstr = varint_size vstr >>= λ n. ok (drop n vstr)

-- The copy of the data, which NULL and a length of 0 leave out.
unfoldable pub fill_data : ℕ → Option (List ℕ) → ℕ → List ℕ → Outcome (List ℕ)
fill_data offset none length vch = ok vch
fill_data offset (some src) length vch =
    if ltb 0 length then (read length src >>= λ bs. write_at offset bs vch) else ok vch

unfoldable pub varstr_new : Option (List ℕ) → ℕ → Outcome (List ℕ)
unfolding fill_data
varstr_new src length = do
  let vint_size = varint_calc_size length
  assert (leb 1 vint_size && leb vint_size 9 && ltb length ((vint_size + length) % 2 ^ 64))
  vch ← varint_set_data (replicate (vint_size + length) 0) length
  fill_data vint_size src length vch

unfoldable pub varstr_clone : Option (List ℕ) → Outcome (Option (List ℕ))
varstr_clone none = ok none
varstr_clone (some vstr) = do
  size ← varstr_size vstr
  assert (is_positive size)
  dst ← read size vstr
  ok (some dst)

-- The old bytes that the new length has room for; the rest of the new object stays zero.
unfoldable pub copy_data : List ℕ → List ℕ → ℕ → Outcome (List ℕ)
copy_data vstr new_str len = do
  old_data ← varstr_getdata_ptr vstr
  offset ← varint_size new_str
  bs ← read len old_data
  write_at offset bs new_str

-- `none` stands for NULL and for `varstr_empty`.
unfoldable pub varstr_resize : Option (List ℕ) → ℕ → Outcome (List ℕ)
unfolding copy_data
varstr_resize none new_len = varstr_new none new_len
varstr_resize (some vstr) new_len = do
  old_len ← varint_get vstr
  if old_len == new_len
      then ok vstr
      else (varstr_new none new_len >>= λ new_str.
          let len = if ltb old_len new_len then old_len else new_len in
          if ltb 0 len then copy_data vstr new_str len else ok new_str)

-- The first argument of `memcpy` is the object that `vstr` points into: it is not made larger.
-- `none` stands for NULL and for `varstr_empty`.
unfoldable pub varstr_set : Option (List ℕ) → Option (List ℕ) → ℕ → Outcome (List ℕ)
varstr_set none src length = varstr_new src length
varstr_set (some vstr) src length = do
  p ← varint_set vstr length
  offset ← varint_size p
  elim src [ none ↦ ok p | some d ↦ read length d >>= λ bs. write_at offset bs p ]

-- The argument `p_data`: NULL, the address of a NULL, or the address of a buffer.
pub data Dest : Type 0 where
  query allocate : Dest
  buffer : List ℕ → Dest

-- The value returned, and the destination's bytes afterwards.
unfoldable pub varstr_get : List ℕ → Dest → ℕ → Outcome (ℕ × List ℕ)
varstr_get vstr dest buf_size = do
  data_len ← varint_get vstr
  if is_positive data_len
      then elim dest [
        | query ↦ ok (data_len, [])
        | allocate ↦ do
          src ← varstr_getdata_ptr vstr
          bs ← read data_len src
          ok (data_len, bs ++ (0 ∷ []))
        | buffer dst ↦ do
          let size = if buf_size == 0 || ltb data_len buf_size then data_len else buf_size
          src ← varstr_getdata_ptr vstr
          bs ← read size src
          dst' ← write bs dst
          ok (size, dst')
      ]
      else ok (0, [])
