-- ===== src/Varstr/Laws.antt =====
-- How memory represents a string, and what the readers of the varstr group find there.
use bitcoin_clib.Base.{
  IsByte, fault, ℕ, ◌+◌, ◌^◌, ◌<◌, ◌≡◌, sym, ap, List, [], ◌∷◌, ◌++◌, arith, length, length-append,
  drop-append, append_assoc, append-nil, ok,
}
use bitcoin_clib.Varint.{varint_width, varint_calc_size, varint_bytes, varint_size, varint_get}
use bitcoin_clib.Varint.Codec.{
  varint_get_fault, length-varint_bytes, varint_calc_size_bounds, varint_get-varint_bytes,
  varint_size-varint_bytes,
}
use bitcoin_clib.Varstr.{varstr_size, varstr_getdata_ptr}

-- The representation of the string `d`.
unfoldable pub varstr_of : List ℕ → List ℕ
varstr_of d = varint_bytes (length d) ++ d

-- Lengths for which no size computation wraps and every size is positive as `ssize_t`.
abbrev pub Fits : List ℕ → Type 0
Fits d = length d + 9 < 2 ^ 63

pub length-varstr_of : (d : List ℕ) → length (varstr_of d) ≡ varint_calc_size (length d) + length d
unfolding varstr_of
length-varstr_of d =
    omega (arith, length-append (varint_bytes (length d)) d, length-varint_bytes (length d))

module _ (d rest : List ℕ) where
  regroup : varstr_of d ++ rest ≡ varint_bytes (length d) ++ (d ++ rest)
  unfolding varstr_of
  regroup = append_assoc (varint_bytes (length d)) d rest

  pub varint_get-varstr_of : length d < 2 ^ 64 → varint_get (varstr_of d ++ rest) ≡ ok (length d)
  varint_get-varstr_of h = rw regroup (varint_get-varint_bytes (length d) (d ++ rest) h)

  pub varint_size-varstr_of : varint_size (varstr_of d ++ rest) ≡ ok (varint_calc_size (length d))
  varint_size-varstr_of = rw regroup (varint_size-varint_bytes (length d) (d ++ rest))

  pub varstr_getdata_ptr-varstr_of : varstr_getdata_ptr (varstr_of d ++ rest) ≡ ok (d ++ rest)
  unfolding varstr_getdata_ptr
  varstr_getdata_ptr-varstr_of =
      rw (varint_size-varstr_of, regroup)
        (ap ok (drop-append _ (varint_bytes (length d)) _ (sym (length-varint_bytes (length d)))))

  pub varstr_size-varstr_of : Fits d → varstr_size (varstr_of d ++ rest) ≡ ok (length (varstr_of d))
  unfolding varstr_size
  varstr_size-varstr_of h =
      rw (varint_size-varstr_of, varint_get-varstr_of (omega arith))
        (ap ok (omega (arith, length-varstr_of d, varint_calc_size_bounds (length d))))

-- The same of the object that holds the string alone.
pub varstr_getdata_ptr_exact : (d : List ℕ) → varstr_getdata_ptr (varstr_of d) ≡ ok d
varstr_getdata_ptr_exact d = simp append-nil at (varstr_getdata_ptr-varstr_of d [])

pub varint_get_exact : (d : List ℕ) → length d < 2 ^ 64 → varint_get (varstr_of d) ≡ ok (length d)
varint_get_exact d h = simp append-nil at (varint_get-varstr_of d [] h)

pub varstr_size_exact :
    (d : List ℕ) → Fits d → varstr_size (varstr_of d) ≡ ok (length (varstr_of d))
varstr_size_exact d h = simp append-nil at (varstr_size-varstr_of d [] h)

-- A string whose length is cut off cannot be measured without reading past the object.
pub varstr_size_short :
    (b : ℕ) (tail : List ℕ)
    → IsByte b
    → length (b ∷ tail) < varint_width b
    → varstr_size (b ∷ tail) ≡ fault
unfolding varstr_size varint_size
varstr_size_short b tail hb short = rw ((varint_get_fault b tail hb).1 short)
