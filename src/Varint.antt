-- ===== src/Varint.antt =====
-- src/satoshi-types.c, the varint group: unsigned 64-bit numbers in 1, 3, 5 or 9 bytes.
-- A `varint_t *` is the list of bytes from the pointer to the end of its object.
pub mod Codec
use bitcoin_clib.Base.{
  ℕ, suc, ◌+◌, ◌%◌, ◌^◌, ◌<◌, ◌-◌, List, [], ◌∷◌, ltb, leb, ◌==◌, if◌then◌else◌, replicate, Outcome,
  ok, fault, ◌>>=◌, le_put, le_get, read, write, load,
}

abbrev pub IsU64 : ℕ → Type 0
IsU64 v = v < 2 ^ 64

unfoldable pub varint_calc_size : ℕ → ℕ
varint_calc_size value =
    if ltb value 0xFD
    then 1
    else if leb value 0xFFFF
    then 3
    else if leb value 0xFFFFFFFF
    then 5
    else 9

-- The bytes that `varint_set_data` stores; each branch casts the value to its width first.
unfoldable pub varint_bytes : ℕ → List ℕ
varint_bytes value =
    if ltb value 0xFD
    then (value % 256) ∷ []
    else if leb value 0xFFFF
    then 0xFD ∷ le_put 2 (value % 2 ^ 16)
    else if leb value 0xFFFFFFFF
    then 0xFE ∷ le_put 4 (value % 2 ^ 32)
    else 0xFF ∷ le_put 8 value

unfoldable pub varint_set_data : List ℕ → ℕ → Outcome (List ℕ)
unfolding varint_bytes
varint_set_data vch value = write (varint_bytes value) vch

-- `calloc(1, size)` and `varint_set_data`.
unfoldable pub varint_new : ℕ → Outcome (List ℕ)
unfolding varint_set_data
varint_new value = varint_set_data (replicate (varint_calc_size value) 0) value

-- `varint_set` of a pointer that is not NULL (on NULL it is `varint_new`).
unfoldable pub varint_set : List ℕ → ℕ → Outcome (List ℕ)
unfolding varint_set_data
varint_set vint value = varint_set_data vint value

-- The switch on the first byte. The default case, `(size_t)-1`, stands for no byte.
unfoldable pub varint_width : ℕ → ℕ
varint_width b =
    if ltb b 0xFD
    then 1
    else if b == 0xFD
    then 3
    else if b == 0xFE
    then 5
    else if b == 0xFF
    then 9
    else 2 ^ 64 - 1

unfoldable pub varint_size : List ℕ → Outcome ℕ
unfolding varint_width
varint_size [] = fault
varint_size (b ∷ vch) = ok (varint_width b)

unfoldable pub varint_get : List ℕ → Outcome ℕ
unfolding load
varint_get [] = fault
varint_get (b ∷ vch) =
    if ltb b 0xFD
    then ok b
    else if b == 0xFD
    then load 2 vch
    else if b == 0xFE
    then load 4 vch
    else load 8 vch
