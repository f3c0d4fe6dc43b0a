-- ===== src/ScriptData.antt =====
-- src/satoshi-script.c, the script data group: the values on the script engine's stack.
-- The union of `satoshi_script_data_t` is two fields: `inline` holds its 32 bytes as long as no
-- pointer was stored there, and `target` is the object that a stored pointer leads to.
pub mod Strings
use bitcoin_clib.Base.{
  ℕ, ◌+◌, ◌%◌, ◌^◌, ◌≤◌, ◌<◌, List, [], ◌∷◌, ◌++◌, Bool, true, false, ◌&&◌, ltb, leb, ◌==◌,
  if◌then◌else◌, length, get_or, take, drop, replicate, Option, none, some, Outcome, ok, err, abort,
  fault, ◌>>=◌, ◌>>◌, assert, le_put, le_get, read, load,
}
use bitcoin_clib.Varint.{varint_calc_size, varint_bytes, varint_size, varint_get}
use bitcoin_clib.Varstr.{is_positive, varstr_set}
use bitcoin_clib.Payload.{bytes_eq}

-- `enum satoshi_script_data_type`.
pub data DataType : Type 0 where
  unknown null boolean op_code varint : DataType
  uint8 uint16 uint32 uint64 hash256 hash160 : DataType
  varstr uchars pointer : DataType

-- `type >= satoshi_script_data_type_varstr`: the union holds a pointer.
abbrev pub holds_pointer : DataType → Bool
holds_pointer varstr = true
holds_pointer uchars = true
holds_pointer pointer = true
holds_pointer _ = false

-- `is_static` marks `s_sdata_true` and `s_sdata_false`, which no one may free.
pub record ScriptData : Type 0 where
  pub kind : DataType
  pub is_static : Bool
  pub inline : List ℕ
  pub target : Option (List ℕ)
  pub size : ℕ

-- `calloc`ed.
abbrev pub script_data_zero : ScriptData
script_data_zero = record {
  kind = null;
  is_static = false;
  inline = replicate 32 0;
  target = none;
  size = 0;
}

-- A store into the union's first bytes.
abbrev pub store_inline : List ℕ → ScriptData → ScriptData
store_inline bs d = record d { inline = bs ++ drop (length bs) d.inline; target = none }

abbrev pub s_sdata_true : ScriptData
s_sdata_true = record {
  kind = boolean;
  is_static = true;
  inline = 1 ∷ replicate 31 0;
  target = none;
  size = 1;
}

abbrev pub s_sdata_false : ScriptData
s_sdata_false = record {
  kind = boolean;
  is_static = true;
  inline = replicate 32 0;
  target = none;
  size = 1;
}

unfoldable pub satoshi_script_data_new_boolean : Bool → ScriptData
satoshi_script_data_new_boolean b = if b then s_sdata_true else s_sdata_false

-- What the pointer leads to, for code that reads through it. Where the union holds something else,
-- its first eight bytes are taken for an address: NULL or a wild one.
unfoldable pub follow : ScriptData → Outcome (List ℕ)
follow d = elim d.target [ none ↦ fault | some bs ↦ ok bs ]

-- The same behind `assert(sdata->data)`.
unfoldable pub follow_asserted : ScriptData → Outcome (List ℕ)
follow_asserted d = elim d.target [
  | none ↦ if le_get (take 8 d.inline) == 0 then abort else fault
  | some bs ↦ ok bs
]

-- The bytes that the pointer leads to and their number; the number alone is returned for NULL.
unfoldable pub scripts_data_get_ptr : ScriptData → Outcome (List ℕ × ℕ)
unfolding follow
scripts_data_get_ptr d =
    if holds_pointer d.kind
    then (if d.size == 0 then ok ([], 0) else (follow d >>= λ bs. ok (bs, d.size)))
    else elim d.kind [ unknown ↦ ok ([], 0) | null ↦ ok ([], 0) | _ ↦ ok (d.inline, d.size) ]

-- Whether the result is 0. A size that is not positive, -1 for an unknown type too, is unequal.
unfoldable pub satoshi_script_data_compare : ScriptData → ScriptData → Outcome Bool
unfolding scripts_data_get_ptr
satoshi_script_data_compare d1 d2 = do
  (data1, cb_data1) ← scripts_data_get_ptr d1
  (data2, cb_data2) ← scripts_data_get_ptr d2
  if is_positive cb_data1 && (is_positive cb_data2 && cb_data1 == cb_data2)
      then (read cb_data1 data1 >>= λ x. read cb_data1 data2 >>= λ y. ok (bytes_eq x y))
      else ok false

-- A string behind its length: the length becomes the size before the whole size does.
unfoldable pub set_varstr : ScriptData → List ℕ → ℕ → Outcome (ScriptData × ℕ)
set_varstr d p size = do
  vint_size ← varint_size p
  assert (ltb 0 vint_size)
  n ← varint_get p
  let payload_size = (vint_size + n) % 2 ^ 64
  assert (if ltb 0 size then leb payload_size size else true)
  if ltb 0 n
      then (read n (drop vint_size p) >>= λ bs.
          ok (record d { target = some bs; size = payload_size }, payload_size))
      else ok (record d { size = payload_size }, payload_size)

-- A number of `width` bytes.
unfoldable pub set_number : ScriptData → List ℕ → ℕ → Outcome (ScriptData × ℕ)
set_number d p width = do
  v ← load width p
  ok (record (store_inline (le_put 8 v) d) { size = width }, width)

unfoldable pub set_hash : ScriptData → List ℕ → ℕ → Outcome (ScriptData × ℕ)
set_hash d p width = do bs ← read width p; ok (record (store_inline bs d) { size = width }, width)

-- The stores of one type, from the bytes at `data`, and the size returned.
unfoldable pub set_payload : ScriptData → DataType → List ℕ → ℕ → Outcome (ScriptData × ℕ)
unfolding set_varstr set_number set_hash
set_payload d boolean p size = do
  b ← load 1 p
  ok (record (store_inline (b ∷ []) d) { size = 1 }, 1)
set_payload d op_code p size = do
  b ← load 1 p
  ok (record (store_inline (b ∷ []) d) { size = 1 }, 1)
set_payload d varint p size = do
  vint_size ← varint_size p
  assert (ltb 0 vint_size)
  v ← varint_get p
  ok (record (store_inline (le_put 8 v) d) { size = vint_size }, vint_size)
set_payload d varstr p size = set_varstr d p size
set_payload d uint8 p size = set_number d p 1
set_payload d uint16 p size = set_number d p 2
set_payload d uint32 p size = set_number d p 4
set_payload d uint64 p size = set_number d p 8
set_payload d hash256 p size = set_hash d p 32
set_payload d hash160 p size = set_hash d p 20
set_payload d uchars p size = ok (record d { target = some p; size = size }, size)
set_payload d pointer p size =
    if ltb 0 size
    then (read size p >>= λ bs. ok (record d { target = some bs; size = size }, size))
    else ok (record d { size = 0 }, 0)
set_payload d unknown p size = abort
set_payload d null p size = ok (d, 0)

-- `none` is NULL.
unfoldable pub satoshi_script_data_set :
    ScriptData → DataType → Option (List ℕ) → ℕ → Outcome (ScriptData × ℕ)
unfolding set_payload
satoshi_script_data_set d unknown source size = abort
satoshi_script_data_set d null source size = ok (record d { kind = null }, 0)
satoshi_script_data_set d kind none size = abort
satoshi_script_data_set d kind (some p) size = set_payload (record d { kind = kind }) kind p size

unfoldable pub satoshi_script_data_new : DataType → Option (List ℕ) → ℕ → Outcome ScriptData
unfolding satoshi_script_data_set
satoshi_script_data_new kind source size =
    satoshi_script_data_set script_data_zero kind source size >>= λ (d, cb). ok d

-- The copy is left out where there is nothing to copy.
unfoldable pub get_string : ScriptData → Outcome (Option (List ℕ) × ℕ)
get_string d = elim d.target [
  | none ↦ if le_get (take 8 d.inline) == 0 then ok (none, d.size) else fault
  | some xs ↦
      if ltb 0 d.size then (read d.size xs >>= λ bs. ok (some bs, d.size)) else ok (none, d.size)
]

-- With a NULL destination: the new object, `none` where none is made, and the length.
unfoldable pub satoshi_script_data_get : ScriptData → Outcome (Option (List ℕ) × ℕ)
unfolding get_string
satoshi_script_data_get d = elim d.kind [
  | unknown ↦ abort
  | null ↦ ok (none, 0)
  | boolean ↦ ok (some (take 1 d.inline), 1)
  | op_code ↦ ok (some (take 1 d.inline), 1)
  | varint ↦ let v = le_get (take 8 d.inline) in ok (some (varint_bytes v), varint_calc_size v)
  | varstr ↦
      let n = (varint_calc_size d.size + d.size) % 2 ^ 64 in
      varstr_set (some (replicate n 0)) d.target d.size >>= λ bs. ok (some bs, n)
  | uint8 ↦ ok (some (take 8 d.inline), 8)
  | uint16 ↦ ok (some (take 8 d.inline), 8)
  | uint32 ↦ ok (some (take 8 d.inline), 8)
  | uint64 ↦ ok (some (take 8 d.inline), 8)
  | hash256 ↦ ok (some (take 32 d.inline), 32)
  | hash160 ↦ ok (some (take 20 d.inline), 20)
  | uchars ↦ get_string d
  | pointer ↦ get_string d
]

-- The copy of a string goes through `satoshi_script_data_set`, whose assert wants a pointer.
unfoldable pub satoshi_script_data_clone : ScriptData → Outcome ScriptData
unfolding satoshi_script_data_new
satoshi_script_data_clone d = elim d.kind [
  | unknown ↦ abort
  | varstr ↦ satoshi_script_data_new varstr d.target d.size
  | pointer ↦ satoshi_script_data_new pointer d.target d.size
  | _ ↦ ok (record d { is_static = false })
]

-- The free of a string's object. A static object is left alone.
unfoldable pub satoshi_script_data_cleanup : ScriptData → ScriptData
satoshi_script_data_cleanup d = if d.is_static then d else elim d.kind [
  | pointer ↦ record d { target = none; inline = replicate 8 0 ++ drop 8 d.inline }
  | varstr ↦ record d { target = none; inline = replicate 8 0 ++ drop 8 d.inline }
  | _ ↦ d
]
