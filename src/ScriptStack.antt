-- ===== src/ScriptStack.antt =====
-- src/satoshi-script.c: the script engine's stack, and the opcodes that push data on it. `items` is the
-- whole array of `max_size` pointers, of which the first `count` are in use; and `none` is NULL.
pub mod Array
pub mod Held
pub mod PushData
use bitcoin_clib.Base.{
  ℕ, ◌+◌, ◌-◌, ◌*◌, ◌/◌, ◌%◌, ◌^◌, ◌≤◌, ◌<◌, List, [], ◌++◌, Bool, true, false, ltb, leb, ◌==◌,
  if◌then◌else◌, length, take, drop, get_or, set, replicate, Option, none, some, Outcome, ok, err,
  fault, ◌>>=◌, ◌>>◌, reject_if, assert, load, read, le_put, ◌∷◌,
}
use bitcoin_clib.ScriptData.{ScriptData, pointer, satoshi_script_data_new}
use bitcoin_clib.Varint.{varint_get}
use bitcoin_clib.Varstr.{varstr_getdata_ptr}

pub record ScriptStack : Type 0 where
  pub max_size : ℕ
  pub count : ℕ
  pub items : List (Option ScriptData)

-- The size that the opcode announces, and the bytes behind it.
unfoldable pub push_data_size : ℕ → List ℕ → Outcome (ℕ × List ℕ)
push_data_size op_code p =
    let offset : ℕ =
      if op_code == 0x4c
      then 1
      else if op_code == 0x4d
      then 2
      else if op_code == 0x4e
      then 4
      else 0 in
    if offset == 0
    then ok (op_code, p)
    else (reject_if (ltb (length p) offset) >> (load offset p >>= λ n. ok (n, drop offset p)))

-- `unset` is what a new element of the array holds after `realloc`. The zeros are written from the
-- array's start on.
module _ (unset : Option ScriptData) where
  unfoldable pub satoshi_script_stack_resize : ScriptStack → ℕ → ScriptStack
  satoshi_script_stack_resize stack size =
      let new_size : ℕ = if size == 0 then 64 else (size + 64 - 1) / 64 * 64 in
      if leb new_size stack.max_size
      then stack
      else (let more = new_size - stack.max_size in
          record stack {
            items = replicate more none ++ drop more (stack.items ++ replicate more unset);
            max_size = new_size;
          })

  unfoldable pub script_stack_push : ScriptStack → ScriptData → ScriptStack
  script_stack_push stack sdata =
      let r = satoshi_script_stack_resize stack (stack.count + 1) in
      record r { items = set r.items r.count (some sdata); count = r.count + 1 }

  unfoldable pub satoshi_script_stack_init : ScriptStack → ℕ → ScriptStack
  satoshi_script_stack_init stack size = satoshi_script_stack_resize stack size

  -- The stack, and the number of bytes taken behind the opcode.
  unfoldable pub parse_op_push_data : ScriptStack → ℕ → List ℕ → Outcome (ScriptStack × ℕ)
  parse_op_push_data stack op_code p = do
    assert (leb op_code 0x4e)
    (data_size, q) ← push_data_size op_code p
    reject_if (ltb (length q) data_size)
    sdata ← satoshi_script_data_new pointer (some q) data_size
    ok (script_stack_push stack sdata, length p - length q + data_size)

unfoldable pub script_stack_pop : ScriptStack → Option ScriptData × ScriptStack
script_stack_pop stack =
    if stack.count == 0
    then (none, stack)
    else (let last = stack.count - 1 in
        (
          get_or stack.items last none,
          record stack { items = set stack.items last none; count = last },
        ))

unfoldable pub satoshi_script_stack_cleanup : ScriptStack → ScriptStack
satoshi_script_stack_cleanup stack = record { max_size = 0; count = 0; items = [] }

-- The code that pushes a stored string, for no buffer given. A short string is stored the way that it
-- is pushed. The size of the buffer is a sum of 32 bits; what is written past it is outside.
unfoldable pub satoshi_script_pushdata_code_from_varstr : List ℕ → Outcome (List ℕ)
satoshi_script_pushdata_code_from_varstr vscripts = do
  value ← varint_get vscripts
  let count = value % 2 ^ 32
  let room = (count + 5) % 2 ^ 32
  if ltb count 0x4c
      then read (count + 1) vscripts
      else (varstr_getdata_ptr vscripts >>= λ source. read count source >>= λ bs.
          let code : List ℕ =
            if ltb 0xffff count
            then 0x4e ∷ (le_put 4 count ++ bs)
            else if ltb 0xff count
            then 0x4d ∷ (le_put 2 count ++ bs)
            else 0x4c ∷ (le_put 1 count ++ bs) in
          if ltb room (length code) then fault else ok code)
