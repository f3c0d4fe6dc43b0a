-- ===== src/ScriptStack/PushData.antt =====
-- The code that pushes a string, run by the engine.
use bitcoin_clib.Base.{
  ℕ, ◌+◌, ◌-◌, ◌%◌, ◌^◌, ◌≤◌, ◌<◌, ◌≡◌, refl, sym, ap, ◌∙◌, List, [], ◌∷◌, ◌++◌, append_assoc, true,
  false, ltb, leb, ◌==◌, if◌then◌else◌, arith, length, take-append, take_all, drop-append,
  length-append, length-le_put, Option, ok, read, read_enough, load-le_put, le_put, Bool-cases, inl,
  inr, ltb→lt, ltb-false, ge→ltb,
}
use bitcoin_clib.ScriptStack.{
  ScriptStack, script_stack_push, push_data_size, parse_op_push_data,
  satoshi_script_pushdata_code_from_varstr,
}
use bitcoin_clib.ScriptData.{ScriptData}
use bitcoin_clib.ScriptData.Strings.{pushed, satoshi_script_data_new_ptr}
use bitcoin_clib.Varint.{varint_bytes}
use bitcoin_clib.Varstr.Copies.{read_all}
use bitcoin_clib.Varstr.Laws.{varstr_of, varint_get_exact, varstr_getdata_ptr_exact}

-- A size stored in `offset` bytes is read back.
stored_size :
    (op offset n : ℕ) (bs : List ℕ)
    → (if op == 0x4c then 1 else if op == 0x4d then 2 else if op == 0x4e then 4 else 0) ≡ offset
    → 1 ≤ offset
    → n < 256 ^ offset
    → push_data_size op (le_put offset n ++ bs) ≡ ok (n, bs)
unfolding push_data_size
stored_size op offset n bs e pos small =
    let c : (offset == 0) ≡ false = ground (arith, pos) in
    let size = length-le_put offset n in
    let long =
      ge→ltb (length (le_put offset n ++ bs)) offset
        (omega (arith, size, length-append (le_put offset n) bs)) in
    rw (e, c, long)
      (rw (load-le_put offset n bs small, drop-append offset (le_put offset n) bs (sym size)) refl)

-- The code of a string of 0x4c bytes or more.
abbrev code_behind : List ℕ → List ℕ
code_behind d =
    if ltb 0xffff (length d)
    then 0x4e ∷ (le_put 4 (length d) ++ d)
    else if ltb 0xff (length d)
    then 0x4d ∷ (le_put 2 (length d) ++ d)
    else 0x4c ∷ (le_put 1 (length d) ++ d)

length-code_behind : (d : List ℕ) → length (code_behind d) ≤ length d + 5
length-code_behind d = elim (Bool-cases (ltb 0xffff (length d))) [
  | inl c ↦ rw c (omega (arith, length-append (le_put 4 (length d)) d, length-le_put 4 (length d)))
  | inr c ↦ elim (Bool-cases (ltb 0xff (length d))) [
    | inl k ↦
        rw (c, k) (omega (arith, length-append (le_put 2 (length d)) d, length-le_put 2 (length d)))
    | inr k ↦
        rw (c, k) (omega (arith, length-append (le_put 1 (length d)) d, length-le_put 1 (length d)))
  ]
]

code_of :
    (d : List ℕ)
    → length d + 5 < 2 ^ 32
    → satoshi_script_pushdata_code_from_varstr (varstr_of d)
      ≡ (if ltb (length d) 0x4c then read (length d + 1) (varstr_of d) else ok (code_behind d))
unfolding satoshi_script_pushdata_code_from_varstr
code_of d small =
    let whole : length d % 2 ^ 32 ≡ length d = omega (arith, small) in
    let room : (length d + 5) % 2 ^ 32 ≡ length d + 5 = omega (arith, small) in
    let fits : ltb (length d + 5) (length (code_behind d)) ≡ false =
      ge→ltb (length d + 5) (length (code_behind d)) (length-code_behind d) in
    rw
      (
        varint_get_exact d (omega (arith, small)),
        whole,
        room,
        varstr_getdata_ptr_exact d,
        read_all d,
        fits,
      )
      refl

pub short_size : (n : ℕ) (bs : List ℕ) → n < 0x4c → push_data_size n bs ≡ ok (n, bs)
unfolding push_data_size
short_size n bs small = ground (arith, small)

short_code : (d : List ℕ) → length d < 0x4c → read (length d + 1) (varstr_of d) ≡ ok (length d ∷ d)
unfolding varstr_of varint_bytes
short_code d small =
    let c : ltb (length d) 0xFD ≡ true = ground (arith, small) in
    let byte : length d % 256 ≡ length d = omega (arith, small) in
    let stored : List ℕ = length d ∷ d in
    let size : length d + 1 ≡ length stored = omega arith in
    rw (c, byte)
      (read_enough (length d + 1) stored (omega arith)
        ∙ ap ok (take_all (length d + 1) stored size))

module _ (unset : Option ScriptData) where
  pub push_of :
      (stack : ScriptStack) (op : ℕ) (head d after : List ℕ)
      → leb op 0x4e ≡ true
      → push_data_size op (head ++ (d ++ after)) ≡ ok (length d, d ++ after)
      → parse_op_push_data unset stack op ((head ++ d) ++ after)
        ≡ ok (script_stack_push unset stack (pushed d), length (head ++ d))
  unfolding parse_op_push_data
  push_of stack op head d after low e =
      let c : ltb (length (d ++ after)) (length d) ≡ false =
        ge→ltb (length (d ++ after)) (length d) (omega (arith, length-append d after)) in
      let taken : length (head ++ (d ++ after)) - length (d ++ after) + length d
          ≡ length (head ++ d) =
        omega (arith, length-append head (d ++ after), length-append head d) in
      let made = satoshi_script_data_new_ptr (length d) (d ++ after) (ltb-false _ _ c) in
      rw (append_assoc head d after, low, e, c, made, take-append (length d) d after refl, taken)
        refl

  -- For a stored string shorter than 2 ^ 32 - 5 bytes and no buffer given,
  -- satoshi_script_pushdata_code_from_varstr writes an opcode and a body such that
  -- parse_op_push_data of that opcode, on the body and whatever follows it, pushes the string and
  -- takes exactly the body.
  pub parse_op_push_data_lem :
      (stack : ScriptStack) (d after : List ℕ)
      → length d < 2 ^ 32 - 5
      → (op : ℕ) × (body : List ℕ) × (satoshi_script_pushdata_code_from_varstr (varstr_of d)
          ≡ ok (op ∷ body))
        × (parse_op_push_data unset stack op (body ++ after)
            ≡ ok (script_stack_push unset stack (pushed d), length body))
  parse_op_push_data_lem stack d after small =
      let n = length d in
      let code = code_of d (omega (arith, small)) in
      elim (Bool-cases (ltb n 0x4c)) [
        | inl c1 ↦ (
          n,
          d,
          rw c1 at code ∙ short_code d (ltb→lt n 0x4c c1),
          push_of stack n [] d after (ground (arith, ltb→lt n 0x4c c1))
              (short_size n (d ++ after) (ltb→lt n 0x4c c1)),
        )
        | inr c1 ↦ elim (Bool-cases (ltb 0xffff n)) [
          | inl c2 ↦ (
            0x4e,
            le_put 4 n ++ d,
            rw (c1, c2) at code,
            push_of stack 0x4e (le_put 4 n) d after refl
                (stored_size 0x4e 4 n (d ++ after) refl (omega arith) (omega (arith, small))),
          )
          | inr c2 ↦ elim (Bool-cases (ltb 0xff n)) [
            | inl c3 ↦ (
              0x4d,
              le_put 2 n ++ d,
              rw (c1, c2, c3) at code,
              push_of stack 0x4d (le_put 2 n) d after refl (
                  stored_size 0x4d 2 n (d ++ after) refl (omega arith)
                    (omega (arith, ltb-false 0xffff n c2))),
            )
            | inr c3 ↦ (
              0x4c,
              le_put 1 n ++ d,
              rw (c1, c2, c3) at code,
              push_of stack 0x4c (le_put 1 n) d after refl (
                  stored_size 0x4c 1 n (d ++ after) refl (omega arith)
                    (omega (arith, ltb-false 0xff n c3))),
            )
          ]
        ]
      ]
