-- ===== src/AutoBuffer/Queue.antt =====
-- The buffer as a queue of bytes.
use bitcoin_clib.Base.{
  ℕ, ◌+◌, ◌-◌, ◌%◌, ◌^◌, ◌≤◌, ◌≡◌, refl, sym, ap, ◌∙◌, List, [], ◌++◌, Bool, true, false, ◌||◌, ltb,
  leb, ◌==◌, if◌then◌else◌, arith, length, take, drop, drop_prefix, take-take, take_prefix,
  length-take, length-drop, length-append, length-replicate, replicate, none, some, ok, read_enough,
  Bool-cases, inl, inr, leb-false, leb→le,
}
use bitcoin_clib.Varstr.Copies.{write_at-append}
use bitcoin_clib.AutoBuffer.{
  AutoBuffer, alloc_size, auto_buffer_resize, auto_buffer_push, auto_buffer_pop,
}
use bitcoin_clib.AutoBuffer.Stored.{contents_stored, length_stored, write_at_fits, contents_left}

-- The bytes in use.
unfoldable pub contents : AutoBuffer → List ℕ
contents buf = take buf.used (drop buf.start_pos buf.bytes)

-- The allocation has `size` bytes and the bytes in use lie in it.
unfoldable pub IsWellFormed : AutoBuffer → Type 0
IsWellFormed buf = (length buf.bytes ≡ buf.size) × (buf.start_pos + buf.used ≤ buf.size)

-- A wish that does not come near the end of the address space gets at least what it asks for.
alloc_size_enough : (n : ℕ) → n ≤ 2 ^ 64 - 4096 → n ≤ alloc_size n
unfolding alloc_size
alloc_size_enough n h = ground arith

module _ (realloc : ℕ → Bool) (unset : ℕ) where
  auto_buffer_resize_lem :
      (buf : AutoBuffer) (wish : ℕ)
      → IsWellFormed buf
      → wish ≤ 2 ^ 64 - 4096
      → realloc (alloc_size wish) ≡ true
      → (r : AutoBuffer) × (auto_buffer_resize realloc unset buf wish ≡ ok r)
        × IsWellFormed r
        × (wish ≤ r.size)
        × (r.start_pos ≡ buf.start_pos)
        × (r.used ≡ buf.used)
        × (contents r ≡ contents buf)
  unfolding auto_buffer_resize contents IsWellFormed
  auto_buffer_resize_lem buf wish (full, inside) small granted =
      elim (Bool-cases (leb (alloc_size wish) buf.size)) [
        | inl e ↦ (
          buf,
          rw e refl,
          (full, inside),
          omega (arith, leb→le _ _ e, alloc_size_enough wish small),
          refl,
          refl,
          refl,
        )
        | inr e ↦
            let more = replicate (alloc_size wish - buf.size) unset in
            let bigger = leb-false _ _ e in
            (
              record buf { bytes = buf.bytes ++ more; size = alloc_size wish },
              rw (e, granted) refl,
              (
                omega (
                  arith,
                  bigger,
                  full,
                  length-append buf.bytes more,
                  length-replicate (alloc_size wish - buf.size) unset,
                ),
                omega (arith, bigger, inside),
              ),
              alloc_size_enough wish small,
              refl,
              refl,
              ap (take buf.used)
                    (drop_prefix buf.start_pos buf.bytes more (omega (arith, full, inside)))
                  ∙ take_prefix buf.used (drop buf.start_pos buf.bytes) more
                      (omega (arith, full, inside, length-drop buf.start_pos buf.bytes)),
            )
      ]

  -- On a well-formed buffer (an allocation of its size with the bytes in use inside)
  -- auto_buffer_push of between 1 and length-of-the-source bytes, where positions stay 4096 below
  -- 2 ^ 64 and memory is granted, succeeds, appends these bytes to those in use and leaves a
  -- well-formed buffer.
  pub auto_buffer_push_lem :
      (buf : AutoBuffer) (source : List ℕ) (count : ℕ)
      → IsWellFormed buf
      → 1 ≤ count
      → count ≤ length source
      → buf.start_pos + buf.used + count ≤ 2 ^ 64 - 4096
      → realloc (alloc_size (buf.start_pos + buf.used + count)) ≡ true
      → (u : AutoBuffer) × (auto_buffer_push realloc unset buf (some source) count ≡ ok u)
        × IsWellFormed u
        × (contents u ≡ contents buf ++ take count source)
  unfolding auto_buffer_push contents IsWellFormed
  auto_buffer_push_lem buf source count wf some_bytes enough small granted =
      let total = buf.start_pos + buf.used + count in
      let c1 : (count == 2 ^ 64 - 1) ≡ false = ground (arith, small) in
      let c2 : (count == 0) ≡ false = ground (arith, some_bytes) in
      let whole : total % 2 ^ 64 ≡ total = omega (arith, small) in
      let c3 : ltb total count ≡ false = ground arith in
      let (r, grown, (full, inside), room, start, used, kept) =
        auto_buffer_resize_lem buf total wf small granted in
      let bs = take count source in
      let size : length bs ≡ count = length-take count source enough in
      let stored =
        write_at_fits (r.start_pos + r.used) bs r.bytes
          (omega (arith, size, full, room, start, used)) in
      let rest = drop (length bs) (drop (r.start_pos + r.used) r.bytes) in
      (
        record r {
          bytes = take (r.start_pos + r.used) r.bytes ++ (bs ++ rest);
          used = r.used + count;
        },
        rw (c1, c2, whole, c3, grown, read_enough count source enough, stored) refl,
        (
          length_stored (r.start_pos + r.used) bs r.bytes
                (omega (arith, size, full, room, start, used))
              ∙ full,
          omega (arith, room, start, used),
        ),
        contents_stored r.start_pos r.used count r.bytes bs rest (omega (arith, full, inside)) size
            ∙ ap (λ l. l ++ bs) kept,
      )

-- On a well-formed buffer auto_buffer_pop into a new object takes the first bytes in use, as many
-- as asked for and no more than there are, and all for 0; the others stay in use and the buffer
-- is well formed.
pub auto_buffer_pop_lem :
    (buf : AutoBuffer) (n : ℕ)
    → IsWellFormed buf
    → (u : AutoBuffer) × (k : ℕ) × (auto_buffer_pop buf none n ≡ ok (k, take k (contents buf), u))
      × (k ≡ (if (n == 0) || ltb buf.used n then buf.used else n))
      × IsWellFormed u
      × (contents u ≡ drop k (contents buf))
unfolding auto_buffer_pop contents IsWellFormed
auto_buffer_pop_lem buf n (full, inside) =
    let wanted : ℕ = if n == 0 then buf.used else n in
    let k : ℕ = if ltb buf.used wanted then buf.used else wanted in
    let few : k ≤ buf.used = ground arith in
    let got =
      read_enough k (drop buf.start_pos buf.bytes)
        (omega (arith, few, full, inside, length-drop buf.start_pos buf.bytes)) in
    let bs = take k (drop buf.start_pos buf.bytes) in
    let size : length bs ≡ k =
      length-take k (drop buf.start_pos buf.bytes)
        (omega (arith, few, full, inside, length-drop buf.start_pos buf.bytes)) in
    let stored =
      write_at-append 0 bs [] (replicate k 0) refl (size ∙ sym (length-replicate {A = ℕ} k 0)) in
    let left : ℕ = buf.used - k in
    let same : bs ≡ take k (take buf.used (drop buf.start_pos buf.bytes)) =
      sym (take-take k buf.used (drop buf.start_pos buf.bytes) few) in
    (
      record buf { start_pos = if left == 0 then 0 else buf.start_pos + k; used = left },
      k,
      rw (got, stored, same) refl,
      ground arith,
      (full, ground (arith, inside, few)),
      contents_left buf.start_pos buf.used k left buf.bytes (omega (arith, few)),
    )
