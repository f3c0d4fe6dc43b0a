-- ===== src/AutoBuffer.antt =====
-- utils/auto_buffer.c: a growing byte queue in one allocation. `bytes` is
-- the whole allocation at `data`, of `size` bytes, empty for NULL; the bytes in use are `used` (the
-- field `length`) from `start_pos` on. A size is a
-- `size_t`, with its wrap-around.
pub mod Stored
pub mod Queue
use bitcoin_clib.Base.{
  ℕ, zero, suc, ◌+◌, ◌-◌, ◌*◌, ◌/◌, ◌%◌, ◌^◌, ◌≤◌, ◌<◌, List, [], ◌∷◌, ◌++◌, Bool, true, false,
  ◌||◌, ltb, leb, ◌==◌, if◌then◌else◌, length, take, drop, replicate, Option, none, some, Outcome,
  ok, err, abort, fault, ◌>>=◌, ◌>>◌, reject_if, assert, read,
}
use bitcoin_clib.Varstr.{write_at}

pub record AutoBuffer : Type 0 where
  pub size : ℕ
  pub used : ℕ
  pub start_pos : ℕ
  pub bytes : List ℕ

abbrev pub auto_buffer_zero : AutoBuffer
auto_buffer_zero = record { size = 0; used = 0; start_pos = 0; bytes = [] }

-- The size that is allocated for a wish: whole pages of 4096 bytes, one for 0 and for -1.
unfoldable pub alloc_size : ℕ → ℕ
alloc_size size =
    if (size == 2 ^ 64 - 1) || (size == 0) then 4096 else (size + 4096 - 1) % 2 ^ 64 / 4096 * 4096

-- `strlen`: the bytes in front of the first zero.
unfoldable pub strlen : List ℕ → Outcome ℕ
strlen [] = fault
strlen (b ∷ bs) = let rest = strlen bs in if b == 0 then ok 0 else (rest >>= λ n. ok (suc n))

-- `realloc n` says whether there is memory for `n` bytes; `unset` is what a new byte holds.
module _ (realloc : ℕ → Bool) (unset : ℕ) where
  unfoldable pub auto_buffer_resize : AutoBuffer → ℕ → Outcome AutoBuffer
  auto_buffer_resize buf wish =
      let new_size = alloc_size wish in
      if leb new_size buf.size
      then ok buf
      else (assert (realloc new_size)
          >> ok (record buf {
            bytes = buf.bytes ++ replicate (new_size - buf.size) unset;
            size = new_size;
          }))

  unfoldable pub auto_buffer_init : ℕ → Outcome AutoBuffer
  auto_buffer_init size = auto_buffer_resize auto_buffer_zero size

  -- The source is NULL or the bytes up to its object's end; a `count` of -1 asks for `strlen`.
  unfoldable pub auto_buffer_push : AutoBuffer → Option (List ℕ) → ℕ → Outcome AutoBuffer
  auto_buffer_push buf none count = ok buf
  auto_buffer_push buf (some source) count = do
    n ← (if count == 2 ^ 64 - 1 then strlen source else ok count)
    if n == 0
        then ok buf
        else (let minimal_buf_size = (buf.start_pos + buf.used + n) % 2 ^ 64 in
            reject_if (ltb minimal_buf_size n)
            >> (auto_buffer_resize buf minimal_buf_size >>= λ r. read n source >>= λ bs.
                write_at (r.start_pos + r.used) bs r.bytes >>= λ stored.
                ok (record r { bytes = stored; used = r.used + n })))

unfoldable pub auto_buffer_cleanup : AutoBuffer → AutoBuffer
auto_buffer_cleanup buf = auto_buffer_zero

-- The number of bytes, the bytes that the destination then holds, and the buffer. `dest` is the
-- object at `*p_data`, `none` for NULL, where an object of the right size is allocated.
unfoldable pub auto_buffer_pop :
    AutoBuffer → Option (List ℕ) → ℕ → Outcome (ℕ × List ℕ × AutoBuffer)
auto_buffer_pop buf dest data_size =
    let wanted = if data_size == 0 then buf.used else data_size in
    let count = if ltb buf.used wanted then buf.used else wanted in
    let target : List ℕ = elim dest [ none ↦ replicate count 0 | some d ↦ d ] in
    read count (drop buf.start_pos buf.bytes) >>= λ bs. write_at 0 bs target >>= λ out.
    let left = buf.used - count in
    ok (
      count,
      out,
      record buf { start_pos = if left == 0 then 0 else buf.start_pos + count; used = left },
    )

-- With `p_data == NULL`.
unfoldable pub auto_buffer_needed : AutoBuffer → ℕ
auto_buffer_needed buf = buf.used

-- The bytes from the returned pointer to the end of the allocation; NULL without an allocation.
unfoldable pub auto_buffer_get_data : AutoBuffer → Option (List ℕ)
auto_buffer_get_data buf = if buf.size == 0 then none else some (drop buf.start_pos buf.bytes)
