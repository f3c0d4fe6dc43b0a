-- ===== src/Varint/Codec.antt =====
-- What the varint group promises: reading back what was written, and the width that is used.
use bitcoin_clib.Base.{
  load-le_put, load-eq-ok, load-lt, take-le_put, load, ℕ, zero, suc, ◌%◌, ◌^◌, ◌≤◌, ◌<◌, ◌≡◌, ◌↔◌,
  refl, List, [], ◌∷◌, ◌++◌, arith, length, drop, take, sym, ap, drop-append, All, replicate,
  length-replicate, ok, fault, ◌>>=◌, IsByte, length-le_put, le_put-IsByte, read, write, append-nil,
}
use bitcoin_clib.Varint.{
  IsU64, varint_calc_size, varint_bytes, varint_set_data, varint_new, varint_set, varint_width,
  varint_size, varint_get,
}

pub length-varint_bytes : (v : ℕ) → length (varint_bytes v) ≡ varint_calc_size v
unfolding varint_bytes varint_calc_size
length-varint_bytes v =
    ground (arith, length-le_put 2 (v % 2 ^ 16), length-le_put 4 (v % 2 ^ 32), length-le_put 8 v)

pub varint_calc_size_bounds : (v : ℕ) → (1 ≤ varint_calc_size v) × (varint_calc_size v ≤ 9)
unfolding varint_calc_size
varint_calc_size_bounds v = ground arith

pub varint_bytes-IsByte : (v : ℕ) → All IsByte (varint_bytes v)
unfolding varint_bytes
varint_bytes-IsByte v =
    ground (arith, le_put-IsByte 2 (v % 2 ^ 16), le_put-IsByte 4 (v % 2 ^ 32), le_put-IsByte 8 v)

-- `varint_get` reads back a written number, whatever bytes follow it.
pub varint_get-varint_bytes :
    (v : ℕ) (rest : List ℕ) → IsU64 v → varint_get (varint_bytes v ++ rest) ≡ ok v
unfolding varint_bytes varint_get
varint_get-varint_bytes v rest h = ground (
  arith,
  load-le_put 2 (v % 2 ^ 16) rest (omega arith),
  load-le_put 4 (v % 2 ^ 32) rest (omega arith),
  load-le_put 8 v rest (omega arith),
)

pub varint_size-varint_bytes :
    (v : ℕ) (rest : List ℕ) → varint_size (varint_bytes v ++ rest) ≡ ok (varint_calc_size v)
unfolding varint_bytes varint_size varint_calc_size
varint_size-varint_bytes v rest = ground arith

write_fits : (bs xs : List ℕ) → length bs ≤ length xs → write bs xs ≡ ok (bs ++ drop (length bs) xs)
unfolding write
write_fits bs xs h = ground arith

write_short : (bs xs : List ℕ) → length xs < length bs → write bs xs ≡ fault
unfolding write
write_short bs xs h = ground arith

pub varint_set_lem :
    (vint : List ℕ) (v : ℕ)
    → varint_calc_size v ≤ length vint
    → varint_set vint v ≡ ok (varint_bytes v ++ drop (varint_calc_size v) vint)
unfolding varint_set varint_set_data
varint_set_lem vint v h =
    rw (← length-varint_bytes v)
      (write_fits (varint_bytes v) vint (omega (arith, length-varint_bytes v)))

drop_all : (n : ℕ) (xs : List ℕ) → length xs ≡ n → drop n xs ≡ []
drop_all zero [] h = refl
drop_all zero (x ∷ xs) h = absurd (omega arith)
drop_all (suc n) [] h = refl
drop_all (suc n) (x ∷ xs) h = drop_all n xs (omega arith)

pub varint_new_lem : (v : ℕ) → varint_new v ≡ ok (varint_bytes v)
unfolding varint_new varint_set_data
varint_new_lem v =
    let room : List ℕ = replicate (varint_calc_size v) 0 in
    ground (
      arith,
      write_fits (varint_bytes v) room,
      length-varint_bytes v,
      length-replicate {A = ℕ} (varint_calc_size v) 0,
      drop_all (length (varint_bytes v)) room,
      append-nil (varint_bytes v),
    )

-- For a 64-bit value and an object with room for it, varint_set stores a number that varint_get
-- reads back as the value and varint_size measures as varint_calc_size does, and leaves the bytes
-- behind it as they were.
pub varint_get-varint_set :
    (vint : List ℕ) (v : ℕ)
    → IsU64 v
    → varint_calc_size v ≤ length vint
    → ((varint_set vint v >>= varint_get) ≡ ok v)
      × ((varint_set vint v >>= varint_size) ≡ ok (varint_calc_size v))
      × ((varint_set vint v >>= λ m. ok (drop (varint_calc_size v) m))
          ≡ ok (drop (varint_calc_size v) vint))
varint_get-varint_set vint v h room = rw (varint_set_lem vint v room) (
  varint_get-varint_bytes v _ h,
  varint_size-varint_bytes v _,
  ap ok (drop-append _ (varint_bytes v) _ (sym (length-varint_bytes v))),
)

-- Without room it writes past the end of the object.
varint_set_short :
    (vint : List ℕ) (v : ℕ) → length vint < varint_calc_size v → varint_set vint v ≡ fault
unfolding varint_set varint_set_data
varint_set_short vint v short =
    write_short (varint_bytes v) vint (omega (arith, length-varint_bytes v))

-- A number that varint_get reads from a string of bytes fits 64 bits; varint_size succeeds there
-- with a width that is at least varint_calc_size of the number and at most the length of the
-- string.
pub varint_get_sound :
    (vch : List ℕ) (v : ℕ)
    → All IsByte vch
    → varint_get vch ≡ ok v
    → IsU64 v × (n : ℕ) × (varint_size vch ≡ ok n) × (varint_calc_size v ≤ n) × (n ≤ length vch)
unfolding varint_get varint_size varint_calc_size
varint_get_sound [] v hb h = cc
varint_get_sound (b ∷ vch) v hb h = (
  ground (arith, hb.0, load-lt 2 vch v hb.1, load-lt 4 vch v hb.1, load-lt 8 vch v hb.1),
  varint_width b,
  refl,
  ground (arith, hb.0, load-lt 2 vch v hb.1, load-lt 4 vch v hb.1, load-lt 8 vch v hb.1),
  ground (arith, hb.0, load-eq-ok 2 vch v, load-eq-ok 4 vch v, load-eq-ok 8 vch v),
)

-- A number read from memory in the width that `varint_calc_size` gives for it is stored there in the
-- very bytes that `varint_set_data` writes.
pub varint_get_canonical :
    (vch : List ℕ) (v : ℕ)
    → All IsByte vch
    → varint_get vch ≡ ok v
    → varint_size vch ≡ ok (varint_calc_size v)
    → take (varint_calc_size v) vch ≡ varint_bytes v
unfolding varint_get varint_size varint_calc_size varint_bytes
varint_get_canonical [] v hb h k = cc
varint_get_canonical (b ∷ vch) v hb h k = ground (
  arith,
  hb.0,
  load-eq-ok 2 vch v,
  load-lt 2 vch v hb.1,
  take-le_put 2 vch hb.1,
  load-eq-ok 4 vch v,
  load-lt 4 vch v hb.1,
  take-le_put 4 vch hb.1,
  load-eq-ok 8 vch v,
  load-lt 8 vch v hb.1,
  take-le_put 8 vch hb.1,
)

-- On an object with a first byte, varint_get reads past its end exactly when the object is
-- shorter than the width that this byte announces.
pub varint_get_fault :
    (b : ℕ) (vch : List ℕ)
    → IsByte b
    → (varint_get (b ∷ vch) ≡ fault) ↔ (length (b ∷ vch) < varint_width b)
unfolding varint_get varint_width load read
varint_get_fault b vch hb = ground arith
