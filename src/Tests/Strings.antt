-- ===== src/Tests/Strings.antt =====
-- Variable-length numbers and strings.
use bitcoin_clib.Base.{
  ℕ, ◌≤◌, ◌≡◌, refl, List, [], ◌∷◌, arith, length, drop, replicate, some, ok, load, read, le_get,
  ◌>>=◌,
}
use bitcoin_clib.Varint.{IsU64, varint_calc_size, varint_set, varint_size, varint_get, varint_width}
use bitcoin_clib.Varint.Codec.{varint_get-varint_set, varint_get_sound}
use bitcoin_clib.Varstr.{varstr_size, varstr_clone}

abbrev room : List ℕ
room = replicate 9 7

calc_size_of_300 : varint_calc_size 300 ≡ 3
unfolding varint_calc_size
calc_size_of_300 = refl

varint_get-varint_set_example :
    ((varint_set room 300 >>= varint_get) ≡ ok 300)
    × ((varint_set room 300 >>= varint_size) ≡ ok (varint_calc_size 300))
    × ((varint_set room 300 >>= λ m. ok (drop (varint_calc_size 300) m))
        ≡ ok (drop (varint_calc_size 300) room))
varint_get-varint_set_example =
    varint_get-varint_set room 300 (omega arith) (omega (arith, calc_size_of_300))

abbrev memory : List ℕ
memory = 0xFD ∷ 44 ∷ 1 ∷ 5 ∷ []

memory_read : varint_get memory ≡ ok 300
unfolding varint_get load read le_get
memory_read = refl

memory_size : varint_size memory ≡ ok (varint_calc_size 300)
unfolding varint_size varint_width varint_calc_size
memory_size = refl

varint_get_sound_example :
    IsU64 300
    × (n : ℕ) × (varint_size memory ≡ ok n)
    × (varint_calc_size 300 ≤ n)
    × (n ≤ length memory)
varint_get_sound_example =
    varint_get_sound memory 300 (omega arith, (omega arith, (omega arith, (omega arith, tt))))
      memory_read

clone_run : varstr_clone (some (2 ∷ 104 ∷ 105 ∷ 9 ∷ [])) ≡ ok (some (2 ∷ 104 ∷ 105 ∷ []))
unfolding varstr_clone varstr_size varint_size varint_width varint_get read
clone_run = refl
