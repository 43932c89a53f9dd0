-- ===== src/Buffer/Decode.antt =====
-- src/util/bytes.h: `Decoder`. Its bytes are the list behind `p`; the lengths handed to `skip` are
-- not negative, and integers are read in the byte order of a little-endian machine.
use dbss.Common.{
  ℕ, ◌+◌, ◌*◌, ◌≡◌, refl, Option, none, some, [], ◌∷◌, ◌++◌, ltb, if◌then◌else◌, Bytes, length,
  take, drop, arith, take-length, drop-length, ge→ltb, length-append,
}
use dbss.Text.{ℤ, of_word}

-- The value of bytes in little-endian order.
unfoldable pub word_of : Bytes → ℕ
word_of [] = 0
word_of (c ∷ s) = c + 256 * word_of s

-- -1 (`none`), or the number of bytes that were passed; then the bytes that are left.
unfoldable pub skip : ℕ → Bytes → Option ℕ × Bytes
skip n p = if ltb (length p) n then (none, p) else (some n, drop n p)

-- The readers write `*ret` too.
unfoldable pub read_uint64 : Bytes → Option ℕ × Option ℕ × Bytes
unfolding word_of
read_uint64 p =
    if ltb (length p) 8 then (none, none, p) else (some 8, some (word_of (take 8 p)), drop 8 p)

unfoldable pub read_int64 : Bytes → Option ℕ × Option ℤ × Bytes
unfolding word_of
read_int64 p =
    if ltb (length p) 8
    then (none, none, p)
    else (some 8, some (of_word 64 (word_of (take 8 p))), drop 8 p)

unfoldable pub read_data : Bytes → Option ℕ × Option Bytes × Bytes
read_data p = (some (length p), some p, [])

-- A length in one byte, and the bytes. The length is consumed also where the bytes are missing.
unfoldable pub read_8_data : Bytes → Option ℕ × Option Bytes × Bytes
read_8_data [] = (none, none, [])
read_8_data (len ∷ p) =
    if ltb (length p) len then (none, none, p) else (some (1 + len), some (take len p), drop len p)

-- A text of fewer than 256 bytes behind its length is read back, and the bytes behind it are left.
pub read_8_data-append :
    (s rest : Bytes) → read_8_data (length s ∷ s ++ rest) ≡ (some (1 + length s), some s, rest)
unfolding read_8_data
read_8_data-append s rest =
    rw
      (
        ge→ltb (length (s ++ rest)) (length s) (omega (arith, length-append s rest)),
        take-length s rest,
        drop-length s rest,
      )
      refl
