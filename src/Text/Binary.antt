-- ===== src/Text/Binary.antt =====
-- src/util/strings.h: `bitcount`, `big_endian` and `str_to_uint64`. Where the source joins words by
-- `|` that share no bit, the model adds them.
use dbss.Common.{
  ℕ, zero, suc, ◌+◌, ◌-◌, ◌*◌, ◌/◌, ◌%◌, ◌^◌, ◌<◌, ◌≡◌, [], ◌∷◌, Bytes, ltb, ◌==◌, if◌then◌else◌,
  arith, Bool, false, ◌||◌,
}
use dbss.Text.{read_digits, skip_spaces, reads_whole, Errno, clear, other, or_einval}

-- `while(c) { n += c & 1; c = c >> 1; }`, eight rounds at most.
unfoldable pub byte_bits : ℕ → ℕ → ℕ
byte_bits zero c = 0
byte_bits (suc f) c = let rest = byte_bits f (c / 2) in if c == 0 then 0 else c % 2 + rest

unfoldable pub bitcount : Bytes → ℕ
unfolding byte_bits
bitcount [] = 0
bitcount (c ∷ s) = byte_bits 8 c + bitcount s

unfoldable pub big_endian16 : ℕ → ℕ
big_endian16 v = v / 2 ^ 8 + v * 2 ^ 8 % 2 ^ 16

unfoldable pub big_endian32 : ℕ → ℕ
big_endian32 v =
    v / 2 ^ 24
    + v / 2 ^ 8 / 2 ^ 8 % 2 ^ 8 * 2 ^ 8
    + v / 2 ^ 8 % 2 ^ 8 * 2 ^ 16
    + v * 2 ^ 24 % 2 ^ 32

unfoldable pub big_endian64 : ℕ → ℕ
unfolding big_endian32
big_endian64 v = big_endian32 (v / 2 ^ 32) + big_endian32 (v % 2 ^ 32) * 2 ^ 32

-- `strtoull`: a negative text is negated in 64 bits, and a large one saturates.
unfoldable pub unsigned_value : Bytes → ℕ
unfolding read_digits
unsigned_value [] = 0
unsigned_value (c ∷ s) =
    let v = read_digits 0 s in
    let w = read_digits 0 (c ∷ s) in
    if c == b'-'
    then if ltb v (2 ^ 64) then (2 ^ 64 - v) % 2 ^ 64 else 2 ^ 64 - 1
    else if c == b'+'
    then if ltb v (2 ^ 64) then v else 2 ^ 64 - 1
    else if ltb w (2 ^ 64)
    then w
    else 2 ^ 64 - 1

unfoldable pub str_to_uint64 : Bytes → ℕ
unfolding unsigned_value skip_spaces
str_to_uint64 s = unsigned_value (skip_spaces s)

-- Whether `strtoull` sets ERANGE.
unfoldable pub unsigned_overflows : Bytes → Bool
unfolding read_digits
unsigned_overflows [] = false
unsigned_overflows (c ∷ s) =
    if (c == b'-') || (c == b'+')
    then ltb (2 ^ 64 - 1) (read_digits 0 s)
    else ltb (2 ^ 64 - 1) (read_digits 0 (c ∷ s))

-- What `str_to_uint64` leaves in `errno`.
unfoldable pub uint64_errno : Bytes → Errno → Errno
unfolding reads_whole skip_spaces unsigned_overflows
uint64_errno s e =
    if reads_whole s
    then clear
    else or_einval (if unsigned_overflows (skip_spaces s) then other else e)

big_endian16_twice : (v : ℕ) → v < 2 ^ 16 → big_endian16 (big_endian16 v) ≡ v
unfolding big_endian16
big_endian16_twice v h = omega arith

big_endian32_twice : (v : ℕ) → v < 2 ^ 32 → big_endian32 (big_endian32 v) ≡ v
unfolding big_endian32
big_endian32_twice v h = omega arith
