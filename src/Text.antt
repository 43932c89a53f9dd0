-- ===== src/Text.antt =====
-- src/util/strings.h: the conversions between numbers and their decimal texts, and `strtolower`.
-- The other helpers of the file are in the modules below this one. Bytes are numbers below 256. The
-- C library's part is modelled on the inputs that the program hands it: `snprintf` of `%d`,
-- `PRId64` and `PRIu64`, `strtoll`, `atoi` and `tolower` (in the C locale).
pub mod Decimal
pub mod Lines
pub mod Escape
pub mod Trim
pub mod Slices
pub mod Binary
pub mod Dump
use dbss.Common.{
  ℕ, zero, suc, ◌+◌, ◌-◌, ◌*◌, ◌/◌, ◌%◌, ◌^◌, Bool, true, false, not, ◌&&◌, ◌||◌, Option, none,
  some, List, [], ◌∷◌, ◌++◌, map, arith, ltb, leb, ◌==◌, if◌then◌else◌, Bytes, codes, length,
}

-- `negsuc n` is -(n + 1).
pub data ℤ : Type 0 where
  pos : ℕ → ℤ
  negsuc : ℕ → ℤ

abbrev pub is_digit : ℕ → Bool
is_digit c = leb b'0' c && leb c b'9'

-- `isspace` of the C locale.
abbrev pub is_space : ℕ → Bool
is_space c = (c == 32) || (leb 9 c && leb c 13)

-- `c_str()` as the C library reads it: the bytes before the first zero.
unfoldable pub c_str : Bytes → Bytes
c_str [] = []
c_str (c ∷ s) = let rest = c_str s in if c == 0 then [] else c ∷ rest

-- The decimal digits of `n`; more rounds than digits are enough.
unfoldable pub print_nat : ℕ → ℕ → Bytes
print_nat zero n = []
print_nat (suc f) n =
    let more = print_nat f (n / 10) ++ (b'0' + n % 10) ∷ [] in
    if ltb n 10 then (b'0' + n) ∷ [] else more

-- `str(uint64_t)`, and `str(int)` of a value that is not negative.
unfoldable pub str_nat : ℕ → Bytes
unfolding print_nat
str_nat n = print_nat (suc n) n

-- `str(int64_t)` and `str(int)`.
unfoldable pub str_int : ℤ → Bytes
unfolding str_nat
str_int (pos n) = str_nat n
str_int (negsuc n) = b'-' ∷ str_nat (suc n)

-- The value of the leading digits, behind `acc`.
unfoldable pub read_digits : ℕ → Bytes → ℕ
read_digits acc [] = acc
read_digits acc (c ∷ s) =
    let more = read_digits (acc * 10 + (c - b'0')) s in if is_digit c then more else acc

-- `atoi` on a text that starts with a digit and has at most 18 bytes: `strtol` gives the value of
-- the leading digits, and the conversion to `int` keeps its low 32 bits. `none` is a negative
-- result.
unfoldable pub atoi : Bytes → Option ℕ
unfolding read_digits
atoi s = let v = read_digits 0 s % 2 ^ 32 in if ltb v (2 ^ 31) then some v else none

unfoldable pub skip_spaces : Bytes → Bytes
skip_spaces [] = []
skip_spaces (c ∷ s) = let more = skip_spaces s in if is_space c then more else c ∷ s

-- The saturation of `strtoll`.
unfoldable pub saturate_pos : ℕ → ℤ
saturate_pos n = if ltb n (2 ^ 63) then pos n else pos (2 ^ 63 - 1)

unfoldable pub saturate_neg : ℕ → ℤ
saturate_neg n =
    if n == 0 then pos 0 else if ltb (2 ^ 63) n then negsuc (2 ^ 63 - 1) else negsuc (n - 1)

unfoldable pub signed_value : Bytes → ℤ
unfolding read_digits saturate_pos saturate_neg
signed_value [] = pos 0
signed_value (c ∷ s) =
    if c == b'-'
    then saturate_neg (read_digits 0 s)
    else if c == b'+'
    then saturate_pos (read_digits 0 s)
    else saturate_pos (read_digits 0 (c ∷ s))

-- The result of `str_to_int64`: `strtoll` in base 10. A text with no digits gives 0.
unfoldable pub str_to_int64 : Bytes → ℤ
unfolding signed_value skip_spaces
str_to_int64 s = signed_value (skip_spaces s)

-- Whether `strtoll` in base 10 stops at the end of the text. With no digits it stops at the start.
unfoldable pub all_digits : Bytes → Bool
all_digits [] = true
all_digits (c ∷ s) = is_digit c && all_digits s

unfoldable pub digits_to_end : Bytes → Bool
unfolding all_digits
digits_to_end [] = false
digits_to_end (c ∷ s) = all_digits (c ∷ s)

unfoldable pub number_to_end : Bytes → Bool
unfolding digits_to_end
number_to_end [] = false
number_to_end (c ∷ s) =
    if (c == b'-') || (c == b'+') then digits_to_end s else digits_to_end (c ∷ s)

unfoldable pub reads_whole : Bytes → Bool
unfolding number_to_end skip_spaces
reads_whole [] = true
reads_whole (c ∷ s) = number_to_end (skip_spaces (c ∷ s))

-- Whether the digits at the start of the text are beyond the range of `strtoll`.
unfoldable pub signed_overflows : Bytes → Bool
unfolding read_digits
signed_overflows [] = false
signed_overflows (c ∷ s) =
    if c == b'-'
    then ltb (2 ^ 63) (read_digits 0 s)
    else if c == b'+'
    then ltb (2 ^ 63 - 1) (read_digits 0 s)
    else ltb (2 ^ 63 - 1) (read_digits 0 (c ∷ s))

unfoldable pub overflows : Bytes → Bool
unfolding signed_overflows skip_spaces
overflows s = signed_overflows (skip_spaces s)

-- `errno`, as far as the program looks at it; `other` is ERANGE, or the error of a system call.
pub data Errno : Type 0 where
  clear einval other : Errno

-- What `strtol` and `strtoll` in base 10 leave in `errno`: ERANGE at an overflow, and else what was
-- there.
unfoldable pub strtol_errno : Bytes → Errno → Errno
unfolding overflows
strtol_errno s e = if overflows s then other else e

-- `if(errno == 0) errno = EINVAL`.
abbrev pub or_einval : Errno → Errno
or_einval clear = einval
or_einval einval = einval
or_einval other = other

-- What `str_to_int` and `str_to_int64` leave in `errno`.
unfoldable pub errno_after : Bytes → Errno → Errno
unfolding reads_whole strtol_errno
errno_after s e = if reads_whole s then clear else or_einval (strtol_errno s e)

-- The bit pattern of an integer in `w` bits, and the signed value of a pattern.
abbrev pub to_word : ℕ → ℤ → ℕ
to_word w (pos n) = n % 2 ^ w
to_word w (negsuc n) = 2 ^ w - 1 - n % 2 ^ w

abbrev pub of_word : ℕ → ℕ → ℤ
of_word w p = if ltb p (2 ^ (w - 1)) then pos p else negsuc (2 ^ w - 1 - p)

-- The result of `str_to_int`: the value of `strtol`, cut to 32 bits.
unfoldable pub str_to_int : Bytes → ℤ
unfolding str_to_int64
str_to_int s = of_word 32 (to_word 32 (str_to_int64 s))

-- `v + 1` and `v - 1` in an `int`.
unfoldable pub int_suc : ℤ → ℤ
int_suc v = of_word 32 ((to_word 32 v + 1) % 2 ^ 32)

unfoldable pub int_pred : ℤ → ℤ
int_pred v = of_word 32 ((to_word 32 v + (2 ^ 32 - 1)) % 2 ^ 32)

abbrev is_upper : ℕ → Bool
is_upper c = leb b'A' c && leb c b'Z'

unfoldable pub lower : ℕ → ℕ
lower c = if is_upper c then c + 32 else c

unfoldable pub strtolower : Bytes → Bytes
unfolding lower
strtolower s = map lower s

-- `memchr(head, '\n', size)`: the bytes before the first newline, and those behind it.
unfoldable pub split_line : Bytes → Option (Bytes × Bytes)
split_line [] = none
split_line (c ∷ s) =
    let later : Option (Bytes × Bytes) = elim (split_line s) [
      | none ↦ none
      | some (line, rest) ↦ some (c ∷ line, rest)
    ] in
    if c == b'\n' then some ([], s) else later
