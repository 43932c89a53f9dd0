-- ===== src/Redis/Request/Wire.antt =====
-- The wire format of Redis requests, and its lines.
use dbss.Common.{
  ℕ, ◌^◌, ◌%◌, ◌<◌, ◌≡◌, refl, sym, ap, ◌∙◌, false, Option, none, some, List, [], ◌∷◌, ◌++◌, Bytes,
  All, length, ◌==◌, arith, ◌-◌, ltb, ge→ltb, true,
}
use dbss.Text.{
  ℤ, pos, negsuc, of_word, to_word, str_nat, read_digits, skip_spaces, signed_value, str_to_int64,
  str_to_int, split_line, saturate_pos, overflows, signed_overflows, strtol_errno, Errno, is_digit,
}
use dbss.Text.Decimal.{
  str_nat_cons, read_digits-str_nat, str_nat-IsDigit, IsDigit, signed_value-digit,
  saturate_pos_small,
}
use dbss.Redis.Request.{length_field}

abbrev pub crlf : Bytes → Bytes
crlf t = b'\r' ∷ b'\n' ∷ t

-- A line with a mark and a number, before `t`.
abbrev pub header : ℕ → ℕ → Bytes → Bytes
header c n t = c ∷ (str_nat n ++ crlf t)

unfoldable pub args_bytes : List Bytes → Bytes → Bytes
args_bytes [] rest = rest
args_bytes (s ∷ ss) rest = header b'$' (length s) (s ++ crlf (args_bytes ss rest))

-- The request with the arguments, before other bytes.
unfoldable pub req_bytes : List Bytes → Bytes → Bytes
unfolding args_bytes
req_bytes ss rest = header b'*' (length ss) (args_bytes ss rest)

split_line-crlf :
    (line t : Bytes) → All IsDigit line → split_line (line ++ crlf t) ≡ some (line ++ b'\r' ∷ [], t)
unfolding split_line
split_line-crlf [] t h = refl
split_line-crlf (c ∷ line) t h = rw (split_line-crlf line t h.1) (ground arith)

pub split_line-header :
    (c n : ℕ) (t : Bytes)
    → (c == b'\n') ≡ false
    → split_line (header c n t) ≡ some (c ∷ (str_nat n ++ b'\r' ∷ []), t)
unfolding split_line
split_line-header c n t h = rw (split_line-crlf (str_nat n) t (str_nat-IsDigit n), h) refl

str_to_int64-crlf : (n : ℕ) (t : Bytes) → n < 2 ^ 63 → str_to_int64 (str_nat n ++ crlf t) ≡ pos n
unfolding str_to_int64
str_to_int64-crlf n t h =
    let (c, s, e, d) = str_nat_cons n in
    let (skip, value) = signed_value-digit c (s ++ crlf t) d in
    ap (λ u. signed_value (skip_spaces (u ++ crlf t))) e
    ∙ ap signed_value skip
    ∙ value
    ∙ ap (λ u. saturate_pos (read_digits 0 (u ++ crlf t))) (sym e)
    ∙ ap saturate_pos (read_digits-str_nat n (crlf t) ∙ stop)
    ∙ saturate_pos_small n h
  where
    stop : read_digits n (crlf t) ≡ n
    stop = unfold read_digits in refl

cut_to_int : (n : ℕ) → n < 2 ^ 31 → of_word 32 (n % 2 ^ 32) ≡ pos n
cut_to_int n h = ground arith

abbrev as_length : ℤ → Option ℕ
as_length i = elim i [ pos n ↦ some n | negsuc _ ↦ none ]

pub length_field-crlf :
    (n : ℕ) (t : Bytes) → n < 2 ^ 31 → length_field (str_nat n ++ crlf t) ≡ some n
unfolding str_to_int
length_field-crlf n t h =
    ap as_length
      (ap (λ v. of_word 32 (to_word 32 v)) (str_to_int64-crlf n t (omega arith)) ∙ cut_to_int n h)

signed_overflows-digit :
    (c : ℕ) (s : Bytes)
    → is_digit c ≡ true
    → signed_overflows (c ∷ s) ≡ ltb (2 ^ 63 - 1) (read_digits 0 (c ∷ s))
unfolding signed_overflows
signed_overflows-digit c s h = ground arith

overflows-crlf : (n : ℕ) (t : Bytes) → n < 2 ^ 63 → overflows (str_nat n ++ crlf t) ≡ false
unfolding overflows
overflows-crlf n t h =
    let (c, s, e, d) = str_nat_cons n in
    let (skip, value) = signed_value-digit c (s ++ crlf t) d in
    ap (λ u. signed_overflows (skip_spaces (u ++ crlf t))) e
    ∙ ap signed_overflows skip
    ∙ signed_overflows-digit c (s ++ crlf t) d
    ∙ ap (λ u. ltb (2 ^ 63 - 1) (read_digits 0 (u ++ crlf t))) (sym e)
    ∙ ap (ltb (2 ^ 63 - 1)) (read_digits-str_nat n (crlf t) ∙ stop)
    ∙ ge→ltb (2 ^ 63 - 1) n (omega arith)
  where
    stop : read_digits n (crlf t) ≡ n
    stop = unfold read_digits in refl

-- A length does not touch `errno`.
pub strtol_errno-crlf :
    (n : ℕ) (t : Bytes) (e : Errno) → n < 2 ^ 31 → strtol_errno (str_nat n ++ crlf t) e ≡ e
unfolding strtol_errno
strtol_errno-crlf n t e h = rw (overflows-crlf n t (omega arith)) refl
