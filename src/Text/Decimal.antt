-- ===== src/Text/Decimal.antt =====
-- Decimal prints are read back.
use native.Mathlib.Nat.{pow-suc}
use dbss.Common.{
  ℕ, zero, suc, ◌+◌, ◌/◌, ◌%◌, ◌^◌, ◌≤◌, ◌<◌, ◌≡◌, refl, ◌∙◌, sym, ap, subst, append-nil, true,
  some, [], ◌∷◌, ◌++◌, append_assoc, arith, ltb, inl, inr, Bool-cases, Bytes, All, All-append,
  length, length-append,
}
use dbss.Text.{
  ℤ, pos, negsuc, is_digit, print_nat, str_nat, str_int, read_digits, atoi, skip_spaces,
  saturate_pos, saturate_neg, signed_value, str_to_int64,
}

abbrev pub IsDigit : ℕ → Type 0
IsDigit c = is_digit c ≡ true

print_nat-IsDigit : (f n : ℕ) → All IsDigit (print_nat f n)
unfolding print_nat
print_nat-IsDigit zero n = tt
print_nat-IsDigit (suc f) n = elim (Bool-cases (ltb n 10)) [
  | inl h ↦ rw h (ground arith, tt)
  | inr h ↦ rw h (
      All-append IsDigit (print_nat f (n / 10)) _ (print_nat-IsDigit f (n / 10)) (ground arith, tt))
]

read_digits-print_nat :
    (f n : ℕ) (s : Bytes) → n < f → read_digits 0 (print_nat f n ++ s) ≡ read_digits n s
unfolding print_nat read_digits
read_digits-print_nat zero n s h = absurd (omega arith)
read_digits-print_nat (suc f) n s h = elim (Bool-cases (ltb n 10)) [
  | inl small ↦ rw small (ground arith)
  | inr big ↦
      rw (big, append_assoc)
        (read_digits-print_nat f (n / 10) ((b'0' + n % 10) ∷ s) (ground arith) ∙ ground arith)
]

length-print_nat : (k f n : ℕ) → n < 10 ^ suc k → length (print_nat f n) ≤ suc k
unfolding print_nat
length-print_nat k zero n h = omega arith
length-print_nat zero (suc f) n h = ground arith
length-print_nat (suc k) (suc f) n h = elim (Bool-cases (ltb n 10)) [
  | inl small ↦ rw small (omega arith)
  | inr big ↦ rw big (
      omega (
        arith,
        length-append (print_nat f (n / 10)) ((b'0' + n % 10) ∷ []),
        length-print_nat k f (n / 10) (omega (arith, pow-suc 10 (suc k))),
      ))
]

-- Below 10^(k + 1) a print has at most k + 1 digits.
pub length-str_nat : (k n : ℕ) → n < 10 ^ suc k → length (str_nat n) ≤ suc k
unfolding str_nat
length-str_nat k n h = length-print_nat k (suc n) n h

pub str_nat-IsDigit : (n : ℕ) → All IsDigit (str_nat n)
unfolding str_nat
str_nat-IsDigit n = print_nat-IsDigit (suc n) n

snoc_cons : (s : Bytes) (d : ℕ) → (c : ℕ) × (t : Bytes) × (s ++ d ∷ [] ≡ c ∷ t)
snoc_cons [] d = (d, [], refl)
snoc_cons (c ∷ s) d = (c, s ++ d ∷ [], refl)

print_nat_cons : (f n : ℕ) → (c : ℕ) × (s : Bytes) × (print_nat (suc f) n ≡ c ∷ s)
unfolding print_nat
print_nat_cons f n = elim (Bool-cases (ltb n 10)) [
  | inl small ↦ (b'0' + n, [], rw small)
  | inr big ↦ let (c, t, e) = snoc_cons (print_nat f (n / 10)) (b'0' + n % 10) in (c, t, rw big e)
]

-- A print starts with a digit.
pub str_nat_cons : (n : ℕ) → (c : ℕ) × (s : Bytes) × (str_nat n ≡ c ∷ s) × (is_digit c ≡ true)
unfolding str_nat
str_nat_cons n =
    let (c, s, e) = print_nat_cons n n in
    (c, s, e, (subst (All IsDigit) e (print_nat-IsDigit (suc n) n)).0)

pub read_digits-str_nat : (n : ℕ) (s : Bytes) → read_digits 0 (str_nat n ++ s) ≡ read_digits n s
unfolding str_nat
read_digits-str_nat n s = read_digits-print_nat (suc n) n s (omega arith)

pub read_digits-str_nat_nil : (n : ℕ) → read_digits 0 (str_nat n) ≡ n
read_digits-str_nat_nil n =
    ap (read_digits 0) (sym (append-nil (str_nat n))) ∙ read_digits-str_nat n [] ∙ stop
  where
    stop : read_digits n [] ≡ n
    stop = unfold read_digits in refl

-- `atoi` reads back the print of every `int` that is not negative.
pub atoi-str_nat : (n : ℕ) → n < 2 ^ 31 → atoi (str_nat n) ≡ some n
unfolding atoi
atoi-str_nat n h = rw (read_digits-str_nat_nil n) (ground arith)

abbrev pub IsInt64 : ℤ → Type 0
IsInt64 (pos n) = n < 2 ^ 63
IsInt64 (negsuc n) = n < 2 ^ 63

pub signed_value-digit :
    (c : ℕ) (s : Bytes)
    → is_digit c ≡ true
    → (skip_spaces (c ∷ s) ≡ c ∷ s) × (signed_value (c ∷ s) ≡ saturate_pos (read_digits 0 (c ∷ s)))
unfolding skip_spaces signed_value
signed_value-digit c s h = (ground arith, ground arith)

signed_value-neg : (s : Bytes) → str_to_int64 (b'-' ∷ s) ≡ saturate_neg (read_digits 0 s)
unfolding str_to_int64
signed_value-neg s = refl

pub saturate_pos_small : (n : ℕ) → n < 2 ^ 63 → saturate_pos n ≡ pos n
unfolding saturate_pos
saturate_pos_small n h = ground arith

saturate_neg_small : (n : ℕ) → n < 2 ^ 63 → saturate_neg (suc n) ≡ negsuc n
unfolding saturate_neg
saturate_neg_small n h = ground arith

str_to_int64-str_nat : (n : ℕ) → n < 2 ^ 63 → str_to_int64 (str_nat n) ≡ pos n
unfolding str_to_int64
str_to_int64-str_nat n h =
    let (c, s, e, d) = str_nat_cons n in
    let (skip, value) = signed_value-digit c s d in
    ap (λ t. signed_value (skip_spaces t)) e
    ∙ ap signed_value skip
    ∙ value
    ∙ ap (λ t. saturate_pos (read_digits 0 t)) (sym e)
    ∙ ap saturate_pos (read_digits-str_nat_nil n)
    ∙ saturate_pos_small n h

-- `str_to_int64` reads back `str` of every `int64_t`, the least one included.
pub str_to_int64-str_int : (i : ℤ) → IsInt64 i → str_to_int64 (str_int i) ≡ i
unfolding str_int
str_to_int64-str_int (pos n) h = str_to_int64-str_nat n h
str_to_int64-str_int (negsuc n) h =
    signed_value-neg (str_nat (suc n))
    ∙ ap saturate_neg (read_digits-str_nat_nil (suc n))
    ∙ saturate_neg_small n h
