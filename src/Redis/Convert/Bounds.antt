-- ===== src/Redis/Convert/Bounds.antt =====
-- The bounds of a range by score, in Redis and in SSDB.
use dbss.Common.{
  ℕ, suc, zero, ◌^◌, ◌<◌, ◌≤◌, ◌≡◌, refl, ap, ◌∙◌, true, false, none, [], ◌∷◌, Bytes, codes,
  is_empty, arith, ◌↔◌, sym, subst, if◌then◌else◌,
}
use dbss.Text.{ℤ, pos, negsuc, is_digit, str_int, str_to_int64, str_to_int, to_word, of_word}
use dbss.Text.Decimal.{IsInt64, str_nat_cons, str_to_int64-str_int}
use dbss.Redis.Convert.{is_infinite, drop_paren}

-- A bound of a range by score, as Redis has it, and its text at an end of the range where `infinity`
-- is the one that takes in every score: "-inf" for the lower bound, and "+inf" for the upper one.
pub data Bound : Type 0 where
  unbounded : Bound
  inclusive exclusive : ℤ → Bound

unfoldable pub bound_text : Bytes → Bound → Bytes
unfolding str_int
bound_text infinity unbounded = infinity
bound_text infinity (inclusive z) = str_int z
bound_text infinity (exclusive z) = b'(' ∷ str_int z

abbrev pub minus_inf : Bytes
minus_inf = codes "-inf"

abbrev pub plus_inf : Bytes
plus_inf = codes "+inf"

abbrev pub IsInt32 : ℤ → Type 0
IsInt32 (pos n) = n < 2 ^ 31
IsInt32 (negsuc n) = n < 2 ^ 31

-- The next integer, and the one before.
abbrev pub next_int : ℤ → ℤ
next_int (pos n) = pos (suc n)
next_int (negsuc zero) = pos 0
next_int (negsuc (suc n)) = negsuc n

abbrev pub previous_int : ℤ → ℤ
previous_int (pos zero) = negsuc 0
previous_int (pos (suc n)) = pos n
previous_int (negsuc n) = negsuc (suc n)

-- The same bound of integers, both ends included, as SSDB has it; `step` leads inwards.
unfoldable pub inner_text : (ℤ → ℤ) → Bound → Bytes
unfolding str_int
inner_text step unbounded = []
inner_text step (inclusive z) = str_int z
inner_text step (exclusive z) = str_int (step z)

-- A bound is an `int64_t`, and a step from an exclusive one stays in an `int`.
abbrev pub StepsIn : (ℤ → ℤ) → Bound → Type 0
StepsIn step (inclusive z) = IsInt64 z
StepsIn step (exclusive z) = IsInt32 z × IsInt32 (step z)
StepsIn step _ = Unit

-- The order of integers.
abbrev pub AtMost : ℤ → ℤ → Type 0
AtMost (pos m) (pos n) = m ≤ n
AtMost (pos m) (negsuc n) = ⊥
AtMost (negsuc m) (pos n) = Unit
AtMost (negsuc m) (negsuc n) = n ≤ m

abbrev pub Below : ℤ → ℤ → Type 0
Below (pos m) (pos n) = m < n
Below (pos m) (negsuc n) = ⊥
Below (negsuc m) (pos n) = Unit
Below (negsuc m) (negsuc n) = n < m

-- The scores on the inner side of a bound in Redis.
abbrev pub IsAbove : Bound → ℤ → Type 0
IsAbove unbounded z = Unit
IsAbove (inclusive low) z = AtMost low z
IsAbove (exclusive low) z = Below low z

abbrev pub IsBelow : Bound → ℤ → Type 0
IsBelow unbounded z = Unit
IsBelow (inclusive high) z = AtMost z high
IsBelow (exclusive high) z = Below z high

-- The scores on the inner side of a bound in SSDB: an empty text is no limit.
abbrev pub IsFrom : Bytes → ℤ → Type 0
IsFrom s z = if is_empty s then Unit else AtMost (str_to_int64 s) z

abbrev pub IsTo : Bytes → ℤ → Type 0
IsTo s z = if is_empty s then Unit else AtMost z (str_to_int64 s)

next_int-Below : (m n : ℤ) → Below m n ↔ AtMost (next_int m) n
next_int-Below (pos m) (pos n) = (λ h. omega arith, λ h. omega arith)
next_int-Below (pos m) (negsuc n) = (λ h. h, λ h. h)
next_int-Below (negsuc zero) (pos n) = (λ h. omega arith, λ h. tt)
next_int-Below (negsuc zero) (negsuc n) = (λ h. absurd (omega arith), λ h. absurd h)
next_int-Below (negsuc (suc m)) (pos n) = (λ h. tt, λ h. tt)
next_int-Below (negsuc (suc m)) (negsuc n) = (λ h. omega arith, λ h. omega arith)

previous_int-Below : (m n : ℤ) → Below m n ↔ AtMost m (previous_int n)
previous_int-Below (pos m) (pos zero) = (λ h. absurd (omega arith), λ h. absurd h)
previous_int-Below (pos m) (pos (suc n)) = (λ h. omega arith, λ h. omega arith)
previous_int-Below (pos m) (negsuc n) = (λ h. h, λ h. h)
previous_int-Below (negsuc m) (pos zero) = (λ h. omega arith, λ h. tt)
previous_int-Below (negsuc m) (pos (suc n)) = (λ h. tt, λ h. tt)
previous_int-Below (negsuc m) (negsuc n) = (λ h. omega arith, λ h. omega arith)

pub str_to_int-str_int : (z : ℤ) → IsInt32 z → str_to_int (str_int z) ≡ z
unfolding str_to_int
str_to_int-str_int (pos n) h =
    ap (λ i. of_word 32 (to_word 32 i)) (str_to_int64-str_int (pos n) (omega arith)) ∙ ground arith
str_to_int-str_int (negsuc n) h =
    ap (λ i. of_word 32 (to_word 32 i)) (str_to_int64-str_int (negsuc n) (omega arith))
    ∙ ground arith

-- The text of a number is no infinity, no exclusive bound, and not empty.
pub number_text :
    (z : ℤ)
    → (is_infinite (str_int z) ≡ false)
      × (drop_paren (str_int z) ≡ none)
      × (is_empty (str_int z) ≡ false)
unfolding str_int
number_text (pos n) = let (c, s, e, d) = str_nat_cons n in rw e (by_digit c s d)
  where
    by_digit :
        (c : ℕ) (s : Bytes)
        → is_digit c ≡ true
        → (is_infinite (c ∷ s) ≡ false) × (drop_paren (c ∷ s) ≡ none) × (is_empty (c ∷ s) ≡ false)
    by_digit c s d = (ground arith, ground arith, refl)
number_text (negsuc n) = let (c, s, e, d) = str_nat_cons (suc n) in rw e (by_digit c s d)
  where
    by_digit :
        (c : ℕ) (s : Bytes)
        → is_digit c ≡ true
        → (is_infinite (b'-' ∷ c ∷ s) ≡ false)
          × (drop_paren (b'-' ∷ c ∷ s) ≡ none)
          × (is_empty (b'-' ∷ c ∷ s) ≡ false)
    by_digit c s d = (ground arith, refl, refl)

int32-IsInt64 : (z : ℤ) → IsInt32 z → IsInt64 z
int32-IsInt64 (pos n) h = omega arith
int32-IsInt64 (negsuc n) h = omega arith

-- What SSDB makes of the text of a number.
IsFrom-number : (low z : ℤ) → IsInt64 low → IsFrom (str_int low) z ≡ AtMost low z
IsFrom-number low z h = rw (number_text low).2 (ap (λ n. AtMost n z) (str_to_int64-str_int low h))

IsTo-number : (high z : ℤ) → IsInt64 high → IsTo (str_int high) z ≡ AtMost z high
IsTo-number high z h = rw (number_text high).2 (ap (AtMost z) (str_to_int64-str_int high h))

pub IsAbove-IsFrom :
    (b : Bound) (z : ℤ) → StepsIn next_int b → IsAbove b z ↔ IsFrom (inner_text next_int b) z
unfolding inner_text
IsAbove-IsFrom unbounded z h = (λ k. k, λ k. k)
IsAbove-IsFrom (inclusive low) z h =
    subst (λ T. AtMost low z ↔ T) (sym (IsFrom-number low z h)) (λ k. k, λ k. k)
IsAbove-IsFrom (exclusive low) z h =
    subst (λ T. Below low z ↔ T) (sym (IsFrom-number (next_int low) z (int32-IsInt64 _ h.1)))
      (next_int-Below low z)

pub IsBelow-IsTo :
    (b : Bound) (z : ℤ) → StepsIn previous_int b → IsBelow b z ↔ IsTo (inner_text previous_int b) z
unfolding inner_text
IsBelow-IsTo unbounded z h = (λ k. k, λ k. k)
IsBelow-IsTo (inclusive high) z h =
    subst (λ T. AtMost z high ↔ T) (sym (IsTo-number high z h)) (λ k. k, λ k. k)
IsBelow-IsTo (exclusive high) z h =
    subst (λ T. Below z high ↔ T) (sym (IsTo-number (previous_int high) z (int32-IsInt64 _ h.1)))
      (previous_int-Below z high)
