-- ===== src/Common/Lists.antt =====
-- Lists measured by native numbers, under the library's names, and byte strings.
use Prim.Native.Char.{code}
use Prim.Native.Nat.{◌<◌, ◌^◌, ℕ, zero, suc, ◌+◌, ◌-◌, min}
use Prim.Native.String.{String}
use mathlib.Core.Path.{◌≡◌, refl}
use mathlib.Core.Logic.{◌≢◌, ◌⊎◌, inl, inr, ◌↔◌}
use mathlib.Core.Bool.{Bool, true, false, ◌&&◌}
use mathlib.Core.List.{List, [], ◌∷◌, ◌++◌}
use mathlib.Core.Option.{Option, none, some}
use native.Mathlib.Omega.{arith}
use dbss.Common.Tests.{◌==◌}

-- `std::string` and `Bytes` of the source: a run of bytes, each below 256 where that matters.
abbrev pub Bytes : Type 0
Bytes = List ℕ

-- The code points of a literal: its bytes, as every literal here is ASCII.
abbrev pub codes : String → Bytes
codes String.[] = []
codes (String.◌∷◌ c s) = code c ∷ codes s

abbrev pub All {ℓ κ} : {A : Type ℓ} → (A → Type κ) → List A → Type κ
All P [] = Unit
All P (x ∷ xs) = P x × All P xs

module _ {ℓ} {A : Type ℓ} where
  abbrev pub length : List A → ℕ
  length [] = 0
  length (x ∷ xs) = suc (length xs)

  abbrev pub is_empty : List A → Bool
  is_empty [] = true
  is_empty (x ∷ xs) = false

  abbrev pub take : ℕ → List A → List A
  take zero xs = []
  take (suc n) [] = []
  take (suc n) (x ∷ xs) = x ∷ take n xs

  abbrev pub drop : ℕ → List A → List A
  drop zero xs = xs
  drop (suc n) [] = []
  drop (suc n) (x ∷ xs) = drop n xs

  abbrev pub get_elem? : List A → ℕ → Option A
  get_elem? [] i = none
  get_elem? (x ∷ xs) zero = some x
  get_elem? (x ∷ xs) (suc i) = get_elem? xs i

  pub length-append : (xs ys : List A) → length (xs ++ ys) ≡ length xs + length ys
  length-append [] ys = omega arith
  length-append (x ∷ xs) ys = omega (arith, length-append xs ys)

  pub take-append-drop : (n : ℕ) (xs : List A) → take n xs ++ drop n xs ≡ xs
  take-append-drop zero xs = refl
  take-append-drop (suc n) [] = refl
  take-append-drop (suc n) (x ∷ xs) = rw (take-append-drop n xs)

  pub length-take : (n : ℕ) (xs : List A) → length (take n xs) ≡ min n (length xs)
  length-take zero xs = omega arith
  length-take (suc n) [] = omega arith
  length-take (suc n) (x ∷ xs) = omega (arith, length-take n xs)

  pub length-drop : (n : ℕ) (xs : List A) → length (drop n xs) ≡ length xs - n
  length-drop zero xs = omega arith
  length-drop (suc n) [] = omega arith
  length-drop (suc n) (x ∷ xs) = omega (arith, length-drop n xs)

  pub take-length : (xs ys : List A) → take (length xs) (xs ++ ys) ≡ xs
  take-length [] ys = refl
  take-length (x ∷ xs) ys = rw (take-length xs ys)

  pub drop-length : (xs ys : List A) → drop (length xs) (xs ++ ys) ≡ ys
  drop-length [] ys = refl
  drop-length (x ∷ xs) ys = drop-length xs ys

  -- Two ways to cut one list: one of the cuts comes first.
  pub append-eq-append :
      (p q a b : List A)
      → p ++ q ≡ a ++ b
      → ((m : List A) × (p ≡ a ++ m) × (m ++ q ≡ b))
        ⊎ ((m : List A) × (m ≢ []) × (a ≡ p ++ m) × (q ≡ m ++ b))
  append-eq-append p q [] b h = inl (p, refl, h)
  append-eq-append [] q (x ∷ a) b h = inr (x ∷ a, (λ e. cc), refl, h)
  append-eq-append (y ∷ p) q (x ∷ a) b h = elim (append-eq-append p q a b (cc)) [
    | inl (m, e, f) ↦ inl (m, cc, f)
    | inr (m, n, e, f) ↦ inr (m, n, cc, f)
  ]

module _ {ℓ κ} {A : Type ℓ} (P : A → Type κ) where
  pub All-append : (xs ys : List A) → All P xs → All P ys → All P (xs ++ ys)
  All-append [] ys hx hy = hy
  All-append (x ∷ xs) ys hx hy = (hx.0, All-append xs ys hx.1 hy)

  pub All-append_left : (xs ys : List A) → All P (xs ++ ys) → All P xs
  All-append_left [] ys h = tt
  All-append_left (x ∷ xs) ys h = (h.0, All-append_left xs ys h.1)

-- A test of every item.
abbrev pub every : {A : Type 0} → (A → Bool) → List A → Bool
every test [] = true
every test (x ∷ xs) = test x && every test xs

pub and_left : (a b : Bool) → (a && b) ≡ true → a ≡ true
and_left true b e = refl
and_left false b e = e

pub and_right : (a b : Bool) → (a && b) ≡ true → b ≡ true
and_right true b e = e
and_right false b e = cc

pub every-All :
    {A : Type 0} (test : A → Bool) (P : A → Type 0) (xs : List A)
    → ((x : A) → test x ≡ true → P x)
    → every test xs ≡ true
    → All P xs
every-All test P [] sound e = tt
every-All test P (x ∷ xs) sound e =
    (sound x (and_left (test x) _ e), every-All test P xs sound (and_right (test x) _ e))

-- `operator==` of the byte strings.
abbrev pub bytes_eq : Bytes → Bytes → Bool
bytes_eq [] [] = true
bytes_eq [] (y ∷ t) = false
bytes_eq (x ∷ s) [] = false
bytes_eq (x ∷ s) (y ∷ t) = (x == y) && bytes_eq s t

pub bytes_eq_iff : (s t : Bytes) → (bytes_eq s t ≡ true) ↔ (s ≡ t)
bytes_eq_iff [] [] = ((λ _. refl), (λ _. refl))
bytes_eq_iff [] (y ∷ t) = ((λ e. cc), (λ e. cc))
bytes_eq_iff (x ∷ s) [] = ((λ e. cc), (λ e. cc))
bytes_eq_iff (x ∷ s) (y ∷ t) = ground (arith, bytes_eq_iff s t)

-- Every length is an `int`.
abbrev pub AreShort : List Bytes → Type 0
AreShort = All (λ s. length s < 2 ^ 31)
