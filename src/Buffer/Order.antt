-- ===== src/Buffer/Order.antt =====
-- src/util/bytes.h: the order on `Bytes`, with `memcmp` as the order of its first difference. Of an
-- `int` that orders two texts only the sign is kept.
use Prim.Native.Nat.{Ordering}
use dbss.Common.{
  ◌⊎◌, ℕ, suc, ◌<◌, ◌≡◌, refl, ap, ap₂, ◌↔◌, Bool, true, false, not, ◌&&◌, [], ◌∷◌, ltb, ◌==◌,
  if◌then◌else◌, Bytes, length, take, ltb→lt, arith, Bool-cases, inl, inr, if_elim, subst, ==_iff,
  ◌∙◌,
}

-- `memcmp` of blocks of the same size.
unfoldable pub memcmp : Bytes → Bytes → Ordering
memcmp (c ∷ s) (d ∷ t) =
    let rest = memcmp s t in if c == d then rest else if ltb c d then Ordering.lt else Ordering.gt
memcmp s t = Ordering.eq

abbrev pub min_len : ℕ → ℕ → ℕ
min_len m n = if ltb m n then m else n

unfoldable pub by_size : ℕ → ℕ → Ordering
by_size m n = if ltb m n then Ordering.lt else if ltb n m then Ordering.gt else Ordering.eq

-- `memcmp` on so many bytes, and `o` where they are the same.
unfoldable compare_front : ℕ → Ordering → Bytes → Bytes → Ordering
unfolding memcmp
compare_front n o x y = elim (memcmp (take n x) (take n y)) [
  | Ordering.lt ↦ Ordering.lt
  | Ordering.gt ↦ Ordering.gt
  | Ordering.eq ↦ o
]

-- `Bytes::compare`.
unfoldable pub compare : Bytes → Bytes → Ordering
unfolding compare_front by_size
compare x y = compare_front (min_len (length x) (length y)) (by_size (length x) (length y)) x y

abbrev is_eq : Ordering → Bool
is_eq o = elim o [ Ordering.eq ↦ true | _ ↦ false ]

-- `operator==` and `operator<`.
unfoldable pub equals : Bytes → Bytes → Bool
unfolding memcmp
equals x y = (length x == length y) && is_eq (memcmp x (take (length x) y))

unfoldable pub less : Bytes → Bytes → Bool
unfolding compare
less x y = elim (compare x y) [ Ordering.lt ↦ true | _ ↦ false ]

-- `operator!=`, `operator>`, `operator>=` and `operator<=`.
unfoldable pub differ : Bytes → Bytes → Bool
unfolding equals
differ x y = not (equals x y)

unfoldable pub greater : Bytes → Bytes → Bool
unfolding compare
greater x y = elim (compare x y) [ Ordering.gt ↦ true | _ ↦ false ]

unfoldable pub greater_equal : Bytes → Bytes → Bool
unfolding compare
greater_equal x y = elim (compare x y) [ Ordering.lt ↦ false | _ ↦ true ]

unfoldable pub less_equal : Bytes → Bytes → Bool
unfolding compare
less_equal x y = elim (compare x y) [ Ordering.gt ↦ false | _ ↦ true ]

-- The dictionary order: a text is before its extensions, and else the first difference decides.
unfoldable pub Precedes : Bytes → Bytes → Type 0
Precedes x [] = ⊥
Precedes [] (d ∷ t) = Unit
Precedes (c ∷ s) (d ∷ t) = (c < d) ⊎ ((c ≡ d) × Precedes s t)

-- What an outcome of `compare` says.
unfoldable pub Says : Ordering → Bytes → Bytes → Type 0
Says Ordering.lt x y = Precedes x y
Says Ordering.eq x y = x ≡ y
Says Ordering.gt x y = Precedes y x

Says-cons : (o : Ordering) (c : ℕ) (s t : Bytes) → Says o s t → Says o (c ∷ s) (c ∷ t)
unfolding Says Precedes
Says-cons Ordering.lt c s t h = inr (refl, h)
Says-cons Ordering.eq c s t h = ap (λ u. c ∷ u) h
Says-cons Ordering.gt c s t h = inr (refl, h)

by_size-suc : (m n : ℕ) → by_size (suc m) (suc n) ≡ by_size m n
unfolding by_size
by_size-suc m n = ground arith

min_len-suc : (m n : ℕ) → min_len (suc m) (suc n) ≡ suc (min_len m n)
min_len-suc m n = ground arith

compare_front-cons :
    (n : ℕ) (o : Ordering) (c d : ℕ) (s t : Bytes)
    → compare_front (suc n) o (c ∷ s) (d ∷ t)
      ≡ (if c == d then compare_front n o s t else if ltb c d then Ordering.lt else Ordering.gt)
unfolding compare_front memcmp
compare_front-cons n o c d s t = elim (Bool-cases (c == d)) [
  | inl h ↦ rw (h, compare_front, memcmp) refl
  | inr h ↦ elim (Bool-cases (ltb c d)) [
    | inl g ↦ rw (h, g, compare_front, memcmp) refl
    | inr g ↦ rw (h, g, compare_front, memcmp) refl
  ]
]

-- A common front takes no part.
compare-cons :
    (c d : ℕ) (s t : Bytes)
    → compare (c ∷ s) (d ∷ t)
      ≡ (if c == d then compare s t else if ltb c d then Ordering.lt else Ordering.gt)
unfolding compare
compare-cons c d s t =
    ap₂ (λ n o. compare_front n o (c ∷ s) (d ∷ t)) (min_len-suc (length s) (length t))
      (by_size-suc (length s) (length t))
    ∙ compare_front-cons (min_len (length s) (length t)) (by_size (length s) (length t)) c d s t

compare-nil_cons : (d : ℕ) (t : Bytes) → compare [] (d ∷ t) ≡ Ordering.lt
unfolding compare compare_front memcmp by_size
compare-nil_cons d t = ground arith

compare-cons_nil : (c : ℕ) (s : Bytes) → compare (c ∷ s) [] ≡ Ordering.gt
unfolding compare compare_front memcmp by_size
compare-cons_nil c s = ground arith

-- `compare` decides the dictionary order.
compare_lem : (x y : Bytes) → Says (compare x y) x y
unfolding Says Precedes
compare_lem [] [] = unfold compare compare_front memcmp by_size in refl
compare_lem [] (d ∷ t) = rw (compare-nil_cons d t) tt
compare_lem (c ∷ s) [] = rw (compare-cons_nil c s) tt
compare_lem (c ∷ s) (d ∷ t) = rw (compare-cons c d s t) (
    if_elim (λ o. Says o (c ∷ s) (d ∷ t)) (c == d) _ _
      (λ h.
        subst (λ e. Says (compare s t) (c ∷ s) (e ∷ t)) ((==_iff c d).0 h)
          (Says-cons _ c s t (compare_lem s t)))
      (λ h.
        if_elim (λ o. Says o (c ∷ s) (d ∷ t)) (ltb c d) _ _ (λ g. inl (ltb→lt c d g))
          (λ g. inl (ground arith))))

Precedes-irrefl : (x : Bytes) → Precedes x x → ⊥
unfolding Precedes
Precedes-irrefl [] h = h
Precedes-irrefl (c ∷ s) (inl lt) = omega arith
Precedes-irrefl (c ∷ s) (inr (e, h)) = Precedes-irrefl s h

Precedes-asymm : (x y : Bytes) → Precedes x y → Precedes y x → ⊥
unfolding Precedes
Precedes-asymm [] [] h g = h
Precedes-asymm [] (d ∷ t) h g = g
Precedes-asymm (c ∷ s) [] h g = h
Precedes-asymm (c ∷ s) (d ∷ t) (inl h) (inl g) = omega arith
Precedes-asymm (c ∷ s) (d ∷ t) (inl h) (inr (e, g)) = omega arith
Precedes-asymm (c ∷ s) (d ∷ t) (inr (e, h)) (inl g) = omega arith
Precedes-asymm (c ∷ s) (d ∷ t) (inr (e, h)) (inr (e', g)) = Precedes-asymm s t h g

less_outcome :
    (o : Ordering) (x y : Bytes)
    → Says o x y
    → ((elim o [ Ordering.lt ↦ true | _ ↦ false ]) ≡ true) ↔ Precedes x y
unfolding Says
less_outcome Ordering.lt x y h = ((λ _. h), (λ _. refl))
less_outcome Ordering.eq x y h =
    ((λ e. cc), (λ p. absurd (Precedes-irrefl y (subst (λ t. Precedes t y) h p))))
less_outcome Ordering.gt x y h = ((λ e. cc), (λ p. absurd (Precedes-asymm x y p h)))

greater_outcome :
    (o : Ordering) (x y : Bytes)
    → Says o x y
    → ((elim o [ Ordering.gt ↦ true | _ ↦ false ]) ≡ true) ↔ Precedes y x
unfolding Says
greater_outcome Ordering.gt x y h = ((λ _. h), (λ _. refl))
greater_outcome Ordering.eq x y h =
    ((λ e. cc), (λ p. absurd (Precedes-irrefl y (subst (λ t. Precedes y t) h p))))
greater_outcome Ordering.lt x y h = ((λ e. cc), (λ p. absurd (Precedes-asymm x y h p)))

memcmp_self : (x : Bytes) → memcmp x (take (length x) x) ≡ Ordering.eq
unfolding memcmp
memcmp_self [] = refl
memcmp_self (c ∷ s) = rw ((==_iff c c).1 refl, memcmp) (memcmp_self s)

memcmp_same :
    (x y : Bytes) → length x ≡ length y → memcmp x (take (length x) y) ≡ Ordering.eq → x ≡ y
unfolding memcmp
memcmp_same [] [] e h = refl
memcmp_same [] (d ∷ t) e h = absurd (omega arith)
memcmp_same (c ∷ s) [] e h = absurd (omega arith)
memcmp_same (c ∷ s) (d ∷ t) e h = ground (arith, memcmp_same s t)

equals_self : (x : Bytes) → equals x x ≡ true
unfolding equals
equals_self x = rw ((==_iff (length x) (length x)).1 refl, memcmp_self x) refl

is_eq→eq : (o : Ordering) → is_eq o ≡ true → o ≡ Ordering.eq
is_eq→eq Ordering.eq h = refl
is_eq→eq Ordering.lt h = cc
is_eq→eq Ordering.gt h = cc

equals→same : (x y : Bytes) → equals x y ≡ true → x ≡ y
unfolding equals
equals→same x y h = elim (Bool-cases (length x == length y)) [
  | inl same ↦ memcmp_same x y ((==_iff (length x) (length y)).0 same) (
      is_eq→eq (memcmp x (take (length x) y))
        (subst (λ b. (b && is_eq (memcmp x (take (length x) y))) ≡ true) same h))
  | inr other ↦ cc
]

-- `operator<` and `operator>` decide the dictionary order, `operator==` decides equality, and
-- `compare` tells the three cases apart.
pub operators_lem :
    (x y : Bytes)
    → ((less x y ≡ true) ↔ Precedes x y)
      × ((greater x y ≡ true) ↔ Precedes y x)
      × ((equals x y ≡ true) ↔ (x ≡ y))
      × Says (compare x y) x y
unfolding less greater
operators_lem x y = (
  less_outcome (compare x y) x y (compare_lem x y),
  greater_outcome (compare x y) x y (compare_lem x y),
  (equals→same x y, λ e. subst (λ t. equals x t ≡ true) e (equals_self x)),
  compare_lem x y,
)
