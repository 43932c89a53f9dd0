-- ===== src/Dbss/Maps/Lookup.antt =====
-- What a `std::map` holds after insertions.
use dbss.Common.{
  ◌≡◌, refl, sym, ap, ◌∙◌, Bool, true, false, Option, none, some, List, [], ◌∷◌, Bytes, bytes_eq,
  bytes_eq_iff, if◌then◌else◌, if_elim, arith, Bool-cases, inl, inr, length, ◌%◌,
}
use dbss.Dbss.{Outcome, returned, overflow, bytes_ltb, map_insert, insert_pairs}
use dbss.Dbss.Maps.{Below, IsSorted, map_insert-IsSorted}

-- `find`.
unfoldable pub lookup : {A : Type 0} → Bytes → List (Bytes × A) → Option A
lookup j [] = none
lookup j ((k, a) ∷ m) = let rest = lookup j m in if bytes_eq j k then some a else rest

-- The value behind the first occurrence of a key in an array of keys and values.
unfoldable pub first_value : Bytes → List Bytes → Option Bytes
first_value j (k ∷ v ∷ kvs) = let rest = first_value j kvs in if bytes_eq j k then some v else rest
first_value j _ = none

abbrev pub or_later : {A : Type 0} → Option A → Option A → Option A
or_later (some a) o = some a
or_later none o = o

bytes_ltb_irrefl : (s : Bytes) → bytes_ltb s s ≡ false
unfolding bytes_ltb
bytes_ltb_irrefl [] = refl
bytes_ltb_irrefl (c ∷ s) = ground (arith, bytes_ltb_irrefl s)

bytes_ltb_trans :
    (s t u : Bytes) → bytes_ltb s t ≡ true → bytes_ltb t u ≡ true → bytes_ltb s u ≡ true
unfolding bytes_ltb
bytes_ltb_trans s t [] h k = cc
bytes_ltb_trans s [] (e ∷ u) h k = cc
bytes_ltb_trans [] (d ∷ t) (e ∷ u) h k = refl
bytes_ltb_trans (c ∷ s) (d ∷ t) (e ∷ u) h k = ground (arith, bytes_ltb_trans s t u)

bytes_ltb_total :
    (s t : Bytes) → bytes_ltb s t ≡ false → bytes_ltb t s ≡ false → bytes_eq s t ≡ true
unfolding bytes_ltb
bytes_ltb_total [] [] h k = refl
bytes_ltb_total [] (d ∷ t) h k = cc
bytes_ltb_total (c ∷ s) [] h k = cc
bytes_ltb_total (c ∷ s) (d ∷ t) h k = ground (arith, bytes_ltb_total s t)

bytes_ltb-ne : (s t : Bytes) → bytes_ltb s t ≡ true → bytes_eq s t ≡ false
unfolding bytes_ltb
bytes_ltb-ne s [] h = cc
bytes_ltb-ne [] (d ∷ t) h = refl
bytes_ltb-ne (c ∷ s) (d ∷ t) h = ground (arith, bytes_ltb-ne s t)

-- A key before those of a map is not in it.
lookup-Below :
    {A : Type 0} (j : Bytes) (m : List (Bytes × A)) → Below j m → IsSorted m → lookup j m ≡ none
unfolding lookup Below IsSorted
lookup-Below j [] h s = refl
lookup-Below j ((k, a) ∷ []) h s = rw (bytes_ltb-ne j k h, lookup) refl
lookup-Below j ((k, a) ∷ (i, b) ∷ m) h s =
    rw (bytes_ltb-ne j k h, lookup) (lookup-Below j ((i, b) ∷ m) (bytes_ltb_trans j k i h s.0) s.1)

or_later-none : {A : Type 0} (o : Option A) → or_later o none ≡ o
or_later-none none = refl
or_later-none (some a) = refl

some_ne : {A : Type 0} {a : A} → some a ≡ none → ⊥
some_ne e = cc

false_ne : false ≡ true → ⊥
false_ne e = cc

-- A value in front of a map that does not have its key.
front_value :
    {A : Type 0} (a : A) (same : Bool) (o : Option A)
    → (same ≡ true → o ≡ none)
    → (if same then some a else o) ≡ or_later o (if same then some a else none)
front_value a same none h = refl
front_value a true (some b) h = absurd (some_ne (h refl))
front_value a false (some b) h = refl

same_key : (j k i : Bytes) → bytes_eq j k ≡ true → bytes_eq k i ≡ true → bytes_eq j i ≡ true
same_key j k i h g = (bytes_eq_iff j i).1 ((bytes_eq_iff j k).0 h ∙ (bytes_eq_iff k i).0 g)

-- A key that is there keeps its value.
kept_value :
    {A : Type 0} (a b : A) (at_key here : Bool) (o : Option A)
    → (at_key ≡ true → here ≡ true)
    → (if here then some b else o)
      ≡ or_later (if here then some b else o) (if at_key then some a else none)
kept_value a b at_key true o h = refl
kept_value a b true false o h = absurd (false_ne (h refl))
kept_value a b false false o h = sym (or_later-none o)

lookup-map_insert :
    {A : Type 0} (j k : Bytes) (a : A) (m : List (Bytes × A))
    → IsSorted m
    → lookup j (map_insert k a m) ≡ or_later (lookup j m) (if bytes_eq j k then some a else none)
unfolding lookup map_insert IsSorted
lookup-map_insert j k a [] h = refl
lookup-map_insert {A = A} j k a ((i, b) ∷ m) h =
    let added : Option A = if bytes_eq j k then some a else none in
    if_elim (λ t. lookup j t ≡ or_later (lookup j ((i, b) ∷ m)) added) (bytes_ltb k i) _ _
      (λ lt. front_value a (bytes_eq j k) (lookup j ((i, b) ∷ m)) (λ e.
        ap (λ t. lookup t ((i, b) ∷ m)) ((bytes_eq_iff j k).0 e)
        ∙ lookup-Below k ((i, b) ∷ m) lt h))
      (λ ge.
        if_elim (λ t. lookup j t ≡ or_later (lookup j ((i, b) ∷ m)) added) (bytes_ltb i k) _ _
          (λ gt. elim (Bool-cases (bytes_eq j i)) [
            | inl here ↦ rw (here, lookup) refl
            | inr away ↦ rw (away, lookup) (lookup-map_insert j k a m h.1)
          ])
          (λ le.
            kept_value a b (bytes_eq j k) (bytes_eq j i) (lookup j m)
              (λ e. same_key j k i e (bytes_ltb_total k i ge le))))

or_later_assoc :
    {A : Type 0} (o p q : Option A) → or_later (or_later o p) q ≡ or_later o (or_later p q)
or_later_assoc none p q = refl
or_later_assoc (some a) p q = refl

-- How the loop of `multi_set` ends on an array, from a map: behind the end of one of odd size, and
-- else with a map in the order of its keys, in which each key has the value that it had in the old
-- map, or else the one behind its first occurrence in the array.
abbrev pub Paired : List (Bytes × Bytes) → List Bytes → Outcome (List (Bytes × Bytes)) → Type 0
Paired old kvs overflow = length kvs % 2 ≡ 1
Paired old kvs (returned m) =
    (length kvs % 2 ≡ 0)
    × IsSorted m
    × ((j : Bytes) → lookup j m ≡ or_later (lookup j old) (first_value j kvs))

Paired-cons :
    (k v : Bytes) (kvs : List Bytes) (old : List (Bytes × Bytes))
    (r : Outcome (List (Bytes × Bytes)))
    → IsSorted old
    → Paired (map_insert k v old) kvs r
    → Paired old (k ∷ v ∷ kvs) r
unfolding first_value
Paired-cons k v kvs old overflow sorted h = omega arith
Paired-cons k v kvs old (returned m) sorted (even, s, found) = (
  omega arith,
  s,
  λ j.
      found j
      ∙ ap (λ o. or_later o (first_value j kvs)) (lookup-map_insert j k v old sorted)
      ∙ or_later_assoc (lookup j old) (if bytes_eq j k then some v else none) (first_value j kvs)
      ∙ ap (or_later (lookup j old)) (first_of (bytes_eq j k) (first_value j kvs)),
)
  where
    first_of :
        (same : Bool) (o : Option Bytes)
        → or_later (if same then some v else none) o ≡ (if same then some v else o)
    first_of true o = refl
    first_of false o = refl

-- From a map in order, the loop of `multi_set` and `multi_hset` reads behind the array exactly
-- where its size is odd. Else it builds a map whose keys are strictly increasing, and in which a
-- key has its old value, or else the value behind its first occurrence in the array, or is not
-- there.
pub insert_pairs-Paired :
    (kvs : List Bytes) (m : List (Bytes × Bytes)) → IsSorted m → Paired m kvs (insert_pairs kvs m)
unfolding insert_pairs first_value
insert_pairs-Paired [] m h = (refl, h, λ j. sym (or_later-none (lookup j m)))
insert_pairs-Paired (k ∷ []) m h = refl
insert_pairs-Paired (k ∷ v ∷ kvs) m h =
    Paired-cons k v kvs m _ h
      (insert_pairs-Paired kvs (map_insert k v m) (map_insert-IsSorted k v m h))
