-- ===== src/Dbss/Maps.antt =====
-- The `std::map`s that `multi_set`, `multi_hset` and `multi_zset` build from their arguments.
pub mod Lookup
pub mod Sent
use dbss.Common.{◌≡◌, refl, true, List, [], ◌∷◌, Bytes, if_elim, length, ◌%◌, arith}
use dbss.Dbss.{Outcome, returned, overflow, bytes_ltb, map_insert, insert_pairs}

-- The key comes before those of the map.
unfoldable pub Below : {A : Type 0} → Bytes → List (Bytes × A) → Type 0
Below k [] = Unit
Below k ((j, b) ∷ m) = bytes_ltb k j ≡ true

-- The keys are strictly increasing.
unfoldable pub IsSorted : {A : Type 0} → List (Bytes × A) → Type 0
unfolding Below
IsSorted [] = Unit
IsSorted ((k, a) ∷ m) = Below k m × IsSorted m

map_insert-Below :
    {A : Type 0} (j k : Bytes) (a : A) (m : List (Bytes × A))
    → Below j m
    → bytes_ltb j k ≡ true
    → Below j (map_insert k a m)
unfolding map_insert Below
map_insert-Below j k a [] h lt = lt
map_insert-Below j k a ((i, b) ∷ m) h lt =
    if_elim (Below j) (bytes_ltb k i) _ _ (λ _. lt)
      (λ _. if_elim (Below j) (bytes_ltb i k) _ _ (λ _. h) (λ _. h))

pub map_insert-IsSorted :
    {A : Type 0} (k : Bytes) (a : A) (m : List (Bytes × A))
    → IsSorted m
    → IsSorted (map_insert k a m)
unfolding map_insert IsSorted Below
map_insert-IsSorted k a [] h = (tt, tt)
map_insert-IsSorted k a ((j, b) ∷ m) h =
    if_elim IsSorted (bytes_ltb k j) _ _ (λ lt. (lt, h))
      (λ _.
        if_elim IsSorted (bytes_ltb j k) _ _
          (λ gt. (map_insert-Below j k a m h.0 gt, map_insert-IsSorted k a m h.1)) (λ _. h))
