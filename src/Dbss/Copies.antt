-- ===== src/Dbss/Copies.antt =====
-- When the copies of `DBSS` into the caller's memory stay inside the blocks.
use dbss.Common.{
  ℕ, suc, ◌+◌, ◌*◌, ◌≤◌, ◌<◌, ◌≡◌, refl, ap, List, [], ◌∷◌, Bytes, All, map, length, ltb, ltb→lt,
  ltb→ge, arith, if_elim,
}
use dbss.Dbss.{returned, overflow, c_str, strlen, copy_strings, cons_string}

-- Each string, and its final zero, has a block of its own that holds it.
abbrev pub FitCells : (Bytes → ℕ) → List Bytes → Type 0
FitCells cell = All (λ v. strlen v < cell v)

-- When each string and its final zero fit their block, and the pointers from slot `i` on fit
-- theirs, the loop copies every string, up to its first zero byte.
pub copy_strings-fits :
    (room : ℕ) (cell : Bytes → ℕ) (i : ℕ) (vs : List Bytes)
    → FitCells cell vs
    → (i + length vs) * 8 ≤ room
    → copy_strings room cell i vs ≡ returned (map c_str vs)
unfolding copy_strings
copy_strings-fits room cell i [] fit h = refl
copy_strings-fits room cell i (v ∷ vs) fit h =
    if_elim (λ r. r ≡ returned (c_str v ∷ map c_str vs)) (ltb (strlen v) (cell v)) _ _
      (λ _.
        if_elim (λ r. r ≡ returned (c_str v ∷ map c_str vs)) (ltb room ((i + 1) * 8)) _ _
          (λ full. absurd (omega (arith, ltb→lt room ((i + 1) * 8) full)))
          (λ _.
            ap (cons_string (c_str v))
              (copy_strings-fits room cell (suc i) vs fit.1 (omega arith))))
      (λ long. absurd (omega (arith, fit.0, ltb→ge (strlen v) (cell v) long)))

-- A block of `strlen` bytes has no room for the final zero: the loop leaves its block at the first
-- string.
pub copy_strings-tight :
    (room i : ℕ) (v : Bytes) (vs : List Bytes) → copy_strings room strlen i (v ∷ vs) ≡ overflow
unfolding copy_strings
copy_strings-tight room i v vs =
    if_elim (λ r. r ≡ overflow) (ltb (strlen v) (strlen v)) _ _
      (λ small. absurd (omega (arith, ltb→lt (strlen v) (strlen v) small))) (λ _. refl)
