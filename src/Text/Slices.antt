-- ===== src/Text/Slices.antt =====
-- src/util/strings.h: `substr` and `str_slice`. Sums wrap around in an `int`.
use dbss.Common.{
  ℕ, ◌+◌, ◌-◌, ◌%◌, ◌^◌, ◌≤◌, ◌<◌, ◌≡◌, refl, Bool, true, false, [], Bytes, length, take, drop, leb,
  if◌then◌else◌, arith,
}
use dbss.Text.{ℤ, pos, negsuc, to_word, of_word}

abbrev is_neg : ℤ → Bool
is_neg (pos n) = false
is_neg (negsuc n) = true

unfoldable pub int_add : ℤ → ℤ → ℤ
int_add a b = of_word 32 ((to_word 32 a + to_word 32 b) % 2 ^ 32)

unfoldable pub int_sub : ℤ → ℤ → ℤ
int_sub a b = of_word 32 ((to_word 32 a + 2 ^ 32 - to_word 32 b) % 2 ^ 32)

-- The end of both: `str.substr(start, size)` behind the guards.
unfoldable pub cut_text : Bytes → ℤ → ℤ → Bytes
cut_text str (pos start) (pos size) =
    if leb (length str) start then [] else take size (drop start str)
cut_text str start size = []

-- `if(start < 0) start = str.size() + start;`
unfoldable pub start_of : Bytes → ℤ → ℤ
unfolding int_add
start_of str start = if is_neg start then int_add (pos (length str)) start else start

unfoldable pub substr : Bytes → ℤ → ℤ → Bytes
unfolding cut_text start_of int_add int_sub
substr str start size =
    let first = start_of str start in
    cut_text str first
      (if is_neg size then int_sub (int_add (pos (length str)) size) first else size)

unfoldable pub str_slice : Bytes → ℤ → ℤ → Bytes
unfolding cut_text start_of int_add int_sub
str_slice str start end =
    let first = start_of str start in
    cut_text str first (
      if is_neg end
      then int_sub (int_add (int_add (pos (length str)) end) (pos 1)) first
      else int_add (int_sub end first) (pos 1))

-- The index `i` of a text of `n` bytes, counted from the front, or by a negative number from the
-- end.
pub data Index (n i : ℕ) : ℤ → Type 0 where
  from_front : Index n i (pos i)
  from_end : (k : ℕ) → i + k + 1 ≡ n → Index n i (negsuc k)

start_of-Index :
    (str : Bytes) (i : ℕ) (z : ℤ)
    → length str < 2 ^ 31
    → Index (length str) i z
    → i < length str
    → start_of str z ≡ pos i
unfolding start_of int_add
start_of-Index str i z h from_front lt = refl
start_of-Index str i z h (from_end k e) lt = ground arith

end_size :
    (n i j : ℕ) (z : ℤ)
    → n < 2 ^ 31
    → Index n j z
    → i ≤ j
    → j < n
    → (if is_neg z
        then int_sub (int_add (int_add (pos n) z) (pos 1)) (pos i)
        else int_add (int_sub z (pos i)) (pos 1))
      ≡ pos (j + 1 - i)
unfolding int_add int_sub
end_size n i j z h from_front le lt = ground arith
end_size n i j z h (from_end k e) le lt = ground arith

-- `str_slice` between two indices of a text of fewer than 2^31 bytes, each counted from either end,
-- is the bytes from the first to the second, both included.
pub str_slice_lem :
    (str : Bytes) (i j : ℕ) (start end : ℤ)
    → length str < 2 ^ 31
    → Index (length str) i start
    → Index (length str) j end
    → i ≤ j
    → j < length str
    → str_slice str start end ≡ take (j + 1 - i) (drop i str)
unfolding str_slice cut_text
str_slice_lem str i j start end h at_start at_end le lt =
    rw
      (
        start_of-Index str i start h at_start (omega arith),
        end_size (length str) i j end h at_end le lt,
      )
      (ground arith)
