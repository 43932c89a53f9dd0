-- ===== src/Dbss.antt =====
-- src/DBSS.cc: the class `DBSS` and its C interface. This file has what the methods share: the
-- memory of the caller, the copies into it, and the arrays of arguments. Printing is left out.
pub mod Values
pub mod Lists
pub mod Copies
pub mod Methods
pub mod Maps
pub mod Connect
pub mod Interface
pub mod Life
use dbss.Common.{
  ℕ, zero, suc, ◌+◌, ◌*◌, ◌%◌, ◌^◌, Bool, true, false, Option, none, some, List, [], ◌∷◌, Bytes,
  length, ltb, leb, ◌==◌, if◌then◌else◌, bytes_eq,
}
use dbss.Text.{ℤ, pos, c_str}
use dbss.Client.{Status, ok, Session, Exec, pure, ◌>>=◌}

-- A method returns, or accesses memory behind the end of a block or array.
pub data Outcome (A : Type 0) : Type 0 where
  returned : A → Outcome A
  overflow : Outcome A

-- `vec_t`: the strings behind `ptr`, and `count`.
pub record Vec : Type 0 where
  pub ptr : List Bytes
  pub count : ℕ

-- A method: the member `s` after it, and its outcome. Each method sets `s` by one call of `client`.
abbrev pub Method : Type 0 → Type 0
Method A = Exec (Status × Outcome A)

-- A method that calls the client, and then does `f` with the status and the value.
abbrev pub call_then : {A B : Type 0} → Exec (Status × A) → (Status → A → Outcome B) → Method B
call_then m f = m >>= λ r. pure (r.0, f r.0 r.1)

-- `return s.ok();`
unfoldable pub ok_int : Status → ℤ
unfolding ok
ok_int s = if ok s then pos 1 else pos 0

unfoldable pub strlen : Bytes → ℕ
unfolding c_str
strlen s = length (c_str s)

-- `strcpy` into a block of so many bytes.
unfoldable pub strcpy : ℕ → Bytes → Outcome Bytes
unfolding strlen
strcpy block s = if ltb (strlen s) block then returned (c_str s) else overflow

-- The next string of a vector, before the others.
abbrev pub cons_string : Bytes → Outcome (List Bytes) → Outcome (List Bytes)
cons_string s overflow = overflow
cons_string s (returned ss) = returned (s ∷ ss)

-- The loop that fills `vec->ptr`, a block of `room` bytes, from slot `i` on: each string is copied
-- to a block of `cell` bytes, and its pointer takes 8 bytes.
unfoldable pub copy_strings : ℕ → (Bytes → ℕ) → ℕ → List Bytes → Outcome (List Bytes)
unfolding c_str strlen
copy_strings room cell i [] = returned []
copy_strings room cell i (v ∷ vs) =
    let rest = copy_strings room cell (suc i) vs in
    let slot : Outcome (List Bytes) =
      if ltb room ((i + 1) * 8) then overflow else cons_string (c_str v) rest in
    if ltb (strlen v) (cell v) then slot else overflow

abbrev pub vec_of : ℤ → Outcome (List Bytes) → Outcome (ℤ × Vec)
vec_of n overflow = overflow
vec_of n (returned ss) = returned (n, record { ptr = ss; count = length ss })

-- `malloc(n * vlen)`, in a `uint64_t`.
unfoldable pub block_size : ℕ → ℕ → ℕ
block_size n vlen = n * vlen % 2 ^ 64

-- `if(!n) n = d;`
unfoldable pub or_else : ℕ → ℕ → ℕ
or_else n d = if n == 0 then d else n

-- Strings in blocks of `vlen` bytes.
unfoldable pub fill_cells : ℕ → ℕ → Status → List Bytes → Outcome (ℤ × Vec)
unfolding copy_strings block_size ok_int
fill_cells n vlen s vs = vec_of (ok_int s) (copy_strings (block_size n vlen) (λ _. vlen) 0 vs)

-- Strings in blocks of `new char[strlen(tmp)]`.
unfoldable pub fill_tight : ℕ → ℕ → Status → List Bytes → Outcome (ℤ × Vec)
unfolding copy_strings block_size ok_int strlen
fill_tight n vlen s vs = vec_of (ok_int s) (copy_strings (block_size n vlen) strlen 0 vs)

-- The array of keys, up to `size` or to the first NULL.
unfoldable pub until_null : List (Option Bytes) → List Bytes
until_null [] = []
until_null (none ∷ ks) = []
until_null (some k ∷ ks) = k ∷ until_null ks

-- `operator<` of `std::string`.
unfoldable pub bytes_ltb : Bytes → Bytes → Bool
bytes_ltb s [] = false
bytes_ltb [] (d ∷ t) = true
bytes_ltb (c ∷ s) (d ∷ t) = let rest = bytes_ltb s t in if c == d then rest else ltb c d

-- `std::map::insert`, which keeps the value of a key that is there.
unfoldable pub map_insert : {A : Type 0} → Bytes → A → List (Bytes × A) → List (Bytes × A)
unfolding bytes_ltb
map_insert k a [] = (k, a) ∷ []
map_insert k a ((j, b) ∷ m) =
    let rest = map_insert k a m in
    if bytes_ltb k j
    then (k, a) ∷ (j, b) ∷ m
    else if bytes_ltb j k
    then (j, b) ∷ rest
    else (j, b) ∷ m

-- The loop of `multi_zset` on an array of pairs.
unfoldable pub insert_all : {A : Type 0} → List (Bytes × A) → List (Bytes × A) → List (Bytes × A)
unfolding map_insert
insert_all [] m = m
insert_all ((k, a) ∷ kas) m = insert_all kas (map_insert k a m)

-- The loop `for(i = 0; i < size; i += 2)` on `kvs[i]` and `kvs[i+1]`: an odd `size` reads behind
-- the array.
unfoldable pub insert_pairs : List Bytes → List (Bytes × Bytes) → Outcome (List (Bytes × Bytes))
unfolding map_insert
insert_pairs [] m = returned m
insert_pairs (k ∷ []) m = overflow
insert_pairs (k ∷ v ∷ kvs) m = insert_pairs kvs (map_insert k v m)
