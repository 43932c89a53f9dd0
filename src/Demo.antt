-- ===== src/Demo.antt =====
-- src/demo.cpp: the demonstration program, as a program of client commands that prints and asserts.
-- `Kv`, `Hash`, `Zset` and `Queue` are the blocks of `main` in order, and `Main` is `main` itself.
-- What is not modelled is `readline`, which nothing calls.
pub mod Kv
pub mod Hash
pub mod Zset
pub mod Queue
pub mod Main
pub mod Sends
pub mod Runs
use dbss.Common.{
  ℕ, suc, ◌+◌, ◌%◌, Bool, true, false, List, [], ◌∷◌, ◌++◌, Bytes, codes, if◌then◌else◌, ◌==◌,
}
use dbss.Text.{ℤ, pos, negsuc}
use dbss.Text.{c_str}
use dbss.Client.Program.{Shape, Old, Result, Command, Program, finish, perform}

-- How `main` ends, with what was printed: it returns a number, or an assertion fails and the
-- program is aborted.
pub data Outcome : Type 0 where
  returned : ℕ → Bytes → Outcome
  aborted : Bytes → Outcome

-- A statement, before the rest of the program and with the text that was printed so far.
abbrev pub Script : Type 0 → Type 0
Script A = (A → Bytes → Program Outcome) → Bytes → Program Outcome

abbrev pub pure : {A : Type 0} → A → Script A
pure a rest out = rest a out

infixl 5 ◌>>=◌ ◌>>◌
abbrev pub ◌>>=◌ : {A B : Type 0} → Script A → (A → Script B) → Script B
◌>>=◌ m f rest out = m (λ a. f a rest) out

abbrev pub ◌>>◌ : {A B : Type 0} → Script A → Script B → Script B
m >> n = m >>= λ _. n

abbrev pub on_client : {k : Shape} → Command k → Old k → Script (Result k)
on_client c old rest out = perform c old (λ r. rest r out)

-- `printf` of the text.
abbrev pub print : Bytes → Script Unit
print t rest out = rest tt (out ++ t)

-- `assert`.
unfoldable pub check : Bool → Script Unit
check b rest out = if b then rest tt out else finish (aborted out)

-- The variables of `main` that are never assigned again.
abbrev pub hash : Bytes
hash = codes "h"

abbrev pub zset : Bytes
zset = codes "z"

abbrev pub key : Bytes
key = codes "k"

abbrev pub test_val : Bytes
test_val = codes "test_val"

abbrev pub int_eq : ℤ → ℤ → Bool
int_eq (pos m) (pos n) = m == n
int_eq (negsuc m) (negsuc n) = m == n
int_eq _ _ = false

-- The loop that prints keys and values, from the index `i`.
unfoldable pub pairs_text : ℕ → List Bytes → Bytes
unfolding c_str
pairs_text i [] = []
pairs_text i (x ∷ xs) =
    (if i % 2 == 0 then c_str x ++ codes "=" else c_str x ++ codes ", ") ++ pairs_text (suc i) xs

-- `printf("%s = %s\n", …)`.
unfoldable pub equation_text : Bytes → Bytes → Bytes
unfolding c_str
equation_text k v = c_str k ++ codes " = " ++ c_str v ++ codes "\n"
