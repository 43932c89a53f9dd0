-- ===== src/Tests/Connecting.antt =====
-- Connections that a kernel grants and refuses.
use dbss.Common.{refl, ℕ, suc, ◌≡◌, ◌≤◌, false, List, [], ◌∷◌, codes, ltb, if◌then◌else◌, arith}
use dbss.Text.{pos}
use dbss.Link.Connect.{
  Numbering, Kernel, succeeds, fails, interrupted, contains, connect, listen, accept,
}
use dbss.Link.Connect.Descriptors.{Opens, links-Opens}
use dbss.Dbss.Connect.{destroy, new_dbss, connect as dbss_connect, descriptors_left}

-- The number behind the largest open one.
abbrev pub next_number : List ℕ → ℕ
next_number [] = 3
next_number (x ∷ xs) = let n = next_number xs in if ltb x n then n else suc x

pub above_unused : (fd : ℕ) (fds : List ℕ) → next_number fds ≤ fd → contains fd fds ≡ false
above_unused fd [] h = refl
above_unused fd (x ∷ xs) h = ground (arith, above_unused fd xs)

instance abbrev pub numbering : Numbering
numbering = record {
  fresh = next_number;
  fresh_unused = λ fds. above_unused (next_number fds) fds (omega arith);
}

-- `connect` is refused once, and granted later.
abbrev some_kernel : Kernel
some_kernel = record { open_fds = 4 ∷ 0 ∷ []; answers = interrupted ∷ succeeds ∷ fails ∷ [] }

links-Opens_example :
    Opens (4 ∷ 0 ∷ []) (connect some_kernel)
    × Opens (4 ∷ 0 ∷ []) (listen (codes "::1") (pos 8888) some_kernel)
    × Opens (4 ∷ 0 ∷ []) (accept (codes "::1") (pos 8888) some_kernel)
links-Opens_example = links-Opens (codes "::1") (pos 8888) some_kernel

abbrev pub granting : Kernel
granting = record { open_fds = 0 ∷ []; answers = [] }

descriptors_left_example :
    ((destroy (new_dbss granting)).open_fds ≡ 0 ∷ [])
    × ((destroy (dbss_connect (new_dbss granting)).1).open_fds
        ≡ (new_dbss granting).kernel.open_fds)
descriptors_left_example = descriptors_left granting

reconnect_leaks : (destroy (dbss_connect (new_dbss granting)).1).open_fds ≡ 3 ∷ 0 ∷ []
unfolding destroy dbss_connect new_dbss
reconnect_leaks = refl
