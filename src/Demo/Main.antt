-- ===== src/Demo/Main.antt =====
-- src/demo.cpp: `main`.
use dbss.Common.{Bool, List, [], ◌∷◌, ◌++◌, Bytes, codes, if◌then◌else◌}
use dbss.Text.{ℤ, pos, str_to_int}
use dbss.Text.{c_str}
use dbss.Client.Program.{Program, finish}
use dbss.Demo.{Outcome, returned, Script, ◌>>=◌, ◌>>◌, print}
use dbss.Demo.Kv.{kv_block}
use dbss.Demo.Hash.{hash_block}
use dbss.Demo.Zset.{zset_block}
use dbss.Demo.Queue.{queue_block}

-- The address and the port, from the arguments behind the program's name. `atoi` is read as
-- `str_to_int`.
unfoldable pub endpoint : List Bytes → Bytes × ℤ
unfolding str_to_int
endpoint [] = (codes "127.0.0.1", pos 8888)
endpoint (ip ∷ []) = (ip, pos 8888)
endpoint (ip ∷ port ∷ _) = (ip, str_to_int port)

-- The blocks behind `connect`; `ret` and `score` are indeterminate.
unfoldable pub blocks : ℤ → ℤ → Script Unit
unfolding kv_block hash_block zset_block queue_block
blocks ret score = do
  print (codes "\n")
  val ← kv_block ret []
  print (codes "\n")
  val ← hash_block val
  print (codes "\n")
  zset_block score
  print (codes "\n")
  queue_block val []

-- `main` with the program's name, where `connected` is the result of `connect` on the endpoint: a
-- failed one prints a line of its own.
unfoldable pub main : Bytes → Bool → ℤ → ℤ → Program Outcome
unfolding blocks c_str
main name connected ret score =
    let usage = codes "Usage: " ++ c_str name ++ codes " [ip] [port]\n" in
    if connected
    then blocks ret score (λ _ out. finish (returned 0 out)) usage
    else finish
        (returned 0 (usage ++ codes "connect failed\n" ++ codes "fail to connect to server!\n"))
