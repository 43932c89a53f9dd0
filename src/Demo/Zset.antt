-- ===== src/Demo/Zset.antt =====
-- src/demo.cpp: the third block of `main`, on sorted sets.
use dbss.Common.{◌++◌, not, ◌&&◌, none, some, [], ◌∷◌, Bytes, codes, length, leb}
use dbss.Text.{ℤ, pos, negsuc, str_int, to_word, of_word}
use dbss.Text.{c_str}
use dbss.Client.{ok, not_found}
use dbss.Client.Program.{
  zset, zget, zdel, zsize, zincr, zkeys, zrange, zrrange, zscan, zrscan, multi_zset, multi_zget,
  multi_zdel, zrank, zrrank, zclear,
}
use dbss.Demo.{Script, pure, ◌>>=◌, ◌>>◌, on_client, print, check, key, int_eq, pairs_text}
use dbss.Demo

-- `printf("%s = %d\n", key.c_str(), (int)score)`.
unfoldable pub score_line : Bytes → ℤ → Bytes
unfolding c_str str_int
score_line k score = c_str k ++ codes " = " ++ str_int (of_word 32 (to_word 32 score)) ++ codes "\n"

-- `score` starts with an indeterminate value. The results of three `zset`s, of `zrank` and of
-- `zrrank` are dropped: the assertions behind the last two test the status of `multi_zdel`.
unfoldable pub zset_block : ℤ → Script Unit
unfolding ok not_found check pairs_text score_line
zset_block score = do
  print (codes "\n ============zset:\n")
  s ← on_client (zset Demo.zset key (pos 100)) tt
  check (ok s)
  print (codes "\n ============zget:\n")
  (s, score) ← on_client (zget Demo.zset key) score
  check (ok s && int_eq score (pos 100))
  print (score_line key score)
  print (codes "\n ============zdel:\n")
  s ← on_client (zdel Demo.zset key) tt
  check (ok s)
  print (codes "\n ============zget:\n")
  (s, score) ← on_client (zget Demo.zset key) score
  check (not_found s)
  print (codes "\n ============zsize:\n")
  (s, ret) ← on_client (zsize Demo.zset) (negsuc 0)
  check (ok s && not (int_eq ret (negsuc 0)))
  print (codes "\n ============zincr:\n")
  (s, ret) ← on_client (zincr Demo.zset key (pos 3)) ret
  check (ok s && int_eq ret (pos 3))
  (s, ret) ← on_client (zincr Demo.zset key (negsuc 0)) ret
  check (ok s && int_eq ret (pos 2))
  print (codes "\n ============zset:\n")
  on_client (zset Demo.zset (codes "a") (negsuc 0)) tt
  on_client (zset Demo.zset (codes "b") (pos 3)) tt
  on_client (zset Demo.zset (codes "c") (pos 4)) tt
  print (codes "\n ============zkeys:\n")
  (s, list) ← on_client (zkeys Demo.zset [] none (some (pos 90)) 2) []
  check (ok s && leb (length list) 2)
  print (codes "\n ============zrange:\n")
  (s, list) ← on_client (zrange Demo.zset 0 2) []
  check (ok s && leb (length list) 4)
  print (codes "\n ============zrrange:\n")
  (s, list) ← on_client (zrrange Demo.zset 0 2) []
  check (ok s && leb (length list) 4)
  print (codes "\n ============zscan:\n")
  (s, list) ← on_client (zscan Demo.zset [] none (some (pos 90)) 2) []
  check (ok s && leb (length list) 4)
  print (pairs_text 0 list)
  print (codes "\n ============zrscan:\n")
  (s, list) ← on_client (zrscan Demo.zset [] (some (pos 90)) none 2) []
  check (ok s && leb (length list) 4)
  print (pairs_text 0 list)
  print (codes "\n ============multi_zset:\n")
  s ← on_client (multi_zset Demo.zset ((codes "k1", pos 123) ∷ (codes "k2", pos 124) ∷ [])) tt
  check (ok s)
  print (codes "\n ============multi_zget:\n")
  (s, list) ← on_client (multi_zget Demo.zset (codes "k1" ∷ codes "k2" ∷ [])) []
  check (ok s)
  print (pairs_text 0 list)
  print (codes "\n ============multi_zdel:\n")
  s ← on_client (multi_zdel Demo.zset (codes "k1" ∷ codes "k2" ∷ [])) tt
  check (ok s)
  print (codes "\n")
  (_, rank) ← on_client (zrank Demo.zset (codes "b")) (negsuc 0)
  check (ok s && not (int_eq rank (negsuc 0)))
  (_, rank) ← on_client (zrrank Demo.zset (codes "b")) rank
  check (ok s && not (int_eq rank (negsuc 0)))
  print (codes "\n ============multi_zclear:\n")
  (s, ret) ← on_client (zclear Demo.zset) (negsuc 0)
  check (ok s && not (int_eq ret (negsuc 0)))
  pure tt
