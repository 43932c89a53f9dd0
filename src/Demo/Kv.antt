-- ===== src/Demo/Kv.antt =====
-- src/demo.cpp: the first block of `main`, on keys.
use dbss.Common.{◌&&◌, [], ◌∷◌, Bytes, bytes_eq, codes, length, leb}
use dbss.Text.{ℤ, pos, negsuc}
use dbss.Client.{ok, not_found}
use dbss.Client.Program.{
  setx, set, get, del, incr, keys, scan, rscan, multi_set, multi_get, multi_del,
}
use dbss.Demo.{
  Script, pure, ◌>>=◌, ◌>>◌, on_client, print, check, key, test_val, int_eq, pairs_text,
  equation_text,
}

-- `ret` starts with an indeterminate value. The result is `val`.
unfoldable pub kv_block : ℤ → Bytes → Script Bytes
unfolding ok not_found check pairs_text equation_text
kv_block ret val = do
  s ← on_client (setx key (codes "test_val") (pos 3)) tt
  check (ok s)
  s ← on_client (set key (codes "test_val")) tt
  check (ok s)
  (s, val) ← on_client (get key) val
  check (ok s && bytes_eq val test_val)
  print (equation_text key val)
  s ← on_client (del key) tt
  check (ok s)
  (s, val) ← on_client (get key) val
  check (not_found s)
  (s, ret) ← on_client (incr key (pos 3)) ret
  check (ok s && int_eq ret (pos 3))
  (s, ret) ← on_client (incr key (negsuc 0)) ret
  check (ok s && int_eq ret (pos 2))
  (s, list) ← on_client (keys [] [] 2) []
  check (ok s && leb (length list) 2)
  (s, list) ← on_client (scan [] [] 2) []
  check (ok s && leb (length list) 4)
  print (pairs_text 0 list)
  print (codes "\n")
  (s, list) ← on_client (rscan [] [] 2) []
  check (ok s && leb (length list) 4)
  print (pairs_text 0 list)
  print (codes "\n")
  s ← on_client (multi_set ((codes "k1", codes "v1") ∷ (codes "k2", codes "v2") ∷ [])) tt
  check (ok s)
  (s, list) ← on_client (multi_get (codes "k1" ∷ codes "k2" ∷ [])) []
  check (ok s)
  print (pairs_text 0 list)
  s ← on_client (multi_del (codes "k1" ∷ codes "k2" ∷ [])) tt
  check (ok s)
  print (codes "\n")
  pure val
