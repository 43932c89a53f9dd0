-- ===== src/Demo/Hash.antt =====
-- src/demo.cpp: the second block of `main`, on hashes.
use dbss.Common.{not, ◌&&◌, [], ◌∷◌, Bytes, bytes_eq, codes, length, leb}
use dbss.Text.{pos, negsuc}
use dbss.Client.{ok, not_found}
use dbss.Client.Program.{
  hset, hget, hdel, hsize, hincr, hkeys, hscan, hrscan, multi_hset, multi_hget, hgetall, multi_hdel,
  hclear,
}
use dbss.Demo.{
  Script, pure, ◌>>=◌, ◌>>◌, on_client, print, check, hash, key, test_val, int_eq, pairs_text,
  equation_text,
}

-- The result is `val`.
unfoldable pub hash_block : Bytes → Script Bytes
unfolding ok not_found check pairs_text equation_text
hash_block val = do
  s ← on_client (hset hash key (codes "test_val")) tt
  check (ok s)
  (s, val) ← on_client (hget hash key) val
  check (ok s && bytes_eq val test_val)
  print (equation_text key val)
  s ← on_client (hdel hash key) tt
  check (ok s)
  (s, val) ← on_client (hget hash key) val
  check (not_found s)
  (s, ret) ← on_client (hsize hash) (negsuc 0)
  check (ok s && not (int_eq ret (negsuc 0)))
  (s, ret) ← on_client (hincr hash key (pos 3)) ret
  check (ok s && int_eq ret (pos 3))
  (s, ret) ← on_client (hincr hash key (negsuc 0)) ret
  check (ok s && int_eq ret (pos 2))
  (s, list) ← on_client (hkeys hash [] [] 2) []
  check (ok s && leb (length list) 2)
  (s, list) ← on_client (hscan hash [] [] 2) []
  check (ok s && leb (length list) 4)
  print (pairs_text 0 list)
  print (codes "\n ============hrscan:\n")
  (s, list) ← on_client (hrscan hash [] [] 2) []
  check (ok s && leb (length list) 4)
  print (pairs_text 0 list)
  print (codes "\n ============multi_hset:\n")
  s ← on_client (multi_hset hash ((codes "k1", codes "v1") ∷ (codes "k2", codes "v2") ∷ [])) tt
  check (ok s)
  print (codes "\n ============multi_hget:\n")
  (s, list) ← on_client (multi_hget hash (codes "k1" ∷ codes "k2" ∷ [])) []
  check (ok s)
  print (pairs_text 0 list)
  print (codes "\n ============hgetall:\n")
  (s, list) ← on_client (hgetall hash) []
  print (pairs_text 0 list)
  print (codes "\n ============hdel:\n")
  s ← on_client (multi_hdel hash (codes "k1" ∷ codes "k2" ∷ [])) tt
  check (ok s)
  print (codes "\n")
  (s, ret) ← on_client (hclear hash) (negsuc 0)
  check (ok s && not (int_eq ret (negsuc 0)))
  pure val
