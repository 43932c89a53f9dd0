-- ===== src/Client/Kv.antt =====
-- src/SSDB_impl.cpp: the commands on keys. A list or a value that the code writes through a pointer
-- is the last argument and part of the result; a `std::map` is its pairs in key order.
use dbss.Common.{ℕ, List, [], ◌∷◌, Bytes, codes}
use dbss.Text.{ℤ, str_int, str_nat}
use dbss.Buffer.{Memory}
use dbss.Client.{Status, Exec, call, call_str, call_list, call_int64, flat_pairs}

module _ ⦃m : Memory⦄ where
  unfoldable pub get : Bytes → Bytes → Exec (Status × Bytes)
  unfolding call_str
  get key val = call_str (codes "get" ∷ key ∷ []) val

  unfoldable pub set : Bytes → Bytes → Exec Status
  unfolding call
  set key val = call (codes "set" ∷ key ∷ val ∷ [])

  unfoldable pub setx : Bytes → Bytes → ℤ → Exec Status
  unfolding call str_int
  setx key val ttl = call (codes "setx" ∷ key ∷ val ∷ str_int ttl ∷ [])

  unfoldable pub del : Bytes → Exec Status
  unfolding call
  del key = call (codes "del" ∷ key ∷ [])

  unfoldable pub incr : Bytes → ℤ → ℤ → Exec (Status × ℤ)
  unfolding call_int64 str_int
  incr key incrby ret = call_int64 (codes "incr" ∷ key ∷ str_int incrby ∷ []) ret

  unfoldable pub keys : Bytes → Bytes → ℕ → List Bytes → Exec (Status × List Bytes)
  unfolding call_list str_nat
  keys key_start key_end limit ret =
      call_list (codes "keys" ∷ key_start ∷ key_end ∷ str_nat limit ∷ []) ret

  unfoldable pub scan : Bytes → Bytes → ℕ → List Bytes → Exec (Status × List Bytes)
  unfolding call_list str_nat
  scan key_start key_end limit ret =
      call_list (codes "scan" ∷ key_start ∷ key_end ∷ str_nat limit ∷ []) ret

  unfoldable pub rscan : Bytes → Bytes → ℕ → List Bytes → Exec (Status × List Bytes)
  unfolding call_list str_nat
  rscan key_start key_end limit ret =
      call_list (codes "rscan" ∷ key_start ∷ key_end ∷ str_nat limit ∷ []) ret

  unfoldable pub multi_get : List Bytes → List Bytes → Exec (Status × List Bytes)
  unfolding call_list
  multi_get names ret = call_list (codes "multi_get" ∷ names) ret

  unfoldable pub multi_set : List (Bytes × Bytes) → Exec Status
  unfolding call flat_pairs
  multi_set kvs = call (codes "multi_set" ∷ flat_pairs kvs)

  unfoldable pub multi_del : List Bytes → Exec Status
  unfolding call
  multi_del names = call (codes "multi_del" ∷ names)
