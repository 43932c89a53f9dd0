-- ===== src/Client/Hash.antt =====
-- src/SSDB_impl.cpp: the commands on hashes. A list or a value that the code writes through a
-- pointer is the last argument and part of the result; a `std::map` is its pairs in key order.
use dbss.Common.{ℕ, List, [], ◌∷◌, Bytes, codes}
use dbss.Text.{ℤ, str_int, str_nat}
use dbss.Buffer.{Memory}
use dbss.Client.{Status, Exec, call, call_str, call_list, call_int64, flat_pairs}

module _ ⦃m : Memory⦄ where
  unfoldable pub hget : Bytes → Bytes → Bytes → Exec (Status × Bytes)
  unfolding call_str
  hget name key val = call_str (codes "hget" ∷ name ∷ key ∷ []) val

  unfoldable pub hset : Bytes → Bytes → Bytes → Exec Status
  unfolding call
  hset name key val = call (codes "hset" ∷ name ∷ key ∷ val ∷ [])

  unfoldable pub hdel : Bytes → Bytes → Exec Status
  unfolding call
  hdel name key = call (codes "hdel" ∷ name ∷ key ∷ [])

  unfoldable pub hincr : Bytes → Bytes → ℤ → ℤ → Exec (Status × ℤ)
  unfolding call_int64 str_int
  hincr name key incrby ret = call_int64 (codes "hincr" ∷ name ∷ key ∷ str_int incrby ∷ []) ret

  unfoldable pub hsize : Bytes → ℤ → Exec (Status × ℤ)
  unfolding call_int64
  hsize name ret = call_int64 (codes "hsize" ∷ name ∷ []) ret

  unfoldable pub hclear : Bytes → ℤ → Exec (Status × ℤ)
  unfolding call_int64
  hclear name ret = call_int64 (codes "hclear" ∷ name ∷ []) ret

  unfoldable pub hkeys : Bytes → Bytes → Bytes → ℕ → List Bytes → Exec (Status × List Bytes)
  unfolding call_list str_nat
  hkeys name key_start key_end limit ret =
      call_list (codes "hkeys" ∷ name ∷ key_start ∷ key_end ∷ str_nat limit ∷ []) ret

  unfoldable pub hgetall : Bytes → List Bytes → Exec (Status × List Bytes)
  unfolding call_list
  hgetall name ret = call_list (codes "hgetall" ∷ name ∷ []) ret

  unfoldable pub hscan : Bytes → Bytes → Bytes → ℕ → List Bytes → Exec (Status × List Bytes)
  unfolding call_list str_nat
  hscan name key_start key_end limit ret =
      call_list (codes "hscan" ∷ name ∷ key_start ∷ key_end ∷ str_nat limit ∷ []) ret

  unfoldable pub hrscan : Bytes → Bytes → Bytes → ℕ → List Bytes → Exec (Status × List Bytes)
  unfolding call_list str_nat
  hrscan name key_start key_end limit ret =
      call_list (codes "hrscan" ∷ name ∷ key_start ∷ key_end ∷ str_nat limit ∷ []) ret

  unfoldable pub multi_hget : Bytes → List Bytes → List Bytes → Exec (Status × List Bytes)
  unfolding call_list
  multi_hget name names ret = call_list (codes "multi_hget" ∷ name ∷ names) ret

  unfoldable pub multi_hset : Bytes → List (Bytes × Bytes) → Exec Status
  unfolding call flat_pairs
  multi_hset name kvs = call (codes "multi_hset" ∷ name ∷ flat_pairs kvs)

  unfoldable pub multi_hdel : Bytes → List Bytes → Exec Status
  unfolding call
  multi_hdel name names = call (codes "multi_hdel" ∷ name ∷ names)
