-- ===== src/Dbss/Values.antt =====
-- src/DBSS.cc: the methods that return a number, or one value. `block` is the size of the caller's
-- block for a value; a number behind a pointer is the last argument and part of the result.
use dbss.Common.{ℕ, ◌+◌, Option, List, [], Bytes, length, ltb, if◌then◌else◌}
use dbss.Text.{ℤ, pos, negsuc, str_int}
use dbss.Buffer.{Memory}
use dbss.Client.{Status, status, ok, Exec, pure, ◌>>=◌}
use dbss.Client.Kv.{
  set as client_set, setx as client_setx, get as client_get, del as client_del, incr as client_incr,
  multi_set as client_multi_set, multi_del as client_multi_del,
}
use dbss.Client.Hash.{
  hset as client_hset, hdel as client_hdel, hincr as client_hincr, hsize as client_hsize,
  hclear as client_hclear, hget as client_hget, multi_hset as client_multi_hset,
  multi_hdel as client_multi_hdel,
}
use dbss.Client.Zset.{
  zset as client_zset, zdel as client_zdel, zincr as client_zincr, zsize as client_zsize,
  zclear as client_zclear, zget as client_zget, zrank as client_zrank, zrrank as client_zrrank,
  multi_zset as client_multi_zset, multi_zdel as client_multi_zdel,
}
use dbss.Client.Queue.{qpush as client_qpush, qpop as client_qpop}
use dbss.Dbss.{
  Outcome, returned, overflow, Method, call_then, ok_int, strcpy, until_null, insert_all,
  insert_pairs,
}

abbrev pub call_status : {B : Type 0} → Exec Status → (Status → Outcome B) → Method B
call_status m f = m >>= λ s. pure (s, f s)

-- The result of `set` and `setx`.
unfoldable pub one_or_minus_one : Status → ℤ
unfolding ok
one_or_minus_one s = if ok s then pos 1 else negsuc 0

-- `strcpy` of the value to the caller's block, whatever the status.
unfoldable pub copy_value : ℕ → Status → Bytes → Outcome (ℤ × Bytes)
unfolding strcpy ok_int
copy_value block s v = elim (strcpy block v) [
  | overflow ↦ overflow
  | returned t ↦ returned (ok_int s, t)
]

-- The call behind the loop on `kvs`, which does not come when the loop reads behind the array.
abbrev pub with_pairs :
    (List (Bytes × Bytes) → Exec Status) → (Status → ℤ) → Outcome (List (Bytes × Bytes)) → Method ℤ
with_pairs call f overflow = pure (status [], overflow)
with_pairs call f (returned kvs) = call_status (call kvs) (λ s. returned (f s))

-- `get` on `char val[255]`, which is empty before: `val[v.size() + 1] = 0`, then `strcpy`.
unfoldable pub get_value : Status → Bytes → Outcome Bytes
unfolding ok strcpy
get_value s v =
    let copied = if ltb (length v + 1) 255 then strcpy 255 v else overflow in
    if ok s then copied else returned []

-- The end of `DBSS_get`: `memset(v, 0, 255)` and `strcpy` on the caller's block.
unfoldable pub hand_out : ℕ → Outcome Bytes → Outcome (ℤ × Bytes)
hand_out block overflow = overflow
hand_out block (returned val) = if ltb block 255 then overflow else returned (pos 1, val)

module _ ⦃m : Memory⦄ where
  unfoldable pub set : Bytes → Bytes → Method ℤ
  unfolding one_or_minus_one client_set
  set key val = call_status (client_set key val) (λ s. returned (one_or_minus_one s))

  unfoldable pub setx : Bytes → Bytes → ℤ → Method ℤ
  unfolding one_or_minus_one client_setx
  setx key val ttl = call_status (client_setx key val ttl) (λ s. returned (one_or_minus_one s))

  -- `DBSS_seti`.
  unfoldable pub seti : Bytes → ℤ → Method ℤ
  unfolding set str_int
  seti key val = set key (str_int val)

  -- `DBSS_setxi`.
  unfoldable pub setxi : Bytes → ℤ → ℤ → Method ℤ
  unfolding setx str_int
  setxi key val ttl = setx key (str_int val) ttl

  -- `DBSS_get` with a block of `block` bytes for the value.
  unfoldable pub get : Bytes → ℕ → Method (ℤ × Bytes)
  unfolding get_value hand_out client_get
  get key block = call_then (client_get key []) (λ s v. hand_out block (get_value s v))

  unfoldable pub del : Bytes → Method ℤ
  unfolding ok_int client_del
  del key = call_status (client_del key) (λ s. returned (ok_int s))

  unfoldable pub hset : Bytes → Bytes → Bytes → Method ℤ
  unfolding ok_int client_hset
  hset name key val = call_status (client_hset name key val) (λ s. returned (ok_int s))

  unfoldable pub hdel : Bytes → Bytes → Method ℤ
  unfolding ok_int client_hdel
  hdel name key = call_status (client_hdel name key) (λ s. returned (ok_int s))

  unfoldable pub zset : Bytes → Bytes → ℤ → Method ℤ
  unfolding ok_int client_zset
  zset name key score = call_status (client_zset name key score) (λ s. returned (ok_int s))

  unfoldable pub zdel : Bytes → Bytes → Method ℤ
  unfolding ok_int client_zdel
  zdel name key = call_status (client_zdel name key) (λ s. returned (ok_int s))

  unfoldable pub qpush : Bytes → Bytes → Method ℤ
  unfolding ok_int client_qpush
  qpush key val = call_status (client_qpush key val) (λ s. returned (ok_int s))

  unfoldable pub incr : Bytes → ℤ → ℤ → Method (ℤ × ℤ)
  unfolding ok_int client_incr
  incr key incrby ret = call_then (client_incr key incrby ret) (λ s n. returned (ok_int s, n))

  unfoldable pub hincr : Bytes → Bytes → ℤ → ℤ → Method (ℤ × ℤ)
  unfolding ok_int client_hincr
  hincr name key incrby ret =
      call_then (client_hincr name key incrby ret) (λ s n. returned (ok_int s, n))

  unfoldable pub zincr : Bytes → Bytes → ℤ → ℤ → Method (ℤ × ℤ)
  unfolding ok_int client_zincr
  zincr name key incrby ret =
      call_then (client_zincr name key incrby ret) (λ s n. returned (ok_int s, n))

  unfoldable pub hsize : Bytes → ℤ → Method (ℤ × ℤ)
  unfolding ok_int client_hsize
  hsize name ret = call_then (client_hsize name ret) (λ s n. returned (ok_int s, n))

  unfoldable pub hclear : Bytes → ℤ → Method (ℤ × ℤ)
  unfolding ok_int client_hclear
  hclear name ret = call_then (client_hclear name ret) (λ s n. returned (ok_int s, n))

  unfoldable pub zsize : Bytes → ℤ → Method (ℤ × ℤ)
  unfolding ok_int client_zsize
  zsize name ret = call_then (client_zsize name ret) (λ s n. returned (ok_int s, n))

  unfoldable pub zclear : Bytes → ℤ → Method (ℤ × ℤ)
  unfolding ok_int client_zclear
  zclear name ret = call_then (client_zclear name ret) (λ s n. returned (ok_int s, n))

  unfoldable pub zget : Bytes → Bytes → ℤ → Method (ℤ × ℤ)
  unfolding ok_int client_zget
  zget name key ret = call_then (client_zget name key ret) (λ s n. returned (ok_int s, n))

  unfoldable pub zrank : Bytes → Bytes → ℤ → Method (ℤ × ℤ)
  unfolding ok_int client_zrank
  zrank name key ret = call_then (client_zrank name key ret) (λ s n. returned (ok_int s, n))

  unfoldable pub zrrank : Bytes → Bytes → ℤ → Method (ℤ × ℤ)
  unfolding ok_int client_zrrank
  zrrank name key ret = call_then (client_zrrank name key ret) (λ s n. returned (ok_int s, n))

  unfoldable pub hget : Bytes → Bytes → ℕ → Method (ℤ × Bytes)
  unfolding copy_value client_hget
  hget name key block = call_then (client_hget name key []) (copy_value block)

  unfoldable pub qpop : Bytes → ℕ → Method (ℤ × Bytes)
  unfolding copy_value client_qpop
  qpop key block = call_then (client_qpop key []) (copy_value block)

  unfoldable pub multi_set : List Bytes → Method ℤ
  unfolding insert_pairs client_multi_set
  multi_set kvs = with_pairs client_multi_set (λ s. pos 1) (insert_pairs kvs [])

  unfoldable pub multi_hset : Bytes → List Bytes → Method ℤ
  unfolding insert_pairs ok_int client_multi_hset
  multi_hset name kvs = with_pairs (client_multi_hset name) ok_int (insert_pairs kvs [])

  unfoldable pub multi_zset : Bytes → List (Bytes × ℤ) → Method ℤ
  unfolding insert_all ok_int client_multi_zset
  multi_zset name kss =
      call_status (client_multi_zset name (insert_all kss [])) (λ s. returned (ok_int s))

  unfoldable pub multi_del : List (Option Bytes) → Method ℤ
  unfolding ok_int until_null client_multi_del
  multi_del names = call_status (client_multi_del (until_null names)) (λ s. returned (ok_int s))

  unfoldable pub multi_hdel : Bytes → List (Option Bytes) → Method ℤ
  unfolding ok_int until_null client_multi_hdel
  multi_hdel name names =
      call_status (client_multi_hdel name (until_null names)) (λ s. returned (ok_int s))

  unfoldable pub multi_zdel : Bytes → List (Option Bytes) → Method ℤ
  unfolding ok_int until_null client_multi_zdel
  multi_zdel name names =
      call_status (client_multi_zdel name (until_null names)) (λ s. returned (ok_int s))
