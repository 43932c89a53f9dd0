-- ===== src/Dbss/Interface.antt =====
-- src/DBSS.cc: the functions `DBSS_…` of the C interface, which hand their arguments to the methods
-- of the class; `DBSS_get`, `DBSS_seti` and `DBSS_setxi` are with the methods. The arguments are in
-- the order of the C functions, without `this_`, the pointers that are written through, and the
-- sizes of arrays, which are lists here.
use dbss.Common.{ℕ, Option, List, Bytes}
use dbss.Text.{ℤ}
use dbss.Buffer.{Memory}
use dbss.Dbss.{Vec, Method}
use dbss.Link.Connect.{Kernel, Numbering}
use dbss.Dbss.Connect.{Handle, destroy, new_dbss}
use dbss.Dbss.Lists.{
  keys as dbss_keys, scan as dbss_scan, rscan as dbss_rscan, multi_get as dbss_multi_get,
  hkeys as dbss_hkeys, hgetall as dbss_hgetall, hscan as dbss_hscan, hrscan as dbss_hrscan,
  multi_hget as dbss_multi_hget, zrange as dbss_zrange, zrrange as dbss_zrrange,
  zkeys as dbss_zkeys, zscan as dbss_zscan, zrscan as dbss_zrscan, multi_zget as dbss_multi_zget,
}
use dbss.Dbss.Values.{
  set as dbss_set, setx as dbss_setx, del as dbss_del, incr as dbss_incr,
  multi_set as dbss_multi_set, multi_del as dbss_multi_del, hget as dbss_hget, hset as dbss_hset,
  hdel as dbss_hdel, hincr as dbss_hincr, hsize as dbss_hsize, hclear as dbss_hclear,
  multi_hset as dbss_multi_hset, multi_hdel as dbss_multi_hdel, zget as dbss_zget,
  zset as dbss_zset, zdel as dbss_zdel, zincr as dbss_zincr, zsize as dbss_zsize,
  zclear as dbss_zclear, zrank as dbss_zrank, zrrank as dbss_zrrank, multi_zset as dbss_multi_zset,
  multi_zdel as dbss_multi_zdel, qpush as dbss_qpush, qpop as dbss_qpop,
}

unfoldable pub gc : Handle → Kernel
unfolding destroy
gc h = destroy h

module _ ⦃n : Numbering⦄ where
  unfoldable pub new : Kernel → Handle
  unfolding new_dbss
  new k = new_dbss k

module _ ⦃m : Memory⦄ where
  unfoldable pub set : Bytes → Bytes → Method ℤ
  unfolding dbss_set
  set key val = dbss_set key val

  unfoldable pub setx : Bytes → Bytes → ℤ → Method ℤ
  unfolding dbss_setx
  setx key val ttl = dbss_setx key val ttl

  unfoldable pub keys : ℕ → ℕ → Bytes → Bytes → Method (ℤ × Vec)
  unfolding dbss_keys
  keys limit vlen key_start key_end = dbss_keys key_start key_end limit vlen

  unfoldable pub scan : ℕ → ℕ → Bytes → Bytes → Method (ℤ × Vec)
  unfolding dbss_scan
  scan limit vlen key_start key_end = dbss_scan key_start key_end limit vlen

  unfoldable pub rscan : ℕ → ℕ → Bytes → Bytes → Method (ℤ × Vec)
  unfolding dbss_rscan
  rscan limit vlen key_start key_end = dbss_rscan key_start key_end limit vlen

  unfoldable pub del : Bytes → Method ℤ
  unfolding dbss_del
  del key = dbss_del key

  unfoldable pub incr : Bytes → ℤ → ℤ → Method (ℤ × ℤ)
  unfolding dbss_incr
  incr key incrby ret = dbss_incr key incrby ret

  unfoldable pub multi_get : List (Option Bytes) → ℕ → Method (ℤ × Vec)
  unfolding dbss_multi_get
  multi_get names vlen = dbss_multi_get names vlen

  unfoldable pub multi_set : List Bytes → Method ℤ
  unfolding dbss_multi_set
  multi_set kvs = dbss_multi_set kvs

  unfoldable pub multi_del : List (Option Bytes) → Method ℤ
  unfolding dbss_multi_del
  multi_del names = dbss_multi_del names

  unfoldable pub hget : Bytes → Bytes → ℕ → Method (ℤ × Bytes)
  unfolding dbss_hget
  hget name key block = dbss_hget name key block

  unfoldable pub hset : Bytes → Bytes → Bytes → Method ℤ
  unfolding dbss_hset
  hset name key val = dbss_hset name key val

  unfoldable pub hdel : Bytes → Bytes → Method ℤ
  unfolding dbss_hdel
  hdel name key = dbss_hdel name key

  unfoldable pub hincr : Bytes → Bytes → ℤ → ℤ → Method (ℤ × ℤ)
  unfolding dbss_hincr
  hincr name key incrby ret = dbss_hincr name key incrby ret

  unfoldable pub hsize : Bytes → ℤ → Method (ℤ × ℤ)
  unfolding dbss_hsize
  hsize name ret = dbss_hsize name ret

  unfoldable pub hclear : Bytes → ℤ → Method (ℤ × ℤ)
  unfolding dbss_hclear
  hclear name ret = dbss_hclear name ret

  unfoldable pub hkeys : Bytes → ℕ → ℕ → Bytes → Bytes → Method (ℤ × Vec)
  unfolding dbss_hkeys
  hkeys name limit vlen key_start key_end = dbss_hkeys name key_start key_end limit vlen

  unfoldable pub hgetall : Bytes → Method (ℤ × Vec)
  unfolding dbss_hgetall
  hgetall name = dbss_hgetall name

  unfoldable pub hscan : Bytes → ℕ → ℕ → Bytes → Bytes → Method (ℤ × Vec)
  unfolding dbss_hscan
  hscan name limit vlen key_start key_end = dbss_hscan name key_start key_end limit vlen

  unfoldable pub hrscan : Bytes → ℕ → ℕ → Bytes → Bytes → Method (ℤ × Vec)
  unfolding dbss_hrscan
  hrscan name limit vlen key_start key_end = dbss_hrscan name key_start key_end limit vlen

  unfoldable pub multi_hget : Bytes → List (Option Bytes) → ℕ → Method (ℤ × Vec)
  unfolding dbss_multi_hget
  multi_hget name names vlen = dbss_multi_hget name names vlen

  unfoldable pub multi_hset : Bytes → List Bytes → Method ℤ
  unfolding dbss_multi_hset
  multi_hset name kvs = dbss_multi_hset name kvs

  unfoldable pub multi_hdel : Bytes → List (Option Bytes) → Method ℤ
  unfolding dbss_multi_hdel
  multi_hdel name names = dbss_multi_hdel name names

  unfoldable pub zget : Bytes → Bytes → ℤ → Method (ℤ × ℤ)
  unfolding dbss_zget
  zget name key ret = dbss_zget name key ret

  unfoldable pub zset : Bytes → Bytes → ℤ → Method ℤ
  unfolding dbss_zset
  zset name key score = dbss_zset name key score

  unfoldable pub zdel : Bytes → Bytes → Method ℤ
  unfolding dbss_zdel
  zdel name key = dbss_zdel name key

  unfoldable pub zincr : Bytes → Bytes → ℤ → ℤ → Method (ℤ × ℤ)
  unfolding dbss_zincr
  zincr name key incrby ret = dbss_zincr name key incrby ret

  unfoldable pub zsize : Bytes → ℤ → Method (ℤ × ℤ)
  unfolding dbss_zsize
  zsize name ret = dbss_zsize name ret

  unfoldable pub zclear : Bytes → ℤ → Method (ℤ × ℤ)
  unfolding dbss_zclear
  zclear name ret = dbss_zclear name ret

  unfoldable pub zrank : Bytes → Bytes → ℤ → Method (ℤ × ℤ)
  unfolding dbss_zrank
  zrank name key ret = dbss_zrank name key ret

  unfoldable pub zrrank : Bytes → Bytes → ℤ → Method (ℤ × ℤ)
  unfolding dbss_zrrank
  zrrank name key ret = dbss_zrrank name key ret

  unfoldable pub zrange : Bytes → ℕ → ℕ → ℕ → Method (ℤ × Vec)
  unfolding dbss_zrange
  zrange name offset limit vlen = dbss_zrange name offset limit vlen

  unfoldable pub zrrange : Bytes → ℕ → ℕ → ℕ → Method (ℤ × Vec)
  unfolding dbss_zrrange
  zrrange name offset limit vlen = dbss_zrrange name offset limit vlen

  unfoldable pub zkeys : Bytes → Bytes → ℤ → ℤ → ℕ → ℕ → Method (ℤ × Vec)
  unfolding dbss_zkeys
  zkeys name key_start score_start score_end limit vlen =
      dbss_zkeys name key_start score_start score_end limit vlen

  unfoldable pub zscan : Bytes → Bytes → ℤ → ℤ → ℕ → ℕ → Method (ℤ × Vec)
  unfolding dbss_zscan
  zscan name key_start score_start score_end limit vlen =
      dbss_zscan name key_start score_start score_end limit vlen

  unfoldable pub zrscan : Bytes → Bytes → ℤ → ℤ → ℕ → ℕ → Method (ℤ × Vec)
  unfolding dbss_zrscan
  zrscan name key_start score_start score_end limit vlen =
      dbss_zrscan name key_start score_start score_end limit vlen

  unfoldable pub multi_zget : Bytes → List (Option Bytes) → ℕ → Method (ℤ × Vec)
  unfolding dbss_multi_zget
  multi_zget name names vlen = dbss_multi_zget name names vlen

  unfoldable pub multi_zset : Bytes → List (Bytes × ℤ) → Method ℤ
  unfolding dbss_multi_zset
  multi_zset name kss = dbss_multi_zset name kss

  unfoldable pub multi_zdel : Bytes → List (Option Bytes) → Method ℤ
  unfolding dbss_multi_zdel
  multi_zdel name names = dbss_multi_zdel name names

  unfoldable pub qpush : Bytes → Bytes → Method ℤ
  unfolding dbss_qpush
  qpush key val = dbss_qpush key val

  unfoldable pub qpop : Bytes → ℕ → Method (ℤ × Bytes)
  unfolding dbss_qpop
  qpop key block = dbss_qpop key block
