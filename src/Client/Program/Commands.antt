-- ===== src/Client/Program/Commands.antt =====
-- Each command of a client is a call of its request, in the shape of its result.
use dbss.Common.{
  ◌≡◌, refl, ap, ◌≢◌, [], ◌∷◌, List, Bytes, Option, none, some, inl, inr, Bool-cases, if◌then◌else◌,
}
use dbss.Text.{ℤ, Errno, errno_after}
use dbss.Link.{Link}
use dbss.Link.Socket.{World}
use dbss.Client.Exchange.{connected}
use dbss.Buffer.{Memory}
use dbss.Client.{
  Status, status, ok, Exec, call, call_str, call_list, call_int64, read_int64, int64_result,
}
use dbss.Client.Program.{
  Shape, plain, text, number, listing, Old, Result, Command, request_of, exec, reads_number,
}
use dbss.Client.Program.{
  set, setx, get, del, incr, keys, scan, rscan, multi_get, multi_set, multi_del, hget, hset, hdel,
  hincr, hsize, hclear, hkeys, hgetall, hscan, hrscan, multi_hget, multi_hset, multi_hdel, zget,
  zset, zdel, zincr, zsize, zclear, zrank, zrrank, zrange, zrrange, zkeys, zscan, zrscan,
  multi_zget, multi_zset, multi_zdel, qpush, qpop, qslice,
}
use dbss.Client.Kv
use dbss.Client.Hash
use dbss.Client.Zset
use dbss.Client.Queue

pub request_of_some : {k : Shape} (c : Command k) → request_of c ≢ []
unfolding request_of
request_of_some (set a1 a2) = λ x. cc
request_of_some (setx a1 a2 i) = λ x. cc
request_of_some (get a) = λ x. cc
request_of_some (del a) = λ x. cc
request_of_some (incr a i) = λ x. cc
request_of_some (keys a1 a2 n) = λ x. cc
request_of_some (scan a1 a2 n) = λ x. cc
request_of_some (rscan a1 a2 n) = λ x. cc
request_of_some (multi_get ks) = λ x. cc
request_of_some (multi_set kvs) = λ x. cc
request_of_some (multi_del ks) = λ x. cc
request_of_some (hget a1 a2) = λ x. cc
request_of_some (hset a1 a2 a3) = λ x. cc
request_of_some (hdel a1 a2) = λ x. cc
request_of_some (hincr a1 a2 i) = λ x. cc
request_of_some (hsize a) = λ x. cc
request_of_some (hclear a) = λ x. cc
request_of_some (hkeys a1 a2 a3 n) = λ x. cc
request_of_some (hgetall a) = λ x. cc
request_of_some (hscan a1 a2 a3 n) = λ x. cc
request_of_some (hrscan a1 a2 a3 n) = λ x. cc
request_of_some (multi_hget a ks) = λ x. cc
request_of_some (multi_hset a kvs) = λ x. cc
request_of_some (multi_hdel a ks) = λ x. cc
request_of_some (zget a1 a2) = λ x. cc
request_of_some (zset a1 a2 i) = λ x. cc
request_of_some (zdel a1 a2) = λ x. cc
request_of_some (zincr a1 a2 i) = λ x. cc
request_of_some (zsize a) = λ x. cc
request_of_some (zclear a) = λ x. cc
request_of_some (zrank a1 a2) = λ x. cc
request_of_some (zrrank a1 a2) = λ x. cc
request_of_some (zrange a n1 n2) = λ x. cc
request_of_some (zrrange a n1 n2) = λ x. cc
request_of_some (zkeys a1 a2 o1 o2 n) = λ x. cc
request_of_some (zscan a1 a2 o1 o2 n) = λ x. cc
request_of_some (zrscan a1 a2 o1 o2 n) = λ x. cc
request_of_some (multi_zget a ks) = λ x. cc
request_of_some (multi_zset a kss) = λ x. cc
request_of_some (multi_zdel a ks) = λ x. cc
request_of_some (qpush a1 a2) = λ x. cc
request_of_some (qpop a) = λ x. cc
request_of_some (qslice a i1 i2) = λ x. cc

module _ ⦃m : Memory⦄ where
  abbrev pub call_of : (k : Shape) → List Bytes → Old k → Exec (Result k)
  call_of plain req old = call req
  call_of text req old = call_str req old
  call_of number req old = call_int64 req old
  call_of listing req old = call_list req old

  pub exec-call_of :
      {k : Shape} (c : Command k) (old : Old k) → exec c old ≡ call_of k (request_of c) old
  unfolding exec request_of Kv.set Kv.setx Kv.get Kv.del Kv.incr Kv.keys Kv.scan Kv.rscan
      Kv.multi_get Kv.multi_set Kv.multi_del Hash.hget Hash.hset Hash.hdel Hash.hincr Hash.hsize
      Hash.hclear Hash.hkeys Hash.hgetall Hash.hscan Hash.hrscan Hash.multi_hget Hash.multi_hset
      Hash.multi_hdel Zset.zget Zset.zset Zset.zdel Zset.zincr Zset.zsize Zset.zclear Zset.zrank
      Zset.zrrank Zset.zrange Zset.zrrange Zset.zkeys Zset.zscan Zset.zrscan Zset.multi_zget
      Zset.multi_zset Zset.multi_zdel Queue.qpush Queue.qpop Queue.qslice
  exec-call_of (set a1 a2) old = refl
  exec-call_of (setx a1 a2 i) old = refl
  exec-call_of (get a) old = refl
  exec-call_of (del a) old = refl
  exec-call_of (incr a i) old = refl
  exec-call_of (keys a1 a2 n) old = refl
  exec-call_of (scan a1 a2 n) old = refl
  exec-call_of (rscan a1 a2 n) old = refl
  exec-call_of (multi_get ks) old = refl
  exec-call_of (multi_set kvs) old = refl
  exec-call_of (multi_del ks) old = refl
  exec-call_of (hget a1 a2) old = refl
  exec-call_of (hset a1 a2 a3) old = refl
  exec-call_of (hdel a1 a2) old = refl
  exec-call_of (hincr a1 a2 i) old = refl
  exec-call_of (hsize a) old = refl
  exec-call_of (hclear a) old = refl
  exec-call_of (hkeys a1 a2 a3 n) old = refl
  exec-call_of (hgetall a) old = refl
  exec-call_of (hscan a1 a2 a3 n) old = refl
  exec-call_of (hrscan a1 a2 a3 n) old = refl
  exec-call_of (multi_hget a ks) old = refl
  exec-call_of (multi_hset a kvs) old = refl
  exec-call_of (multi_hdel a ks) old = refl
  exec-call_of (zget a1 a2) old = refl
  exec-call_of (zset a1 a2 i) old = refl
  exec-call_of (zdel a1 a2) old = refl
  exec-call_of (zincr a1 a2 i) old = refl
  exec-call_of (zsize a) old = refl
  exec-call_of (zclear a) old = refl
  exec-call_of (zrank a1 a2) old = refl
  exec-call_of (zrrank a1 a2) old = refl
  exec-call_of (zrange a n1 n2) old = refl
  exec-call_of (zrrange a n1 n2) old = refl
  exec-call_of (zkeys a1 a2 o1 o2 n) old = refl
  exec-call_of (zscan a1 a2 o1 o2 n) old = refl
  exec-call_of (zrscan a1 a2 o1 o2 n) old = refl
  exec-call_of (multi_zget a ks) old = refl
  exec-call_of (multi_zset a kss) old = refl
  exec-call_of (multi_zdel a ks) old = refl
  exec-call_of (qpush a1 a2) old = refl
  exec-call_of (qpop a) old = refl
  exec-call_of (qslice a i1 i2) old = refl

-- `errno` behind a read of a number.
unfoldable pub errno_of : Option (List Bytes) → Errno → Errno
unfolding ok errno_after
errno_of (some (c ∷ v ∷ _)) e = if ok (status c) then errno_after v e else e
errno_of _ e = e

read_int64_lem :
    (reply : Option (List Bytes)) (old : ℤ) (e : Errno)
    → read_int64 reply old e
      ≡ ((reads_number reply old).0, (reads_number reply old).1, errno_of reply e)
unfolding read_int64 reads_number errno_of
read_int64_lem none old e = refl
read_int64_lem (some []) old e = refl
read_int64_lem (some (c ∷ [])) old e = refl
read_int64_lem (some (c ∷ v ∷ vs)) old e = elim (Bool-cases (ok (status c))) [
  | inl is_ok ↦ rw is_ok refl
  | inr other ↦ rw other refl
]

module _ ⦃m : Memory⦄ where
  pub int64_result_lem :
      (reply : Option (List Bytes)) (old : ℤ) (l : Link) (resp : List Bytes) (w : World)
      → int64_result reply old (connected l resp w)
        ≡ some
            (reads_number reply old, connected l resp (record w { errno = errno_of reply w.errno }))
  unfolding int64_result
  int64_result_lem reply old l resp w =
      ap
        (λ (r : Status × ℤ × Errno). some ((r.0, r.1), connected l resp (record w { errno = r.2 })))
        (read_int64_lem reply old w.errno)
