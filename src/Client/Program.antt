-- ===== src/Client/Program.antt =====
-- src/SSDB_impl.h: the commands of a client as data, and programs of them. `request_of` is the
-- request of each command, `exec` runs it on the client.
pub mod Commands
pub mod Refines
use dbss.Common.{ℕ, ◌≤◌, Option, none, some, List, [], ◌∷◌, Bytes, codes, length, if◌then◌else◌}
use dbss.Text.{ℤ, str_int, str_nat, str_to_int64}
use dbss.Buffer.{Memory}
use dbss.Link.{max_packet_size}
use dbss.Link.Parse.{packet_bytes}
use dbss.Client.{
  Status, status, read_list, read_str, status_of, ok, Exec, pure, ◌>>=◌, flat_pairs, call, call_str,
  call_list, call_int64,
}
use dbss.Client.Zset.{flat_scores, score_text}
use dbss.Client.Conversation.{Server, ask}
use dbss.Client.Kv
use dbss.Client.Hash
use dbss.Client.Zset
use dbss.Client.Queue

-- What a command gives beside its status: nothing, a text, a number, or the items of a list.
pub data Shape : Type 0 where
  plain text number listing : Shape

-- The caller's value that a command may replace.
abbrev pub Old : Shape → Type 0
Old plain = Unit
Old text = Bytes
Old number = ℤ
Old listing = List Bytes

abbrev pub Result : Shape → Type 0
Result plain = Status
Result text = Status × Bytes
Result number = Status × ℤ
Result listing = Status × List Bytes

pub data Command : Shape → Type 0 where
  set : Bytes → Bytes → Command plain
  setx : Bytes → Bytes → ℤ → Command plain
  get : Bytes → Command text
  del : Bytes → Command plain
  incr : Bytes → ℤ → Command number
  keys : Bytes → Bytes → ℕ → Command listing
  scan : Bytes → Bytes → ℕ → Command listing
  rscan : Bytes → Bytes → ℕ → Command listing
  multi_get : List Bytes → Command listing
  multi_set : List (Bytes × Bytes) → Command plain
  multi_del : List Bytes → Command plain
  hget : Bytes → Bytes → Command text
  hset : Bytes → Bytes → Bytes → Command plain
  hdel : Bytes → Bytes → Command plain
  hincr : Bytes → Bytes → ℤ → Command number
  hsize : Bytes → Command number
  hclear : Bytes → Command number
  hkeys : Bytes → Bytes → Bytes → ℕ → Command listing
  hgetall : Bytes → Command listing
  hscan : Bytes → Bytes → Bytes → ℕ → Command listing
  hrscan : Bytes → Bytes → Bytes → ℕ → Command listing
  multi_hget : Bytes → List Bytes → Command listing
  multi_hset : Bytes → List (Bytes × Bytes) → Command plain
  multi_hdel : Bytes → List Bytes → Command plain
  zget : Bytes → Bytes → Command number
  zset : Bytes → Bytes → ℤ → Command plain
  zdel : Bytes → Bytes → Command plain
  zincr : Bytes → Bytes → ℤ → Command number
  zsize : Bytes → Command number
  zclear : Bytes → Command number
  zrank : Bytes → Bytes → Command number
  zrrank : Bytes → Bytes → Command number
  zrange : Bytes → ℕ → ℕ → Command listing
  zrrange : Bytes → ℕ → ℕ → Command listing
  zkeys : Bytes → Bytes → Option ℤ → Option ℤ → ℕ → Command listing
  zscan : Bytes → Bytes → Option ℤ → Option ℤ → ℕ → Command listing
  zrscan : Bytes → Bytes → Option ℤ → Option ℤ → ℕ → Command listing
  multi_zget : Bytes → List Bytes → Command listing
  multi_zset : Bytes → List (Bytes × ℤ) → Command plain
  multi_zdel : Bytes → List Bytes → Command plain
  qpush : Bytes → Bytes → Command plain
  qpop : Bytes → Command text
  qslice : Bytes → ℤ → ℤ → Command listing

-- The packet that a command sends.
unfoldable pub request_of : {k : Shape} → Command k → List Bytes
unfolding flat_pairs flat_scores score_text str_int str_nat
request_of (set a1 a2) = codes "set" ∷ a1 ∷ a2 ∷ []
request_of (setx a1 a2 i) = codes "setx" ∷ a1 ∷ a2 ∷ str_int i ∷ []
request_of (get a) = codes "get" ∷ a ∷ []
request_of (del a) = codes "del" ∷ a ∷ []
request_of (incr a i) = codes "incr" ∷ a ∷ str_int i ∷ []
request_of (keys a1 a2 n) = codes "keys" ∷ a1 ∷ a2 ∷ str_nat n ∷ []
request_of (scan a1 a2 n) = codes "scan" ∷ a1 ∷ a2 ∷ str_nat n ∷ []
request_of (rscan a1 a2 n) = codes "rscan" ∷ a1 ∷ a2 ∷ str_nat n ∷ []
request_of (multi_get ks) = codes "multi_get" ∷ ks
request_of (multi_set kvs) = codes "multi_set" ∷ flat_pairs kvs
request_of (multi_del ks) = codes "multi_del" ∷ ks
request_of (hget a1 a2) = codes "hget" ∷ a1 ∷ a2 ∷ []
request_of (hset a1 a2 a3) = codes "hset" ∷ a1 ∷ a2 ∷ a3 ∷ []
request_of (hdel a1 a2) = codes "hdel" ∷ a1 ∷ a2 ∷ []
request_of (hincr a1 a2 i) = codes "hincr" ∷ a1 ∷ a2 ∷ str_int i ∷ []
request_of (hsize a) = codes "hsize" ∷ a ∷ []
request_of (hclear a) = codes "hclear" ∷ a ∷ []
request_of (hkeys a1 a2 a3 n) = codes "hkeys" ∷ a1 ∷ a2 ∷ a3 ∷ str_nat n ∷ []
request_of (hgetall a) = codes "hgetall" ∷ a ∷ []
request_of (hscan a1 a2 a3 n) = codes "hscan" ∷ a1 ∷ a2 ∷ a3 ∷ str_nat n ∷ []
request_of (hrscan a1 a2 a3 n) = codes "hrscan" ∷ a1 ∷ a2 ∷ a3 ∷ str_nat n ∷ []
request_of (multi_hget a ks) = codes "multi_hget" ∷ a ∷ ks
request_of (multi_hset a kvs) = codes "multi_hset" ∷ a ∷ flat_pairs kvs
request_of (multi_hdel a ks) = codes "multi_hdel" ∷ a ∷ ks
request_of (zget a1 a2) = codes "zget" ∷ a1 ∷ a2 ∷ []
request_of (zset a1 a2 i) = codes "zset" ∷ a1 ∷ a2 ∷ str_int i ∷ []
request_of (zdel a1 a2) = codes "zdel" ∷ a1 ∷ a2 ∷ []
request_of (zincr a1 a2 i) = codes "zincr" ∷ a1 ∷ a2 ∷ str_int i ∷ []
request_of (zsize a) = codes "zsize" ∷ a ∷ []
request_of (zclear a) = codes "zclear" ∷ a ∷ []
request_of (zrank a1 a2) = codes "zrank" ∷ a1 ∷ a2 ∷ []
request_of (zrrank a1 a2) = codes "zrrank" ∷ a1 ∷ a2 ∷ []
request_of (zrange a n1 n2) = codes "zrange" ∷ a ∷ str_nat n1 ∷ str_nat n2 ∷ []
request_of (zrrange a n1 n2) = codes "zrrange" ∷ a ∷ str_nat n1 ∷ str_nat n2 ∷ []
request_of (zkeys a1 a2 o1 o2 n) =
    codes "zkeys" ∷ a1 ∷ a2 ∷ score_text o1 ∷ score_text o2 ∷ str_nat n ∷ []
request_of (zscan a1 a2 o1 o2 n) =
    codes "zscan" ∷ a1 ∷ a2 ∷ score_text o1 ∷ score_text o2 ∷ str_nat n ∷ []
request_of (zrscan a1 a2 o1 o2 n) =
    codes "zrscan" ∷ a1 ∷ a2 ∷ score_text o1 ∷ score_text o2 ∷ str_nat n ∷ []
request_of (multi_zget a ks) = codes "multi_zget" ∷ a ∷ ks
request_of (multi_zset a kss) = codes "multi_zset" ∷ a ∷ flat_scores kss
request_of (multi_zdel a ks) = codes "multi_zdel" ∷ a ∷ ks
request_of (qpush a1 a2) = codes "qpush" ∷ a1 ∷ a2 ∷ []
request_of (qpop a) = codes "qpop" ∷ a ∷ []
request_of (qslice a i1 i2) = codes "qslice" ∷ a ∷ str_int i1 ∷ str_int i2 ∷ []

-- What a command makes of a number in a reply.
unfoldable pub reads_number : Option (List Bytes) → ℤ → Status × ℤ
unfolding ok str_to_int64 status_of
reads_number (some (c ∷ [])) old =
    (if ok (status c) then status (codes "server_error") else status c, old)
reads_number (some (c ∷ v ∷ _)) old = (status c, if ok (status c) then str_to_int64 v else old)
reads_number reply old = (status_of reply, old)

-- What a command returns of a reply; `none` is NULL.
unfoldable pub reads : (k : Shape) → Old k → Option (List Bytes) → Result k
unfolding status_of read_str read_list reads_number
reads plain old reply = status_of reply
reads text old reply = read_str reply old
reads number old reply = reads_number reply old
reads listing old reply = read_list reply old

-- A program of commands: what comes next depends on the results.
pub data Program (A : Type 0) : Type 0 where
  finish : A → Program A
  perform : {k : Shape} → Command k → Old k → (Result k → Program A) → Program A

-- A program on the abstract server.
unfoldable pub view : {A : Type 0} → Program A → Server → Option (A × Server)
unfolding ask request_of reads
view (finish a) v = some (a, v)
view (perform {k} c old next) v = elim (ask (request_of c) v) [
  | none ↦ none
  | some (reply, v') ↦ view (next (reads k old (some reply))) v'
]

-- Every packet that the program sends to the server has at most `MAX_PACKET_SIZE` bytes.
unfoldable pub AllFit : {A : Type 0} → Program A → Server → Type 0
unfolding ask request_of reads packet_bytes
AllFit (finish a) v = Unit
AllFit (perform {k} c old next) v =
    (length (packet_bytes (request_of c)) ≤ max_packet_size) × (elim (ask (request_of c) v) [
      | none ↦ Unit
      | some (reply, v') ↦ AllFit (next (reads k old (some reply))) v'
    ])

module _ ⦃m : Memory⦄ where
  -- The command on the client; the last argument of the code's function is the caller's value.
  unfoldable pub exec : {k : Shape} → Command k → Old k → Exec (Result k)
  unfolding Kv.set Kv.setx Kv.get Kv.del Kv.incr Kv.keys Kv.scan Kv.rscan Kv.multi_get Kv.multi_set
      Kv.multi_del Hash.hget Hash.hset Hash.hdel Hash.hincr Hash.hsize Hash.hclear Hash.hkeys
      Hash.hgetall Hash.hscan Hash.hrscan Hash.multi_hget Hash.multi_hset Hash.multi_hdel Zset.zget
      Zset.zset Zset.zdel Zset.zincr Zset.zsize Zset.zclear Zset.zrank Zset.zrrank Zset.zrange
      Zset.zrrange Zset.zkeys Zset.zscan Zset.zrscan Zset.multi_zget Zset.multi_zset Zset.multi_zdel
      Queue.qpush Queue.qpop Queue.qslice
  exec (set a1 a2) old = Kv.set a1 a2
  exec (setx a1 a2 i) old = Kv.setx a1 a2 i
  exec (get a) old = Kv.get a old
  exec (del a) old = Kv.del a
  exec (incr a i) old = Kv.incr a i old
  exec (keys a1 a2 n) old = Kv.keys a1 a2 n old
  exec (scan a1 a2 n) old = Kv.scan a1 a2 n old
  exec (rscan a1 a2 n) old = Kv.rscan a1 a2 n old
  exec (multi_get ks) old = Kv.multi_get ks old
  exec (multi_set kvs) old = Kv.multi_set kvs
  exec (multi_del ks) old = Kv.multi_del ks
  exec (hget a1 a2) old = Hash.hget a1 a2 old
  exec (hset a1 a2 a3) old = Hash.hset a1 a2 a3
  exec (hdel a1 a2) old = Hash.hdel a1 a2
  exec (hincr a1 a2 i) old = Hash.hincr a1 a2 i old
  exec (hsize a) old = Hash.hsize a old
  exec (hclear a) old = Hash.hclear a old
  exec (hkeys a1 a2 a3 n) old = Hash.hkeys a1 a2 a3 n old
  exec (hgetall a) old = Hash.hgetall a old
  exec (hscan a1 a2 a3 n) old = Hash.hscan a1 a2 a3 n old
  exec (hrscan a1 a2 a3 n) old = Hash.hrscan a1 a2 a3 n old
  exec (multi_hget a ks) old = Hash.multi_hget a ks old
  exec (multi_hset a kvs) old = Hash.multi_hset a kvs
  exec (multi_hdel a ks) old = Hash.multi_hdel a ks
  exec (zget a1 a2) old = Zset.zget a1 a2 old
  exec (zset a1 a2 i) old = Zset.zset a1 a2 i
  exec (zdel a1 a2) old = Zset.zdel a1 a2
  exec (zincr a1 a2 i) old = Zset.zincr a1 a2 i old
  exec (zsize a) old = Zset.zsize a old
  exec (zclear a) old = Zset.zclear a old
  exec (zrank a1 a2) old = Zset.zrank a1 a2 old
  exec (zrrank a1 a2) old = Zset.zrrank a1 a2 old
  exec (zrange a n1 n2) old = Zset.zrange a n1 n2 old
  exec (zrrange a n1 n2) old = Zset.zrrange a n1 n2 old
  exec (zkeys a1 a2 o1 o2 n) old = Zset.zkeys a1 a2 o1 o2 n old
  exec (zscan a1 a2 o1 o2 n) old = Zset.zscan a1 a2 o1 o2 n old
  exec (zrscan a1 a2 o1 o2 n) old = Zset.zrscan a1 a2 o1 o2 n old
  exec (multi_zget a ks) old = Zset.multi_zget a ks old
  exec (multi_zset a kss) old = Zset.multi_zset a kss
  exec (multi_zdel a ks) old = Zset.multi_zdel a ks
  exec (qpush a1 a2) old = Queue.qpush a1 a2
  exec (qpop a) old = Queue.qpop a old
  exec (qslice a i1 i2) old = Queue.qslice a i1 i2 old

  unfoldable pub run : {A : Type 0} → Program A → Exec A
  unfolding exec
  run (finish a) = pure a
  run (perform c old next) = do r ← exec c old; run (next r)
