-- ===== src/Redis/Convert/Commands.antt =====
-- What `recv_req` makes of the commands of Redis that have a counterpart among the commands of the
-- client: the packet that the client sends for the counterpart.
use dbss.Common.{ℕ, ◌+◌, ◌-◌, ◌^◌, ◌<◌, ◌≤◌, ◌≡◌, refl, ap, ◌∙◌, List, [], ◌∷◌, Bytes, codes}
use dbss.Text.{ℤ, Errno, str_int, str_nat, strtolower}
use dbss.Redis.{RedisLink, find_cmd, cmds_raw}
use dbss.Redis.Convert.{convert_req, swap_pairs}
use dbss.Redis.Convert.Ranges.{converted, convert_req-ranges}
use dbss.Redis.Convert.Bounds.{unbounded}
use dbss.Redis.Request.{finish_req}
use dbss.Client.{flat_pairs}
use dbss.Client.Zset.{flat_scores}
use dbss.Client.Program.{request_of}
use dbss.Client.Program

pub data RedisCommand : Type 0 where
  get : Bytes → RedisCommand
  set : Bytes → Bytes → RedisCommand
  setex : Bytes → ℤ → Bytes → RedisCommand
  incrby : Bytes → ℤ → RedisCommand
  del : List Bytes → RedisCommand
  mget : List Bytes → RedisCommand
  mset : List (Bytes × Bytes) → RedisCommand
  hget : Bytes → Bytes → RedisCommand
  hset : Bytes → Bytes → Bytes → RedisCommand
  hincrby : Bytes → Bytes → ℤ → RedisCommand
  hlen : Bytes → RedisCommand
  hkeys : Bytes → RedisCommand
  hgetall : Bytes → RedisCommand
  hdel : Bytes → List Bytes → RedisCommand
  hmget : Bytes → List Bytes → RedisCommand
  hmset : Bytes → List (Bytes × Bytes) → RedisCommand
  zscore : Bytes → Bytes → RedisCommand
  zincrby : Bytes → ℤ → Bytes → RedisCommand
  zcard : Bytes → RedisCommand
  zrank : Bytes → Bytes → RedisCommand
  zrevrank : Bytes → Bytes → RedisCommand
  zadd : Bytes → List (Bytes × ℤ) → RedisCommand
  zrem : Bytes → List Bytes → RedisCommand
  zrange : Bytes → ℕ → ℕ → RedisCommand
  zrevrange : Bytes → ℕ → ℕ → RedisCommand
  lrange : Bytes → ℤ → ℤ → RedisCommand

-- Redis has the score before the key.
unfoldable pub score_first : List (Bytes × ℤ) → List Bytes
unfolding str_int
score_first [] = []
score_first ((k, s) ∷ kss) = str_int s ∷ k ∷ score_first kss

-- The name of a command, and its arguments.
unfoldable pub redis_name : RedisCommand → Bytes
redis_name (get _) = codes "get"
redis_name (set _ _) = codes "set"
redis_name (setex _ _ _) = codes "setex"
redis_name (incrby _ _) = codes "incrby"
redis_name (del _) = codes "del"
redis_name (mget _) = codes "mget"
redis_name (mset _) = codes "mset"
redis_name (hget _ _) = codes "hget"
redis_name (hset _ _ _) = codes "hset"
redis_name (hincrby _ _ _) = codes "hincrby"
redis_name (hlen _) = codes "hlen"
redis_name (hkeys _) = codes "hkeys"
redis_name (hgetall _) = codes "hgetall"
redis_name (hdel _ _) = codes "hdel"
redis_name (hmget _ _) = codes "hmget"
redis_name (hmset _ _) = codes "hmset"
redis_name (zscore _ _) = codes "zscore"
redis_name (zincrby _ _ _) = codes "zincrby"
redis_name (zcard _) = codes "zcard"
redis_name (zrank _ _) = codes "zrank"
redis_name (zrevrank _ _) = codes "zrevrank"
redis_name (zadd _ _) = codes "zadd"
redis_name (zrem _ _) = codes "zrem"
redis_name (zrange _ _ _) = codes "zrange"
redis_name (zrevrange _ _ _) = codes "zrevrange"
redis_name (lrange _ _ _) = codes "lrange"

unfoldable pub redis_args : RedisCommand → List Bytes
unfolding str_int str_nat flat_pairs score_first
redis_args (get key) = key ∷ []
redis_args (set key val) = key ∷ val ∷ []
redis_args (setex key ttl val) = key ∷ str_int ttl ∷ val ∷ []
redis_args (incrby key by) = key ∷ str_int by ∷ []
redis_args (del ks) = ks
redis_args (mget ks) = ks
redis_args (mset kvs) = flat_pairs kvs
redis_args (hget name key) = name ∷ key ∷ []
redis_args (hset name key val) = name ∷ key ∷ val ∷ []
redis_args (hincrby name key by) = name ∷ key ∷ str_int by ∷ []
redis_args (hlen name) = name ∷ []
redis_args (hkeys name) = name ∷ []
redis_args (hgetall name) = name ∷ []
redis_args (hdel name ks) = name ∷ ks
redis_args (hmget name ks) = name ∷ ks
redis_args (hmset name kvs) = name ∷ flat_pairs kvs
redis_args (zscore name key) = name ∷ key ∷ []
redis_args (zincrby name by key) = name ∷ str_int by ∷ key ∷ []
redis_args (zcard name) = name ∷ []
redis_args (zrank name key) = name ∷ key ∷ []
redis_args (zrevrank name key) = name ∷ key ∷ []
redis_args (zadd name sks) = name ∷ score_first sks
redis_args (zrem name ks) = name ∷ ks
redis_args (zrange name start last) = name ∷ str_nat start ∷ str_nat last ∷ []
redis_args (zrevrange name start last) = name ∷ str_nat start ∷ str_nat last ∷ []
redis_args (lrange name first last) = name ∷ str_int first ∷ str_int last ∷ []

-- The packet of the counterpart. A range goes from the first to the last index in Redis, and has a
-- number of elements in SSDB.
unfoldable pub ssdb_request : RedisCommand → List Bytes
unfolding request_of
ssdb_request (get key) = request_of (Program.get key)
ssdb_request (set key val) = request_of (Program.set key val)
ssdb_request (setex key ttl val) = request_of (Program.setx key val ttl)
ssdb_request (incrby key by) = request_of (Program.incr key by)
ssdb_request (del ks) = request_of (Program.multi_del ks)
ssdb_request (mget ks) = request_of (Program.multi_get ks)
ssdb_request (mset kvs) = request_of (Program.multi_set kvs)
ssdb_request (hget name key) = request_of (Program.hget name key)
ssdb_request (hset name key val) = request_of (Program.hset name key val)
ssdb_request (hincrby name key by) = request_of (Program.hincr name key by)
ssdb_request (hlen name) = request_of (Program.hsize name)
ssdb_request (hkeys name) = request_of (Program.hkeys name [] [] 2000000000)
ssdb_request (hgetall name) = request_of (Program.hgetall name)
ssdb_request (hdel name ks) = request_of (Program.multi_hdel name ks)
ssdb_request (hmget name ks) = request_of (Program.multi_hget name ks)
ssdb_request (hmset name kvs) = request_of (Program.multi_hset name kvs)
ssdb_request (zscore name key) = request_of (Program.zget name key)
ssdb_request (zincrby name by key) = request_of (Program.zincr name key by)
ssdb_request (zcard name) = request_of (Program.zsize name)
ssdb_request (zrank name key) = request_of (Program.zrank name key)
ssdb_request (zrevrank name key) = request_of (Program.zrrank name key)
ssdb_request (zadd name sks) = request_of (Program.multi_zset name sks)
ssdb_request (zrem name ks) = request_of (Program.multi_zdel name ks)
ssdb_request (zrange name start last) = request_of (Program.zrange name start (last - start + 1))
ssdb_request (zrevrange name start last) =
    request_of (Program.zrrange name start (last - start + 1))
ssdb_request (lrange name first last) = request_of (Program.qslice name first last)

-- The indices of a range are counted from the front, in order, and below 2^63 - 1.
abbrev pub IsFromFront : RedisCommand → Type 0
IsFromFront (zrange _ start last) = (start ≤ last) × (last < 2 ^ 63 - 1)
IsFromFront (zrevrange _ start last) = (start ≤ last) × (last < 2 ^ 63 - 1)
IsFromFront _ = Unit

swap_pairs-score_first : (kss : List (Bytes × ℤ)) → swap_pairs (score_first kss) ≡ flat_scores kss
unfolding swap_pairs score_first flat_scores
swap_pairs-score_first [] = refl
swap_pairs-score_first ((k, s) ∷ kss) = ap (λ t. k ∷ str_int s ∷ t) (swap_pairs-score_first kss)

pub converted-ssdb_request :
    (c : RedisCommand) (b0 : Bytes) (r : RedisLink) (e : Errno)
    → IsFromFront c
    → converted r e (redis_name c) (b0 ∷ redis_args c) ≡ ssdb_request c
unfolding convert_req find_cmd cmds_raw redis_name redis_args ssdb_request request_of
converted-ssdb_request (get key) b0 r e h = refl
converted-ssdb_request (set key val) b0 r e h = refl
converted-ssdb_request (setex key ttl val) b0 r e h = refl
converted-ssdb_request (incrby key by) b0 r e h = refl
converted-ssdb_request (del ks) b0 r e h = refl
converted-ssdb_request (mget ks) b0 r e h = refl
converted-ssdb_request (mset kvs) b0 r e h = refl
converted-ssdb_request (hget name key) b0 r e h = refl
converted-ssdb_request (hset name key val) b0 r e h = refl
converted-ssdb_request (hincrby name key by) b0 r e h = refl
converted-ssdb_request (hlen name) b0 r e h = refl
converted-ssdb_request (hkeys name) b0 r e h = refl
converted-ssdb_request (hgetall name) b0 r e h = refl
converted-ssdb_request (hdel name ks) b0 r e h = refl
converted-ssdb_request (hmget name ks) b0 r e h = refl
converted-ssdb_request (hmset name kvs) b0 r e h = refl
converted-ssdb_request (zscore name key) b0 r e h = refl
converted-ssdb_request (zincrby name by key) b0 r e h = refl
converted-ssdb_request (zcard name) b0 r e h = refl
converted-ssdb_request (zrank name key) b0 r e h = refl
converted-ssdb_request (zrevrank name key) b0 r e h = refl
converted-ssdb_request (zadd name sks) b0 r e h =
    ap (λ t. codes "multi_zset" ∷ name ∷ t) (swap_pairs-score_first sks)
converted-ssdb_request (zrem name ks) b0 r e h = refl
converted-ssdb_request (zrange name start last) b0 r e h =
    (convert_req-ranges r e b0 name start last unbounded unbounded h.0 h.1 tt tt).0
converted-ssdb_request (zrevrange name start last) b0 r e h =
    (convert_req-ranges r e b0 name start last unbounded unbounded h.0 h.1 tt tt).1
converted-ssdb_request (lrange name first last) b0 r e h = refl

-- A Redis request for one of the commands, its name in any case, becomes the packet that the client
-- sends for the counterpart in SSDB: what `recv_req` hands out is `request_of` it. The indices of a
-- range are counted from the front, in order, and below 2^63 - 1.
pub finish_req-ssdb_request :
    (c : RedisCommand) (name : Bytes) (r : RedisLink) (e : Errno)
    → strtolower name ≡ redis_name c
    → IsFromFront c
    → (finish_req (name ∷ redis_args c) r e).0.recv_bytes ≡ ssdb_request c
unfolding finish_req
finish_req-ssdb_request c name r e lower h =
    ap (λ cmd. converted r e cmd (name ∷ redis_args c)) lower ∙ converted-ssdb_request c name r e h
