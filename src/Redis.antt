-- ===== src/Redis.antt =====
-- src/net/link_redis.h and src/net/link_redis.cpp: `RedisLink`, the Redis protocol on a link.
-- This file has the command table and the state; `Request` reads a request, `Reply` writes a reply.
pub mod Convert
pub mod Request
pub mod Reply
use dbss.Common.{Bool, Option, none, some, List, [], ◌∷◌, if◌then◌else◌, Bytes, bytes_eq, codes}

pub data ReplyType : Type 0 where
  reply_bulk reply_multi_bulk reply_int reply_status : ReplyType

pub data Strategy : Type 0 where
  auto ping mget hmget hgetall hkeys hvals setex zrange zrevrange : Strategy
  zrangebyscore zrevrangebyscore zadd zincrby remrangebyrank remrangebyscore : Strategy

pub record RedisRequestDesc : Type 0 where
  pub strategy : Strategy
  pub redis_cmd : Bytes
  pub ssdb_cmd : Bytes
  pub reply_type : ReplyType

pub record RedisLink : Type 0 where
  pub cmd : Bytes
  pub req_desc : Option RedisRequestDesc
  pub recv_bytes : List Bytes
  pub recv_string : List Bytes

unfoldable pub new_redis : RedisLink
new_redis = record { cmd = []; req_desc = none; recv_bytes = []; recv_string = [] }

abbrev desc : Strategy → Bytes → Bytes → ReplyType → RedisRequestDesc
desc s r c t = record { strategy = s; redis_cmd = r; ssdb_cmd = c; reply_type = t }

-- `cmds_raw`, row by row.
unfoldable pub cmds_raw : List RedisRequestDesc
cmds_raw =
    desc ping (codes "ping") (codes "ping") reply_status
    ∷ desc auto (codes "get") (codes "get") reply_bulk
    ∷ desc auto (codes "getset") (codes "getset") reply_bulk
    ∷ desc auto (codes "set") (codes "set") reply_status
    ∷ desc auto (codes "setnx") (codes "setnx") reply_int
    ∷ desc auto (codes "exists") (codes "exists") reply_int
    ∷ desc auto (codes "incr") (codes "incr") reply_int
    ∷ desc auto (codes "decr") (codes "decr") reply_int
    ∷ desc auto (codes "ttl") (codes "ttl") reply_int
    ∷ desc auto (codes "expire") (codes "expire") reply_int
    ∷ desc auto (codes "getbit") (codes "getbit") reply_int
    ∷ desc auto (codes "setbit") (codes "setbit") reply_int
    ∷ desc auto (codes "strlen") (codes "strlen") reply_int
    ∷ desc auto (codes "bitcount") (codes "redis_bitcount") reply_int
    ∷ desc auto (codes "substr") (codes "getrange") reply_bulk
    ∷ desc auto (codes "getrange") (codes "getrange") reply_bulk
    ∷ desc auto (codes "keys") (codes "keys") reply_multi_bulk
    ∷ desc auto (codes "hset") (codes "hset") reply_int
    ∷ desc auto (codes "hget") (codes "hget") reply_bulk
    ∷ desc auto (codes "hexists") (codes "hexists") reply_int
    ∷ desc auto (codes "del") (codes "multi_del") reply_int
    ∷ desc auto (codes "mset") (codes "multi_set") reply_status
    ∷ desc auto (codes "incrby") (codes "incr") reply_int
    ∷ desc auto (codes "decrby") (codes "decr") reply_int
    ∷ desc auto (codes "hmset") (codes "multi_hset") reply_status
    ∷ desc auto (codes "hdel") (codes "multi_hdel") reply_int
    ∷ desc auto (codes "hmdel") (codes "multi_hdel") reply_int
    ∷ desc auto (codes "hlen") (codes "hsize") reply_int
    ∷ desc auto (codes "hincrby") (codes "hincr") reply_int
    ∷ desc auto (codes "zcard") (codes "zsize") reply_int
    ∷ desc auto (codes "zscore") (codes "zget") reply_bulk
    ∷ desc auto (codes "zrem") (codes "multi_zdel") reply_int
    ∷ desc auto (codes "zrank") (codes "zrank") reply_int
    ∷ desc auto (codes "zrevrank") (codes "zrrank") reply_int
    ∷ desc auto (codes "zcount") (codes "zcount") reply_int
    ∷ desc remrangebyrank (codes "zremrangebyrank") (codes "zremrangebyrank") reply_int
    ∷ desc remrangebyscore (codes "zremrangebyscore") (codes "zremrangebyscore") reply_int
    ∷ desc mget (codes "mget") (codes "multi_get") reply_multi_bulk
    ∷ desc hmget (codes "hmget") (codes "multi_hget") reply_multi_bulk
    ∷ desc hgetall (codes "hgetall") (codes "hgetall") reply_multi_bulk
    ∷ desc hkeys (codes "hkeys") (codes "hkeys") reply_multi_bulk
    ∷ desc hvals (codes "hvals") (codes "hvals") reply_multi_bulk
    ∷ desc setex (codes "setex") (codes "setx") reply_status
    ∷ desc zrange (codes "zrange") (codes "zrange") reply_multi_bulk
    ∷ desc zrevrange (codes "zrevrange") (codes "zrrange") reply_multi_bulk
    ∷ desc zadd (codes "zadd") (codes "multi_zset") reply_int
    ∷ desc zincrby (codes "zincrby") (codes "zincr") reply_bulk
    ∷ desc zrangebyscore (codes "zrangebyscore") (codes "zscan") reply_multi_bulk
    ∷ desc zrevrangebyscore (codes "zrevrangebyscore") (codes "zrscan") reply_multi_bulk
    ∷ desc auto (codes "lpush") (codes "qpush_front") reply_int
    ∷ desc auto (codes "rpush") (codes "qpush_back") reply_int
    ∷ desc auto (codes "lpop") (codes "qpop_front") reply_bulk
    ∷ desc auto (codes "rpop") (codes "qpop_back") reply_bulk
    ∷ desc auto (codes "llen") (codes "qsize") reply_int
    ∷ desc auto (codes "lsize") (codes "qsize") reply_int
    ∷ desc auto (codes "lindex") (codes "qget") reply_bulk
    ∷ desc auto (codes "lset") (codes "qset") reply_status
    ∷ desc auto (codes "lrange") (codes "qslice") reply_multi_bulk
    ∷ desc auto (codes "dbsize") (codes "dbsize") reply_int
    ∷ []

-- `cmd_table.find(cmd)`, on a table that holds the rows by their `redis_cmd`, which are distinct.
unfoldable pub find_cmd : Bytes → List RedisRequestDesc → Option RedisRequestDesc
find_cmd cmd [] = none
find_cmd cmd (d ∷ ds) = if bytes_eq cmd d.redis_cmd then some d else find_cmd cmd ds
