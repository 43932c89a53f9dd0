-- ===== src/Redis/Request/Mget.antt =====
-- What `recv_req` makes of an `mget` request on the wire.
use dbss.Common.{◌≡◌, ap, some, List, ◌∷◌, Bytes, codes}
use dbss.Text.{Errno, strtolower}
use dbss.Redis.{RedisRequestDesc, RedisLink, mget, reply_multi_bulk, find_cmd, cmds_raw}
use dbss.Redis.Convert.{convert_req}
use dbss.Redis.Request.{finish_req}

abbrev pub mget_desc : RedisRequestDesc
mget_desc = record {
  strategy = mget;
  redis_cmd = codes "mget";
  ssdb_cmd = codes "multi_get";
  reply_type = reply_multi_bulk;
}

-- The Redis link behind an `mget` of the keys.
abbrev pub mget_link : List Bytes → RedisLink
mget_link ks = record {
  cmd = codes "mget";
  req_desc = some mget_desc;
  recv_bytes = codes "multi_get" ∷ ks;
  recv_string = codes "multi_get" ∷ ks;
}

pub finish_req-mget :
    (name : Bytes) (ks : List Bytes) (r : RedisLink) (e : Errno)
    → strtolower name ≡ codes "mget"
    → finish_req (name ∷ ks) r e ≡ (mget_link ks, e)
unfolding finish_req convert_req find_cmd cmds_raw
finish_req-mget name ks r e h =
    ap
      (λ c.
        let (r', e') = convert_req (record r { cmd = c; recv_bytes = name ∷ ks }) e in
        (record r' { recv_bytes = r'.recv_string }, e'))
      h
