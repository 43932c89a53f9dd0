-- ===== src/Redis/Reply/Answers.antt =====
-- The replies of Redis to its commands, by the values that the counterpart in SSDB is answered with.
use dbss.Common.{◌≡◌, Option, none, some, List, [], ◌∷◌, map, Bytes, codes, if◌then◌else◌}
use dbss.Redis.Convert.Commands.{
  RedisCommand, get, set, setex, incrby, del, mget, mset, hget, hset, hincrby, hlen, hkeys, hgetall,
  hdel, hmget, hmset, zscore, zincrby, zcard, zrank, zrevrank, zadd, zrem, zrange, zrevrange,
  lrange,
}
use dbss.Redis.Reply.Format.{
  Item, value, Reply, status_line, integer_text, is_integer_text, single, array,
}
use dbss.Redis.Reply.Mget.{Lookup, asked_keys, found_pairs, answer_items, AreDistinct}

unfoldable pub first_text : List Bytes → Option Reply
first_text [] = none
first_text (v ∷ _) = some (single (value v))

unfoldable pub first_number : List Bytes → Option Reply
unfolding is_integer_text
first_number [] = none
first_number (v ∷ _) = if is_integer_text v then some (integer_text v) else none

-- The first of each pair.
unfoldable pub firsts : List Bytes → Option (List Item)
firsts [] = some []
firsts (v ∷ []) = none
firsts (v ∷ _ ∷ vs) = elim (firsts vs) [ none ↦ none | some xs ↦ some (value v ∷ xs) ]

unfoldable pub first_values : List Bytes → Option Reply
unfolding firsts
first_values vs = elim (firsts vs) [ none ↦ none | some xs ↦ some (array xs) ]

-- The reply by the command: a value, a 64-bit integer, OK, all values, or the first of each pair. It
-- is `none` where the values do not fit the command, and for `mget` and `hmget`, whose replies are
-- by the keys.
unfoldable pub redis_reply : RedisCommand → List Bytes → Option Reply
unfolding first_text first_number first_values
redis_reply (get _) vs = first_text vs
redis_reply (set _ _) vs = some (status_line (codes "OK"))
redis_reply (setex _ _ _) vs = some (status_line (codes "OK"))
redis_reply (incrby _ _) vs = first_number vs
redis_reply (del _) vs = first_number vs
redis_reply (mget _) vs = none
redis_reply (mset _) vs = some (status_line (codes "OK"))
redis_reply (hget _ _) vs = first_text vs
redis_reply (hset _ _ _) vs = first_number vs
redis_reply (hincrby _ _ _) vs = first_number vs
redis_reply (hlen _) vs = first_number vs
redis_reply (hkeys _) vs = some (array (map value vs))
redis_reply (hgetall _) vs = some (array (map value vs))
redis_reply (hdel _ _) vs = first_number vs
redis_reply (hmget _ _) vs = none
redis_reply (hmset _ _) vs = some (status_line (codes "OK"))
redis_reply (zscore _ _) vs = first_text vs
redis_reply (zincrby _ _ _) vs = first_text vs
redis_reply (zcard _) vs = first_number vs
redis_reply (zrank _ _) vs = first_number vs
redis_reply (zrevrank _ _) vs = first_number vs
redis_reply (zadd _ _) vs = first_number vs
redis_reply (zrem _ _) vs = first_number vs
redis_reply (zrange _ _ _) vs = first_values vs
redis_reply (zrevrange _ _ _) vs = first_values vs
redis_reply (lrange _ _ _) vs = some (array (map value vs))

-- What a lookup of the keys gives.
abbrev pub LooksUp : List Bytes → List Bytes → Reply → Type 0
LooksUp ks vs x =
    (fs : Lookup) × AreDistinct fs
    × (asked_keys fs ≡ ks)
    × (found_pairs fs ≡ vs)
    × (array (answer_items fs) ≡ x)

-- The server's values for a command, and the reply to them. For `mget` and `hmget` the values are the
-- pairs of the keys that the server has, in the order asked, no key twice; the reply has an item for
-- each key.
abbrev pub Gives : RedisCommand → List Bytes → Reply → Type 0
Gives (mget ks) vs x = LooksUp ks vs x
Gives (hmget _ ks) vs x = LooksUp ks vs x
Gives c vs x = redis_reply c vs ≡ some x
