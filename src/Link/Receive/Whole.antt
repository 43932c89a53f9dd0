-- ===== src/Link/Receive/Whole.antt =====
-- `Link::recv` where a request of the Redis protocol has arrived, whatever its command.
use dbss.Common.{
  ◌^◌, ◌<◌, ◌≡◌, refl, ap, ◌∙◌, true, false, none, some, List, [], ◌∷◌, Bytes, length, is_empty,
  AreShort,
}
use dbss.Text.{einval, Errno}
use dbss.Buffer.{Memory, decr}
use dbss.Redis.Request.{is_einval, starts_with_star, finish_req}
use dbss.Redis.Request.Wire.{req_bytes}
use dbss.Redis.Request.Einval.{recv_req-einval}
use dbss.Redis.Request.Whole.{recv_req-req_bytes}
use dbss.Redis.{RedisLink}
use dbss.Link.{Link}
use dbss.Link.Receive.{or_new, after_redis, recv_redis, recv}

some_request :
    (name : Bytes) (ks : List Bytes) (rest : Bytes) → is_empty (req_bytes (name ∷ ks) rest) ≡ false
unfolding req_bytes
some_request name ks rest = refl

request_star :
    (name : Bytes) (ks : List Bytes) (rest : Bytes)
    → starts_with_star (req_bytes (name ∷ ks) rest) ≡ true
unfolding req_bytes
request_star name ks rest = refl

module _ ⦃m : Memory⦄ where
  -- A packet of the Redis protocol begins with a star.
  recv-star :
      (l : Link) (e : Errno)
      → is_empty l.input.content ≡ false
      → starts_with_star l.input.content ≡ true
      → recv l e ≡ recv_redis (record l { recv_data = [] }) e
  unfolding recv
  recv-star l e some_bytes star = rw (some_bytes, recv) (rw (star, recv) refl)

  -- The link behind a request that was converted to `r`.
  abbrev pub received : List Bytes → RedisLink → Link → Link
  received req r l = record l {
    redis = some r;
    input = decr l.input (length (req_bytes req []));
    recv_data = r.recv_bytes;
  }

  pub recv-req_bytes :
      (name : Bytes) (args : List Bytes) (rest : Bytes) (l : Link) (e : Errno)
      → AreShort (name ∷ args)
      → length (name ∷ args) < 2 ^ 31
      → is_einval e ≡ false
      → l.input.content ≡ req_bytes (name ∷ args) rest
      → recv l e ≡ (
        some (finish_req (name ∷ args) (or_new l.redis) e).0.recv_bytes,
        received (name ∷ args) (finish_req (name ∷ args) (or_new l.redis) e).0 l,
        (finish_req (name ∷ args) (or_new l.redis) e).1,
      )
  unfolding recv_redis after_redis
  recv-req_bytes name args rest l e short few clean at =
      recv-star l e (ap is_empty at ∙ some_request name args rest)
        (ap starts_with_star at ∙ request_star name args rest)
      ∙ ap (after_redis (record l { recv_data = [] }))
          (recv_req-req_bytes name args rest (or_new l.redis) l.input e short few clean at)

  -- The link behind a request that was refused: everything is still in the input.
  abbrev pub refused : Link → Link
  refused l = record l {
    redis = some (record (or_new l.redis) { recv_bytes = [] });
    recv_data = [];
  }

  pub recv-einval :
      (name : Bytes) (args : List Bytes) (rest : Bytes) (l : Link)
      → length (name ∷ args) < 2 ^ 31
      → l.input.content ≡ req_bytes (name ∷ args) rest
      → recv l einval ≡ (none, refused l, einval)
  unfolding recv_redis after_redis
  recv-einval name args rest l few at =
      recv-star l einval (ap is_empty at ∙ some_request name args rest)
        (ap starts_with_star at ∙ request_star name args rest)
      ∙ ap (after_redis (record l { recv_data = [] }))
          (recv_req-einval name args rest (or_new l.redis) l.input few at)
