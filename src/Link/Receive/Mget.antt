-- ===== src/Link/Receive/Mget.antt =====
-- `Link::recv` where an `mget` of the Redis protocol has arrived.
use dbss.Common.{◌^◌, ◌<◌, ◌≡◌, ap, ◌∙◌, false, some, List, [], ◌∷◌, Bytes, codes, length, AreShort}
use dbss.Text.{Errno, strtolower}
use dbss.Buffer.{Memory, decr}
use dbss.Redis.Request.{is_einval}
use dbss.Redis.Request.Wire.{req_bytes}
use dbss.Redis.Request.Mget.{mget_link, finish_req-mget}
use dbss.Redis.{RedisLink}
use dbss.Link.Receive.Whole.{received, recv-req_bytes}
use dbss.Link.{Link}
use dbss.Link.Receive.{or_new, recv}

module _ ⦃m : Memory⦄ where
  -- The link behind an `mget`.
  abbrev pub mget_received : Bytes → List Bytes → Link → Link
  mget_received name ks l = record l {
    redis = some (mget_link ks);
    input = decr l.input (length (req_bytes (name ∷ ks) []));
    recv_data = codes "multi_get" ∷ ks;
  }

  pub recv-mget :
      (name : Bytes) (ks : List Bytes) (rest : Bytes) (l : Link) (e : Errno)
      → AreShort (name ∷ ks)
      → length (name ∷ ks) < 2 ^ 31
      → is_einval e ≡ false
      → strtolower name ≡ codes "mget"
      → l.input.content ≡ req_bytes (name ∷ ks) rest
      → recv l e ≡ (some (codes "multi_get" ∷ ks), mget_received name ks l, e)
  recv-mget name ks rest l e short few clean lower at =
      recv-req_bytes name ks rest l e short few clean at
      ∙ ap (λ (p : RedisLink × Errno). (some p.0.recv_bytes, received (name ∷ ks) p.0 l, p.1))
          (finish_req-mget name ks (or_new l.redis) e lower)
