-- ===== src/Link/Served/Commands.antt =====
-- A link that serves a Redis client: one command, from its bytes to the bytes of its reply.
use dbss.Common.{
  ◌+◌, ◌^◌, ◌<◌, ◌≤◌, ◌≡◌, refl, sym, ap, ◌∙◌, subst, false, some, List, ◌∷◌, Bytes, codes, length,
  AreShort,
}
use dbss.Text.{Errno, strtolower}
use dbss.Buffer.{Memory, size}
use dbss.Buffer.Capacity.{IsValid, IsAmple}
use dbss.Buffer.Append.{Extends}
use dbss.Redis.Convert.Commands.{
  RedisCommand, redis_name, redis_args, ssdb_request, IsFromFront, finish_req-ssdb_request,
}
use dbss.Redis.Request.{is_einval, finish_req}
use dbss.Redis.Request.Wire.{req_bytes}
use dbss.Redis.Request.Whole.{decr-req_bytes}
use dbss.Redis.Reply.{reply_parts, append_all, send_resp}
use dbss.Redis.Reply.Wire.{append_all_ample}
use dbss.Redis.Reply.Format.{Reply, reply_bytes}
use dbss.Redis.Reply.Answers.{Gives}
use dbss.Redis.Reply.Commands.{reply_parts-Gives}
use dbss.Link.{Link, count}
use dbss.Link.Send.{send}
use dbss.Link.Receive.{or_new, recv}
use dbss.Link.Receive.Whole.{received, recv-req_bytes}

module _ ⦃m : Memory⦄ where
  -- How a command is served that the server answers with `ok` and the values `vs`.
  abbrev pub Transacts : RedisCommand → List Bytes → Reply → Bytes → Link → Errno → Type 0
  Transacts c vs x rest l e =
      (l' : Link) × (e' : Errno) × (recv l e ≡ (some (ssdb_request c), l', e'))
      × (l'.input.content ≡ rest)
      × ((send (codes "ok" ∷ vs) l').0 ≡ count 0)
      × Extends (reply_bytes x) l.output (send (codes "ok" ∷ vs) l').1.output

  -- With memory below 2^31 granted, a valid output and room for the reply below 2^29 bytes: where
  -- the input begins with a Redis command that has a counterpart in SSDB, its name in any case,
  -- `recv` hands out the packet that an SSDB client sends for the counterpart, and leaves the bytes
  -- behind the command. `send` of the server's `ok` with values that fit the command then puts
  -- behind the output's old bytes the reply that Redis has for it: a value, a 64-bit integer, OK, or
  -- an array; for `mget` and `hmget`, of keys none twice, an item for each key, its value or nil
  -- where the server has none. Lengths are `int`s, no earlier conversion left EINVAL in `errno`, and the indices of a
  -- range are counted from the front and below 2^63 - 1.
  pub recv-Transacts :
      (c : RedisCommand) (name : Bytes) (vs : List Bytes) (x : Reply) (rest : Bytes) (l : Link)
      (e : Errno)
      → IsAmple
      → IsValid l.output
      → strtolower name ≡ redis_name c
      → IsFromFront c
      → AreShort (name ∷ redis_args c)
      → length (name ∷ redis_args c) < 2 ^ 31
      → is_einval e ≡ false
      → l.input.content ≡ req_bytes (name ∷ redis_args c) rest
      → Gives c vs x
      → l.output.front + size l.output + length (reply_bytes x) ≤ 2 ^ 29
      → Transacts c vs x rest l e
  unfolding send send_resp
  recv-Transacts c name vs x rest l e ample v lower front short few clean at answer room =
      let req : List Bytes = name ∷ redis_args c in
      let r = (finish_req req (or_new l.redis) e).0 in
      let e' = (finish_req req (or_new l.redis) e).1 in
      let written = reply_parts-Gives c name (or_new l.redis) e vs x lower front answer in
      (
        received req r l,
        e',
        recv-req_bytes name (redis_args c) rest l e short few clean at
            ∙ ap (λ bs. (some bs, received req r l, e'))
                (finish_req-ssdb_request c name (or_new l.redis) e lower front),
        decr-req_bytes req rest l.input at,
        refl,
        subst (λ t. Extends t l.output (append_all (reply_parts r (codes "ok" ∷ vs)) l.output))
            written
            (append_all_ample (reply_parts r (codes "ok" ∷ vs)) l.output ample v
              (subst (λ t. l.output.front + size l.output + length t ≤ 2 ^ 29) (sym written) room)),
      )
