-- ===== src/Link/Served/Pipeline.antt =====
-- Requests of Redis clients that arrive one behind another, and the replies that a server writes:
-- `recv`, the server's own work, which is a parameter, and `send`, once for each request.
use dbss.Common.{
  ℕ, zero, suc, ◌^◌, ◌<◌, ◌≡◌, true, false, Option, none, some, List, [], ◌∷◌, ◌++◌, Bytes,
  bytes_eq, codes, length, AreShort,
}
use dbss.Text.{Errno}
use dbss.Buffer.{Memory, Buffer}
use dbss.Buffer.Append.{Extends}
use dbss.Redis.{RedisLink}
use dbss.Redis.Request.{is_einval, finish_req}
use dbss.Redis.Request.Wire.{req_bytes}
use dbss.Redis.Reply.{reply_parts}
use dbss.Redis.Reply.Wire.{IsFulfilled, is_failure, IsMessage}
use dbss.Redis.Reply.Format.{Reply, reply_bytes, joined, IsReply}
use dbss.Link.{Link}
use dbss.Link.Send.{send}
use dbss.Link.Receive.{or_new, recv}

-- What the server does with a request: a status, and values.
abbrev pub Handler : Type 0
Handler = List Bytes → Bytes × List Bytes

abbrev resp_of : Bytes × List Bytes → List Bytes
resp_of (s, vs) = s ∷ vs

-- The request behind a `recv_req`, and the response to it.
abbrev response_to : Handler → RedisLink → List Bytes
response_to h r = resp_of (h r.recv_bytes)

-- The requests on the wire, before other bytes.
unfoldable pub pipeline_bytes : List (List Bytes) → Bytes → Bytes
unfolding req_bytes
pipeline_bytes [] rest = rest
pipeline_bytes (req ∷ reqs) rest = req_bytes req (pipeline_bytes reqs rest)

-- A whole request whose response can be written: every length is an `int`, no conversion left
-- EINVAL in `errno`, the server answers `ok` only with what the request asks for, and its error
-- messages are lines.
unfoldable pub AreServable : Handler → List (List Bytes) → RedisLink → Errno → Type 0
unfolding finish_req
AreServable h [] r e = Unit
AreServable h ([] ∷ reqs) r e = ⊥
AreServable h ((name ∷ args) ∷ reqs) r e =
    let (r', e') = finish_req (name ∷ args) r e in
    AreShort (name ∷ args)
    × (length (name ∷ args) < 2 ^ 31)
    × (is_einval e ≡ false)
    × (is_failure (h r'.recv_bytes).0 ≡ true → IsMessage (h r'.recv_bytes).1)
    × (bytes_eq (h r'.recv_bytes).0 (codes "ok") ≡ true → IsFulfilled r' (h r'.recv_bytes).1)
    × AreServable h reqs r' e'

-- The appends that the responses make, in order.
unfoldable pub served_bytes : ⦃m : Memory⦄ → Handler → List (List Bytes) → RedisLink → Errno → Bytes
unfolding finish_req joined reply_parts
served_bytes h [] r e = []
served_bytes h (req ∷ reqs) r e =
    let (r', e') = finish_req req r e in
    joined (reply_parts r' (response_to h r')) ++ served_bytes h reqs r' e'

unfoldable pub replies_bytes : List Reply → Bytes
unfolding reply_bytes
replies_bytes [] = []
replies_bytes (x ∷ xs) = reply_bytes x ++ replies_bytes xs

-- One reply of the protocol for each request, in order: the one that the response to the converted request asks
-- for.
unfoldable pub Answers :
    ⦃m : Memory⦄ → Handler → List (List Bytes) → RedisLink → Errno → List Reply → Type 0
unfolding finish_req joined reply_parts reply_bytes
Answers h [] r e [] = Unit
Answers h [] r e (x ∷ xs) = ⊥
Answers h (req ∷ reqs) r e [] = ⊥
Answers h (req ∷ reqs) r e (x ∷ xs) =
    let (r', e') = finish_req req r e in
    IsReply x
    × (joined (reply_parts r' (response_to h r')) ≡ reply_bytes x)
    × Answers h reqs r' e' xs

module _ ⦃m : Memory⦄ where
  -- A round of a server on a link: `none` where `recv` has no request.
  answer : Handler → Option (List Bytes) × Link × Errno → Option (Link × Errno)
  unfolding send
  answer h (some (c ∷ cs), l, e) = some ((send (resp_of (h (c ∷ cs))) l).1, e)
  answer h (_, l, e) = none

  unfoldable pub serve : Handler → Link → Errno → Option (Link × Errno)
  unfolding answer recv
  serve h l e = answer h (recv l e)

  unfoldable pub serve_all : Handler → ℕ → Link → Errno → Option (Link × Errno)
  unfolding serve
  serve_all h zero l e = some (l, e)
  serve_all h (suc n) l e = elim (serve h l e) [ none ↦ none | some (l', e') ↦ serve_all h n l' e' ]

  -- How the rounds end: the requests are read, and their replies written.
  abbrev pub Serves :
      Handler → List (List Bytes) → Bytes → Link → Errno → Option (Link × Errno) → Type 0
  Serves h reqs rest l e result =
      (l' : Link) × (e' : Errno) × (xs : List Reply) × (result ≡ some (l', e'))
      × Answers h reqs (or_new l.redis) e xs
      × (l'.input.content ≡ rest)
      × Extends (replies_bytes xs) l.output l'.output
