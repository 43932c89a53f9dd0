-- ===== src/Link/Served/Einval.antt =====
-- What an index that is no number does to the requests of a Redis client behind it.
use dbss.Common.{
  ◌≡◌, refl, ap, ◌∙◌, false, none, some, List, [], ◌∷◌, Bytes, codes, AreShort, arith, ◌^◌, ◌<◌,
  length,
}
use dbss.Text.{clear, einval, overflows, strtolower}
use dbss.Buffer.{Memory}
use dbss.Redis.Request.{finish_req}
use dbss.Redis.Request.Wire.{req_bytes}
use dbss.Redis.Request.Whole.{decr-req_bytes}
use dbss.Redis.Request.Einval.{IsNoNumber, finish_req-einval}
use dbss.Link.{Link}
use dbss.Link.Receive.{or_new, recv}
use dbss.Link.Receive.Whole.{received, recv-req_bytes, refused, recv-einval}

module _ ⦃m : Memory⦄ where
  -- The request of the range is handed out, and every later `recv` on the same bytes is an error.
  abbrev pub Jams : Bytes → Link → Type 0
  Jams waiting l =
      (rs : List Bytes) × (l' : Link) × (recv l clear ≡ (some rs, l', einval))
      × (l'.input.content ≡ waiting)
      × (recv l' einval ≡ (none, refused l', einval))
      × (recv (refused l') einval ≡ (none, refused l', einval))

  -- Where the input holds a `zrange` whose last index is no number and another Redis request behind
  -- it, `recv` hands out the first and leaves EINVAL in `errno`. From then on `recv` refuses the
  -- second, whatever it is, and leaves it in the input with EINVAL, so that it is refused again.
  -- Lengths are `int`s, `errno` was clear, and neither index has digits beyond the range of
  -- `strtoll`, which would leave ERANGE.
  pub recv-Jams :
      (cmd name start last next : Bytes) (args : List Bytes) (rest : Bytes) (l : Link)
      → strtolower cmd ≡ codes "zrange"
      → overflows start ≡ false
      → IsNoNumber last
      → AreShort (cmd ∷ name ∷ start ∷ last ∷ [])
      → length (next ∷ args) < 2 ^ 31
      → l.input.content ≡ req_bytes (cmd ∷ name ∷ start ∷ last ∷ []) (req_bytes (next ∷ args) rest)
      → Jams (req_bytes (next ∷ args) rest) l
  recv-Jams cmd name start last next args rest l lower small bad short few at =
      let range : List Bytes = cmd ∷ name ∷ start ∷ last ∷ [] in
      let r = (finish_req range (or_new l.redis) clear).0 in
      let l' : Link = received range r l in
      let left = decr-req_bytes range (req_bytes (next ∷ args) rest) l.input at in
      (
        r.recv_bytes,
        l',
        recv-req_bytes cmd (name ∷ start ∷ last ∷ []) (req_bytes (next ∷ args) rest) l clear short
              (omega arith) refl at
            ∙ ap (λ e. (some r.recv_bytes, l', e))
                (finish_req-einval cmd name start last (or_new l.redis) lower small bad),
        left,
        recv-einval next args rest l' few left,
        recv-einval next args rest (refused l') few left,
      )
