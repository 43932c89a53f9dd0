-- ===== src/Link/Send/Bounds.antt =====
-- `Link::send` keeps the output in its bounds, whatever the memory refuses.
use dbss.Common.{◌+◌, ◌^◌, ◌<◌, All, length, ◌≡◌, refl, Option, none, some, List, [], ◌∷◌, Bytes}
use dbss.Buffer.{Memory, Buffer, append_record, append}
use dbss.Buffer.Capacity.{IsValid}
use dbss.Buffer.Append.{append-IsValid, append_record-IsValid}
use dbss.Redis.{RedisLink}
use dbss.Redis.Reply.{append_all, reply_parts, send_resp}
use dbss.Link.{Link, IoResult, count}
use dbss.Link.Send.{append_records, send_bytes, send}

-- The length of every record, and the 17 bytes that `append_record` adds to it, are an `int`.
abbrev pub AreSendable : List Bytes → Type 0
AreSendable = All (λ s. length s + 17 < 2 ^ 31)

module _ ⦃m : Memory⦄ where
  append_records-IsValid :
      (ss : List Bytes) (b : Buffer) → AreSendable ss → IsValid b → IsValid (append_records ss b)
  unfolding append_records
  append_records-IsValid [] b short v = v
  append_records-IsValid (s ∷ ss) b short v =
      append_records-IsValid ss (append_record s b).1 short.1 (append_record-IsValid s b v short.0)

  append_all-IsValid : (ss : List Bytes) (b : Buffer) → IsValid b → IsValid (append_all ss b)
  unfolding append_all
  append_all-IsValid [] b v = v
  append_all-IsValid (s ∷ ss) b v = append_all-IsValid ss (append s b).1 (append-IsValid s b v)

  -- What `send` does to a link: it reports success, and changes only the output.
  abbrev pub Sent : Link → IoResult × Link → Type 0
  Sent l r = (r.0 ≡ count 0) × IsValid r.1.output × (r.1 ≡ record l { output = r.1.output })

  -- Of records shorter than 2^31 by more than 17 bytes, on a valid output and whatever memory is
  -- refused, `send` returns 0, keeps the output in its bounds, and changes nothing else of the
  -- link.
  pub send-Sent :
      (ss : List Bytes) (l : Link) → AreSendable ss → IsValid l.output → Sent l (send ss l)
  unfolding send send_bytes send_resp
  send-Sent [] l short v = (refl, v, refl)
  send-Sent (s ∷ ss) l short v = by_protocol l.redis
    where
      by_protocol :
          (r : Option RedisLink)
          → Sent l (elim r [
            | none ↦ send_bytes (s ∷ ss) l
            | some r ↦ (count 0, record l { output = send_resp r l.output (s ∷ ss) })
          ])
      by_protocol none = (
        refl,
        append-IsValid (b'\n' ∷ []) (append_records (s ∷ ss) l.output)
            (append_records-IsValid (s ∷ ss) l.output short v),
        refl,
      )
      by_protocol (some r) = (refl, append_all-IsValid (reply_parts r (s ∷ ss)) l.output v, refl)
