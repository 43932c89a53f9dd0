-- ===== src/Client/Exchange.antt =====
-- `ClientImpl::request`: a request and its reply, over the socket and back.
use dbss.Text.{Errno}
use dbss.Link.Send.Steady.{send_bytes-IsSteady}
use dbss.Buffer.Steady.{IsSteady}
use dbss.Common.{
  ℕ, ◌≤◌, ◌≡◌, ◌≢◌, refl, sym, ap, ◌∙◌, subst, inl, inr, false, Option, none, some, List, [], ◌∷◌,
  ◌++◌, Bytes, length, append-nil, arith, ◌⊎◌,
}
use dbss.Buffer.{Memory, Buffer}
use dbss.Buffer.Capacity.{IsValid, IsAmple}
use dbss.Link.{Link, IoResult, failed, count, max_packet_size}
use dbss.Link.Parse.{packet_bytes}
use dbss.Link.Send.{send, send_bytes, send_bytes_ample}
use dbss.Link.Receive.Packet.{IsPacket}
use dbss.Link.Socket.{ReadEvent, World, flush, response}
use dbss.Link.Socket.WriteLoop.{NoWriteError}
use dbss.Link.Socket.Flush.{Flushes, flush-Flushes}
use dbss.Link.Socket.Delivery.{Delivers, response-Received}
use dbss.Client.{ClientImpl, Session, after_send, after_flush, after_response, request}

-- A connected client between two requests: a blocking link to an SSDB server, with nothing waiting
-- in its buffers, and an output whose capacity is one that packets of at most 32 MB ask for.
pub record IsIdle (l : Link) : Type 0 where
  pub blocking : l.noblock ≡ false
  pub plain : l.redis ≡ none
  pub input_valid : IsValid l.input
  pub input_empty : l.input.content ≡ []
  pub output_valid : IsValid l.output
  pub output_empty : l.output.content ≡ []
  pub output_steady : IsSteady l.output

-- A client that `connect` has given the link `l`.
abbrev pub connected : Link → List Bytes → World → Session
connected l resp w = record { client = record { link = some l; resp = resp }; world = w }

module _ ⦃m : Memory⦄ where
  pub send-plain :
      (s : Bytes) (ss : List Bytes) (l : Link)
      → l.redis ≡ none
      → send (s ∷ ss) l ≡ send_bytes (s ∷ ss) l
  send-plain s ss l h = unfold send in rw h refl

  -- How a request ends that the server answers with `reply`.
  abbrev pub Answered :
      List ReadEvent
      → List Bytes
      → List Bytes
      → World
      → Option (Option (List Bytes) × Session)
      → Type 0
  Answered later req reply w result =
      (l' : Link) × (w' : World) × (result ≡ some (some reply, connected l' reply w'))
      × IsIdle l'
      × (w'.sent ≡ w.sent ++ packet_bytes req)
      × Delivers later w'.incoming []
      × NoWriteError w'.outgoing

  -- How a flush of a packet ends: the packet is sent, and the link idle.
  abbrev pub Flushed : List Bytes → World → Option (IoResult × Link × World) → Type 0
  Flushed req w result =
      (n : ℕ) × (l' : Link) × (w' : World) × (result ≡ some (count n, l', w'))
      × IsIdle l'
      × (w'.sent ≡ w.sent ++ packet_bytes req)
      × (w'.incoming ≡ w.incoming)
      × NoWriteError w'.outgoing

  flush-Flushed :
      (req : List Bytes) (l : Link) (w : World) (result : Option (IoResult × Link × World))
      → l.noblock ≡ false
      → l.redis ≡ none
      → IsValid l.input
      → l.input.content ≡ []
      → l.output.content ≡ packet_bytes req
      → IsSteady l.output
      → NoWriteError w.outgoing
      → Flushes l w result
      → Flushed req w result
  flush-Flushed req l w result mode plain v h out steady q ((failed, l2, w2), e, a, end) =
      absurd ((a.quiet q).0 refl)
  flush-Flushed req l w result mode plain v h out steady q ((count n, l2, w2), e, a, inl bad) =
      absurd ((a.quiet q).0 bad)
  flush-Flushed req l w result mode plain v h out steady q ((count n, l2, w2), e, a, inr empty) = (
    n,
    l2,
    w2,
    e,
    record {
      blocking = a.same_mode ∙ mode;
      plain = a.same_redis ∙ plain;
      input_valid = subst IsValid (sym a.same_input) v;
      input_empty = ap (λ (i : Buffer). i.content) a.same_input ∙ h;
      output_valid = a.valid;
      output_empty = empty;
      output_steady = keeps (a.steady steady);
    },
    sym (append-nil w2.sent)
        ∙ ap (λ t. w2.sent ++ t) (sym empty)
        ∙ a.conserved
        ∙ ap (λ t. w.sent ++ t) out,
    a.same_incoming,
    (a.quiet q).1,
  )
    where
      keeps : (count n ≡ failed) ⊎ IsSteady l2.output → IsSteady l2.output
      keeps (inl bad) = cc
      keeps (inr st) = st

  -- `send` and `flush` on an idle link.
  pub send_flush-Flushed :
      (req : List Bytes) (l : Link) (w : World)
      → IsAmple
      → IsIdle l
      → length (packet_bytes req) ≤ max_packet_size
      → NoWriteError w.outgoing
      → Flushed req w (flush (send_bytes req l).1 w)
  send_flush-Flushed req l w ample idle fits q =
      let (v, front, content) = send_bytes_ample req l ample idle.output_valid (
        omega (
          arith,
          ap length idle.output_empty,
          idle.output_steady.front_half,
          idle.output_steady.bounded,
        )) in
      let l1 = (send_bytes req l).1 in
      flush-Flushed req l1 w (flush l1 w) (unfold send_bytes in idle.blocking)
        (unfold send_bytes in idle.plain) (unfold send_bytes in idle.input_valid)
        (unfold send_bytes in idle.input_empty)
        (content ∙ ap (λ t. t ++ packet_bytes req) idle.output_empty)
        (send_bytes-IsSteady req l ample idle.output_valid idle.output_empty fits
          idle.output_steady)
        q (flush-Flushes l1 w v)

  -- An idle link reads a packet, and is idle.
  pub response-Idle :
      (later : List ReadEvent) (rs : List Bytes) (l : Link) (w : World)
      → IsAmple
      → IsPacket rs
      → IsIdle l
      → Delivers later w.incoming (packet_bytes rs)
      → (l' : Link) × (es : List ReadEvent) × (e : Errno) × (response l w
          ≡ some (some rs, l', record w { incoming = es; errno = e }))
        × IsIdle l'
        × Delivers later es []
  response-Idle later rs l w ample pk idle d =
      let (b, es, err, done, valid, drained, rest) =
        response-Received later rs l w ample pk idle.input_valid idle.blocking idle.input_empty d in
      (
        record l { recv_data = rs; input = b },
        es,
        err,
        done,
        record {
          blocking = idle.blocking;
          plain = idle.plain;
          input_valid = valid;
          input_empty = drained;
          output_valid = idle.output_valid;
          output_empty = idle.output_empty;
          output_steady = idle.output_steady;
        },
        rest,
      )

  -- What is left of `request` behind `send`.
  flush-Answered :
      (later : List ReadEvent) (req reply : List Bytes) (c : ClientImpl) (w : World)
      (result : Option (IoResult × Link × World))
      → IsAmple
      → IsPacket reply
      → Delivers later w.incoming (packet_bytes reply)
      → Flushed req w result
      → Answered later req reply w (after_flush c result)
  unfolding after_flush after_response
  flush-Answered later req reply c w result ample pk d (n, l2, w2, e, idle, sent, same, q) =
      let (l3, es, err, done, idle', rest) =
        response-Idle later reply l2 w2 ample pk idle
          (subst (λ i. Delivers later i (packet_bytes reply)) (sym same) d) in
      (
        l3,
        record w2 { incoming = es; errno = err },
        ap (after_flush c) e ∙ ap (after_response c) done,
        idle',
        sent,
        rest,
        q,
      )

  -- With a connected, idle client, a packet to send of at most 32 MB (MAX_PACKET_SIZE) and a memory
  -- that grants every request below 2^31: when the kernel takes the bytes without an error and
  -- delivers a packet in whatever pieces, a request sends its own packet and nothing else, returns
  -- the records of the packet delivered, and leaves the client idle again.
  pub request-Answered :
      (later : List ReadEvent) (req reply resp : List Bytes) (l : Link) (w : World)
      → IsAmple
      → IsIdle l
      → req ≢ []
      → length (packet_bytes req) ≤ max_packet_size
      → IsPacket reply
      → NoWriteError w.outgoing
      → Delivers later w.incoming (packet_bytes reply)
      → Answered later req reply w (request req (connected l resp w))
  unfolding request
  request-Answered later [] reply resp l w ample idle some_req fits pk q d = absurd (some_req refl)
  request-Answered later (s ∷ ss) reply resp l w ample idle some_req fits pk q d =
      let c : ClientImpl = record { link = some l; resp = resp } in
      subst (λ r. Answered later (s ∷ ss) reply w (after_send c w r))
        (sym (send-plain s ss l idle.plain))
        (unfold after_send send_bytes in
          (flush-Answered later (s ∷ ss) reply c w (flush (send_bytes (s ∷ ss) l).1 w) ample pk d
            (send_flush-Flushed (s ∷ ss) l w ample idle fits q)))
