-- ===== src/Link/Socket/Delivery.antt =====
-- A packet that the kernel delivers in pieces is read whole.
use mathlib.Core.List.{cons-ne-nil}
use dbss.Common.{
  ℕ, zero, suc, ◌≤◌, ◌<◌, ◌≡◌, ◌≢◌, refl, sym, ap, ◌∙◌, subst, false, Option, some, List, [], ◌∷◌,
  ◌++◌, Bytes, length, take, drop, ◌==◌, arith, append_assoc, append-nil, length-append,
  drop-length, take-append-drop, ◌⊎◌,
}
use dbss.Text.{Errno, other}
use dbss.Buffer.{Memory, Buffer, size, space, nice, decr}
use dbss.Buffer.Capacity.{IsValid, IsAmple, nice-IsValid, content-nice, decr-IsValid}
use dbss.Buffer.Room.{nice_room}
use dbss.Link.{Link, IoResult, failed, count}
use dbss.Link.Parse.{packet_bytes}
use dbss.Link.Receive.Packet.{IsPacket, recv_packet, recv_prefix}
use dbss.Link.Socket.{
  ReadEvent, arrives, read_interrupted, World, ReadState, put_back, read_loop, weight, first_grow,
  read, after_read, after_recv, response_loop, response,
}
use dbss.Link.Socket.Flush.{first_grow_lem}
use dbss.Link.Socket.Read.{
  Spends, read_loop-arrives, read_loop-Reads, content-take_input, first_grow_room,
}

-- The events deliver the bytes, in pieces of any size and with interrupted calls between them, and
-- then `later` is to come.
pub data Delivers (later : List ReadEvent) : List ReadEvent → Bytes → Type 0 where
  done : Delivers later later []
  piece :
      (c : ℕ) (bs : Bytes) {es : List ReadEvent} {q : Bytes}
      → Delivers later es q
      → Delivers later (arrives (c ∷ bs) ∷ es) ((c ∷ bs) ++ q)
  interrupt :
      {es : List ReadEvent} {q : Bytes}
      → Delivers later es q
      → Delivers later (read_interrupted ∷ es) q

Delivers-put_back :
    (later : List ReadEvent) (bs : Bytes) (es : List ReadEvent) (q : Bytes)
    → Delivers later es q
    → Delivers later (put_back bs es) (bs ++ q)
Delivers-put_back later [] es q d = d
Delivers-put_back later (c ∷ bs) es q d = piece c bs d

-- What one blocking `read` leaves of a delivery: some of it, at least a byte, is in the buffer.
abbrev pub Took : List ReadEvent → Bytes → Buffer → IoResult × ReadState → Type 0
Took later q b r =
    (j : ℕ) × (q1 q2 : Bytes) × (r.0 ≡ count (suc j))
    × (q ≡ q1 ++ q2)
    × (q1 ≢ [])
    × (r.1.buffer.content ≡ b.content ++ q1)
    × Delivers later r.1.events q2

module _ ⦃m : Memory⦄ where
  read_loop-Took :
      (later : List ReadEvent) {es : List ReadEvent} {q : Bytes} (e : Errno) (b : Buffer)
      → 0 < space b
      → Delivers later es q
      → q ≢ []
      → Took later q b (read_loop false es e b 0)
  read_loop-Took later e b room done h = absurd (h refl)
  read_loop-Took later e b room (piece c bs {es} {q} d) h =
      let (j, loop) = read_loop-arrives c bs es e b room in
      subst (Took later ((c ∷ bs) ++ q) b) (sym loop) (
        j,
        take (space b) (c ∷ bs),
        drop (space b) (c ∷ bs) ++ q,
        refl,
        sym (ap (λ t. t ++ q) (take-append-drop (space b) (c ∷ bs)))
            ∙ append_assoc (take (space b) (c ∷ bs)) (drop (space b) (c ∷ bs)) q,
        take_some (space b) room,
        content-take_input (c ∷ bs) b,
        Delivers-put_back later (drop (space b) (c ∷ bs)) es q d,
      )
    where
      take_some : (n : ℕ) → 0 < n → take n (c ∷ bs) ≢ []
      take_some zero k = absurd (omega arith)
      take_some (suc n) k = λ x. cc
  read_loop-Took later e b room (interrupt {es} {q} d) h =
      let some_space : (space b == 0) ≡ false = ground arith in
      subst (Took later q b) (sym (again es some_space)) (read_loop-Took later other b room d h)
    where
      again :
          (es : List ReadEvent)
          → (space b == 0) ≡ false
          → read_loop false (read_interrupted ∷ es) e b 0 ≡ read_loop false es other b 0
      again es s = unfold read_loop in rw s refl

  -- The same of `read`; only the input buffer, the events and `errno` change.
  abbrev ReadTook : List ReadEvent → Bytes → Link → World → IoResult × Link × World → Type 0
  ReadTook later q l w r =
      (j : ℕ) × (q1 q2 : Bytes) × (b : Buffer) × (es : List ReadEvent) × (e : Errno) × (r
        ≡ (count (suc j), record l { input = b }, record w { incoming = es; errno = e }))
      × (q ≡ q1 ++ q2)
      × (b.content ≡ l.input.content ++ q1)
      × IsValid b
      × (weight es < weight w.incoming)
      × Delivers later es q2

  -- The end of `read`.
  end_read : Link → World → IoResult × ReadState → IoResult × Link × World
  end_read l w (ret, s) =
      (ret, record l { input = s.buffer }, record w { incoming = s.events; errno = s.errno })

  read-Took :
      (later : List ReadEvent) (q : Bytes) (l : Link) (w : World)
      → IsValid l.input
      → (0 < space l.input) ⊎ (size l.input ≡ 0)
      → l.noblock ≡ false
      → Delivers later w.incoming q
      → q ≢ []
      → ReadTook later q l w (read l w)
  unfolding read end_read
  read-Took later q l w v room mode d h =
      let (grown, content, front) = first_grow_lem l.input v in
      let b = nice (first_grow l.input) in
      let open_ = nice_room (first_grow l.input) grown (first_grow_room l.input v room) in
      let r = read_loop false w.incoming w.errno b 0 in
      let reads = read_loop-Reads false w.incoming w.errno b 0 in
      let (j, q1, q2, counted, cut, some_byte, more, rest) =
        read_loop-Took later w.errno b open_ d h in
      (
        j,
        q1,
        q2,
        r.1.buffer,
        r.1.events,
        r.1.errno,
        ap (λ nb. end_read l w (read_loop nb w.incoming w.errno b 0)) mode
            ∙ ap (λ n. end_read l w (n, r.1)) counted,
        cut,
        more ∙ ap (λ t. t ++ q1) (content-nice (first_grow l.input) ∙ content),
        reads.valid (nice-IsValid (first_grow l.input) grown),
        less j r.0 w.incoming r.1.events counted reads.spends,
        rest,
      )
    where
      less :
          (j : ℕ) (x : IoResult) (es left : List ReadEvent)
          → x ≡ count (suc j)
          → Spends 0 es x left
          → weight left < weight es
      less j failed es left e s = cc
      less j (count n) es left e s = let same : n ≡ suc j = cc in omega arith

  -- What `response` ends with when the packet arrives.
  abbrev pub Received :
      List ReadEvent
      → List Bytes
      → Link
      → World
      → Option (Option (List Bytes) × Link × World)
      → Type 0
  Received later ss l w result =
      (b : Buffer) × (es : List ReadEvent) × (e : Errno) × (result
        ≡ some (
          some ss,
          record l { recv_data = ss; input = b },
          record w { incoming = es; errno = e },
        ))
      × IsValid b
      × (b.content ≡ [])
      × Delivers later es []

  response_loop-Received :
      (f : ℕ) (later : List ReadEvent) (ss : List Bytes) (p q : Bytes) (l : Link) (w : World)
      → IsAmple
      → IsPacket ss
      → IsValid l.input
      → l.noblock ≡ false
      → l.input.content ≡ p
      → p ++ q ≡ packet_bytes ss
      → Delivers later w.incoming q
      → weight w.incoming < f
      → Received later ss l w (response_loop f l w)
  unfolding response_loop after_recv
  response_loop-Received zero later ss p q l w ample pk v mode h cut d k = absurd (omega arith)
  response_loop-Received (suc f) later [] p q l w ample pk v mode h cut d k =
      absurd (pk.some_record refl)
  response_loop-Received (suc f) later (s ∷ ss) p [] l w ample pk v mode h cut d k =
      let n = length (packet_bytes (s ∷ ss)) in
      let whole : l.input.content ≡ packet_bytes (s ∷ ss) ++ [] =
        h ∙ sym (append-nil p) ∙ cut ∙ sym (append-nil (packet_bytes (s ∷ ss))) in
      let gone : drop n l.input.content ≡ [] =
        ap (drop n) whole ∙ drop-length (packet_bytes (s ∷ ss)) [] in
      let inside : n ≤ size l.input =
        omega (arith, ap length whole, length-append (packet_bytes (s ∷ ss)) []) in
      (
        decr l.input n,
        w.incoming,
        w.errno,
        ap (after_recv (response_loop f) w) (recv_packet l w.errno (s ∷ ss) [] pk whole),
        decr-IsValid l.input n v inside,
        unfold decr in gone,
        d,
      )
  response_loop-Received (suc f) later (s ∷ ss) p (c ∷ q) l w ample pk v mode h cut d k =
      let (b0, waits, (valid, same), room) =
        recv_prefix l w.errno (s ∷ ss) p (c ∷ q) ample v pk h (cons-ne-nil c q) cut in
      let l' = record l { recv_data = []; input = b0 } in
      let (j, q1, q2, b1, es, e, took, parts, more, valid', fewer, rest) =
        read-Took later (c ∷ q) l' w valid room mode d (cons-ne-nil c q) in
      let l'' = record l' { input = b1 } in
      let w' = record w { incoming = es; errno = e } in
      let (b, es', e', result, inside, drained, end) =
        response_loop-Received f later (s ∷ ss) (p ++ q1) q2 l'' w' ample pk valid' mode
          (more ∙ ap (λ t. t ++ q1) (same ∙ h))
          (append_assoc p q1 q2 ∙ ap (λ t. p ++ t) (sym parts) ∙ cut) rest (omega arith) in
      (
        b,
        es',
        e',
        ap (after_recv (response_loop f) w) waits ∙ ap (after_read (response_loop f)) took ∙ result,
        inside,
        drained,
        end,
      )

  -- On a blocking link with a valid and empty input, where memory below 2^31 is granted: a packet
  -- of at least one record, with `int` lengths and at most `MAX_PACKET_SIZE` bytes of records, that
  -- the kernel delivers in whatever pieces is what `response` returns; the input is empty then, and
  -- the output and the bytes sent are as they were.
  pub response-Received :
      (later : List ReadEvent) (ss : List Bytes) (l : Link) (w : World)
      → IsAmple
      → IsPacket ss
      → IsValid l.input
      → l.noblock ≡ false
      → l.input.content ≡ []
      → Delivers later w.incoming (packet_bytes ss)
      → Received later ss l w (response l w)
  unfolding response
  response-Received later ss l w ample pk v mode h d =
      response_loop-Received (suc (weight w.incoming)) later ss [] (packet_bytes ss) l w ample pk v
        mode h refl d (omega arith)
