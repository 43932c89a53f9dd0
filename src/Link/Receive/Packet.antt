-- ===== src/Link/Receive/Packet.antt =====
-- `recv` on a packet that has arrived, and on one that has not arrived whole.
use dbss.Common.{
  ℕ, ◌^◌, ◌≤◌, ◌<◌, ◌≡◌, ◌≢◌, refl, sym, ap, ◌∙◌, ◌⊎◌, inl, inr, true, false, some, List, [], ◌∷◌,
  ◌++◌, Bytes, is_empty, length, append_assoc, append-nil, length-append, arith,
}
use dbss.Text.{Errno, is_digit}
use dbss.Text.Decimal.{str_nat_cons}
use dbss.Buffer.{Memory, Buffer, size, space, decr}
use dbss.Buffer.Capacity.{IsValid, IsAmple}
use dbss.Buffer.Room.{SameContent, make_room_ample}
use dbss.Redis.Request.{starts_with_star}
use dbss.Link.{Link, max_packet_size}
use dbss.Common.{AreShort}
use dbss.Link.Parse.{parse_packet, records_bytes, packet_bytes}
use dbss.Link.Parse.Complete.{
  packet_bytes-cons, record_bytes-append, length-packet_bytes, parse_packet-packet_bytes,
}
use dbss.Link.Parse.Partial.{parse_packet-prefix}
use dbss.Link.Receive.{wait_packet, after_parse, recv_ssdb, recv}

-- The packets that the protocol carries: at least one record, `int` lengths, and at most
-- `MAX_PACKET_SIZE` bytes of records.
pub record IsPacket (ss : List Bytes) : Type 0 where
  pub some_record : ss ≢ []
  pub short : AreShort ss
  pub fits : length (records_bytes ss) ≤ max_packet_size

packet_bytes_cons :
    (s : Bytes) (ss : List Bytes) (rest : Bytes)
    → (c : ℕ) × (t : Bytes) × (packet_bytes (s ∷ ss) ++ rest ≡ c ∷ t) × (is_digit c ≡ true)
packet_bytes_cons s ss rest =
    let (c, t, e, d) = str_nat_cons (length s) in
    (
      c,
      t ++ (b'\n' ∷ (s ++ b'\n' ∷ (packet_bytes ss ++ rest))),
      rw (packet_bytes-cons s ss, append_assoc, record_bytes-append s (packet_bytes ss ++ rest), e)
          refl,
      d,
    )

module _ ⦃m : Memory⦄ where
  -- Bytes that start with a digit go to the SSDB parser.
  recv-digit :
      (l : Link) (e : Errno) (c : ℕ) (t : Bytes)
      → l.input.content ≡ c ∷ t
      → is_digit c ≡ true
      → recv l e ≡ recv_ssdb (record l { recv_data = [] }) e
  unfolding recv
  recv-digit l e c t h d =
      let full : is_empty l.input.content ≡ false = rw h refl in
      let plain : starts_with_star l.input.content ≡ false = rw h (ground arith) in
      rw (full, plain) refl

  -- A packet at the front of the input, of at least one record, with `int` lengths and at most
  -- `MAX_PACKET_SIZE` bytes of records, is handed out with its records by `recv`, which leaves the
  -- input with the bytes behind it.
  pub recv_packet :
      (l : Link) (e : Errno) (ss : List Bytes) (rest : Bytes)
      → IsPacket ss
      → l.input.content ≡ packet_bytes ss ++ rest
      → recv l e
        ≡ (some ss, record l { recv_data = ss; input = decr l.input (length (packet_bytes ss)) }, e)
  unfolding recv_ssdb after_parse
  recv_packet l e [] rest p h = absurd (p.some_record refl)
  recv_packet l e (s ∷ ss) rest p h =
      let (c, t, head, digit) = packet_bytes_cons s ss rest in
      let parsed = ap parse_packet h ∙ parse_packet-packet_bytes s ss rest p.short p.fits in
      recv-digit l e c t (h ∙ head) digit ∙ ap (after_parse (record l { recv_data = [] }) e) parsed

  recv_empty :
      (l : Link) (e : Errno)
      → l.input.content ≡ []
      → recv l e ≡ (some [], record l { recv_data = []; input = l.input }, e)
  unfolding recv
  recv_empty l e h = let nothing : is_empty l.input.content ≡ true = rw h refl in rw nothing refl

  -- While such a packet is not there whole, in a valid input and with memory below 2^31 granted,
  -- `recv` reports that it is not ready, keeps the bytes, and leaves the input so that more can be
  -- read: with space, or empty.
  pub recv_prefix :
      (l : Link) (e : Errno) (ss : List Bytes) (p q : Bytes)
      → IsAmple
      → IsValid l.input
      → IsPacket ss
      → l.input.content ≡ p
      → q ≢ []
      → p ++ q ≡ packet_bytes ss
      → (b : Buffer) × (recv l e ≡ (some [], record l { recv_data = []; input = b }, e))
        × SameContent l.input b
        × ((0 < space b) ⊎ (size b ≡ 0))
  unfolding recv_ssdb after_parse
  recv_prefix l e [] p q ample v pk h more cut = absurd (pk.some_record refl)
  recv_prefix l e (s ∷ ss) [] q ample v pk h more cut =
      (l.input, recv_empty l e h, (v, refl), inr (ap length h))
  recv_prefix l e (s ∷ ss) (c ∷ t) q ample v pk h more cut =
      let (d, u, head, digit) = packet_bytes_cons s ss [] in
      let same : c ∷ (t ++ q) ≡ d ∷ u = cut ∙ sym (append-nil (packet_bytes (s ∷ ss))) ∙ head in
      let first : is_digit c ≡ true = ground arith in
      let parsed =
        ap parse_packet h ∙ parse_packet-prefix s ss (c ∷ t) q pk.short pk.fits more cut in
      let small : size l.input ≤ 2 ^ 26 = omega (
        arith,
        ap length h,
        ap length cut,
        length-append (c ∷ t) q,
        length-packet_bytes (s ∷ ss),
        pk.fits,
      ) in
      let (b, made, content, room) = make_room_ample l.input ample v small in
      (
        b,
        recv-digit l e c t h first
            ∙ ap (after_parse (record l { recv_data = [] }) e) parsed
            ∙ ap (wait_packet (record l { recv_data = [] }) e) made,
        content,
        inl room,
      )
