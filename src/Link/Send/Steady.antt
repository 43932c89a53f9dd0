-- ===== src/Link/Send/Steady.antt =====
-- A packet of at most 32 MB keeps a steady output steady.
use dbss.Common.{◌+◌, ◌≤◌, ◌≡◌, ap, List, [], ◌∷◌, Bytes, length, length-append, arith}
use dbss.Buffer.{Memory, Buffer, size, record_bytes, append_record}
use dbss.Buffer.Capacity.{IsValid, IsAmple}
use dbss.Buffer.Append.{append_record_ample}
use dbss.Buffer.Steady.{IsSteady, steady_room, append_record-IsSteady, append-IsSteady}
use dbss.Link.{Link, max_packet_size}
use dbss.Link.Parse.{records_bytes, packet_bytes}
use dbss.Link.Parse.Complete.{length-records_bytes, length-record_bytes_sum, length-packet_bytes}
use dbss.Link.Send.{append_records, send_bytes, append_records_ample}

module _ ⦃m : Memory⦄ where
  append_records-IsSteady :
      (ss : List Bytes) (b : Buffer)
      → IsAmple
      → IsValid b
      → size b + length (records_bytes ss) + 20 ≤ steady_room
      → IsSteady b
      → IsSteady (append_records ss b)
  unfolding append_records
  append_records-IsSteady [] b ample v h st = st
  append_records-IsSteady (s ∷ ss) b ample v h st =
      let len = length-records_bytes s ss in
      let (v', front, content) =
        append_record_ample s b ample v
          (omega (arith, len, length-record_bytes_sum s, st.front_half, st.bounded)) in
      append_records-IsSteady ss (append_record s b).1 ample v'
        (omega (arith, len, ap length content, length-append b.content (record_bytes s)))
        (append_record-IsSteady s b (omega (arith, len, length-record_bytes_sum s)) st)

  pub send_bytes-IsSteady :
      (ss : List Bytes) (l : Link)
      → IsAmple
      → IsValid l.output
      → l.output.content ≡ []
      → length (packet_bytes ss) ≤ max_packet_size
      → IsSteady l.output
      → IsSteady (send_bytes ss l).1.output
  unfolding send_bytes
  send_bytes-IsSteady ss l ample v empty h st =
      let len = length-packet_bytes ss in
      let (v', front, content) =
        append_records_ample ss l.output ample v
          (omega (arith, len, ap length empty, st.front_half, st.bounded)) in
      append-IsSteady (b'\n' ∷ []) (append_records ss l.output)
        (omega (
          arith,
          len,
          ap length content,
          ap length empty,
          length-append l.output.content (records_bytes ss),
        ))
        (append_records-IsSteady ss l.output ample v (omega (arith, len, ap length empty)) st)
