-- ===== src/Link/Send.antt =====
-- `Link::send`, which only fills the output buffer.
pub mod Bounds
pub mod Steady
use dbss.Common.{
  ℕ, suc, ◌+◌, ◌*◌, ◌^◌, ◌≤◌, ◌<◌, ◌≡◌, refl, sym, ap, ◌∙◌, Option, none, some, List, [], ◌∷◌, ◌++◌,
  append_assoc, append-nil, length-append, arith, is_empty, if◌then◌else◌, Bytes, length,
}
use dbss.Text.{str_nat}
use dbss.Buffer.{Memory, Buffer, size, record_bytes, append_record, append}
use dbss.Buffer.Capacity.{IsValid, IsAmple}
use dbss.Buffer.Append.{Extends, append_record_ample, append_ample}
use dbss.Redis.{RedisLink}
use dbss.Redis.Reply.{send_resp}
use dbss.Link.{Link, IoResult, failed, count}
use dbss.Link.Parse.{records_bytes, packet_bytes}
use dbss.Link.Parse.Complete.{
  length-records_bytes, length-record_bytes_sum, packet_bytes-cons, packet_bytes-nil,
  length-packet_bytes,
}

module _ ⦃m : Memory⦄ where
  -- `append_record` for each record; its results are not looked at.
  unfoldable pub append_records : List Bytes → Buffer → Buffer
  unfolding append_record
  append_records [] b = b
  append_records (s ∷ ss) b = append_records ss (append_record s b).1

  -- `send(const Bytes&, …)` and `send(const std::vector<Bytes>&)`.
  unfoldable pub send_bytes : List Bytes → Link → IoResult × Link
  unfolding append_records append
  send_bytes ss l =
      (count 0, record l { output = (append (b'\n' ∷ []) (append_records ss l.output)).1 })

  -- `send(const std::vector<std::string>&)`. Every path returns 0.
  unfoldable pub send : List Bytes → Link → IoResult × Link
  unfolding send_bytes send_resp
  send [] l = (count 0, l)
  send (s ∷ ss) l = elim l.redis [
    | none ↦ send_bytes (s ∷ ss) l
    | some r ↦ (count 0, record l { output = send_resp r l.output (s ∷ ss) })
  ]

  append_records_ample :
      (ss : List Bytes) (b : Buffer)
      → IsAmple
      → IsValid b
      → b.front + size b + length (records_bytes ss) + 20 ≤ 2 ^ 29
      → Extends (records_bytes ss) b (append_records ss b)
  unfolding append_records records_bytes
  append_records_ample [] b ample v h = (v, refl, sym (append-nil b.content))
  append_records_ample (s ∷ ss) b ample v h =
      let (v', front, content) =
        append_record_ample s b ample v
          (omega (arith, length-records_bytes s ss, length-record_bytes_sum s)) in
      let (v'', front', content') = append_records_ample ss (append_record s b).1 ample v' (
        omega (
          arith,
          length-records_bytes s ss,
          ap length content,
          length-append b.content (record_bytes s),
        )) in
      (
        v'',
        front' ∙ front,
        content' ∙ ap (λ t. t ++ records_bytes ss) content ∙ append_assoc b.content _ _,
      )

  -- With a valid output and memory below 2^31 granted, `send_bytes` puts the packet of the records
  -- behind the output's old bytes, if offset, old bytes and packet stay 20 bytes below 2^29.
  pub send_bytes_ample :
      (ss : List Bytes) (l : Link)
      → IsAmple
      → IsValid l.output
      → l.output.front + size l.output + length (packet_bytes ss) + 20 ≤ 2 ^ 29
      → Extends (packet_bytes ss) l.output (send_bytes ss l).1.output
  unfolding send_bytes packet_bytes
  send_bytes_ample ss l ample v h =
      let b = l.output in
      let (v', front, content) =
        append_records_ample ss b ample v (omega (arith, length-packet_bytes ss)) in
      let (v'', front', content') = append_ample (b'\n' ∷ []) (append_records ss b) ample v' (
        omega (
          arith,
          length-packet_bytes ss,
          ap length content,
          length-append b.content (records_bytes ss),
        )) in
      (
        v'',
        front' ∙ front,
        content' ∙ ap (λ t. t ++ b'\n' ∷ []) content ∙ append_assoc b.content _ _,
      )
