-- ===== src/Link/Receive.antt =====
-- `Link::recv`.
pub mod Bounds
pub mod Packet
pub mod Whole
pub mod Mget
use dbss.Common.{
  ℕ, suc, ◌+◌, ◌-◌, ◌*◌, ◌/◌, ◌^◌, ◌≤◌, ◌<◌, ◌≡◌, refl, sym, ap, ◌∙◌, ◌⊎◌, inl, inr, Bool, true,
  false, Option, none, some, List, [], ◌∷◌, ◌++◌, append_assoc, append-nil, length-append,
  drop-length, arith, ltb, ◌==◌, is_empty, if◌then◌else◌, Bytes, length, Bool-cases, All,
}
use dbss.Text.{Errno}
use dbss.Buffer.{Memory, Buffer, size, space, decr, nice, make_room}
use dbss.Buffer.Capacity.{IsValid, IsAmple, decr-IsValid}
use dbss.Redis.{RedisLink, new_redis}
use dbss.Redis.Request.{starts_with_star, recv_req}
use dbss.Link.{Link, max_packet_size}
use dbss.Common.{AreShort}
use dbss.Link.Parse.{
  Parsed, packet, bad_format, not_ready, out_of_fuel, parse_packet, records_bytes, packet_bytes,
}

-- `if(redis == NULL) redis = new RedisLink();`
abbrev pub or_new : Option RedisLink → RedisLink
or_new none = new_redis
or_new (some r) = r

module _ ⦃m : Memory⦄ where
  after_redis :
      Link → Option (List Bytes) × RedisLink × Buffer × Errno → Option (List Bytes) × Link × Errno
  after_redis l (none, r, input, e) = (none, record l { redis = some r; input = input }, e)
  after_redis l (some bs, r, input, e) =
      (some bs, record l { redis = some r; input = input; recv_data = bs }, e)

  recv_redis : Link → Errno → Option (List Bytes) × Link × Errno
  unfolding new_redis recv_req after_redis
  recv_redis l e = after_redis l (recv_req (or_new l.redis) l.input e)

  wait_packet : Link → Errno → Option Buffer → Option (List Bytes) × Link × Errno
  unfolding nice
  wait_packet l e none = (none, record l { input = nice l.input }, e)
  wait_packet l e (some input) = (some [], record l { input = input }, e)

  after_parse : Link → Errno → Parsed → Option (List Bytes) × Link × Errno
  unfolding make_room wait_packet decr
  after_parse l e (packet rs n) = (some rs, record l { recv_data = rs; input = decr l.input n }, e)
  after_parse l e (bad_format rs) = (none, record l { recv_data = rs }, e)
  after_parse l e not_ready = wait_packet l e (make_room l.input)
  after_parse l e out_of_fuel = (none, l, e)

  recv_ssdb : Link → Errno → Option (List Bytes) × Link × Errno
  unfolding parse_packet after_parse
  recv_ssdb l e = after_parse l e (parse_packet l.input.content)

  -- `none` is NULL, an error; an empty list means that a packet is not ready. (After a NULL because
  -- the buffer cannot grow, the records read so far would still stand in `recv_data`; nothing reads
  -- them, and the next call clears them.)
  unfoldable pub recv : Link → Errno → Option (List Bytes) × Link × Errno
  unfolding recv_redis recv_ssdb
  recv l e =
      let l' = record l { recv_data = [] } in
      if is_empty l.input.content
      then (some [], l', e)
      else if starts_with_star l.input.content
      then recv_redis l' e
      else recv_ssdb l' e
