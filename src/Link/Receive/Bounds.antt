-- ===== src/Link/Receive/Bounds.antt =====
-- `recv` stays inside the input buffer, whatever bytes arrive.
use dbss.Common.{◌≡◌, refl, Option, none, some, List, [], Bytes, is_empty, if_elim}
use dbss.Text.{Errno}
use dbss.Buffer.{Memory, Buffer, size, make_room}
use dbss.Buffer.Capacity.{IsValid, decr-IsValid, nice-IsValid}
use dbss.Buffer.Room.{Roomy, make_room-Roomy}
use dbss.Redis.{RedisLink}
use dbss.Redis.Request.{starts_with_star}
use dbss.Redis.Request.Bounds.{recv_req-IsValid}
use dbss.Link.{Link}
use dbss.Link.Parse.{Parsed, packet, bad_format, not_ready, out_of_fuel, parse_packet}
use dbss.Link.Parse.Bounds.{Fits, parse_packet-Fits}
use dbss.Link.Receive.{after_redis, recv_redis, wait_packet, after_parse, recv_ssdb, recv}

-- Only the input, `recv_data` and the Redis state change, and the input stays valid.
abbrev pub Keeps : Link → Option (List Bytes) × Link × Errno → Type 0
Keeps l (ret, l', e) = IsValid l'.input × (l'.output ≡ l.output) × (l'.noblock ≡ l.noblock)

module _ ⦃m : Memory⦄ where
  wait_packet-Keeps :
      (l : Link) (e : Errno) (r : Option Buffer)
      → IsValid l.input
      → Roomy l.input r
      → Keeps l (wait_packet l e r)
  unfolding wait_packet
  wait_packet-Keeps l e none v room = (nice-IsValid l.input v, refl, refl)
  wait_packet-Keeps l e (some b) v ((valid, same), room) = (valid, refl, refl)

  after_parse-Keeps :
      (l : Link) (e : Errno) (r : Parsed)
      → IsValid l.input
      → Fits (size l.input) r
      → Keeps l (after_parse l e r)
  unfolding after_parse
  after_parse-Keeps l e (packet rs n) v (le, _) = (decr-IsValid l.input n v le, refl, refl)
  after_parse-Keeps l e (bad_format rs) v f = (v, refl, refl)
  after_parse-Keeps l e not_ready v f =
      wait_packet-Keeps l e (make_room l.input) v (make_room-Roomy l.input v)
  after_parse-Keeps l e out_of_fuel v f = (v, refl, refl)

  redis-Keeps :
      (l : Link) (r : Option (List Bytes) × RedisLink × Buffer × Errno)
      → IsValid r.2
      → Keeps l (after_redis l r)
  unfolding after_redis
  redis-Keeps l (none, r, input, e) v = (v, refl, refl)
  redis-Keeps l (some bs, r, input, e) v = (v, refl, refl)

  -- On a valid input `recv` keeps the input buffer inside its bounds, whatever bytes have arrived,
  -- on every branch; it touches neither the output nor the mode.
  pub recv-Keeps : (l : Link) (e : Errno) → IsValid l.input → Keeps l (recv l e)
  unfolding recv recv_redis recv_ssdb
  recv-Keeps l e v =
      if_elim (Keeps l) (is_empty l.input.content) _ _ (λ _. (v, refl, refl))
        (λ _.
          if_elim (Keeps l) (starts_with_star l.input.content) _ _
            (λ _. redis-Keeps (record l { recv_data = [] }) _ (recv_req-IsValid _ l.input e v))
            (λ _.
              after_parse-Keeps (record l { recv_data = [] }) e (parse_packet l.input.content) v
                (parse_packet-Fits l.input.content)))
