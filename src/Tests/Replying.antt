-- ===== src/Tests/Replying.antt =====
-- Replies of the Redis protocol, and the rows of the command table.
use dbss.Common.{subst, ap, ◌≡◌, refl, none, some, [], ◌∷◌, Bytes, codes, map, arith}
use dbss.Text.{str_nat}
use dbss.Buffer.Append.{Extends}
use dbss.Redis.{RedisRequestDesc, RedisLink, reply_int, auto, cmds_raw, find_cmd}
use dbss.Redis.Reply.{reply_parts, send_resp}
use dbss.Common.{◌↔◌}
use dbss.Redis.{reply_bulk}
use dbss.Redis.Reply.Malformed.{reply_parts-Fulfils}
use dbss.Redis.Reply.Wire.{Writes}
use dbss.Redis.Reply.Wire.{is_failure, IsFulfilled, Fulfils, send_resp-Extends}
use dbss.Redis.Reply.Format.{Reply, IsReply, is_integer_text, array, reply_bytes, joined}
use dbss.Redis.Reply.Mget.{Lookup, answer_items}
use dbss.Link.{Link}
use dbss.Tests.{link_of, small_memory, small_memory-IsAmple, buffer_of}

abbrev incr_desc : RedisRequestDesc
incr_desc = record {
  strategy = auto;
  redis_cmd = codes "incr";
  ssdb_cmd = codes "incr";
  reply_type = reply_int;
}

-- A link that has read `incr key`.
abbrev counting : RedisLink
counting = record {
  cmd = codes "incr";
  req_desc = some incr_desc;
  recv_bytes = [];
  recv_string = codes "incr" ∷ codes "key" ∷ [];
}

counting-IsFulfilled : IsFulfilled counting (codes "7" ∷ [])
unfolding IsFulfilled Fulfils is_integer_text
counting-IsFulfilled d e =
    subst (λ d. Fulfils d.reply_type d.strategy counting.recv_string (codes "7" ∷ []))
      (ap (λ o. elim o [ none ↦ incr_desc | some x ↦ x ]) e) refl

send_resp-Extends_example :
    (x : Reply) × IsReply x
    × Extends
        (reply_bytes x)
        (buffer_of (codes "+OK\r\n"))
        (send_resp counting (buffer_of (codes "+OK\r\n")) (codes "ok" ∷ codes "7" ∷ []))
unfolding joined reply_parts is_failure
send_resp-Extends_example =
    send_resp-Extends counting (codes "ok") (codes "7" ∷ []) (buffer_of (codes "+OK\r\n"))
      small_memory-IsAmple (omega arith) (λ h. cc) (λ _. counting-IsFulfilled) (omega arith)

abbrev lookup : Lookup
lookup = (codes "a", some (codes "1")) ∷ (codes "b", none) ∷ (codes "c", some (codes "33")) ∷ []

abbrev asking : Bytes
asking = codes "*4\r\n$4\r\nMGET\r\n$1\r\na\r\n$1\r\nb\r\n$1\r\nc\r\n*1\r\n"

-- The request, and the first bytes of another one.
abbrev served : Link
served = record (link_of [] []) {
  input = record { total = 64; origin_total = 8; front = 2; content = asking };
}

reply_bytes_run :
    reply_bytes (array (answer_items lookup)) ≡ codes "*3\r\n$1\r\n1\r\n$-1\r\n$2\r\n33\r\n"
unfolding reply_bytes str_nat
reply_bytes_run = refl

-- Each row is the one that its name finds.
find_cmd_rows : map (λ d. find_cmd d.redis_cmd cmds_raw) cmds_raw ≡ map some cmds_raw
unfolding find_cmd cmds_raw
find_cmd_rows = refl

-- A link that has read `get k`.
abbrev getting : RedisLink
getting = record {
  cmd = codes "get";
  req_desc = some (record {
    strategy = auto;
    redis_cmd = codes "get";
    ssdb_cmd = codes "get";
    reply_type = reply_bulk;
  });
  recv_bytes = [];
  recv_string = codes "get" ∷ codes "k" ∷ [];
}

abbrev bulk_desc : RedisRequestDesc
bulk_desc = record {
  strategy = auto;
  redis_cmd = codes "get";
  ssdb_cmd = codes "get";
  reply_type = reply_bulk;
}

reply_parts-Fulfils_example :
    Writes (reply_parts getting (codes "ok" ∷ []))
    ↔ Fulfils reply_bulk auto (codes "get" ∷ codes "k" ∷ []) []
reply_parts-Fulfils_example = reply_parts-Fulfils getting bulk_desc [] refl tt
