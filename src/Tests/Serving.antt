-- ===== src/Tests/Serving.antt =====
-- Two Redis requests behind one another, and the first bytes of a third.
use dbss.Common.{refl, List, [], ◌∷◌, Bytes, bytes_eq, codes, if◌then◌else◌, arith}
use dbss.Text.{clear, str_nat, strtolower}
use dbss.Redis.{RedisRequestDesc, auto, reply_bulk}
use dbss.Redis.Request.Wire.{req_bytes}
use dbss.Link.{Link}
use dbss.Redis.Convert.Commands.{redis_name, redis_args, zrange}
use dbss.Redis.Reply.Answers.{redis_reply}
use dbss.Redis.Reply.Format.{reply_bytes, array, value}
use dbss.Link.Served.Commands.{Transacts, recv-Transacts}
use dbss.Link.Served.Einval.{Jams, recv-Jams}
use dbss.Text.{reads_whole, overflows}
use dbss.Link.Served.Pipeline.{Handler}
use dbss.Tests.{link_of, small_memory, small_memory-IsAmple}

-- A server that has one value for every key, and no numbers.
abbrev one_value : Handler
one_value [] = (codes "client_error", [])
one_value (c ∷ cs) =
    if bytes_eq c (codes "get") then (codes "ok", codes "v" ∷ []) else (codes "not_found", [])

abbrev get_and_incr : List (List Bytes)
get_and_incr = (codes "GET" ∷ codes "k" ∷ []) ∷ (codes "incr" ∷ codes "n" ∷ []) ∷ []

abbrev pipelined : Link
pipelined = record (link_of [] []) {
  input = record {
    total = 64;
    origin_total = 8;
    front = 2;
    content = codes "*2\r\n$3\r\nGET\r\n$1\r\nk\r\n*2\r\n$4\r\nincr\r\n$1\r\nn\r\n*1\r\n";
  };
}

abbrev get_desc : RedisRequestDesc
get_desc = record {
  strategy = auto;
  redis_cmd = codes "get";
  ssdb_cmd = codes "get";
  reply_type = reply_bulk;
}

-- Two elements of a sorted set, with their scores in the response.
abbrev ranging : Link
ranging = record (link_of [] []) {
  input = record {
    total = 64;
    origin_total = 8;
    front = 2;
    content = codes "*4\r\n$6\r\nZRANGE\r\n$1\r\nz\r\n$1\r\n0\r\n$1\r\n1\r\n*1\r\n";
  };
}

abbrev two_scores : List Bytes
two_scores = codes "a" ∷ codes "5" ∷ codes "b" ∷ codes "7" ∷ []

recv-Transacts_example :
    Transacts
      (zrange (codes "z") 0 1)
      two_scores
      (array (value (codes "a") ∷ value (codes "b") ∷ []))
      (codes "*1\r\n")
      ranging
      clear
unfolding redis_reply redis_name redis_args req_bytes str_nat strtolower reply_bytes
recv-Transacts_example =
    recv-Transacts (zrange (codes "z") 0 1) (codes "ZRANGE") two_scores
      (array (value (codes "a") ∷ value (codes "b") ∷ [])) (codes "*1\r\n") ranging clear
      small_memory-IsAmple (omega arith) refl (omega arith, omega arith)
      (omega arith, (omega arith, (omega arith, (omega arith, tt)))) (omega arith) refl refl refl
      (omega arith)

abbrev jammed : Link
jammed = record (link_of [] []) {
  input = record {
    total = 64;
    origin_total = 8;
    front = 2;
    content =
        codes
          "*4\r\n$6\r\nzrange\r\n$1\r\nz\r\n$1\r\n0\r\n$1\r\nx\r\n*2\r\n$3\r\nGET\r\n$1\r\nk\r\n";
  };
}

recv-Jams_example : Jams (codes "*2\r\n$3\r\nGET\r\n$1\r\nk\r\n") jammed
unfolding req_bytes str_nat strtolower reads_whole overflows
recv-Jams_example =
    recv-Jams (codes "zrange") (codes "z") (codes "0") (codes "x") (codes "GET") (codes "k" ∷ []) []
      jammed refl refl (refl, refl) (omega arith, (omega arith, (omega arith, (omega arith, tt))))
      (omega arith) refl
