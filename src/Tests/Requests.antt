-- ===== src/Tests/Requests.antt =====
-- Runs of a client's requests against a server's replies.
use dbss.Client.{ok}
use dbss.Text.{str_nat}
use dbss.Common.{refl, List, [], ◌∷◌, Bytes, codes, arith}
use dbss.Text.{pos, negsuc, str_int, clear}
use dbss.Link.Parse.{packet_bytes}
use dbss.Link.Socket.{arrives, World}
use dbss.Link.Socket.Delivery.{done, piece}
use dbss.Client.{status, request}
use dbss.Client.Exchange.{IsIdle, connected, Answered, request-Answered}
use dbss.Client.Kv.{get, incr}
use dbss.Client.Ends.{RequestEnds, request-Ends}
use dbss.Client.Overloads.{as_client, request-request_parts}
use dbss.Link.Calls.{two, parts_list, request_parts}
use dbss.Common.{◌≡◌}
use dbss.Client.Replies.{Exchange, Returns, get-refused, incr-counted}
use dbss.Tests.{small_memory, small_memory-IsAmple, hello, link_of}
use dbss.Tests.Receiving.{hello-IsPacket}
use dbss.Tests.Sockets.{busy_world, reply_events-Delivers}

abbrev pub idle_link-IsIdle : IsIdle (link_of [] [])
idle_link-IsIdle = record {
  blocking = refl;
  plain = refl;
  input_valid = omega arith;
  input_empty = refl;
  output_valid = omega arith;
  output_empty = refl;
  output_steady = omega arith;
}

abbrev pub get_key : List Bytes
get_key = codes "get" ∷ codes "key" ∷ []

request-Answered_example :
    Answered [] get_key hello busy_world (request get_key (connected (link_of [] []) [] busy_world))
unfolding packet_bytes str_nat
request-Answered_example =
    request-Answered [] get_key hello [] (link_of [] []) busy_world small_memory-IsAmple
      idle_link-IsIdle (λ x. cc) (omega arith) hello-IsPacket (tt, (tt, tt)) reply_events-Delivers

pub get_key-Exchange : Exchange [] get_key hello (link_of [] []) busy_world
unfolding packet_bytes str_nat
get_key-Exchange = record {
  idle = idle_link-IsIdle;
  some_request = λ x. cc;
  room = omega arith;
  reply_packet = hello-IsPacket;
  quiet = (tt, (tt, tt));
  delivered = reply_events-Delivers;
}

-- A kernel that delivers the bytes at once.
abbrev pub prompt_world : Bytes → World
prompt_world [] = record { incoming = []; outgoing = []; sent = []; errno = clear }
prompt_world (c ∷ bs) = record {
  incoming = arrives (c ∷ bs) ∷ [];
  outgoing = [];
  sent = [];
  errno = clear;
}

abbrev refusal : List Bytes
refusal = codes "not_found" ∷ []

get-refused_example :
    Returns
      (status (codes "not_found"), codes "old")
      get_key
      refusal
      (prompt_world (packet_bytes refusal))
      (get
        (codes "key")
        (codes "old")
        (connected (link_of [] []) [] (prompt_world (packet_bytes refusal))))
unfolding ok packet_bytes str_nat
get-refused_example =
    get-refused [] (codes "key") (codes "not_found") (codes "old") [] [] (link_of [] [])
      (prompt_world (packet_bytes refusal)) small_memory-IsAmple refl
      (record {
        idle = idle_link-IsIdle;
        some_request = λ x. cc;
        room = omega arith;
        reply_packet = record {
          some_record = λ x. cc;
          short = (omega arith, tt);
          fits = omega arith;
        };
        quiet = tt;
        delivered = piece _ (codes "\nnot_found\n\n") done;
      })

abbrev counted : List Bytes
counted = codes "ok" ∷ codes "-12" ∷ []

incr-counted_example :
    Returns
      (status (codes "ok"), negsuc 11)
      (codes "incr" ∷ codes "key" ∷ codes "1" ∷ [])
      counted
      (prompt_world (packet_bytes counted))
      (incr
        (codes "key")
        (pos 1)
        (pos 0)
        (connected (link_of [] []) [] (prompt_world (packet_bytes counted))))
unfolding packet_bytes str_nat str_int
incr-counted_example =
    incr-counted [] (codes "key") (pos 1) (negsuc 11) (pos 0) [] (link_of [] [])
      (prompt_world (packet_bytes counted)) small_memory-IsAmple (omega arith)
      (record {
        idle = idle_link-IsIdle;
        some_request = λ x. cc;
        room = omega arith;
        reply_packet = record {
          some_record = λ x. cc;
          short = (omega arith, (omega arith, tt));
          fits = omega arith;
        };
        quiet = tt;
        delivered = piece _ (codes "\nok\n3\n-12\n\n") done;
      })

request-Ends_example :
    RequestEnds hello (request get_key (connected (link_of [] []) hello busy_world))
request-Ends_example =
    request-Ends get_key hello (link_of [] []) busy_world (omega arith, (omega arith, tt))
      (omega arith) (omega arith)

request-request_parts_example :
    request
      (parts_list (two (codes "get") (codes "key")))
      (connected (link_of [] []) hello busy_world)
    ≡ as_client hello (request_parts (two (codes "get") (codes "key")) (link_of [] []) busy_world)
request-request_parts_example =
    request-request_parts (two (codes "get") (codes "key")) hello (link_of [] []) busy_world refl
