-- ===== src/Tests/Sockets.antt =====
-- Runs of `write`, `flush` and `response` against a kernel that interrupts and cuts its calls.
use dbss.Text.{str_nat}
use dbss.Common.{refl, false, List, [], ◌∷◌, codes, arith}
use dbss.Text.{clear}
use dbss.Link.Parse.{packet_bytes}
use dbss.Link.Socket.{
  ReadEvent, arrives, read_interrupted, accepts, write_interrupted, write_error, World, WriteState,
  write_loop, flush, response,
}
use dbss.Link.Socket.WriteLoop.{Wrote, write_loop-Wrote}
use dbss.Link.Socket.Flush.{Flushes, flush-Flushes}
use dbss.Link.Socket.Delivery.{Delivers, done, piece, interrupt, Received, response-Received}
use dbss.Link.Socket.Response.{Ends, response-Ends}
use dbss.Tests.{small_memory, small_memory-IsAmple, hello, link_of, buffer_of}
use dbss.Tests.Receiving.{hello-IsPacket}

-- The reply in two pieces with an interrupted call between them; a partial write of the request.
abbrev pub reply_events : List ReadEvent
reply_events = arrives (codes "2\nok\n5") ∷ read_interrupted ∷ arrives (codes "\nhello\n\n") ∷ []

abbrev pub busy_world : World
busy_world = record {
  incoming = reply_events;
  outgoing = accepts 3 ∷ write_interrupted ∷ [];
  sent = [];
  errno = clear;
}

pub reply_events-Delivers : Delivers [] reply_events (packet_bytes hello)
unfolding packet_bytes str_nat
reply_events-Delivers = piece _ (codes "\nok\n5") (interrupt (piece _ (codes "hello\n\n") done))

abbrev waiting : WriteState
waiting = record {
  buffer = buffer_of (codes "hello");
  events = [];
  sent = codes "x";
  errno = clear;
}

write_loop-Wrote_example :
    Wrote 0 waiting
      (accepts 3 ∷ write_error ∷ [])
      (write_loop false (accepts 3 ∷ write_error ∷ []) waiting 0)
write_loop-Wrote_example = write_loop-Wrote false (accepts 3 ∷ write_error ∷ []) waiting 0

flush-Flushes_example :
    Flushes (link_of [] (codes "hello")) busy_world (flush (link_of [] (codes "hello")) busy_world)
flush-Flushes_example = flush-Flushes (link_of [] (codes "hello")) busy_world (omega arith)

response-Received_example :
    Received [] hello (link_of [] []) busy_world (response (link_of [] []) busy_world)
response-Received_example =
    response-Received [] hello (link_of [] []) busy_world small_memory-IsAmple hello-IsPacket
      (omega arith) refl refl reply_events-Delivers

response-Ends_example :
    Ends (link_of (codes "1x\n") []) busy_world (response (link_of (codes "1x\n") []) busy_world)
response-Ends_example = response-Ends (link_of (codes "1x\n") []) busy_world (omega arith)
