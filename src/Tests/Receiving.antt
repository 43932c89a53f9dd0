-- ===== src/Tests/Receiving.antt =====
-- Runs of `send`, `recv` and `recv_req`.
use dbss.Text.{str_nat}
use dbss.Link.Parse.{records_bytes}
use dbss.Common.{◌≡◌, refl, some, [], ◌++◌, codes, length, arith}
use dbss.Text.{clear}
use dbss.Buffer.{decr}
use dbss.Link.Parse.{packet_bytes}
use dbss.Link.Send.{send}
use dbss.Link.Send.Bounds.{Sent, send-Sent}
use dbss.Link.Receive.{recv}
use dbss.Link.Receive.Bounds.{Keeps, recv-Keeps}
use dbss.Link.Receive.Packet.{IsPacket, recv_packet}
use dbss.Tests.{small_memory, no_memory, hello, link_of, buffer_of}

pub hello-IsPacket : IsPacket hello
unfolding records_bytes str_nat
hello-IsPacket = record {
  some_record = λ x. cc;
  short = (omega arith, (omega arith, tt));
  fits = omega arith;
}

-- No memory: the records are dropped, and `send` returns 0.
send-Sent_example :
    Sent ⦃m = no_memory⦄ (link_of [] []) (send ⦃m = no_memory⦄ hello (link_of [] []))
send-Sent_example =
    send-Sent ⦃m = no_memory⦄ hello (link_of [] []) (omega arith, (omega arith, tt)) (omega arith)

recv_packet_example : recv (link_of (packet_bytes hello ++ codes "3") []) clear ≡ (
  some hello,
  record (link_of [] []) {
    recv_data = hello;
    input = decr (buffer_of (packet_bytes hello ++ codes "3")) (length (packet_bytes hello));
  },
  clear,
)
recv_packet_example =
    recv_packet (link_of (packet_bytes hello ++ codes "3") []) clear hello (codes "3")
      hello-IsPacket refl

recv-Keeps_example :
    Keeps (link_of (codes "*1\r\n$4\r\n") []) (recv (link_of (codes "*1\r\n$4\r\n") []) clear)
recv-Keeps_example = recv-Keeps (link_of (codes "*1\r\n$4\r\n") []) clear (omega arith)
