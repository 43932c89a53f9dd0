-- ===== src/Tests/Talking.antt =====
-- A kernel that delivers two replies in pieces.
use dbss.Text.{str_nat, clear}
use dbss.Common.{[], ◌∷◌, codes, arith}
use dbss.Link.Parse.{packet_bytes}
use dbss.Link.Socket.{arrives, read_interrupted, accepts, World}
use dbss.Link.Socket.Delivery.{done, piece, interrupt}
use dbss.Client.Conversation.{Replies, IsRequest}
use dbss.Tests.{small_memory, hello}
use dbss.Tests.Receiving.{hello-IsPacket}
use dbss.Tests.Requests.{get_key}

-- The first reply comes in two pieces, the second in one.
abbrev pub talking : World
talking = record {
  incoming =
      arrives (codes "2\nok\n5\nhe")
      ∷ read_interrupted
      ∷ arrives (codes "llo\n\n")
      ∷ arrives (codes "2\nok\n5\nhello\n\n")
      ∷ [];
  outgoing = accepts 3 ∷ [];
  sent = [];
  errno = clear;
}

pub talking-Replies : Replies [] talking.incoming (hello ∷ hello ∷ [])
unfolding Replies packet_bytes str_nat
talking-Replies = (
  arrives (codes "2\nok\n5\nhello\n\n") ∷ [],
  hello-IsPacket,
  piece _ (codes "\nok\n5\nhe") (interrupt (piece _ (codes "lo\n\n") done)),
  ([], hello-IsPacket, piece _ (codes "\nok\n5\nhello\n\n") done, done),
)

pub get_key-IsRequest : IsRequest get_key
unfolding packet_bytes str_nat
get_key-IsRequest = (λ x. cc, omega arith)
