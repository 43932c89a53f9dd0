-- ===== src/Client/Conversation.antt =====
-- A client as its user sees it: questions and answers in order. `Requests` proves that any number
-- of requests on one link refines this view.
pub mod Requests
use dbss.Common.{
  Option-cases, inl, inr, ◌≤◌, ◌≡◌, ◌≢◌, refl, sym, ap, ◌∙◌, subst, Option, none, some, List, [],
  ◌∷◌, ◌++◌, Bytes, length, map, All, append_assoc, append-nil, arith,
}
use dbss.Buffer.{Memory}
use dbss.Buffer.Capacity.{IsAmple}
use dbss.Link.{Link, max_packet_size, new_link}
use dbss.Link.Parse.{packet_bytes}
use dbss.Link.Receive.Packet.{IsPacket}
use dbss.Link.Socket.{ReadEvent, World}
use dbss.Link.Socket.WriteLoop.{NoWriteError}
use dbss.Link.Socket.Delivery.{Delivers, done, piece, interrupt}
use dbss.Client.{Session, Exec, pure, ◌>>=◌, request}
use dbss.Client.Exchange.{IsIdle, connected, request-Answered}
use dbss.Client.Replies.{bind_some}

-- The abstract view: the requests that the server has read, and the replies that it will give.
pub record Server : Type 0 where
  pub asked : List (List Bytes)
  pub answers : List (List Bytes)

next_answer : List Bytes → List (List Bytes) → List (List Bytes) → Option (List Bytes × Server)
next_answer req asked [] = none
next_answer req asked (r ∷ rs) = some (r, record { asked = asked ++ req ∷ []; answers = rs })

-- One question. It is `none` where the server has no more answers.
unfoldable pub ask : List Bytes → Server → Option (List Bytes × Server)
unfolding next_answer
ask req v = next_answer req v.asked v.answers

unfoldable pub ask_rest :
    List Bytes → Option (List (List Bytes) × Server) → Option (List (List Bytes) × Server)
ask_rest r none = none
ask_rest r (some (rs, v)) = some (r ∷ rs, v)

-- The questions one after another.
unfoldable pub ask_all : List (List Bytes) → Server → Option (List (List Bytes) × Server)
unfolding ask ask_rest
ask_all [] v = some ([], v)
ask_all (req ∷ reqs) v = elim (ask req v) [
  | none ↦ none
  | some (r, v') ↦ ask_rest r (ask_all reqs v')
]

-- The bytes of the packets one behind another.
unfoldable pub stream_bytes : List (List Bytes) → Bytes
unfolding packet_bytes
stream_bytes [] = []
stream_bytes (p ∷ ps) = packet_bytes p ++ stream_bytes ps

-- The kernel delivers the packets in order, in whatever pieces, and then `later` is to come.
unfoldable pub Replies : List ReadEvent → List ReadEvent → List (List Bytes) → Type 0
Replies later es [] = Delivers later es []
Replies later es (r ∷ rs) =
    (mid : List ReadEvent) × IsPacket r × Delivers mid es (packet_bytes r) × Replies later mid rs

-- The concrete state behind a view.
pub record Represents (later : List ReadEvent) (v : Server) (l : Link) (w : World) : Type 0 where
  pub idle : IsIdle l
  pub sent : w.sent ≡ stream_bytes v.asked
  pub quiet : NoWriteError w.outgoing
  pub replies : Replies later w.incoming v.answers

-- What a client may ask: a packet with a record, of at most `MAX_PACKET_SIZE` bytes.
abbrev pub IsRequest : List Bytes → Type 0
IsRequest req = (req ≢ []) × (length (packet_bytes req) ≤ max_packet_size)

module _ ⦃m : Memory⦄ where
  -- The requests one after another on a client.
  unfoldable pub request_all : List (List Bytes) → Exec (List (Option (List Bytes)))
  unfolding request
  request_all [] = pure []
  request_all (req ∷ reqs) = do r ← request req; rs ← request_all reqs; pure (r ∷ rs)

  -- What a request does behind a view: the client returns the abstract answer, and stands for the
  -- abstract server after it.
  abbrev pub Refines :
      List ReadEvent → Option (Option (List Bytes) × Session) → List Bytes × Server → Type 0
  Refines later result (r, v') =
      (l' : Link) × (w' : World) × (result ≡ some (some r, connected l' r w'))
      × Represents later v' l' w'

  -- The same for any number of requests.
  abbrev pub RefinesAll :
      List ReadEvent
      → Option (List (Option (List Bytes)) × Session)
      → List (List Bytes)
      → Server
      → Type 0
  RefinesAll later result rs v' =
      (l' : Link) × (w' : World) × (resp : List Bytes) × (result
        ≡ some (map some rs, connected l' resp w'))
      × Represents later v' l' w'

-- The client that `connect` leaves: a new link, and nothing sent.
pub new_link-Represents :
    (later : List ReadEvent) (answers : List (List Bytes)) (w : World)
    → w.sent ≡ []
    → NoWriteError w.outgoing
    → Replies later w.incoming answers
    → Represents later (record { asked = []; answers = answers }) new_link w
unfolding new_link stream_bytes
new_link-Represents later answers w sent quiet replies = record {
  idle = record {
    blocking = refl;
    plain = refl;
    input_valid = omega arith;
    input_empty = refl;
    output_valid = omega arith;
    output_empty = refl;
    output_steady = omega arith;
  };
  sent = sent;
  quiet = quiet;
  replies = replies;
}
