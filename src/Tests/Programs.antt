-- ===== src/Tests/Programs.antt =====
-- Programs of client commands, and the demonstration, against a server that gives all its answers
-- at once.
use dbss.Common.{
  ◌^◌, ◌<◌, ◌≡◌, ◌≢◌, refl, subst, Bool, true, false, ◌&&◌, Option, none, some, List, [], ◌∷◌, ◌++◌,
  Bytes, codes, length, All, every, every-All, and_left, and_right, ltb, ltb→lt, ◌==◌, append-nil,
  arith, if◌then◌else◌,
}
use dbss.Text.{ℤ, pos, str_nat, clear}
use dbss.Link.{new_link, max_packet_size}
use dbss.Link.Parse.{packet_bytes, records_bytes}
use dbss.Link.Receive.Packet.{IsPacket}
use dbss.Link.Socket.{ReadEvent, arrives, accepts, World}
use dbss.Link.Socket.Delivery.{Delivers, done, piece}
use dbss.Client.{ok}
use dbss.Client.Exchange.{connected}
use dbss.Client.Conversation.{Server, Replies, new_link-Represents}
use dbss.Client.Program.{Program, finish, perform, set, get, incr, view, AllFit, run}
use dbss.Client.Program.Refines.{Yields, run-Yields}
use dbss.Demo.{Outcome, returned}
use dbss.Demo.Main.{main}
use dbss.Demo.Runs.{Demonstrates, main-Demonstrates}
use dbss.Tests.{small_memory, small_memory-IsAmple}

abbrev pub delivered : List (List Bytes) → List ReadEvent
delivered [] = []
delivered (r ∷ rs) = arrives (packet_bytes r) ∷ delivered rs

arrives_whole : (later : List ReadEvent) (p : Bytes) → p ≢ [] → Delivers later (arrives p ∷ later) p
arrives_whole later [] some_byte = absurd (some_byte refl)
arrives_whole later (c ∷ bs) some_byte =
    subst (Delivers later (arrives (c ∷ bs) ∷ later)) (append-nil (c ∷ bs)) (piece c bs done)

packet_bytes_some : (r : List Bytes) → packet_bytes r ≢ []
unfolding packet_bytes
packet_bytes_some r = snoc_some (records_bytes r)
  where
    snoc_some : (s : Bytes) → s ++ b'\n' ∷ [] ≢ []
    snoc_some [] = λ x. cc
    snoc_some (c ∷ s) = λ x. cc

pub delivered-Replies : (rs : List (List Bytes)) → All IsPacket rs → Replies [] (delivered rs) rs
unfolding Replies
delivered-Replies [] h = done
delivered-Replies (r ∷ rs) h = (
  delivered rs,
  h.0,
  arrives_whole (delivered rs) (packet_bytes r) (packet_bytes_some r),
  delivered-Replies rs h.1,
)

abbrev pub serving : List (List Bytes) → World
serving rs = record { incoming = delivered rs; outgoing = accepts 3 ∷ []; sent = []; errno = clear }

abbrev pub is_packet : List Bytes → Bool
is_packet [] = false
is_packet (s ∷ ss) =
    every (λ t. ltb (length t) (2 ^ 31)) (s ∷ ss)
    && ltb (length (records_bytes (s ∷ ss))) max_packet_size

pub is_packet-IsPacket : (r : List Bytes) → is_packet r ≡ true → IsPacket r
is_packet-IsPacket [] e = cc
is_packet-IsPacket (s ∷ ss) e = record {
  some_record = λ x. cc;
  short =
      every-All (λ t. ltb (length t) (2 ^ 31)) (λ t. length t < 2 ^ 31) (s ∷ ss)
        (λ t. ltb→lt (length t) (2 ^ 31)) (and_left _ _ e);
  fits = omega (arith, ltb→lt _ _ (and_right (every (λ t. ltb (length t) (2 ^ 31)) (s ∷ ss)) _ e));
}

-- A key is set and read, and where the read succeeds a counter goes up.
abbrev pub set_get_incr : Program (Option ℤ)
set_get_incr = perform (set (codes "key") (codes "v")) tt λ _.
    perform (get (codes "key")) [] λ (s, v).
      let counted : Program (Option ℤ) =
        perform (incr (codes "n") (pos 1)) (pos 0) λ (s, n). finish (some n) in
      if ok s then counted else finish none

abbrev pub three_answers : List (List Bytes)
three_answers =
    (codes "ok" ∷ []) ∷ (codes "ok" ∷ codes "v" ∷ []) ∷ (codes "ok" ∷ codes "41" ∷ []) ∷ []

pub three_answers-Replies : Replies [] (delivered three_answers) three_answers
unfolding records_bytes str_nat
three_answers-Replies =
    delivered-Replies three_answers
      (every-All is_packet IsPacket three_answers is_packet-IsPacket refl)

-- The answers of a server to the demonstration, where `zrrank` is answered by these records.
abbrev demo_answers : List Bytes → List (List Bytes)
demo_answers r =
    (codes "ok" ∷ [])
    ∷ (codes "ok" ∷ [])
    ∷ (codes "ok" ∷ codes "test_val" ∷ [])
    ∷ (codes "ok" ∷ codes "1" ∷ [])
    ∷ (codes "not_found" ∷ [])
    ∷ (codes "ok" ∷ codes "3" ∷ [])
    ∷ (codes "ok" ∷ codes "2" ∷ [])
    ∷ (codes "ok" ∷ codes "a" ∷ codes "b" ∷ [])
    ∷ (codes "ok" ∷ codes "a" ∷ codes "1" ∷ codes "b" ∷ codes "2" ∷ [])
    ∷ (codes "ok" ∷ codes "b" ∷ codes "2" ∷ codes "a" ∷ codes "1" ∷ [])
    ∷ (codes "ok" ∷ codes "2" ∷ [])
    ∷ (codes "ok" ∷ codes "k1" ∷ codes "v1" ∷ codes "k2" ∷ codes "v2" ∷ [])
    ∷ (codes "ok" ∷ codes "2" ∷ [])
    ∷ (codes "ok" ∷ codes "1" ∷ [])
    ∷ (codes "ok" ∷ codes "test_val" ∷ [])
    ∷ (codes "ok" ∷ codes "1" ∷ [])
    ∷ (codes "not_found" ∷ [])
    ∷ (codes "ok" ∷ codes "0" ∷ [])
    ∷ (codes "ok" ∷ codes "3" ∷ [])
    ∷ (codes "ok" ∷ codes "2" ∷ [])
    ∷ (codes "ok" ∷ codes "k" ∷ [])
    ∷ (codes "ok" ∷ codes "k" ∷ codes "2" ∷ [])
    ∷ (codes "ok" ∷ codes "k" ∷ codes "2" ∷ [])
    ∷ (codes "ok" ∷ codes "2" ∷ [])
    ∷ (codes "ok" ∷ codes "k1" ∷ codes "v1" ∷ codes "k2" ∷ codes "v2" ∷ [])
    ∷ (codes "ok" ∷ codes "k" ∷ codes "2" ∷ codes "k1" ∷ codes "v1" ∷ codes "k2" ∷ codes "v2" ∷ [])
    ∷ (codes "ok" ∷ codes "2" ∷ [])
    ∷ (codes "ok" ∷ codes "1" ∷ [])
    ∷ (codes "ok" ∷ codes "1" ∷ [])
    ∷ (codes "ok" ∷ codes "100" ∷ [])
    ∷ (codes "ok" ∷ codes "1" ∷ [])
    ∷ (codes "not_found" ∷ [])
    ∷ (codes "ok" ∷ codes "0" ∷ [])
    ∷ (codes "ok" ∷ codes "3" ∷ [])
    ∷ (codes "ok" ∷ codes "2" ∷ [])
    ∷ (codes "ok" ∷ codes "1" ∷ [])
    ∷ (codes "ok" ∷ codes "1" ∷ [])
    ∷ (codes "ok" ∷ codes "1" ∷ [])
    ∷ (codes "ok" ∷ codes "a" ∷ codes "k" ∷ [])
    ∷ (codes "ok" ∷ codes "a" ∷ codes "-1" ∷ codes "k" ∷ codes "2" ∷ [])
    ∷ (codes "ok" ∷ codes "c" ∷ codes "4" ∷ codes "b" ∷ codes "3" ∷ [])
    ∷ (codes "ok" ∷ codes "a" ∷ codes "-1" ∷ codes "k" ∷ codes "2" ∷ [])
    ∷ (codes "ok" ∷ codes "c" ∷ codes "4" ∷ codes "b" ∷ codes "3" ∷ [])
    ∷ (codes "ok" ∷ codes "2" ∷ [])
    ∷ (codes "ok" ∷ codes "k1" ∷ codes "123" ∷ codes "k2" ∷ codes "124" ∷ [])
    ∷ (codes "ok" ∷ codes "2" ∷ [])
    ∷ (codes "ok" ∷ codes "2" ∷ [])
    ∷ r
    ∷ (codes "ok" ∷ codes "4" ∷ [])
    ∷ (codes "ok" ∷ codes "1" ∷ [])
    ∷ (codes "ok" ∷ codes "hello ssdb!" ∷ [])
    ∷ (codes "ok" ∷ codes "1" ∷ [])
    ∷ (codes "ok" ∷ codes "2" ∷ [])
    ∷ (codes "ok" ∷ codes "hello1!" ∷ codes "hello2!" ∷ [])
    ∷ (codes "ok" ∷ codes "hello2!" ∷ [])
    ∷ (codes "ok" ∷ codes "hello1!" ∷ [])
    ∷ []

demo_answers-Replies :
    Replies []
      (delivered (demo_answers (codes "ok" ∷ codes "1" ∷ [])))
      (demo_answers (codes "ok" ∷ codes "1" ∷ []))
unfolding records_bytes str_nat
demo_answers-Replies = delivered-Replies (demo_answers (codes "ok" ∷ codes "1" ∷ [])) (
    every-All is_packet IsPacket (demo_answers (codes "ok" ∷ codes "1" ∷ [])) is_packet-IsPacket
      refl)

pub set_get_incr-AllFit : AllFit set_get_incr (record { asked = []; answers = three_answers })
unfolding AllFit packet_bytes str_nat ok
set_get_incr-AllFit = (omega arith, (omega arith, (omega arith, tt)))

run-Yields_example :
    Yields []
      (run set_get_incr (connected new_link [] (serving three_answers)))
      (some (pos 41))
      (record {
        asked =
            (codes "set" ∷ codes "key" ∷ codes "v" ∷ [])
            ∷ (codes "get" ∷ codes "key" ∷ [])
            ∷ (codes "incr" ∷ codes "n" ∷ codes "1" ∷ [])
            ∷ [];
        answers = [];
      })
unfolding view ok str_nat
run-Yields_example =
    run-Yields [] set_get_incr (record { asked = []; answers = three_answers })
      (record {
        asked =
            (codes "set" ∷ codes "key" ∷ codes "v" ∷ [])
            ∷ (codes "get" ∷ codes "key" ∷ [])
            ∷ (codes "incr" ∷ codes "n" ∷ codes "1" ∷ [])
            ∷ [];
        answers = [];
      })
      (some (pos 41)) [] new_link (serving three_answers) small_memory-IsAmple
      (new_link-Represents [] three_answers (serving three_answers) refl (tt, tt)
        three_answers-Replies)
      set_get_incr-AllFit refl

abbrev demo_result : List Bytes → Option (Outcome × Server)
demo_result r =
    view (main (codes "demo") true (pos 7) (pos 7))
      (record { asked = []; answers = demo_answers r })

abbrev text_of : Option (Outcome × Server) → Bytes
text_of (some (returned n out, v)) = out
text_of _ = []

abbrev returns_zero : Option (Outcome × Server) → Bool
returns_zero (some (returned n out, v)) = n == 0
returns_zero _ = false

-- Also where the `zrrank` has failed: the assertion behind it reads an older status, and the rank
-- of `zrank`.
demo_ends : returns_zero (demo_result (codes "ok" ∷ codes "1" ∷ [])) ≡ true
unfolding view ok str_nat main
demo_ends = refl

zrrank_failure_unseen : returns_zero (demo_result (codes "error" ∷ [])) ≡ true
unfolding view ok str_nat main
zrrank_failure_unseen = refl

-- What the demonstration leaves of the server.
abbrev server_of : Option (Outcome × Server) → Server
server_of (some (o, v)) = v
server_of none = record { asked = []; answers = [] }

abbrev demo_text : Bytes
demo_text = text_of (demo_result (codes "ok" ∷ codes "1" ∷ []))

main-Demonstrates_example :
    Demonstrates
      (run
        (main (codes "demo") true (pos 7) (pos 7))
        (connected new_link [] (serving (demo_answers (codes "ok" ∷ codes "1" ∷ [])))))
      0
      demo_text
unfolding view ok str_nat main
main-Demonstrates_example =
    main-Demonstrates [] (demo_answers (codes "ok" ∷ codes "1" ∷ [])) (codes "demo") (pos 7) (pos 7)
      (serving (demo_answers (codes "ok" ∷ codes "1" ∷ [])))
      (server_of (demo_result (codes "ok" ∷ codes "1" ∷ []))) 0 demo_text small_memory-IsAmple refl
      (tt, tt) demo_answers-Replies refl
