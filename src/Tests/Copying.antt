-- ===== src/Tests/Copying.antt =====
-- Runs of the copies into the caller's memory.
use dbss.Dbss.{until_null}
use dbss.Text.{c_str}
use dbss.Dbss.{strlen}
use dbss.Common.{ℕ, zero, suc, ◌≡◌, some, List, [], ◌∷◌, Bytes, codes, arith}
use dbss.Text.{pos, str_nat}
use dbss.Link.Parse.{packet_bytes}
use dbss.Link.Socket.Delivery.{done, piece}
use dbss.Client.{status}
use dbss.Client.Exchange.{connected}
use dbss.Client.Replies.{Returns}
use dbss.Dbss.{returned, overflow, copy_strings}
use dbss.Dbss.Values.{get}
use dbss.Dbss.Lists.{keys, multi_get}
use dbss.Dbss.Copies.{copy_strings-fits}
use dbss.Dbss.Methods.{get-copied, get-overflow, keys-copied, multi_get-overflow}
use dbss.Tests.{small_memory, small_memory-IsAmple, hello, link_of}
use dbss.Tests.Receiving.{hello-IsPacket}
use dbss.Tests.Sockets.{busy_world, reply_events-Delivers}
use dbss.Tests.Requests.{idle_link-IsIdle, get_key, get_key-Exchange, prompt_world}

copy_strings-fits_example :
    copy_strings 16 (λ _. 8) 0 (codes "one" ∷ codes "two" ∷ [])
    ≡ returned (codes "one" ∷ codes "two" ∷ [])
unfolding strlen
copy_strings-fits_example =
    copy_strings-fits 16 (λ _. 8) 0 (codes "one" ∷ codes "two" ∷ [])
      (omega arith, (omega arith, tt)) (omega arith)

get-copied_example :
    Returns
      (status (codes "ok"), returned (pos 1, codes "hello"))
      get_key
      hello
      busy_world
      (get (codes "key") 255 (connected (link_of [] []) [] busy_world))
unfolding c_str
get-copied_example =
    get-copied [] (codes "key") (codes "hello") 255 [] (link_of [] []) busy_world
      small_memory-IsAmple (omega arith) (omega arith) get_key-Exchange

multi_get-overflow_example :
    Returns
      (status (codes "ok"), overflow)
      (codes "multi_get" ∷ codes "key" ∷ [])
      hello
      busy_world
      (multi_get (some (codes "key") ∷ []) 128 (connected (link_of [] []) [] busy_world))
unfolding packet_bytes str_nat until_null
multi_get-overflow_example =
    multi_get-overflow [] (some (codes "key") ∷ []) 128 (codes "hello") [] [] (link_of [] [])
      busy_world small_memory-IsAmple
      (record {
        idle = idle_link-IsIdle;
        some_request = λ x. cc;
        room = omega arith;
        reply_packet = hello-IsPacket;
        quiet = (tt, (tt, tt));
        delivered = reply_events-Delivers;
      })

keys-copied_example :
    Returns
      (status (codes "ok"), returned (pos 1, record { ptr = codes "hello" ∷ []; count = 1 }))
      (codes "keys" ∷ codes "a" ∷ codes "z" ∷ codes "2" ∷ [])
      hello
      busy_world
      (keys (codes "a") (codes "z") 2 16 (connected (link_of [] []) [] busy_world))
unfolding strlen packet_bytes str_nat
keys-copied_example =
    keys-copied [] (codes "a") (codes "z") 2 16 (codes "hello" ∷ []) [] (link_of [] []) busy_world
      small_memory-IsAmple (omega arith) (omega arith) (omega arith) (omega arith) (omega arith, tt)
      (record {
        idle = idle_link-IsIdle;
        some_request = λ x. cc;
        room = omega arith;
        reply_packet = hello-IsPacket;
        quiet = (tt, (tt, tt));
        delivered = reply_events-Delivers;
      })

-- A value of 300 bytes.
abbrev many : ℕ → Bytes
many zero = []
many (suc n) = b'a' ∷ many n

abbrev long_reply : List Bytes
long_reply = codes "ok" ∷ many 300 ∷ []

get-overflow_example :
    Returns
      (status (codes "ok"), overflow)
      get_key
      long_reply
      (prompt_world (packet_bytes long_reply))
      (get
        (codes "key")
        1024
        (connected (link_of [] []) [] (prompt_world (packet_bytes long_reply))))
unfolding packet_bytes str_nat
get-overflow_example =
    get-overflow [] (codes "key") (many 300) 1024 [] (link_of [] [])
      (prompt_world (packet_bytes long_reply)) small_memory-IsAmple (omega arith)
      (record {
        idle = idle_link-IsIdle;
        some_request = λ x. cc;
        room = omega arith;
        reply_packet = record {
          some_record = λ x. cc;
          short = (omega arith, (omega arith, tt));
          fits = omega arith;
        };
        quiet = tt;
        delivered = piece _ _ done;
      })
