-- ===== src/Tests/Mapping.antt =====
-- The maps of `multi_set`.
use dbss.Common.{◌≡◌, refl, List, [], ◌∷◌, Bytes, codes, arith}
use dbss.Text.{pos, clear, str_nat}
use dbss.Link.Parse.{packet_bytes, records_bytes}
use dbss.Link.Socket.{arrives, World}
use dbss.Link.Socket.Delivery.{done, piece}
use dbss.Client.{status, flat_pairs}
use dbss.Client.Exchange.{connected}
use dbss.Client.Replies.{Exchange, Returns}
use dbss.Dbss.{returned, insert_pairs}
use dbss.Dbss.Values.{multi_set}
use dbss.Dbss.Maps.{IsSorted}
use dbss.Dbss.Maps.Lookup.{lookup, first_value, Paired, insert_pairs-Paired}
use dbss.Dbss.Maps.Sent.{multi_set-Returns}
use dbss.Tests.{small_memory, small_memory-IsAmple, link_of}
use dbss.Tests.Requests.{idle_link-IsIdle}

-- A key twice, and the keys not in order.
abbrev kvs : List Bytes
kvs = codes "b" ∷ codes "1" ∷ codes "a" ∷ codes "2" ∷ codes "b" ∷ codes "3" ∷ []

abbrev kvm : List (Bytes × Bytes)
kvm = (codes "a", codes "2") ∷ (codes "b", codes "1") ∷ []

insert_pairs-Paired_example : Paired [] kvs (insert_pairs kvs [])
unfolding IsSorted
insert_pairs-Paired_example = insert_pairs-Paired kvs [] tt

kvs_built : insert_pairs kvs [] ≡ returned kvm
unfolding insert_pairs
kvs_built = refl

abbrev refused : List Bytes
refused = codes "error" ∷ []

abbrev refusing : World
refusing = record {
  incoming = arrives (codes "5\nerror\n\n") ∷ [];
  outgoing = [];
  sent = [];
  errno = clear;
}

refused-Exchange : Exchange [] (codes "multi_set" ∷ flat_pairs kvm) refused (link_of [] []) refusing
unfolding packet_bytes records_bytes str_nat flat_pairs
refused-Exchange = record {
  idle = idle_link-IsIdle;
  some_request = λ x. cc;
  room = omega arith;
  reply_packet = record { some_record = λ x. cc; short = (omega arith, tt); fits = omega arith };
  quiet = tt;
  delivered = piece _ (codes "\nerror\n\n") done;
}

multi_set-Returns_example :
    IsSorted kvm
    × ((j : Bytes) → lookup j kvm ≡ first_value j kvs)
    × Returns
        (status (codes "error"), returned (pos 1))
        (codes "multi_set" ∷ flat_pairs kvm)
        refused
        refusing
        (multi_set kvs (connected (link_of [] []) [] refusing))
multi_set-Returns_example =
    multi_set-Returns [] kvs kvm (codes "error") [] [] (link_of [] []) refusing small_memory-IsAmple
      kvs_built refused-Exchange
