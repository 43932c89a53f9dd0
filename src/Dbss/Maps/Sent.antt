-- ===== src/Dbss/Maps/Sent.antt =====
-- What `DBSS::multi_set` sends.
use dbss.Common.{codes, ◌≡◌, ap, ◌∙◌, subst, List, [], ◌∷◌, Bytes}
use dbss.Text.{pos}
use dbss.Buffer.{Memory}
use dbss.Buffer.Capacity.{IsAmple}
use dbss.Link.{Link}
use dbss.Link.Socket.{ReadEvent, World}
use dbss.Client.{pure, status, status_of, flat_pairs, call}
use dbss.Client.Kv.{multi_set as client_multi_set}
use dbss.Client.Exchange.{connected}
use dbss.Client.Replies.{Exchange, Returns, after_request, bind_some}
use dbss.Dbss.Values.{multi_set, with_pairs}
use dbss.Dbss.{returned, insert_pairs}
use dbss.Dbss.Maps.{IsSorted}
use dbss.Dbss.Maps.Lookup.{lookup, first_value, Paired, insert_pairs-Paired}

empty-IsSorted : IsSorted {A = Bytes} []
unfolding IsSorted
empty-IsSorted = tt

module _ ⦃m : Memory⦄ where
  -- For an array whose loop builds the map `kvm`, and an exchange of an idle client with a server,
  -- where memory below 2^31 is granted: `DBSS::multi_set` sends the pairs of `kvm`, in which each
  -- key has the value behind its first occurrence in the array, in the order of the keys, and it
  -- returns 1, whatever code the server replies with.
  pub multi_set-Returns :
      (later : List ReadEvent) (kvs : List Bytes) (kvm : List (Bytes × Bytes)) (c : Bytes)
      (more resp : List Bytes) (l : Link) (w : World)
      → IsAmple
      → insert_pairs kvs [] ≡ returned kvm
      → Exchange later (codes "multi_set" ∷ flat_pairs kvm) (c ∷ more) l w
      → IsSorted kvm
        × ((j : Bytes) → lookup j kvm ≡ first_value j kvs)
        × Returns
            (status c, returned (pos 1))
            (codes "multi_set" ∷ flat_pairs kvm)
            (c ∷ more)
            w
            (multi_set kvs (connected l resp w))
  unfolding multi_set client_multi_set call lookup
  multi_set-Returns later kvs kvm c more resp l w ample e x =
      let (even, sorted, found) =
        subst (Paired [] kvs) e (insert_pairs-Paired kvs [] empty-IsSorted) in
      let (l', w', result, idle, sent) =
        after_request later _ (c ∷ more) resp l w status_of ample x in
      (
        sorted,
        found,
        (
          l',
          w',
          ap (λ o. with_pairs client_multi_set (λ s. pos 1) o (connected l resp w)) e
              ∙ bind_some (client_multi_set kvm) (λ s. pure (s, returned (pos 1)))
                  (connected l resp w) result,
          idle,
          sent,
        ),
      )
