-- ===== src/Dbss/Life.antt =====
-- A `DBSS` from its constructor on: requests and programs on the link that `connect` leaves.
use dbss.Common.{◌≡◌, subst, sym, some, List, [], Bytes, All}
use dbss.Buffer.{Memory}
use dbss.Buffer.Capacity.{IsAmple}
use dbss.Link.{new_link}
use dbss.Link.Connect.{Kernel, Numbering, Connection}
use dbss.Link.Socket.{ReadEvent, World}
use dbss.Link.Socket.WriteLoop.{NoWriteError}
use dbss.Client.{Session}
use dbss.Client.Conversation.{
  Server, Replies, IsRequest, ask_all, request_all, RefinesAll, new_link-Represents,
}
use dbss.Client.Conversation.Requests.{request_all-RefinesAll}
use dbss.Client.Program.{Program, view, AllFit, run}
use dbss.Client.Program.Refines.{Yields, run-Yields}
use dbss.Dbss.Connect.{new_dbss, new_dbss_link}

-- The client of a `DBSS` with the link of a connection.
abbrev pub session : Connection → World → Session
session c w = record { client = record { link = c.link; resp = [] }; world = w }

module _ ⦃m : Memory⦄ ⦃n : Numbering⦄ where
  -- With memory below 2^31 granted: on a `DBSS` whose constructor got a connection, where nothing
  -- has been sent and the kernel writes without an error and delivers the server's answers in
  -- whatever pieces, requests with a record, whose packets have at most 32 MB, do what the abstract
  -- questions do. When the server has an answer for each, they return the answers in order, and the
  -- server has read their packets one behind another.
  pub new_dbss-RefinesAll :
      (k : Kernel) (c : Connection) (later : List ReadEvent) (reqs answers rs : List (List Bytes))
      (v' : Server) (w : World)
      → IsAmple
      → (new_dbss k).link ≡ some c
      → w.sent ≡ []
      → NoWriteError w.outgoing
      → Replies later w.incoming answers
      → All IsRequest reqs
      → ask_all reqs (record { asked = []; answers = answers }) ≡ some (rs, v')
      → RefinesAll later (request_all reqs (session c w)) rs v'
  new_dbss-RefinesAll k c later reqs answers rs v' w ample made unsent quiet replies ok e =
      subst
        (λ l.
          RefinesAll later
            (request_all reqs (record { client = record { link = l; resp = [] }; world = w })) rs
            v')
        (sym (new_dbss_link k c made))
        (request_all-RefinesAll later reqs (record { asked = []; answers = answers }) [] new_link w
          rs v' ample ok (new_link-Represents later answers w unsent quiet replies) e)

  -- With memory below 2^31 granted: on a `DBSS` whose constructor got a connection, where nothing
  -- has been sent and the kernel writes without an error and delivers the server's answers in
  -- whatever pieces, a program of any commands does what it does on the abstract server, if each of
  -- its packets has at most 32 MB. Where the abstract run ends, it returns the same result, and the
  -- server has read the packets of its commands one behind another and nothing else.
  pub new_dbss-Yields :
      {A : Type 0} (k : Kernel) (c : Connection) (later : List ReadEvent)
      (answers : List (List Bytes)) (p : Program A) (a : A) (v' : Server) (w : World)
      → IsAmple
      → (new_dbss k).link ≡ some c
      → w.sent ≡ []
      → NoWriteError w.outgoing
      → Replies later w.incoming answers
      → AllFit p (record { asked = []; answers = answers })
      → view p (record { asked = []; answers = answers }) ≡ some (a, v')
      → Yields later (run p (session c w)) a v'
  new_dbss-Yields k c later answers p a v' w ample made unsent quiet replies fits e =
      subst
        (λ l.
          Yields later (run p (record { client = record { link = l; resp = [] }; world = w })) a v')
        (sym (new_dbss_link k c made))
        (run-Yields later p (record { asked = []; answers = answers }) v' a [] new_link w ample
          (new_link-Represents later answers w unsent quiet replies) fits e)
