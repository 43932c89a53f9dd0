-- ===== src/Client/Program/Refines.antt =====
-- Programs of commands on a client that stands for a server's view.
use dbss.Common.{
  Option-cases, inl, inr, ◌≤◌, ◌≡◌, refl, sym, ap, ◌∙◌, subst, Option, none, some, List, Bytes,
  length,
}
use dbss.Text.{ℤ}
use dbss.Buffer.{Memory}
use dbss.Buffer.Capacity.{IsAmple}
use dbss.Link.{Link, max_packet_size}
use dbss.Link.Parse.{packet_bytes}
use dbss.Link.Socket.{ReadEvent, World}
use dbss.Client.{
  Session, Exec, pure, ◌>>=◌, request, call, call_str, call_list, call_int64, int64_result,
}
use dbss.Client.Exchange.{connected}
use dbss.Client.Replies.{bind_some}
use dbss.Client.Conversation.{Server, ask, Represents, Refines}
use dbss.Client.Conversation.Requests.{request-Refines}
use dbss.Client.Program.{
  Shape, plain, text, number, listing, Old, Result, Command, request_of, reads_number, reads,
  Program, finish, perform, view, AllFit, exec, run,
}
use dbss.Client.Program.Commands.{
  request_of_some, call_of, exec-call_of, errno_of, int64_result_lem,
}

some_same : {A : Type 0} (a b : A) → some a ≡ some b → a ≡ b
some_same a b e = ap (λ o. elim o [ none ↦ a | some x ↦ x ]) e

none_ne : {A : Type 0} {a : A} → none ≡ some a → ⊥
none_ne e = cc

module _ ⦃m : Memory⦄ where
  -- How a computation ends that returns `a` with the client standing for the server's view `v`.
  abbrev pub Yields : {A : Type 0} → List ReadEvent → Option (A × Session) → A → Server → Type 0
  Yields later result a v =
      (l : Link) × (w : World) × (resp : List Bytes) × (result ≡ some (a, connected l resp w))
      × Represents later v l w

  -- A read that leaves the session alone.
  read-Yields :
      {A : Type 0} (later : List ReadEvent) (req reply : List Bytes) (v : Server)
      (read : Option (List Bytes) → A) (s : Session)
      → Refines later (request req s) (reply, v)
      → Yields later ((request req >>= λ r. pure (read r)) s) (read (some reply)) v
  read-Yields later req reply v read s (l, w, e, stands) =
      (l, w, reply, bind_some (request req) (λ r. pure (read r)) s e, stands)

  number-Yields :
      (later : List ReadEvent) (req reply : List Bytes) (v : Server) (old : ℤ) (s : Session)
      → Refines later (request req s) (reply, v)
      → Yields later (call_int64 req old s) (reads_number (some reply) old) v
  unfolding call_int64
  number-Yields later req reply v old s (l, w, e, stands) = (
    l,
    record w { errno = errno_of (some reply) w.errno },
    reply,
    bind_some (request req) (λ r. int64_result r old) s e
        ∙ int64_result_lem (some reply) old l reply w,
    record {
      idle = stands.idle;
      sent = stands.sent;
      quiet = stands.quiet;
      replies = stands.replies;
    },
  )

  call_of-Yields :
      (k : Shape) (later : List ReadEvent) (req reply : List Bytes) (v : Server) (old : Old k)
      (s : Session)
      → Refines later (request req s) (reply, v)
      → Yields later (call_of k req old s) (reads k old (some reply)) v
  unfolding reads call call_str call_list
  call_of-Yields plain later req reply v old s h = read-Yields later req reply v _ s h
  call_of-Yields text later req reply v old s h = read-Yields later req reply v _ s h
  call_of-Yields number later req reply v old s h = number-Yields later req reply v old s h
  call_of-Yields listing later req reply v old s h = read-Yields later req reply v _ s h

  exec-Yields :
      {k : Shape} (later : List ReadEvent) (c : Command k) (old : Old k) (reply : List Bytes)
      (v v' : Server) (resp : List Bytes) (l : Link) (w : World)
      → IsAmple
      → Represents later v l w
      → length (packet_bytes (request_of c)) ≤ max_packet_size
      → ask (request_of c) v ≡ some (reply, v')
      → Yields later (exec c old (connected l resp w)) (reads k old (some reply)) v'
  exec-Yields {k} later c old reply v v' resp l w ample h fits e =
      subst
        (λ (m : Exec (Result k)).
          Yields later (m (connected l resp w)) (reads k old (some reply)) v')
        (sym (exec-call_of c old))
        (call_of-Yields k later (request_of c) reply v' old (connected l resp w) (
          request-Refines later (request_of c) resp v (reply, v') l w ample
            (request_of_some c, fits) h e))

  -- With memory below 2^31 granted: a program of any commands, each of whose packets has at most 32
  -- MB, on a client that stands for a server's view does what it does on the abstract server. Where
  -- the abstract run ends, the client returns the same result, and stands for the server after it,
  -- which has read the packets of the commands one behind another and nothing else.
  pub run-Yields :
      {A : Type 0} (later : List ReadEvent) (p : Program A) (v v' : Server) (a : A)
      (resp : List Bytes) (l : Link) (w : World)
      → IsAmple
      → Represents later v l w
      → AllFit p v
      → view p v ≡ some (a, v')
      → Yields later (run p (connected l resp w)) a v'
  unfolding run view AllFit
  run-Yields later (finish b) v v' a resp l w ample h fits e =
      subst (λ r. Yields later (some (b, connected l resp w)) r.0 r.1) (some_same (b, v) (a, v') e)
        (l, w, resp, refl, h)
  run-Yields {A} later (perform {k} c old next) v v' a resp l w ample h (first_fits, fits) e =
      elim (Option-cases (ask (request_of c) v)) [
        | inl no_answer ↦ absurd (none_ne (sym (ap rest no_answer) ∙ e))
        | inr ((reply, v1), first) ↦
            let (l1, w1, resp1, result, stands) =
              exec-Yields later c old reply v v1 resp l w ample h first_fits first in
            let (l2, w2, resp2, results, end) =
              run-Yields later (next (reads k old (some reply))) v1 v' a resp1 l1 w1 ample stands
                (subst rest_fits first fits) (sym (ap rest first) ∙ e) in
            (
              l2,
              w2,
              resp2,
              bind_some (exec c old) (λ r. run (next r)) (connected l resp w) result ∙ results,
              end,
            )
      ]
    where
      rest : Option (List Bytes × Server) → Option (A × Server)
      rest o = elim o [ none ↦ none | some (r, u) ↦ view (next (reads k old (some r))) u ]

      rest_fits : Option (List Bytes × Server) → Type 0
      rest_fits o = elim o [ none ↦ Unit | some (r, u) ↦ AllFit (next (reads k old (some r))) u ]
