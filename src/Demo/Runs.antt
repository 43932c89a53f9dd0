-- ===== src/Demo/Runs.antt =====
-- The demonstration on a client: what it prints, returns and sends.
use dbss.Common.{
  ◌≤◌, ℕ, ◌≡◌, refl, sym, ap, ◌∙◌, subst, inl, inr, true, Option, none, some, List, [], ◌∷◌, ◌++◌,
  Bytes, length, All, every-All, ltb, ltb→lt, append_assoc, append-nil, Option-cases, arith,
}
use dbss.Text.{ℤ, str_nat}
use dbss.Buffer.{Memory}
use dbss.Buffer.Capacity.{IsAmple}
use dbss.Link.{Link, max_packet_size, new_link}
use dbss.Link.Parse.{packet_bytes}
use dbss.Link.Socket.{ReadEvent, World}
use dbss.Link.Socket.WriteLoop.{NoWriteError}
use dbss.Client.{Session}
use dbss.Client.Exchange.{connected}
use dbss.Client.Conversation.{Server, ask, stream_bytes, Replies, new_link-Represents}
use dbss.Client.Conversation.Requests.{ask-asked}
use dbss.Client.Program.{Result, Program, finish, request_of, reads, view, AllFit, run}
use dbss.Client.Program.Refines.{run-Yields}
use dbss.Demo.{Outcome, returned, aborted}
use dbss.Demo.Main.{main}
use dbss.Demo.Sends.{Sends, returns, aborts, sends, demo_requests, main-Sends}

none_ne : {A : Type 0} {a : A} → none ≡ some a → ⊥
none_ne e = cc

abbrev IsSmall : List Bytes → Type 0
IsSmall req = length (packet_bytes req) ≤ max_packet_size

demo_requests-IsSmall : All IsSmall demo_requests
unfolding packet_bytes str_nat
demo_requests-IsSmall =
    every-All (λ req. ltb (length (packet_bytes req)) max_packet_size) IsSmall demo_requests
      (λ req e. omega (arith, ltb→lt _ _ e)) refl

Sends-AllFit :
    {reqs : List (List Bytes)} {p : Program Outcome} (v : Server)
    → Sends reqs p
    → All IsSmall reqs
    → AllFit p v
unfolding AllFit
Sends-AllFit v (returns n out) small = tt
Sends-AllFit v (aborts reqs out) small = tt
Sends-AllFit v (sends {k} {c} {old} {next} same more) small = (
  subst IsSmall (sym same) small.0,
  by_answer (ask (request_of c) v) (λ r v'. Sends-AllFit v' (more r) small.1),
)
  where
    Rest : Option (List Bytes × Server) → Type 0
    Rest o = elim o [ none ↦ Unit | some (reply, v') ↦ AllFit (next (reads k old (some reply))) v' ]

    by_answer :
        (o : Option (List Bytes × Server))
        → ((r : Result k) (v' : Server) → AllFit (next r) v')
        → Rest o
    by_answer none fits = tt
    by_answer (some (reply, v')) fits = fits (reads k old (some reply)) v'

finish_asked :
    (o o' : Outcome) (v v' : Server)
    → view (finish o) v ≡ some (o', v')
    → (o ≡ o') × (v'.asked ≡ v.asked)
unfolding view
finish_asked o o' v v' e = (
  ap (λ r. elim r [ none ↦ o | some x ↦ x.0 ]) e,
  sym (ap (λ r. elim r [ none ↦ v.asked | some x ↦ x.1.asked ]) e),
)

-- A program that returns has asked all the requests.
Sends-asked :
    {reqs : List (List Bytes)} {p : Program Outcome} (v v' : Server) (n : ℕ) (out : Bytes)
    → Sends reqs p
    → view p v ≡ some (returned n out, v')
    → v'.asked ≡ v.asked ++ reqs
unfolding view
Sends-asked v v' n out (returns n' out') e =
    (finish_asked (returned n' out') (returned n out) v v' e).1 ∙ sym (append-nil v.asked)
Sends-asked v v' n out (aborts reqs out') e =
    absurd (aborted_ne ((finish_asked (aborted out') (returned n out) v v' e).0))
  where
    aborted_ne : aborted out' ≡ returned n out → ⊥
    aborted_ne h = cc
Sends-asked v v' n out (sends {k} {c} {old} {next} {req} {reqs} same more) e =
    elim (Option-cases (ask (request_of c) v)) [
      | inl no_answer ↦ absurd (none_ne (sym (ap rest no_answer) ∙ e))
      | inr ((reply, v1), first) ↦
          Sends-asked v1 v' n out (more (reads k old (some reply))) (sym (ap rest first) ∙ e)
          ∙ ap (λ t. t ++ reqs) (ask-asked (request_of c) v reply v1 first)
          ∙ append_assoc v.asked (request_of c ∷ []) reqs
          ∙ ap (λ r. v.asked ++ r ∷ reqs) same
    ]
  where
    rest : Option (List Bytes × Server) → Option (Outcome × Server)
    rest o = elim o [ none ↦ none | some (r, u) ↦ view (next (reads k old (some r))) u ]

module _ ⦃m : Memory⦄ where
  -- The demonstration on the client that `connect` leaves, where it returns on the abstract server.
  abbrev pub Demonstrates : Option (Outcome × Session) → ℕ → Bytes → Type 0
  Demonstrates result n out =
      (l : Link) × (w : World) × (resp : List Bytes) × (result
        ≡ some (returned n out, connected l resp w))
      × (w.sent ≡ stream_bytes demo_requests)

  -- With memory below 2^31 granted: where the demonstration returns on an abstract server that
  -- gives these answers, it returns the same number and prints the same text on the client that
  -- `connect` leaves, when the kernel delivers the packets of the answers in whatever pieces; and
  -- the client has sent exactly the packets of `demo_requests`, one behind another.
  pub main-Demonstrates :
      (later : List ReadEvent) (answers : List (List Bytes)) (name : Bytes) (ret score : ℤ)
      (w : World) (v : Server) (n : ℕ) (out : Bytes)
      → IsAmple
      → w.sent ≡ []
      → NoWriteError w.outgoing
      → Replies later w.incoming answers
      → view (main name true ret score) (record { asked = []; answers = answers })
        ≡ some (returned n out, v)
      → Demonstrates (run (main name true ret score) (connected new_link [] w)) n out
  main-Demonstrates later answers name ret score w v n out ample sent quiet replies e =
      let start : Server = record { asked = []; answers = answers } in
      let p = main name true ret score in
      let (l, w', resp, result, stands) =
        run-Yields later p start v (returned n out) [] new_link w ample
          (new_link-Represents later answers w sent quiet replies)
          (Sends-AllFit start (main-Sends name ret score) demo_requests-IsSmall) e in
      (
        l,
        w',
        resp,
        result,
        stands.sent ∙ ap stream_bytes (Sends-asked start v n out (main-Sends name ret score) e),
      )
