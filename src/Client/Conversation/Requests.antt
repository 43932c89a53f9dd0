-- ===== src/Client/Conversation/Requests.antt =====
-- Requests on a client do what questions do to the abstract view.
use dbss.Common.{
  Option-cases, inl, inr, ◌≡◌, refl, sym, ap, ◌∙◌, subst, Option, none, some, List, [], ◌∷◌, ◌++◌,
  Bytes, map, All, append_assoc, append-nil,
}
use dbss.Buffer.{Memory}
use dbss.Buffer.Capacity.{IsAmple}
use dbss.Link.{Link}
use dbss.Link.Parse.{packet_bytes}
use dbss.Link.Socket.{ReadEvent, World}
use dbss.Link.Socket.Delivery.{Delivers, done, piece, interrupt}
use dbss.Client.{Session, pure, ◌>>=◌, request}
use dbss.Client.Exchange.{connected, request-Answered}
use dbss.Client.Replies.{bind_some}
use dbss.Client.Conversation.{
  Server, next_answer, ask, ask_rest, ask_all, stream_bytes, Replies, Represents, IsRequest,
  request_all, Refines, RefinesAll,
}

stream_bytes-snoc :
    (ps : List (List Bytes)) (p : List Bytes)
    → stream_bytes (ps ++ p ∷ []) ≡ stream_bytes ps ++ packet_bytes p
unfolding stream_bytes
stream_bytes-snoc [] p = append-nil (packet_bytes p)
stream_bytes-snoc (q ∷ ps) p =
    ap (λ t. packet_bytes q ++ t) (stream_bytes-snoc ps p)
    ∙ sym (append_assoc (packet_bytes q) (stream_bytes ps) (packet_bytes p))

Delivers-trans :
    {later mid es : List ReadEvent} {p q : Bytes}
    → Delivers mid es p
    → Delivers later mid q
    → Delivers later es (p ++ q)
Delivers-trans done e = e
Delivers-trans {later = later} {q = t} (piece c bs {es} {q} d) e =
    subst (Delivers later _) (sym (append_assoc (c ∷ bs) q t)) (piece c bs (Delivers-trans d e))
Delivers-trans (interrupt d) e = interrupt (Delivers-trans d e)

pub Replies-skip :
    (later mid es : List ReadEvent) (rs : List (List Bytes))
    → Delivers mid es []
    → Replies later mid rs
    → Replies later es rs
unfolding Replies
Replies-skip later mid es [] d e = Delivers-trans d e
Replies-skip later mid es (r ∷ rs) d (mid', pk, e, more) = (mid', pk, Delivers-trans d e, more)

ask_all-none :
    (req : List Bytes) (reqs : List (List Bytes)) (v : Server)
    → ask req v ≡ none
    → ask_all (req ∷ reqs) v ≡ none
unfolding ask_all
ask_all-none req reqs v e = rw (e, ask_all) refl

pub ask-some :
    (req r : List Bytes) (asked answers : List (List Bytes))
    → ask req (record { asked = asked; answers = r ∷ answers })
      ≡ some (r, record { asked = asked ++ req ∷ []; answers = answers })
unfolding ask next_answer
ask-some req r asked answers = refl

pub ask_all-some :
    (req : List Bytes) (reqs : List (List Bytes)) (v : Server) (r : List Bytes) (v' : Server)
    (o : Option (List (List Bytes) × Server))
    → ask req v ≡ some (r, v')
    → ask_all reqs v' ≡ o
    → ask_all (req ∷ reqs) v ≡ ask_rest r o
unfolding ask_all
ask_all-some req reqs v r v' o e f = rw (e, ask_all) (ap (ask_rest r) f)

none_ne : {A : Type 0} {a : A} → none ≡ some a → ⊥
none_ne e = cc

some_same : {A : Type 0} (a b : A) → some a ≡ some b → a ≡ b
some_same a b e = ap (λ o. elim o [ none ↦ a | some x ↦ x ]) e

next_answer-asked :
    (req : List Bytes) (asked answers : List (List Bytes)) (r : List Bytes) (v' : Server)
    → next_answer req asked answers ≡ some (r, v')
    → v'.asked ≡ asked ++ req ∷ []
unfolding next_answer
next_answer-asked req asked [] r v' e = absurd (none_ne e)
next_answer-asked req asked (a ∷ rest) r v' e =
    ap (λ (n : List Bytes × Server). n.1.asked)
      (sym (some_same (a, record { asked = asked ++ req ∷ []; answers = rest }) (r, v') e))

-- A question is behind the earlier ones.
pub ask-asked :
    (req : List Bytes) (v : Server) (r : List Bytes) (v' : Server)
    → ask req v ≡ some (r, v')
    → v'.asked ≡ v.asked ++ req ∷ []
unfolding ask
ask-asked req v r v' e = next_answer-asked req v.asked v.answers r v' e

module _ ⦃m : Memory⦄ where
  next_answer-Refines :
      (later : List ReadEvent) (req resp : List Bytes) (asked answers : List (List Bytes))
      (next : List Bytes × Server) (l : Link) (w : World)
      → IsAmple
      → IsRequest req
      → Represents later (record { asked = asked; answers = answers }) l w
      → next_answer req asked answers ≡ some next
      → Refines later (request req (connected l resp w)) next
  unfolding next_answer Replies
  next_answer-Refines later req resp asked [] next l w ample (some_record, small) h e = cc
  next_answer-Refines later req resp asked (r ∷ rs) next l w ample (some_record, small) h e =
      let (mid, pk, d, more) = h.replies in
      let (l', w', result, idle, sent, rest, quiet) =
        request-Answered mid req r resp l w ample h.idle some_record small pk h.quiet d in
      subst (Refines later (request req (connected l resp w)))
        (ap
          (λ o. elim o [
            | none ↦ (r, record { asked = asked ++ req ∷ []; answers = rs })
            | some p ↦ p
          ])
          e)
        (
          l',
          w',
          result,
          record {
            idle = idle;
            sent =
                sent ∙ ap (λ t. t ++ packet_bytes req) h.sent ∙ sym (stream_bytes-snoc asked req);
            quiet = quiet;
            replies = Replies-skip later mid w'.incoming rs rest more;
          },
        )

  -- A request on a client that stands for a server's view does what `ask` does to the view.
  pub request-Refines :
      (later : List ReadEvent) (req resp : List Bytes) (v : Server) (next : List Bytes × Server)
      (l : Link) (w : World)
      → IsAmple
      → IsRequest req
      → Represents later v l w
      → ask req v ≡ some next
      → Refines later (request req (connected l resp w)) next
  unfolding ask
  request-Refines later req resp v next l w ample ok h e =
      next_answer-Refines later req resp v.asked v.answers next l w ample ok h e

  request_all-cons :
      (req : List Bytes) (reqs : List (List Bytes)) (s s' s'' : Session) (r : Option (List Bytes))
      (rs : List (Option (List Bytes)))
      → request req s ≡ some (r, s')
      → request_all reqs s' ≡ some (rs, s'')
      → request_all (req ∷ reqs) s ≡ some (r ∷ rs, s'')
  unfolding request_all
  request_all-cons req reqs s s' s'' r rs e f =
      bind_some (request req) (λ r. request_all reqs >>= λ rs. pure (r ∷ rs)) s e
      ∙ bind_some (request_all reqs) (λ rs. pure (r ∷ rs)) s' f

  request_all-RefinesAll_cons :
      (later : List ReadEvent) (req : List Bytes) (reqs : List (List Bytes)) (r : List Bytes)
      (rs : List (List Bytes)) (v' v'' : Server) (s : Session)
      → Refines later (request req s) (r, v')
      → ((l : Link) (w : World)
          → Represents later v' l w
          → RefinesAll later (request_all reqs (connected l r w)) rs v'')
      → RefinesAll later (request_all (req ∷ reqs) s) (r ∷ rs) v''
  request_all-RefinesAll_cons later req reqs r rs v' v'' s (l, w, result, stands) rest =
      let (l2, w2, resp2, results, end) = rest l w stands in
      (
        l2,
        w2,
        resp2,
        request_all-cons req reqs s (connected l r w) (connected l2 resp2 w2) (some r) (map some rs)
            result results,
        end,
      )

  -- With memory below 2^31 granted: requests with a record, whose packets have at most 32 MB, on a
  -- client that stands for a server's view do what the abstract questions do. When the server has
  -- an answer for each, they return the answers in order, and the client stands for the server
  -- after them, which has read their packets one behind another.
  pub request_all-RefinesAll :
      (later : List ReadEvent) (reqs : List (List Bytes)) (v : Server) (resp : List Bytes)
      (l : Link) (w : World) (rs : List (List Bytes)) (v' : Server)
      → IsAmple
      → All IsRequest reqs
      → Represents later v l w
      → ask_all reqs v ≡ some (rs, v')
      → RefinesAll later (request_all reqs (connected l resp w)) rs v'
  unfolding request_all ask_all ask_rest
  request_all-RefinesAll later [] v resp l w rs v' ample ok h e =
      subst (λ n. RefinesAll later (request_all [] (connected l resp w)) n.0 n.1)
        (some_same ([], v) (rs, v') e) (l, w, resp, refl, h)
  request_all-RefinesAll later (req ∷ reqs) v resp l w rs v' ample ok h e =
      elim (Option-cases (ask req v)) [
        | inl none_left ↦ absurd (none_ne (sym (ask_all-none req reqs v none_left) ∙ e))
        | inr ((r, v1), first) ↦ elim (Option-cases (ask_all reqs v1)) [
          | inl none_left ↦
              absurd (none_ne (sym (ask_all-some req reqs v r v1 none first none_left) ∙ e))
          | inr ((rs1, v2), others) ↦
              subst (λ n. RefinesAll later (request_all (req ∷ reqs) (connected l resp w)) n.0 n.1)
                (some_same (r ∷ rs1, v2) (rs, v')
                  (sym (ask_all-some req reqs v r v1 (some (rs1, v2)) first others) ∙ e))
                (request_all-RefinesAll_cons later req reqs r rs1 v1 v2 (connected l resp w)
                  (request-Refines later req resp v (r, v1) l w ample ok.0 h first)
                  (λ l1 w1 h1.
                    request_all-RefinesAll later reqs v1 r l1 w1 rs1 v2 ample ok.1 h1 others))
        ]
      ]
