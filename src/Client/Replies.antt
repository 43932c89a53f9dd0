-- ===== src/Client/Replies.antt =====
-- The commands of `ClientImpl` on the replies of a server.
use dbss.Common.{
  ◌≤◌, ◌≡◌, ◌≢◌, refl, ap, ◌∙◌, subst, false, Option, none, some, List, [], ◌∷◌, ◌++◌, Bytes, codes,
  length,
}
use dbss.Text.{ℤ, str_int, errno_after}
use dbss.Text.Decimal.{IsInt64, str_to_int64-str_int}
use dbss.Buffer.{Memory}
use dbss.Buffer.Capacity.{IsAmple}
use dbss.Link.{Link, max_packet_size}
use dbss.Link.Parse.{packet_bytes}
use dbss.Link.Receive.Packet.{IsPacket}
use dbss.Link.Socket.{ReadEvent, World}
use dbss.Link.Socket.WriteLoop.{NoWriteError}
use dbss.Link.Socket.Delivery.{Delivers}
use dbss.Client.{
  status, ok, read_str, read_list, read_int64, Session, Exec, pure, ◌>>=◌, request, call_str,
  call_list, call_int64, int64_result,
}
use dbss.Client.Exchange.{IsIdle, connected, Answered, request-Answered}
use dbss.Client.Kv.{get, incr, multi_get}

-- An idle client, a request that fits its output, and a server that answers it with `reply`.
pub record Exchange (later : List ReadEvent) (req reply : List Bytes) (l : Link) (w : World)
    : Type 0 where
  pub idle : IsIdle l
  pub some_request : req ≢ []
  pub room : length (packet_bytes req) ≤ max_packet_size
  pub reply_packet : IsPacket reply
  pub quiet : NoWriteError w.outgoing
  pub delivered : Delivers later w.incoming (packet_bytes reply)

pub bind_some :
    {A B : Type 0} (m : Exec A) (f : A → Exec B) (s : Session) {a : A} {s' : Session}
    → m s ≡ some (a, s')
    → (m >>= f) s ≡ f a s'
bind_some m f s e = ap (λ r. elim r [ none ↦ none | some (a, s') ↦ f a s' ]) e

module _ ⦃m : Memory⦄ where
  -- A command that returns `a` after the exchange: what it sent, and the client idle again.
  abbrev pub Returns :
      {A : Type 0} → A → List Bytes → List Bytes → World → Option (A × Session) → Type 0
  Returns a req reply w result =
      (l' : Link) × (w' : World) × (result ≡ some (a, connected l' reply w'))
      × IsIdle l'
      × (w'.sent ≡ w.sent ++ packet_bytes req)

  request-Exchange :
      (later : List ReadEvent) (req reply resp : List Bytes) (l : Link) (w : World)
      → IsAmple
      → Exchange later req reply l w
      → Answered later req reply w (request req (connected l resp w))
  request-Exchange later req reply resp l w ample x =
      request-Answered later req reply resp l w ample x.idle x.some_request x.room x.reply_packet
        x.quiet x.delivered

  -- A read of the reply behind a request.
  pub after_request :
      {A : Type 0} (later : List ReadEvent) (req reply resp : List Bytes) (l : Link) (w : World)
      (read : Option (List Bytes) → A)
      → IsAmple
      → Exchange later req reply l w
      → Returns
          (read (some reply))
          req
          reply
          w
          ((request req >>= λ r. pure (read r)) (connected l resp w))
  after_request later req reply resp l w read ample x =
      let (l', w', e, idle, sent, rest, quiet) =
        request-Exchange later req reply resp l w ample x in
      (l', w', bind_some (request req) (λ r. pure (read r)) (connected l resp w) e, idle, sent)

  -- For an exchange of an idle client with a server, where memory below 2^31 is granted: `get`
  -- returns `ok` and the value that the server replies with, having sent its request and nothing
  -- else, and leaves the client idle.
  pub get-found :
      (later : List ReadEvent) (key v val : Bytes) (resp : List Bytes) (l : Link) (w : World)
      → IsAmple
      → Exchange later (codes "get" ∷ key ∷ []) (codes "ok" ∷ v ∷ []) l w
      → Returns
          (status (codes "ok"), v)
          (codes "get" ∷ key ∷ [])
          (codes "ok" ∷ v ∷ [])
          w
          (get key val (connected l resp w))
  unfolding get call_str
  get-found later key v val resp l w ample x =
      after_request later _ (codes "ok" ∷ v ∷ []) resp l w (λ r. read_str r val) ample x

  -- For an exchange of an idle client with a server, where memory below 2^31 is granted:
  -- `multi_get` returns `ok` and the caller's list with the server's behind it, having sent its
  -- request and nothing else, and leaves the client idle.
  pub multi_get-found :
      (later : List ReadEvent) (names vs ret : List Bytes) (resp : List Bytes) (l : Link)
      (w : World)
      → IsAmple
      → Exchange later (codes "multi_get" ∷ names) (codes "ok" ∷ vs) l w
      → Returns
          (status (codes "ok"), ret ++ vs)
          (codes "multi_get" ∷ names)
          (codes "ok" ∷ vs)
          w
          (multi_get names ret (connected l resp w))
  unfolding multi_get call_list
  multi_get-found later names vs ret resp l w ample x =
      after_request later _ (codes "ok" ∷ vs) resp l w (λ r. read_list r ret) ample x

  read_str-refused :
      (c val : Bytes) (vs : List Bytes)
      → ok (status c) ≡ false
      → read_str (some (c ∷ vs)) val ≡ (status c, val)
  read_str-refused c val [] h = unfold read_str in rw h refl
  read_str-refused c val (v ∷ vs) h = unfold read_str in rw h refl

  -- For an exchange of an idle client with a server that replies with a code other than `ok`,
  -- where memory below 2^31 is granted: `get` returns that code, leaves the caller's value as it
  -- was, and leaves the client idle.
  pub get-refused :
      (later : List ReadEvent) (key c val : Bytes) (vs resp : List Bytes) (l : Link) (w : World)
      → IsAmple
      → ok (status c) ≡ false
      → Exchange later (codes "get" ∷ key ∷ []) (c ∷ vs) l w
      → Returns
          (status c, val)
          (codes "get" ∷ key ∷ [])
          (c ∷ vs)
          w
          (get key val (connected l resp w))
  unfolding get call_str
  get-refused later key c val vs resp l w ample h x =
      let req : List Bytes = codes "get" ∷ key ∷ [] in
      subst (λ a. Returns a req (c ∷ vs) w (get key val (connected l resp w)))
        (read_str-refused c val vs h)
        (after_request later req (c ∷ vs) resp l w (λ r. read_str r val) ample x)

  -- For an exchange of an idle client with a server that replies with `ok` and the print of an
  -- `int64_t`, where memory below 2^31 is granted: `incr` returns that number, whichever it is,
  -- and leaves the client idle.
  pub incr-counted :
      (later : List ReadEvent) (key : Bytes) (by i ret : ℤ) (resp : List Bytes) (l : Link)
      (w : World)
      → IsAmple
      → IsInt64 i
      → Exchange later (codes "incr" ∷ key ∷ str_int by ∷ []) (codes "ok" ∷ str_int i ∷ []) l w
      → Returns
          (status (codes "ok"), i)
          (codes "incr" ∷ key ∷ str_int by ∷ [])
          (codes "ok" ∷ str_int i ∷ [])
          w
          (incr key by ret (connected l resp w))
  unfolding incr call_int64 int64_result read_int64
  incr-counted later key by i ret resp l w ample h x =
      let req : List Bytes = codes "incr" ∷ key ∷ str_int by ∷ [] in
      let reply : List Bytes = codes "ok" ∷ str_int i ∷ [] in
      let (l', w', e, idle, sent, rest, quiet) =
        request-Exchange later req reply resp l w ample x in
      (
        l',
        record w' { errno = errno_after (str_int i) w'.errno },
        bind_some (request req) (λ r. int64_result r ret) (connected l resp w) e
            ∙ ap
                (λ n. some (
                  (status (codes "ok"), n),
                  connected l' reply (record w' { errno = errno_after (str_int i) w'.errno }),
                ))
                (str_to_int64-str_int i h),
        idle,
        sent,
      )
