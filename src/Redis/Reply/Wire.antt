-- ===== src/Redis/Reply/Wire.antt =====
-- `send_resp` writes replies of the Redis protocol.
use dbss.Common.{
  ℕ, suc, ◌+◌, ◌-◌, ◌/◌, ◌%◌, ◌^◌, ◌≤◌, ◌≡◌, ◌≢◌, ◌⊎◌, inl, inr, refl, sym, ap, ◌∙◌, subst, Bool,
  true, false, ◌||◌, some, List, [], ◌∷◌, ◌++◌, append_assoc, append-nil, length-append,
  length-drop, Bytes, bytes_eq, codes, length, drop, ge→ltb, if_elim, arith, Bool-cases,
  Option-cases,
}
use dbss.Buffer.{Memory, Buffer, size, append}
use dbss.Buffer.Capacity.{IsValid, IsAmple}
use dbss.Buffer.Append.{Extends, append_ample}
use dbss.Redis.{
  ReplyType, reply_bulk, reply_multi_bulk, reply_int, reply_status, Strategy, ping, mget, hmget,
  RedisRequestDesc, RedisLink,
}
use dbss.Redis.Reply.{
  crlf, count_minus, error_line, mget_values, mget_reply, bulk_reply, int_reply, all_values,
  every_other, with_scores, multi_reply, typed_reply, ok_reply, reply_parts, append_all, send_resp,
}
use dbss.Redis.Reply.Format.{
  IsReply, Item, Reply, array, error_text, integer_text, is_integer_text, is_line, is_line-append,
  item_bytes, items_bytes, joined, joined-array, joined-bulk, joined-bulk_nil, nil, reply_bytes,
  single, status_line, value,
}

-- The reply of the protocol that appends make.
abbrev pub Writes : List Bytes → Type 0
Writes parts = (x : Reply) × IsReply x × (joined parts ≡ reply_bytes x)

-- The loop over the requested keys writes one item for each of them.
mget_values-items :
    (ks pairs : List Bytes)
    → (xs : List Item) × (length xs ≡ length ks)
      × (joined (mget_values ks pairs) ≡ items_bytes xs [])
unfolding mget_values joined items_bytes item_bytes
mget_values-items [] pairs = ([], refl, refl)
mget_values-items (k ∷ ks) [] =
    let (xs, n, e) = mget_values-items ks [] in (nil ∷ xs, ap suc n, ap (item_bytes nil) e)
mget_values-items (k ∷ ks) (r ∷ []) =
    let (xs, n, e) = mget_values-items ks (r ∷ []) in (nil ∷ xs, ap suc n, ap (item_bytes nil) e)
mget_values-items (k ∷ ks) (r ∷ v ∷ pairs) = elim (Bool-cases (bytes_eq k r)) [
  | inl same ↦
      let (xs, n, e) = mget_values-items ks pairs in
      (
        value v ∷ xs,
        ap suc n,
        rw (same, mget_values) (joined-bulk v (mget_values ks pairs) ∙ ap (item_bytes (value v)) e),
      )
  | inr other ↦
      let (xs, n, e) = mget_values-items ks (r ∷ v ∷ pairs) in
      (nil ∷ xs, ap suc n, rw (other, mget_values) (ap (item_bytes nil) e))
]

all_values-items :
    (vs : List Bytes)
    → (xs : List Item) × (length xs ≡ length vs) × (joined (all_values vs) ≡ items_bytes xs [])
unfolding all_values joined items_bytes
all_values-items [] = ([], refl, refl)
all_values-items (v ∷ vs) =
    let (xs, n, e) = all_values-items vs in
    (value v ∷ xs, ap suc n, joined-bulk v (all_values vs) ∙ ap (item_bytes (value v)) e)

every_other-items :
    (vs : List Bytes)
    → length vs % 2 ≡ 0
    → (xs : List Item) × (length xs ≡ length vs / 2) × (joined (every_other vs) ≡ items_bytes xs [])
unfolding every_other joined items_bytes
every_other-items [] h = ([], omega arith, refl)
every_other-items (v ∷ []) h = absurd (omega arith)
every_other-items (v ∷ w ∷ vs) h =
    let (xs, n, e) = every_other-items vs (omega arith) in
    (value v ∷ xs, omega (arith, n), joined-bulk v (every_other vs) ∙ ap (item_bytes (value v)) e)

mget_reply-Writes :
    ⦃m : Memory⦄ (skip : ℕ) (keys vs : List Bytes)
    → skip ≤ length keys
    → length vs % 2 ≡ 0
    → Writes (mget_reply skip keys vs)
unfolding mget_reply count_minus
mget_reply-Writes skip keys vs h even =
    let (xs, n, e) = mget_values-items (drop skip keys) vs in
    (
      array xs,
      tt,
      rw (even, ge→ltb (length keys) skip h)
          (joined-array xs (length keys - skip) (mget_values (drop skip keys) vs)
            (sym (n ∙ length-drop skip keys)) e),
    )

multi_reply-Writes :
    (scores : Bool) (vs : List Bytes)
    → (scores ≡ true) ⊎ (length vs % 2 ≡ 0)
    → Writes (multi_reply scores vs)
unfolding multi_reply
multi_reply-Writes true vs h =
    let (xs, n, e) = all_values-items vs in
    (array xs, tt, joined-array xs (length vs) (all_values vs) (sym n) e)
multi_reply-Writes false vs (inl h) = cc
multi_reply-Writes false vs (inr h) =
    let (xs, n, e) = every_other-items vs h in
    (array xs, tt, joined-array xs (length vs / 2) (every_other vs) (sym n) e)

bulk_reply-Writes : (vs : List Bytes) → vs ≢ [] → Writes (bulk_reply vs)
unfolding bulk_reply reply_bytes
bulk_reply-Writes [] h = absurd (h refl)
bulk_reply-Writes (v ∷ vs) h = (single (value v), tt, joined-bulk_nil v)

-- The first value is an integer.
abbrev pub IsNumber : List Bytes → Type 0
IsNumber [] = ⊥
IsNumber (v ∷ vs) = is_integer_text v ≡ true

int_reply-Writes : (vs : List Bytes) → IsNumber vs → Writes (int_reply vs)
unfolding int_reply reply_bytes joined
int_reply-Writes [] h = absurd h
int_reply-Writes (v ∷ vs) h = (integer_text v, h, refl)

-- What a server's reply `ok` has for a request of the kind: pairs for `mget` and `hmget` and for
-- ranges whose scores are left out, and a value or an integer where one is asked for.
unfoldable pub Fulfils : ReplyType → Strategy → List Bytes → List Bytes → Type 0
unfolding with_scores
Fulfils t ping req vs = Unit
Fulfils reply_status _ req vs = Unit
Fulfils t mget req vs = (1 ≤ length req) × (length vs % 2 ≡ 0)
Fulfils t hmget req vs = (2 ≤ length req) × (length vs % 2 ≡ 0)
Fulfils reply_bulk _ req vs = vs ≢ []
Fulfils reply_int _ req vs = IsNumber vs
Fulfils reply_multi_bulk s req vs = (with_scores s req ≡ true) ⊎ (length vs % 2 ≡ 0)

typed_reply-Writes :
    ⦃m : Memory⦄ (t : ReplyType) (s : Strategy) (req vs : List Bytes)
    → Fulfils t s req vs
    → Writes (typed_reply t s req vs)
unfolding typed_reply Fulfils joined reply_bytes is_line
typed_reply-Writes t ping req vs h = (status_line (codes "PONG"), refl, refl)
typed_reply-Writes reply_status _ req vs h = (status_line (codes "OK"), refl, refl)
typed_reply-Writes t mget req vs h = mget_reply-Writes 1 req vs h.0 h.1
typed_reply-Writes t hmget req vs h = mget_reply-Writes 2 req vs h.0 h.1
typed_reply-Writes reply_bulk _ req vs h = bulk_reply-Writes vs h
typed_reply-Writes reply_int _ req vs h = int_reply-Writes vs h
typed_reply-Writes reply_multi_bulk s req vs h = multi_reply-Writes (with_scores s req) vs h

-- Whether a response of the server to the request on hand can be written: it is `ok` only with what
-- the request asks for.
unfoldable pub IsFulfilled : RedisLink → List Bytes → Type 0
unfolding Fulfils
IsFulfilled r vs =
    (d : RedisRequestDesc) → r.req_desc ≡ some d → Fulfils d.reply_type d.strategy r.recv_string vs

ok_reply-Writes :
    ⦃m : Memory⦄ (r : RedisLink) (vs : List Bytes) → IsFulfilled r vs → Writes (ok_reply r vs)
unfolding ok_reply IsFulfilled
ok_reply-Writes r vs h = elim (Option-cases r.req_desc) [
  | inl e ↦ unfold joined reply_bytes is_line in (rw e (status_line (codes "OK"), refl, refl))
  | inr (d, e) ↦ rw e (typed_reply-Writes d.reply_type d.strategy r.recv_string vs (h d e))
]

-- The message that a failure is reported with is one line.
abbrev pub IsMessage : List Bytes → Type 0
IsMessage [] = Unit
IsMessage (v ∷ vs) = is_line v ≡ true

-- The statuses that are reported with a message.
unfoldable pub is_failure : Bytes → Bool
is_failure s =
    (bytes_eq s (codes "error") || bytes_eq s (codes "fail") || bytes_eq s (codes "client_error"))
    || bytes_eq s (codes "noauth")

error_line-Writes :
    (s : Bytes) (vs : List Bytes)
    → is_line s ≡ true
    → IsMessage vs
    → Writes (error_line (b'-' ∷ s) vs)
unfolding error_line joined reply_bytes
error_line-Writes s [] h g = (error_text s, h, refl)
error_line-Writes s (v ∷ vs) h g =
    (error_text (s ++ v), is_line-append s v h g, ap (λ t. b'-' ∷ t) (sym (append_assoc s v crlf)))

-- Every branch of `send_resp`.
pub reply_parts-Writes :
    ⦃m : Memory⦄ (r : RedisLink) (s : Bytes) (vs : List Bytes)
    → (is_failure s ≡ true → IsMessage vs)
    → (bytes_eq s (codes "ok") ≡ true → IsFulfilled r vs)
    → Writes (reply_parts r (s ∷ vs))
unfolding reply_parts joined reply_bytes item_bytes is_line is_failure
reply_parts-Writes r s vs g h =
    if_elim Writes
      (bytes_eq s (codes "error") || bytes_eq s (codes "fail") || bytes_eq s (codes "client_error"))
      _ _ (λ failed. error_line-Writes (codes "ERR ") vs refl (g (rw failed refl)))
      (λ other.
        if_elim Writes (bytes_eq s (codes "noauth")) _ _
          (λ refused. error_line-Writes (codes "NOAUTH ") vs refl (g (rw (other, refused) refl)))
          (λ _.
            if_elim Writes (bytes_eq s (codes "not_found")) _ _ (λ _. (single nil, tt, refl))
              (λ _.
                if_elim Writes (bytes_eq s (codes "ok")) _ _
                  (λ is_ok. ok_reply-Writes r vs (h is_ok))
                  (λ _. (error_text (codes "ERR server error"), refl, refl)))))

module _ ⦃m : Memory⦄ where
  pub append_all_ample :
      (parts : List Bytes) (b : Buffer)
      → IsAmple
      → IsValid b
      → b.front + size b + length (joined parts) ≤ 2 ^ 29
      → Extends (joined parts) b (append_all parts b)
  unfolding append_all joined
  append_all_ample [] b ample v h = (v, refl, sym (append-nil b.content))
  append_all_ample (s ∷ ss) b ample v h =
      let (v', front, content) =
        append_ample s b ample v (omega (arith, length-append s (joined ss))) in
      let (v'', front', content') = append_all_ample ss (append s b).1 ample v' (
        omega (arith, length-append s (joined ss), ap length content, length-append b.content s)) in
      (
        v'',
        front' ∙ front,
        content' ∙ ap (λ t. t ++ joined ss) content ∙ append_assoc b.content s (joined ss),
      )

  -- With memory below 2^31 granted, a valid output and room for the reply below 2^29 bytes:
  -- whatever the status of a response is, `send_resp` puts one reply of the Redis protocol behind
  -- the output's old bytes, if a response `ok` has what the request on hand asks for, and the
  -- message of an error is one line. A line of the reply has no CR or LF inside, and a number is the
  -- text of a 64-bit integer.
  pub send_resp-Extends :
      (r : RedisLink) (s : Bytes) (vs : List Bytes) (output : Buffer)
      → IsAmple
      → IsValid output
      → (is_failure s ≡ true → IsMessage vs)
      → (bytes_eq s (codes "ok") ≡ true → IsFulfilled r vs)
      → output.front + size output + length (joined (reply_parts r (s ∷ vs))) ≤ 2 ^ 29
      → (x : Reply) × IsReply x × Extends (reply_bytes x) output (send_resp r output (s ∷ vs))
  unfolding send_resp
  send_resp-Extends r s vs output ample v message h room =
      let (x, ok, e) = reply_parts-Writes r s vs message h in
      (
        x,
        ok,
        subst (λ t. Extends t output (append_all (reply_parts r (s ∷ vs)) output)) e
            (append_all_ample (reply_parts r (s ∷ vs)) output ample v room),
      )
