-- ===== src/Redis/Reply/Malformed.antt =====
-- Responses that `send_resp` cannot write as a reply of the Redis protocol.
use dbss.Common.{
  ℕ, suc, ◌+◌, ◌/◌, ◌%◌, ◌≤◌, ◌≡◌, ◌≢◌, ◌↔◌, ◌⊎◌, inl, inr, refl, sym, ap, ◌∙◌, subst, Bool, true,
  false, Option, none, some, List, [], ◌∷◌, ◌++◌, Bytes, codes, length, drop, if◌then◌else◌, ltb,
  length-append, take, take-length, append_assoc, if_elim, ◌==◌, arith,
}
use dbss.Buffer.{Memory}
use dbss.Text.{is_digit, str_nat, read_digits, split_line}
use dbss.Text.Decimal.{str_nat_cons, read_digits-str_nat}
use dbss.Redis.{
  ReplyType, reply_bulk, reply_multi_bulk, reply_int, reply_status, Strategy, ping, mget, hmget,
  RedisRequestDesc, RedisLink,
}
use dbss.Redis.Request.Wire.{crlf, header, split_line-header}
use dbss.Redis.Request.Complete.{drop-crlf}
use dbss.Redis.Reply.{
  crlf as line_end, count_minus, mget_values, mget_reply, every_other, bulk_reply, int_reply,
  multi_reply, with_scores, typed_reply, reply_parts,
}
use dbss.Redis.Reply.Wire.{Writes, Fulfils, IsFulfilled, reply_parts-Writes, IsNumber, is_failure}
use dbss.Redis.Reply.Format.{
  Item, nil, value, Reply, status_line, error_text, integer_text, single, array, item_bytes,
  items_bytes, reply_bytes, joined, joined-bulk, IsReply, is_integer_text,
}

some_same : {A : Type 0} (a b : A) → some a ≡ some b → a ≡ b
some_same a b e = ap (λ o. elim o [ none ↦ a | some x ↦ x ]) e

-- The number and what is behind it can be read back.
header-same :
    (c n m : ℕ) (t u : Bytes)
    → (c == b'\n') ≡ false
    → header c n t ≡ header c m u
    → (n ≡ m) × (t ≡ u)
unfolding read_digits
header-same c n m t u plain e =
    let line : ℕ → Bytes = λ k. c ∷ (str_nat k ++ b'\r' ∷ []) in
    let same : (line n, t) ≡ (line m, u) =
      some_same (line n, t) (line m, u)
        (sym (split_line-header c n t plain) ∙ ap split_line e ∙ split_line-header c m u plain) in
    (
      sym (read_digits-str_nat n (b'\r' ∷ []))
          ∙ ap (λ (p : Bytes × Bytes). read_digits 0 (drop 1 p.0)) same
          ∙ read_digits-str_nat m (b'\r' ∷ []),
      ap (λ (p : Bytes × Bytes). p.1) same,
    )

-- A header has a digit behind its mark.
second_digit : Bytes → Bool
second_digit (_ ∷ c ∷ _) = is_digit c
second_digit _ = false

header-second_digit : (c n : ℕ) (t : Bytes) → second_digit (header c n t) ≡ true
unfolding second_digit
header-second_digit c n t =
    let (d, s, e, digit) = str_nat_cons n in ap (λ k. second_digit (c ∷ (k ++ crlf t))) e ∙ digit

true_ne : true ≡ false → ⊥
true_ne e = cc

item_bytes-same : (x y : Item) (t u : Bytes) → item_bytes x t ≡ item_bytes y u → t ≡ u
unfolding item_bytes second_digit
item_bytes-same nil nil t u e = ap (drop 5) e
item_bytes-same nil (value w) t u e =
    absurd
      (true_ne (sym (header-second_digit b'$' (length w) (w ++ crlf u)) ∙ sym (ap second_digit e)))
item_bytes-same (value v) nil t u e =
    absurd (true_ne (sym (header-second_digit b'$' (length v) (v ++ crlf t)) ∙ ap second_digit e))
item_bytes-same (value v) (value w) t u e =
    let (n, rest) = header-same b'$' (length v) (length w) (v ++ crlf t) (w ++ crlf u) refl e in
    sym (drop-crlf v t)
    ∙ ap (drop (length v + 2)) rest
    ∙ ap (λ k. drop (k + 2) (w ++ crlf u)) n
    ∙ drop-crlf w u

item_bytes_some : (x : Item) (t : Bytes) → 1 ≤ length (item_bytes x t)
unfolding item_bytes
item_bytes_some nil t = omega arith
item_bytes_some (value v) t = omega arith

-- Items on the wire can be counted.
items_bytes-count :
    (xs ys : List Item) → items_bytes xs [] ≡ items_bytes ys [] → length xs ≡ length ys
unfolding items_bytes
items_bytes-count [] [] e = refl
items_bytes-count [] (y ∷ ys) e = omega (arith, ap length e, item_bytes_some y (items_bytes ys []))
items_bytes-count (x ∷ xs) [] e = omega (arith, ap length e, item_bytes_some x (items_bytes xs []))
items_bytes-count (x ∷ xs) (y ∷ ys) e =
    ap suc (items_bytes-count xs ys (item_bytes-same x y (items_bytes xs []) (items_bytes ys []) e))

abbrev first_byte : Bytes → ℕ
first_byte [] = 0
first_byte (c ∷ s) = c

item_bytes-first_byte : (x : Item) (t : Bytes) → first_byte (item_bytes x t) ≡ b'$'
unfolding item_bytes
item_bytes-first_byte nil t = refl
item_bytes-first_byte (value v) t = refl

reply_bytes_long : (x : Reply) → 3 ≤ length (reply_bytes x)
unfolding reply_bytes item_bytes
reply_bytes_long (status_line s) = omega (arith, length-append s (crlf []))
reply_bytes_long (error_text s) = omega (arith, length-append s (crlf []))
reply_bytes_long (integer_text s) = omega (arith, length-append s (crlf []))
reply_bytes_long (single nil) = omega arith
reply_bytes_long (single (value v)) =
    omega
      (arith, length-append (str_nat (length v)) (crlf (v ++ crlf [])), length-append v (crlf []))
reply_bytes_long (array xs) =
    omega (arith, length-append (str_nat (length xs)) (crlf (items_bytes xs [])))

-- Only an array begins with a star, and then it is counted.
star_lem :
    (s : Bytes) (x : Reply)
    → b'*' ∷ s ≡ reply_bytes x
    → (xs : List Item) × (b'*' ∷ s ≡ header b'*' (length xs) (items_bytes xs []))
unfolding reply_bytes
star_lem s (status_line t) e = absurd (omega (arith, ap first_byte e))
star_lem s (error_text t) e = absurd (omega (arith, ap first_byte e))
star_lem s (integer_text t) e = absurd (omega (arith, ap first_byte e))
star_lem s (single x) e = absurd (omega (arith, ap first_byte e, item_bytes-first_byte x []))
star_lem s (array xs) e = (xs, e)

-- `$0` with one line end is no reply.
half_bulk : (x : Reply) → codes "$0\r\n" ≡ reply_bytes x → ⊥
unfolding reply_bytes item_bytes second_digit str_nat
half_bulk (status_line t) e = omega (arith, ap first_byte e)
half_bulk (error_text t) e = omega (arith, ap first_byte e)
half_bulk (integer_text t) e = omega (arith, ap first_byte e)
half_bulk (single nil) e = true_ne (ap second_digit e)
half_bulk (single (value v)) e =
    let (n, rest) = header-same b'$' 0 (length v) [] (v ++ crlf []) refl e in
    omega (arith, ap length rest, length-append v (crlf []))
half_bulk (array xs) e = omega (arith, ap first_byte e)

bulk_reply_some : (vs : List Bytes) → Writes (bulk_reply vs) → vs ≢ []
unfolding bulk_reply joined
bulk_reply_some [] (x, _, e) = absurd (half_bulk x e)
bulk_reply_some (v ∷ vs) w = λ h. cc

append_cancel : (s t u : Bytes) → s ++ u ≡ t ++ u → s ≡ t
append_cancel s t u e =
    let same : length s ≡ length t =
      omega (arith, ap length e, length-append s u, length-append t u) in
    sym (take-length s u)
    ∙ ap (take (length s)) e
    ∙ ap (λ n. take n (t ++ u)) same
    ∙ take-length t u

-- What a line that begins with a colon says.
colon_lem :
    (v : Bytes) (x : Reply)
    → IsReply x
    → b':' ∷ (v ++ line_end) ≡ reply_bytes x
    → is_integer_text v ≡ true
unfolding reply_bytes
colon_lem v (status_line t) ok e = absurd (omega (arith, ap first_byte e))
colon_lem v (error_text t) ok e = absurd (omega (arith, ap first_byte e))
colon_lem v (integer_text t) ok e =
    subst (λ u. is_integer_text u ≡ true) (sym (append_cancel v t line_end (ap (drop 1) e))) ok
colon_lem v (single x) ok e = absurd (omega (arith, ap first_byte e, item_bytes-first_byte x []))
colon_lem v (array xs) ok e = absurd (omega (arith, ap first_byte e))

int_reply_some : (vs : List Bytes) → Writes (int_reply vs) → IsNumber vs
unfolding int_reply joined
int_reply_some [] (x, _, e) = half_bulk x e
int_reply_some (v ∷ vs) (x, ok, e) = colon_lem v x ok e

mget_reply_fits :
    ⦃m : Memory⦄ (skip : ℕ) (keys vs : List Bytes)
    → Writes (mget_reply skip keys vs)
    → length vs % 2 ≡ 0
unfolding mget_reply joined
mget_reply_fits ⦃m = m⦄ skip keys vs (x, _, e) =
    if_elim (λ parts. joined parts ≡ reply_bytes x → length vs % 2 ≡ 0) (length vs % 2 == 0)
      ((b'*' ∷ (count_minus (length keys) skip ++ line_end))
        ∷ (if ltb (length keys) skip then m.stray else mget_values (drop skip keys) vs))
      (codes "*0" ∷ []) (λ even h. ground arith)
      (λ odd h. absurd (omega (arith, ap length h, reply_bytes_long x))) e

every_other-count :
    (vs : List Bytes)
    → (xs : List Item) × (length xs ≡ (length vs + 1) / 2)
      × (joined (every_other vs) ≡ items_bytes xs [])
unfolding every_other joined items_bytes
every_other-count [] = ([], omega arith, refl)
every_other-count (v ∷ []) = (value v ∷ [], omega arith, joined-bulk v [])
every_other-count (v ∷ w ∷ vs) =
    let (xs, n, e) = every_other-count vs in
    (value v ∷ xs, omega (arith, n), joined-bulk v (every_other vs) ∙ ap (item_bytes (value v)) e)

multi_reply_fits :
    (scores : Bool) (vs : List Bytes)
    → Writes (multi_reply scores vs)
    → (scores ≡ true) ⊎ (length vs % 2 ≡ 0)
unfolding multi_reply joined
multi_reply_fits true vs w = inl refl
multi_reply_fits false vs (x, _, e) =
    let (xs, n, items) = every_other-count vs in
    let (ys, array_e) = star_lem _ x e in
    let k = length vs / 2 in
    let head : b'*' ∷ ((str_nat k ++ line_end) ++ joined (every_other vs))
        ≡ header b'*' k (items_bytes xs []) =
      ap (λ t. b'*' ∷ t) (append_assoc (str_nat k) line_end (joined (every_other vs)))
      ∙ ap (header b'*' k) items in
    let (same, rest) =
      header-same b'*' k (length ys) (items_bytes xs []) (items_bytes ys []) refl
        (sym head ∙ array_e) in
    inr (omega (arith, n, same, items_bytes-count xs ys rest))

-- The request has the strings that `send_resp` skips.
abbrev pub HasArguments : Strategy → List Bytes → Type 0
HasArguments mget req = 1 ≤ length req
HasArguments hmget req = 2 ≤ length req
HasArguments _ req = Unit

-- A response `ok` that is written as a reply has what the request asks for.
typed_reply-Fulfils :
    ⦃m : Memory⦄ (t : ReplyType) (s : Strategy) (req vs : List Bytes)
    → HasArguments s req
    → Writes (typed_reply t s req vs)
    → Fulfils t s req vs
unfolding typed_reply Fulfils
typed_reply-Fulfils t ping req vs k w = tt
typed_reply-Fulfils reply_status _ req vs k w = tt
typed_reply-Fulfils t mget req vs k w = (k, mget_reply_fits 1 req vs w)
typed_reply-Fulfils t hmget req vs k w = (k, mget_reply_fits 2 req vs w)
typed_reply-Fulfils reply_bulk _ req vs k w = bulk_reply_some vs w
typed_reply-Fulfils reply_int _ req vs k w = int_reply_some vs w
typed_reply-Fulfils reply_multi_bulk s req vs k w = multi_reply_fits (with_scores s req) vs w

-- To a known request, with the name that a `hmget` has before its keys, a response `ok` is written
-- as a reply of the Redis protocol exactly if it has what the request asks for: pairs for `mget`,
-- `hmget` and ranges without scores, a value where one is asked for, and the text of a 64-bit
-- integer where a number is. A value that is missing, a number that is none, or a key without its
-- value, gives bytes that are no reply at all.
pub reply_parts-Fulfils :
    ⦃m : Memory⦄ (r : RedisLink) (d : RedisRequestDesc) (vs : List Bytes)
    → r.req_desc ≡ some d
    → HasArguments d.strategy r.recv_string
    → Writes (reply_parts r (codes "ok" ∷ vs)) ↔ Fulfils d.reply_type d.strategy r.recv_string vs
unfolding reply_parts IsFulfilled
reply_parts-Fulfils r d vs known asked = (
  λ w.
      typed_reply-Fulfils d.reply_type d.strategy r.recv_string vs asked
        (subst (λ o. Writes (by_desc o)) known w),
  λ h.
      reply_parts-Writes r (codes "ok") vs (λ failed. absurd (ok_ne failed))
        (λ _ d' known'.
          subst (λ k. Fulfils k.reply_type k.strategy r.recv_string vs)
            (some_same d d' (sym known ∙ known')) h),
)
  where
    ok_ne : is_failure (codes "ok") ≡ true → ⊥
    ok_ne failed = unfold is_failure in cc

    by_desc : Option RedisRequestDesc → List Bytes
    by_desc o = elim o [
      | none ↦ codes "+OK\r\n" ∷ []
      | some k ↦ typed_reply k.reply_type k.strategy r.recv_string vs
    ]
