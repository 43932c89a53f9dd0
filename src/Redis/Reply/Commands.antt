-- ===== src/Redis/Reply/Commands.antt =====
-- The reply that a Redis client gets for a command, where the server has answered its counterpart
-- with `ok` and values.
use dbss.Common.{
  ℕ, ◌+◌, drop, if◌then◌else◌, Bool-cases, suc, ◌/◌, ◌≡◌, refl, sym, ap, ◌∙◌, subst, Option, none,
  some, List, [], ◌∷◌, map, Bytes, codes, length, arith, Option-cases, inl, inr, true, false,
}
use dbss.Buffer.{Memory}
use dbss.Text.{Errno, strtolower}
use dbss.Redis.{RedisLink, find_cmd, cmds_raw}
use dbss.Redis.Convert.{convert_req}
use dbss.Redis.Convert.Commands.{
  RedisCommand, redis_name, redis_args, ssdb_request, IsFromFront, converted-ssdb_request, get, set,
  setex, incrby, del, mget, mset, hget, hset, hincrby, hlen, hkeys, hgetall, hdel, hmget, hmset,
  zscore, zincrby, zcard, zrank, zrevrank, zadd, zrem, zrange, zrevrange, lrange,
}
use dbss.Redis.Request.{finish_req}
use dbss.Redis.Reply.{
  mget_reply, all_values, every_other, bulk_reply, int_reply, multi_reply, fifth_is, reply_parts,
}
use dbss.Text.{str_nat}
use dbss.Redis.Reply.Mget.{mget_reply-lookup}
use dbss.Redis.Reply.Answers.{
  first_text, first_number, firsts, first_values, redis_reply, LooksUp, Gives,
}
use dbss.Client.Program.{request_of}
use dbss.Redis.Reply.Format.{
  Item, value, Reply, is_integer_text, status_line, integer_text, single, array, item_bytes,
  items_bytes, reply_bytes, joined, joined-bulk, joined-bulk_nil, joined-array,
}

none_ne : {A : Type 0} {a : A} → none ≡ some a → ⊥
none_ne e = cc

some_same : {A : Type 0} (a b : A) → some a ≡ some b → a ≡ b
some_same a b e = ap (λ o. elim o [ none ↦ a | some x ↦ x ]) e

bulk_reply-first_text :
    (vs : List Bytes) (x : Reply) → first_text vs ≡ some x → joined (bulk_reply vs) ≡ reply_bytes x
unfolding first_text bulk_reply reply_bytes
bulk_reply-first_text [] x e = absurd (none_ne e)
bulk_reply-first_text (v ∷ vs) x e =
    joined-bulk_nil v ∙ ap reply_bytes (some_same (single (value v)) x e)

int_reply-first_number :
    (vs : List Bytes) (x : Reply) → first_number vs ≡ some x → joined (int_reply vs) ≡ reply_bytes x
unfolding first_number int_reply reply_bytes joined
int_reply-first_number [] x e = absurd (none_ne e)
int_reply-first_number (v ∷ vs) x e = elim (Bool-cases (is_integer_text v)) [
  | inl number ↦ ap reply_bytes (
      some_same (integer_text v) x
        (subst (λ b. (if b then some (integer_text v) else none) ≡ some x) number e))
  | inr other ↦
      absurd (none_ne (subst (λ b. (if b then some (integer_text v) else none) ≡ some x) other e))
]

all_values-map : (vs : List Bytes) → joined (all_values vs) ≡ items_bytes (map value vs) []
unfolding all_values joined items_bytes
all_values-map [] = refl
all_values-map (v ∷ vs) =
    joined-bulk v (all_values vs) ∙ ap (item_bytes (value v)) (all_values-map vs)

length-map : (vs : List Bytes) → length (map value vs) ≡ length vs
length-map [] = refl
length-map (v ∷ vs) = ap suc (length-map vs)

multi_reply-all :
    (vs : List Bytes) (x : Reply)
    → some (array (map value vs)) ≡ some x
    → joined (multi_reply true vs) ≡ reply_bytes x
unfolding multi_reply
multi_reply-all vs x e =
    joined-array (map value vs) (length vs) (all_values vs) (sym (length-map vs))
      (all_values-map vs)
    ∙ ap reply_bytes (some_same (array (map value vs)) x e)

every_other-firsts :
    (vs : List Bytes) (xs : List Item)
    → firsts vs ≡ some xs
    → (length vs / 2 ≡ length xs) × (joined (every_other vs) ≡ items_bytes xs [])
unfolding firsts every_other joined items_bytes
every_other-firsts [] xs e =
    subst (λ ys. (0 / 2 ≡ length ys) × ([] ≡ items_bytes ys [])) (some_same [] xs e)
      (omega arith, refl)
every_other-firsts (v ∷ []) xs e = absurd (none_ne e)
every_other-firsts (v ∷ w ∷ vs) xs e = elim (Option-cases (firsts vs)) [
  | inl odd ↦ absurd (none_ne (sym (ap more odd) ∙ e))
  | inr (ys, even) ↦
      let (n, bytes) = every_other-firsts vs ys even in
      subst
        (λ zs.
          (suc (suc (length vs)) / 2 ≡ length zs)
          × (joined (every_other (v ∷ w ∷ vs)) ≡ items_bytes zs []))
        (some_same (value v ∷ ys) xs (sym (ap more even) ∙ e))
        (omega (arith, n), joined-bulk v (every_other vs) ∙ ap (item_bytes (value v)) bytes)
]
  where
    more : Option (List Item) → Option (List Item)
    more o = elim o [ none ↦ none | some ys ↦ some (value v ∷ ys) ]

-- The reply to a lookup, on a link that has the keys behind `skip` strings.
mget_reply-LooksUp :
    ⦃m : Memory⦄ (skip : ℕ) (keys ks vs : List Bytes) (x : Reply)
    → drop skip keys ≡ ks
    → length keys ≡ skip + length ks
    → LooksUp ks vs x
    → joined (mget_reply skip keys vs) ≡ reply_bytes x
mget_reply-LooksUp skip keys ks vs x behind total (fs, distinct, asked, found, reply) =
    ap (λ ws. joined (mget_reply skip keys ws)) (sym found)
    ∙ mget_reply-lookup skip keys fs (behind ∙ sym asked) (omega (arith, total, ap length asked))
        distinct
    ∙ ap reply_bytes reply

multi_reply-firsts :
    (vs : List Bytes) (x : Reply)
    → first_values vs ≡ some x
    → joined (multi_reply false vs) ≡ reply_bytes x
unfolding first_values multi_reply
multi_reply-firsts vs x e = elim (Option-cases (firsts vs)) [
  | inl odd ↦ absurd (none_ne (sym (ap more odd) ∙ e))
  | inr (xs, even) ↦
      let (n, bytes) = every_other-firsts vs xs even in
      joined-array xs (length vs / 2) (every_other vs) n bytes
      ∙ ap reply_bytes (some_same (array xs) x (sym (ap more even) ∙ e))
]
  where
    more : Option (List Item) → Option Reply
    more o = elim o [ none ↦ none | some xs ↦ some (array xs) ]

-- The link behind a command of this name.
abbrev link_after : RedisLink → Errno → Bytes → List Bytes → RedisLink
link_after r e cmd args =
    let r' = (convert_req (record r { cmd = cmd; recv_bytes = args }) e).0 in
    record r' { recv_bytes = r'.recv_string }

link_after-Gives :
    ⦃m : Memory⦄ (c : RedisCommand) (b0 : Bytes) (r : RedisLink) (e : Errno) (vs : List Bytes)
    (x : Reply)
    → IsFromFront c
    → Gives c vs x
    → joined (reply_parts (link_after r e (redis_name c) (b0 ∷ redis_args c)) (codes "ok" ∷ vs))
      ≡ reply_bytes x
unfolding ssdb_request request_of str_nat redis_reply reply_parts convert_req find_cmd cmds_raw
    redis_name redis_args reply_bytes joined
link_after-Gives (get i) b0 r e vs x front h = bulk_reply-first_text vs x h
link_after-Gives (set i j) b0 r e vs x front h =
    ap reply_bytes (some_same (status_line (codes "OK")) x h)
link_after-Gives (setex i j k) b0 r e vs x front h =
    ap reply_bytes (some_same (status_line (codes "OK")) x h)
link_after-Gives (incrby i j) b0 r e vs x front h = int_reply-first_number vs x h
link_after-Gives (del i) b0 r e vs x front h = int_reply-first_number vs x h
link_after-Gives (mget i) b0 r e vs x front h =
    mget_reply-LooksUp 1 (codes "multi_get" ∷ i) i vs x refl (omega arith) h
link_after-Gives (mset i) b0 r e vs x front h =
    ap reply_bytes (some_same (status_line (codes "OK")) x h)
link_after-Gives (hget i j) b0 r e vs x front h = bulk_reply-first_text vs x h
link_after-Gives (hset i j k) b0 r e vs x front h = int_reply-first_number vs x h
link_after-Gives (hincrby i j k) b0 r e vs x front h = int_reply-first_number vs x h
link_after-Gives (hlen i) b0 r e vs x front h = int_reply-first_number vs x h
link_after-Gives (hkeys i) b0 r e vs x front h = multi_reply-all vs x h
link_after-Gives (hgetall i) b0 r e vs x front h = multi_reply-all vs x h
link_after-Gives (hdel i j) b0 r e vs x front h = int_reply-first_number vs x h
link_after-Gives (hmget i j) b0 r e vs x front h =
    mget_reply-LooksUp 2 (codes "multi_hget" ∷ i ∷ j) j vs x refl (omega arith) h
link_after-Gives (hmset i j) b0 r e vs x front h =
    ap reply_bytes (some_same (status_line (codes "OK")) x h)
link_after-Gives (zscore i j) b0 r e vs x front h = bulk_reply-first_text vs x h
link_after-Gives (zincrby i j k) b0 r e vs x front h = bulk_reply-first_text vs x h
link_after-Gives (zcard i) b0 r e vs x front h = int_reply-first_number vs x h
link_after-Gives (zrank i j) b0 r e vs x front h = int_reply-first_number vs x h
link_after-Gives (zrevrank i j) b0 r e vs x front h = int_reply-first_number vs x h
link_after-Gives (zadd i j) b0 r e vs x front h = int_reply-first_number vs x h
link_after-Gives (zrem i j) b0 r e vs x front h = int_reply-first_number vs x h
link_after-Gives (zrange i j k) b0 r e vs x front h =
    ap (λ rs. joined (multi_reply (fifth_is (codes "withscores") rs) vs))
      (converted-ssdb_request (zrange i j k) b0 r e front)
    ∙ multi_reply-firsts vs x h
link_after-Gives (zrevrange i j k) b0 r e vs x front h =
    ap (λ rs. joined (multi_reply (fifth_is (codes "withscores") rs) vs))
      (converted-ssdb_request (zrevrange i j k) b0 r e front)
    ∙ multi_reply-firsts vs x h
link_after-Gives (lrange i j k) b0 r e vs x front h = multi_reply-all vs x h

-- What the parts of the response say for a request of this command.
pub reply_parts-Gives :
    ⦃m : Memory⦄ (c : RedisCommand) (name : Bytes) (r : RedisLink) (e : Errno) (vs : List Bytes)
    (x : Reply)
    → strtolower name ≡ redis_name c
    → IsFromFront c
    → Gives c vs x
    → joined (reply_parts (finish_req (name ∷ redis_args c) r e).0 (codes "ok" ∷ vs))
      ≡ reply_bytes x
unfolding finish_req
reply_parts-Gives c name r e vs x lower front h =
    ap (λ cmd. joined (reply_parts (link_after r e cmd (name ∷ redis_args c)) (codes "ok" ∷ vs)))
      lower
    ∙ link_after-Gives c name r e vs x front h
