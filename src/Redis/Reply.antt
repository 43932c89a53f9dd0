-- ===== src/Redis/Reply.antt =====
-- `RedisLink::send_resp`.
pub mod Format
pub mod Wire
pub mod Mget
pub mod Answers
pub mod Commands
pub mod Malformed
use dbss.Common.{
  ℕ, ◌-◌, ◌/◌, ◌%◌, Bool, true, false, ◌||◌, none, some, List, [], ◌∷◌, ◌++◌, ltb, ◌==◌,
  if◌then◌else◌, get_elem?, Bytes, bytes_eq, codes, length, drop,
}
use dbss.Text.{str_nat, str_int, negsuc}
use dbss.Buffer.{Memory, Buffer, append}
use dbss.Redis.{
  ReplyType, reply_bulk, reply_multi_bulk, reply_int, reply_status, Strategy, ping, mget, hmget,
  zrange, zrevrange, zrangebyscore, zrevrangebyscore, RedisLink,
}

abbrev crlf : Bytes
crlf = 13 ∷ 10 ∷ []

abbrev minus_one : Bytes
minus_one = codes "$-1\r\n"

-- `$len`, the value, and a line end: three appends.
pub bulk : Bytes → List Bytes
bulk v = (b'$' ∷ (str_nat (length v) ++ crlf)) ∷ v ∷ crlf ∷ []

-- `"%d"` of `n - k`.
count_minus : ℕ → ℕ → Bytes
count_minus n k = if ltb n k then str_int (negsuc (k - n - 1)) else str_nat (n - k)

error_line : Bytes → List Bytes → List Bytes
error_line head [] = head ∷ crlf ∷ []
error_line head (message ∷ _) = head ∷ message ∷ crlf ∷ []

-- The loop over the requested keys, beside the pairs that the response holds.
mget_values : List Bytes → List Bytes → List Bytes
unfolding bulk
mget_values [] pairs = []
mget_values (k ∷ ks) (r ∷ v ∷ pairs) = elim (bytes_eq k r) [
  | true ↦ bulk v ++ mget_values ks pairs
  | false ↦ minus_one ∷ mget_values ks (r ∷ v ∷ pairs)
]
mget_values (k ∷ ks) pairs = minus_one ∷ mget_values ks pairs

bulk_reply : List Bytes → List Bytes
unfolding bulk
bulk_reply [] = codes "$0\r\n" ∷ []
bulk_reply (v ∷ _) = bulk v

int_reply : List Bytes → List Bytes
int_reply [] = codes "$0\r\n" ∷ []
int_reply (v ∷ _) = codes ":" ∷ v ∷ crlf ∷ []

all_values : List Bytes → List Bytes
unfolding bulk
all_values [] = []
all_values (v ∷ vs) = bulk v ++ all_values vs

every_other : List Bytes → List Bytes
unfolding bulk
every_other [] = []
every_other (v ∷ []) = bulk v
every_other (v ∷ _ ∷ vs) = bulk v ++ every_other vs

last_is : Bytes → List Bytes → Bool
last_is s [] = false
last_is s (x ∷ []) = bytes_eq x s
last_is s (x ∷ y ∷ l) = last_is s (y ∷ l)

fifth_is : Bytes → List Bytes → Bool
fifth_is s l = elim (get_elem? l 4) [ none ↦ false | some x ↦ bytes_eq x s ]

with_scores : Strategy → List Bytes → Bool
unfolding last_is fifth_is
with_scores zrange req = fifth_is (codes "withscores") req
with_scores zrevrange req = fifth_is (codes "withscores") req
with_scores zrangebyscore req = last_is (codes "withscores") req
with_scores zrevrangebyscore req = last_is (codes "withscores") req
with_scores _ req = true

multi_reply : Bool → List Bytes → List Bytes
unfolding all_values every_other
multi_reply true vs = (b'*' ∷ (str_nat (length vs) ++ crlf)) ∷ all_values vs
multi_reply false vs = (b'*' ∷ (str_nat (length vs / 2) ++ crlf)) ∷ every_other vs

module _ ⦃m : Memory⦄ where
  -- `skip` strings of the request stand before the keys: the name of the command, and the name of a
  -- map. With fewer strings, for an `hmget` with no argument, the source's iterator is behind the end
  -- of the vector, and what the loop then appends is up to the memory.
  pub mget_reply : ℕ → List Bytes → List Bytes → List Bytes
  unfolding mget_values count_minus
  mget_reply skip keys values =
      let items = if ltb (length keys) skip then m.stray else mget_values (drop skip keys) values in
      if length values % 2 == 0
      then (b'*' ∷ (count_minus (length keys) skip ++ crlf)) ∷ items
      else codes "*0" ∷ []

  -- A reply of status "ok" to a known command.
  typed_reply : ReplyType → Strategy → List Bytes → List Bytes → List Bytes
  unfolding mget_reply bulk_reply int_reply multi_reply with_scores
  typed_reply t ping req vs = codes "+PONG\r\n" ∷ []
  typed_reply reply_status _ req vs = codes "+OK\r\n" ∷ []
  typed_reply t mget req vs = mget_reply 1 req vs
  typed_reply t hmget req vs = mget_reply 2 req vs
  typed_reply reply_bulk _ req vs = bulk_reply vs
  typed_reply reply_int _ req vs = int_reply vs
  typed_reply reply_multi_bulk s req vs = multi_reply (with_scores s req) vs

  ok_reply : RedisLink → List Bytes → List Bytes
  unfolding typed_reply
  ok_reply r vs = elim r.req_desc [
    | none ↦ codes "+OK\r\n" ∷ []
    | some d ↦ typed_reply d.reply_type d.strategy r.recv_string vs
  ]

  -- The appends that `send_resp` makes, in order.
  unfoldable pub reply_parts : RedisLink → List Bytes → List Bytes
  unfolding error_line ok_reply
  reply_parts r [] = []
  reply_parts r (status ∷ vs) =
      if bytes_eq status (codes "error")
        || bytes_eq status (codes "fail")
        || bytes_eq status (codes "client_error")
      then error_line (codes "-ERR ") vs
      else if bytes_eq status (codes "noauth")
      then error_line (codes "-NOAUTH ") vs
      else if bytes_eq status (codes "not_found")
      then minus_one ∷ []
      else if bytes_eq status (codes "ok")
      then ok_reply r vs
      else codes "-ERR server error\r\n" ∷ []

  -- The results of the appends are not looked at.
  unfoldable pub append_all : List Bytes → Buffer → Buffer
  unfolding append
  append_all [] b = b
  append_all (s ∷ ss) b = append_all ss (append s b).1

  unfoldable pub send_resp : RedisLink → Buffer → List Bytes → Buffer
  unfolding append_all reply_parts
  send_resp r output resp = append_all (reply_parts r resp) output
