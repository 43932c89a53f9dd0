-- ===== src/Redis/Reply/Format.antt =====
-- The wire format of Redis replies.
use dbss.Common.{
  ℕ, ◌≡◌, ap, ◌∙◌, Bool, true, ◌||◌, ◌&&◌, ◌==◌, not, and_left, and_right, List, [], ◌∷◌, ◌++◌,
  append_assoc, Bytes, length,
}
use dbss.Text.{str_nat, number_to_end, overflows}
use dbss.Redis.Request.Wire.{crlf as line_end, header}
use dbss.Redis.Reply.{crlf, bulk}

-- A value or nil, and a reply.
pub data Item : Type 0 where
  nil : Item
  value : Bytes → Item

pub data Reply : Type 0 where
  status_line error_text integer_text : Bytes → Reply
  single : Item → Reply
  array : List Item → Reply

-- A text without CR and LF.
unfoldable pub is_line : Bytes → Bool
is_line [] = true
is_line (c ∷ s) = not ((c == 13) || (c == 10)) && is_line s

-- The text of an integer: a sign or none, one digit at least, and a value of 64 bits.
unfoldable pub is_integer_text : Bytes → Bool
unfolding number_to_end overflows
is_integer_text s = number_to_end s && not (overflows s)

-- What the protocol asks of a reply: a line where it has one, and a number where it has one.
abbrev pub IsReply : Reply → Type 0
IsReply (status_line s) = is_line s ≡ true
IsReply (error_text s) = is_line s ≡ true
IsReply (integer_text s) = is_integer_text s ≡ true
IsReply (single x) = Unit
IsReply (array xs) = Unit

pub is_line-append : (s t : Bytes) → is_line s ≡ true → is_line t ≡ true → is_line (s ++ t) ≡ true
unfolding is_line
is_line-append [] t h g = g
is_line-append (c ∷ s) t h g =
    rw (and_left (not ((c == 13) || (c == 10))) (is_line s) h)
      (is_line-append s t (and_right (not ((c == 13) || (c == 10))) (is_line s) h) g)

-- The bytes of a part before `t`.
unfoldable pub item_bytes : Item → Bytes → Bytes
item_bytes nil t = b'$' ∷ b'-' ∷ b'1' ∷ line_end t
item_bytes (value v) t = header b'$' (length v) (v ++ line_end t)

unfoldable pub items_bytes : List Item → Bytes → Bytes
unfolding item_bytes
items_bytes [] t = t
items_bytes (x ∷ xs) t = item_bytes x (items_bytes xs t)

unfoldable pub reply_bytes : Reply → Bytes
unfolding item_bytes items_bytes
reply_bytes (status_line s) = b'+' ∷ (s ++ line_end [])
reply_bytes (error_text s) = b'-' ∷ (s ++ line_end [])
reply_bytes (integer_text s) = b':' ∷ (s ++ line_end [])
reply_bytes (single x) = item_bytes x []
reply_bytes (array xs) = header b'*' (length xs) (items_bytes xs [])

-- The bytes of the appends.
unfoldable pub joined : List Bytes → Bytes
joined [] = []
joined (s ∷ ss) = s ++ joined ss

pub joined-bulk :
    (v : Bytes) (rest : List Bytes) → joined (bulk v ++ rest) ≡ item_bytes (value v) (joined rest)
unfolding joined bulk item_bytes
joined-bulk v rest = ap (λ t. b'$' ∷ t) (append_assoc (str_nat (length v)) crlf _)

pub joined-bulk_nil : (v : Bytes) → joined (bulk v) ≡ item_bytes (value v) []
unfolding joined bulk item_bytes
joined-bulk_nil v = ap (λ t. b'$' ∷ t) (append_assoc (str_nat (length v)) crlf _)

-- `*n` and a line end, before the values.
pub joined-array :
    (xs : List Item) (n : ℕ) (parts : List Bytes)
    → n ≡ length xs
    → joined parts ≡ items_bytes xs []
    → joined ((b'*' ∷ (str_nat n ++ crlf)) ∷ parts) ≡ reply_bytes (array xs)
unfolding joined reply_bytes
joined-array xs n parts e h =
    ap (λ t. b'*' ∷ t) (append_assoc (str_nat n) crlf (joined parts))
    ∙ ap (λ k. header b'*' k (joined parts)) e
    ∙ ap (header b'*' (length xs)) h
