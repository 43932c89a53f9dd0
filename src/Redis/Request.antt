-- ===== src/Redis/Request.antt =====
-- src/net/link_redis.cpp: `RedisLink::parse_req` and `RedisLink::recv_req`.
pub mod Bounds
pub mod Wire
pub mod Complete
pub mod Whole
pub mod Mget
pub mod Einval
use dbss.Common.{
  ℕ, zero, suc, ◌+◌, ◌-◌, ◌*◌, ◌/◌, ◌%◌, ◌^◌, Bool, true, false, not, ◌&&◌, ◌||◌, Option, none,
  some, List, [], ◌∷◌, ◌++◌, ltb, leb, ◌==◌, if◌then◌else◌, is_empty, get_elem?, Bytes, bytes_eq,
  codes, length, take, drop,
}
use dbss.Text.{
  ℤ, pos, negsuc, Errno, clear, einval, other, strtol_errno, errno_after, str_to_int64, str_to_int,
  str_int, int_suc, int_pred, to_word, of_word, strtolower, split_line,
}
use dbss.Buffer.{Memory, Buffer, nice, decr, make_room}
use dbss.Redis.{
  Strategy, auto, hkeys, hvals, setex, zrange, zrevrange, zrangebyscore, zrevrangebyscore, zadd,
  zincrby, remrangebyrank, remrangebyscore, RedisRequestDesc, RedisLink, cmds_raw, find_cmd,
}
use dbss.Redis.Convert.{convert_req}

-- How a parse ends: the arguments with the number of bytes they take, an error (-1), or not yet.
pub data ParseReq : Type 0 where
  request : List Bytes → ℕ → ParseReq
  bad_request : List Bytes → ParseReq
  not_ready : ParseReq
  out_of_fuel : ParseReq

-- `(int)strtol(p, NULL, 10)`; `none` is a negative value. Digits are read to the end of the data.
abbrev pub length_field : Bytes → Option ℕ
length_field p = elim (str_to_int p) [ pos n ↦ some n | negsuc _ ↦ none ]

abbrev pub is_einval : Errno → Bool
is_einval einval = true
is_einval _ = false

-- The loop of `parse_req`, on the unread bytes, with `num_args`, `parsed` and `recv_bytes`, and what
-- it leaves in `errno`. This `strtol` never sets EINVAL: the test `errno == EINVAL` reads what
-- earlier calls left there, unless the number overflows.
unfoldable pub parse_args : ℕ → Errno → Bytes → ℕ → ℕ → List Bytes → ParseReq × Errno
unfolding split_line strtol_errno
parse_args zero errno ptr num_args parsed args = (out_of_fuel, errno)
parse_args (suc f) errno ptr num_args parsed args = elim (split_line ptr) [
  | none ↦ (not_ready, errno)
  | some (line, lf) ↦
      let errno' = strtol_errno (drop 1 ptr) errno in
      let parsed' = parsed + (length line + 1) in
      let bad : ParseReq × Errno = (bad_request args, errno') in
      let good : ParseReq × Errno = elim (length_field (drop 1 ptr)) [
        | none ↦ (bad_request args, errno')
        | some len ↦
            let first : ParseReq × Errno =
              if len == 0
              then (bad_request args, errno')
              else parse_args f errno' lf len parsed' args in
            let args' = args ++ take len lf ∷ [] in
            let rest = drop (len + 2) lf in
            let next : ParseReq × Errno =
              parse_args f errno' rest (num_args - 1) (parsed' + (len + 2)) args' in
            let last : ParseReq × Errno = (request args' (parsed' + (len + 2)), errno') in
            if num_args == 0
            then first
            else if ltb (length lf) (len + 2)
            then (not_ready, errno')
            else if num_args == 1
            then last
            else next
      ] in
      if is_einval errno' then bad else good
]

abbrev pub starts_with_star : Bytes → Bool
starts_with_star [] = false
starts_with_star (c ∷ s) = c == b'*'

-- `parse_req`: each round of the loop takes at least one byte.
unfoldable pub parse_req : Errno → Bytes → ParseReq × Errno
unfolding parse_args
parse_req errno data_ =
    if starts_with_star data_
    then parse_args (suc (length data_)) errno data_ 0 0 []
    else (bad_request [], errno)

abbrev command_name : List Bytes → Bytes
command_name [] = []
command_name (c ∷ cs) = c

-- `recv_req` on a complete request: convert it, and hand out what `recv_string` holds.
unfoldable pub finish_req : List Bytes → RedisLink → Errno → RedisLink × Errno
unfolding convert_req
finish_req args r e =
    let (r', e') =
      convert_req (record r { cmd = strtolower (command_name args); recv_bytes = args }) e in
    (record r' { recv_bytes = r'.recv_string }, e')

module _ ⦃m : Memory⦄ where
  -- The rest of `recv_req` where no request is complete.
  wait_req :
      RedisLink → Buffer → Errno → Option Buffer → Option (List Bytes) × RedisLink × Buffer × Errno
  unfolding nice
  wait_req r input e none = (none, record r { recv_bytes = [] }, nice input, e)
  wait_req r input e (some input') = (some [], record r { recv_bytes = [] }, input', e)

  -- `recv_req` behind `parse_req`.
  after_parse_req :
      RedisLink → Buffer → Errno → ParseReq → Option (List Bytes) × RedisLink × Buffer × Errno
  unfolding finish_req wait_req make_room decr
  after_parse_req r input e (request args n) =
      let (r', e') = finish_req args r e in (some r'.recv_bytes, r', decr input n, e')
  after_parse_req r input e (bad_request args) = (none, record r { recv_bytes = args }, input, e)
  after_parse_req r input e not_ready = wait_req r input e (make_room input)
  after_parse_req r input e out_of_fuel = (none, r, input, e)

  unfoldable pub recv_req :
      RedisLink → Buffer → Errno → Option (List Bytes) × RedisLink × Buffer × Errno
  unfolding parse_req after_parse_req
  recv_req r input e = let (p, e') = parse_req e input.content in after_parse_req r input e' p
