-- ===== src/Redis/Convert.antt =====
-- src/net/link_redis.cpp: `RedisLink::convert_req`, a Redis request as an SSDB request.
pub mod Bounds
pub mod Ranges
pub mod Commands
use dbss.Common.{
  ◌+◌, ◌-◌, ◌%◌, ◌^◌, ◌≡◌, refl, inl, inr, Option-cases, Bool, true, false, ◌&&◌, ◌||◌, Option,
  none, some, List, [], ◌∷◌, ◌++◌, ◌==◌, if◌then◌else◌, is_empty, Bytes, bytes_eq, codes, drop,
}
use dbss.Text.{
  ℤ, pos, negsuc, Errno, errno_after, str_to_int64, str_to_int, str_int, int_suc, int_pred, to_word,
  of_word, strtolower,
}
use dbss.Redis.{
  Strategy, hkeys, hvals, setex, zrange, zrevrange, zrangebyscore, zrevrangebyscore, zadd, zincrby,
  remrangebyrank, remrangebyscore, RedisLink, cmds_raw, find_cmd,
}

-- What `convert_req` pushes behind the command's name, case by case.
abbrev unlimited : Bytes
unlimited = codes "2000000000"

hkeys_args : List Bytes → List Bytes
hkeys_args (b0 ∷ b1 ∷ []) = b1 ∷ [] ∷ [] ∷ unlimited ∷ []
hkeys_args _ = []

setex_args : List Bytes → List Bytes
setex_args (b0 ∷ b1 ∷ b2 ∷ b3 ∷ []) = b1 ∷ b3 ∷ b2 ∷ []
setex_args _ = []

swap_pairs : List Bytes → List Bytes
swap_pairs (x ∷ y ∷ rest) = y ∷ x ∷ swap_pairs rest
swap_pairs _ = []

zadd_args : List Bytes → List Bytes
unfolding swap_pairs
zadd_args (b0 ∷ b1 ∷ rest) = b1 ∷ swap_pairs rest
zadd_args _ = []

remrange_args : List Bytes → List Bytes
remrange_args (b0 ∷ b1 ∷ b2 ∷ b3 ∷ rest) = b1 ∷ b2 ∷ b3 ∷ []
remrange_args _ = []

abbrev is_nonneg : ℤ → Bool
is_nonneg (pos n) = true
is_nonneg (negsuc n) = false

abbrev is_minus_one : ℤ → Bool
is_minus_one (pos n) = false
is_minus_one (negsuc n) = n == 0

-- `end - start + 1` in an `int64_t`, and -1 where `end` is -1.
range_size : ℤ → ℤ → ℤ
range_size start last =
    if is_minus_one last
    then last
    else of_word 64 ((to_word 64 last + (2 ^ 64 - to_word 64 start) + 1) % 2 ^ 64)

zrange_args : List Bytes → List Bytes
unfolding range_size
zrange_args (b0 ∷ b1 ∷ b2 ∷ b3 ∷ rest) =
    let start = str_to_int64 b2 in
    let last = str_to_int64 b3 in
    let range = b1 ∷ b2 ∷ str_int (range_size start last) ∷ [] in
    let flags : List Bytes = elim rest [ [] ↦ [] | b4 ∷ more ↦ strtolower b4 ∷ [] ] in
    (if (is_nonneg start && is_nonneg last) || is_minus_one last then range else []) ++ flags
zrange_args _ = []

zrange_errno : List Bytes → Errno → Errno
zrange_errno (b0 ∷ b1 ∷ b2 ∷ b3 ∷ rest) e = errno_after b3 (errno_after b2 e)
zrange_errno _ e = e

-- The options of a range by score.
pub record ScoreOptions : Type 0 where
  pub after_limit : Bool
  pub offset : Bytes
  pub count : Bytes
  pub withscores : Bytes

take_limit : Bytes → ScoreOptions → ScoreOptions
take_limit s o =
    if o.after_limit
    then if is_empty o.offset
      then record o { offset = s }
      else record o { count = s; after_limit = false }
    else o

score_option : Bytes → ScoreOptions → ScoreOptions
unfolding take_limit
score_option s o =
    let o' = take_limit s o in
    let t = strtolower s in
    if bytes_eq t (codes "withscores")
    then record o' { withscores = t }
    else if bytes_eq t (codes "limit")
    then record o' { after_limit = true }
    else o'

score_options : List Bytes → ScoreOptions → ScoreOptions
unfolding score_option
score_options [] o = o
score_options (s ∷ rest) o = score_options rest (score_option s o)

abbrev is_infinite : Bytes → Bool
is_infinite s = bytes_eq s (codes "-inf") || bytes_eq s (codes "+inf")

abbrev drop_paren : Bytes → Option Bytes
drop_paren [] = none
drop_paren (c ∷ s) = if c == b'(' then some s else none

-- One bound of a range: an exclusive one is moved by `shift`.
score_bound : (ℤ → ℤ) → Bytes → Bytes
score_bound shift s =
    let moved : Bytes = elim (drop_paren s) [
      | none ↦ s
      | some tmp ↦ str_int (shift (str_to_int tmp))
    ] in
    if is_infinite s then [] else moved

bound_errno : Bytes → Errno → Errno
bound_errno s e =
    let moved : Errno = elim (drop_paren s) [ none ↦ e | some tmp ↦ errno_after tmp e ] in
    if is_infinite s then e else moved

abbrev or_default : Bytes → Bytes → Bytes
or_default s d = if is_empty s then d else s

score_args : (ℤ → ℤ) → (ℤ → ℤ) → List Bytes → List Bytes
unfolding score_options score_bound
score_args shift_min shift_max (b0 ∷ name ∷ smin ∷ smax ∷ rest) =
    let start : ScoreOptions = record {
      after_limit = false;
      offset = [];
      count = [];
      withscores = [];
    } in
    let o = score_options rest start in
    if is_empty smin || is_empty smax
    then []
    else name
      ∷ []
      ∷ score_bound shift_min smin
      ∷ score_bound shift_max smax
      ∷ or_default o.offset (codes "0")
      ∷ or_default o.count unlimited
      ∷ o.withscores
      ∷ []
score_args _ _ _ = []

score_errno : List Bytes → Errno → Errno
unfolding bound_errno
score_errno (b0 ∷ name ∷ smin ∷ smax ∷ rest) e =
    if is_empty smin || is_empty smax then e else bound_errno smax (bound_errno smin e)
score_errno _ e = e

convert_args : Strategy → List Bytes → List Bytes
unfolding hkeys_args setex_args zadd_args remrange_args zrange_args score_args
convert_args hkeys bs = hkeys_args bs
convert_args hvals bs = hkeys_args bs
convert_args setex bs = setex_args bs
convert_args zadd bs = zadd_args bs
convert_args zincrby bs = setex_args bs
convert_args remrangebyrank bs = remrange_args bs
convert_args remrangebyscore bs = remrange_args bs
convert_args zrange bs = zrange_args bs
convert_args zrevrange bs = zrange_args bs
convert_args zrangebyscore bs = score_args int_suc int_pred bs
convert_args zrevrangebyscore bs = score_args int_pred int_suc bs
convert_args _ bs = drop 1 bs

convert_errno : Strategy → List Bytes → Errno → Errno
unfolding zrange_errno score_errno
convert_errno zrange bs e = zrange_errno bs e
convert_errno zrevrange bs e = zrange_errno bs e
convert_errno zrangebyscore bs e = score_errno bs e
convert_errno zrevrangebyscore bs e = score_errno bs e
convert_errno _ bs e = e

-- `convert_req`, from `cmd` and `recv_bytes`; `recv_string` is empty before.
unfoldable pub convert_req : RedisLink → Errno → RedisLink × Errno
unfolding convert_args convert_errno find_cmd cmds_raw
convert_req r e = elim (find_cmd r.cmd cmds_raw) [
  | none ↦ (record r { req_desc = none; recv_string = r.cmd ∷ drop 1 r.recv_bytes }, e)
  | some d ↦ (
    record r { req_desc = some d; recv_string = d.ssdb_cmd ∷ convert_args d.strategy r.recv_bytes },
    convert_errno d.strategy r.recv_bytes e,
  )
]

-- A converted request has its command's name in front.
pub convert_req_some :
    (r : RedisLink) (e : Errno)
    → (c : Bytes) × (cs : List Bytes) × ((convert_req r e).0.recv_string ≡ c ∷ cs)
unfolding convert_req
convert_req_some r e = elim (Option-cases (find_cmd r.cmd cmds_raw)) [
  | inl unknown ↦ rw (unknown, convert_req) (r.cmd, drop 1 r.recv_bytes, refl)
  | inr (d, found) ↦
      rw (found, convert_req) (d.ssdb_cmd, convert_args d.strategy r.recv_bytes, refl)
]
