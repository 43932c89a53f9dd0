-- ===== src/Redis/Request/Einval.antt =====
-- What EINVAL in `errno` does to a request, and a request that leaves it there.
use dbss.Common.{
  ℕ, suc, ◌≡◌, refl, ap, ◌∙◌, inl, inr, Bool-cases, false, none, List, [], ◌∷◌, Bytes, codes,
  length, some, drop, ◌^◌, ◌<◌,
}
use dbss.Text.{
  Errno, clear, einval, or_einval, overflows, reads_whole, strtol_errno, errno_after, strtolower,
  split_line,
}
use dbss.Buffer.{Memory, Buffer}
use dbss.Redis.{RedisLink, find_cmd, cmds_raw}
use dbss.Redis.Convert.{convert_req}
use dbss.Redis.Request.{
  ParseReq, bad_request, parse_args, parse_req, finish_req, after_parse_req, recv_req,
}
use dbss.Redis.Request.Wire.{args_bytes, req_bytes, header, split_line-header, strtol_errno-crlf}

parse_args-einval :
    (f : ℕ) (ptr line lf : Bytes)
    → split_line ptr ≡ some (line, lf)
    → strtol_errno (drop 1 ptr) einval ≡ einval
    → parse_args (suc f) einval ptr 0 0 [] ≡ (bad_request [], einval)
unfolding parse_args
parse_args-einval f ptr line lf at_line same = rw (at_line, same, parse_args) refl

parse_req-einval :
    (name : Bytes) (args : List Bytes) (rest : Bytes)
    → length (name ∷ args) < 2 ^ 31
    → parse_req einval (req_bytes (name ∷ args) rest) ≡ (bad_request [], einval)
unfolding parse_req req_bytes
parse_req-einval name args rest few =
    let n = length (name ∷ args) in
    let body = args_bytes (name ∷ args) rest in
    parse_args-einval (length (header b'*' n body)) (header b'*' n body) _ body
      (split_line-header b'*' n body refl) (strtol_errno-crlf n body einval few)

module _ ⦃m : Memory⦄ where
  -- Every request is refused, and stays in the input.
  pub recv_req-einval :
      (name : Bytes) (args : List Bytes) (rest : Bytes) (r : RedisLink) (input : Buffer)
      → length (name ∷ args) < 2 ^ 31
      → input.content ≡ req_bytes (name ∷ args) rest
      → recv_req r input einval ≡ (none, record r { recv_bytes = [] }, input, einval)
  unfolding recv_req after_parse_req
  recv_req-einval name args rest r input few at =
      ap (λ (p : ParseReq × Errno). after_parse_req r input p.1 p.0)
        (ap (parse_req einval) at ∙ parse_req-einval name args rest few)

-- A text that is no number, and in the range of `strtoll` where it is read.
abbrev pub IsNoNumber : Bytes → Type 0
IsNoNumber s = (reads_whole s ≡ false) × (overflows s ≡ false)

errno_after-bad : (s : Bytes) (e : Errno) → IsNoNumber s → errno_after s e ≡ or_einval e
unfolding errno_after strtol_errno
errno_after-bad s e (bad, small) = rw (bad, small) refl

errno_after-fresh : (s : Bytes) → overflows s ≡ false → or_einval (errno_after s clear) ≡ einval
unfolding errno_after strtol_errno
errno_after-fresh s small = elim (Bool-cases (reads_whole s)) [
  | inl whole ↦ rw whole refl
  | inr cut ↦ rw (cut, small) refl
]

-- A range by index whose last index is no number.
pub finish_req-einval :
    (cmd name start last : Bytes) (r : RedisLink)
    → strtolower cmd ≡ codes "zrange"
    → overflows start ≡ false
    → IsNoNumber last
    → (finish_req (cmd ∷ name ∷ start ∷ last ∷ []) r clear).1 ≡ einval
unfolding finish_req convert_req find_cmd cmds_raw
finish_req-einval cmd name start last r lower small bad =
    ap
      (λ c.
        (convert_req (record r { cmd = c; recv_bytes = cmd ∷ name ∷ start ∷ last ∷ [] }) clear).1)
      lower
    ∙ errno_after-bad last (errno_after start clear) bad
    ∙ errno_after-fresh start small
