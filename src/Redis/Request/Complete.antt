-- ===== src/Redis/Request/Complete.antt =====
-- `parse_req` on a complete request: a line with the number of arguments, and for each a line with
-- its length and a line with its bytes.
use dbss.Common.{
  ℕ, zero, suc, ◌+◌, ◌-◌, ◌^◌, ◌≤◌, ◌<◌, ◌≡◌, refl, sym, ap, ◌∙◌, false, some, List, [], ◌∷◌, ◌++◌,
  Bytes, length, take, drop, ltb, ◌==◌, ge→ltb, if◌then◌else◌, arith, append_assoc, length-append,
  take-length, drop-length, ap₂, subst,
}
use dbss.Text.{Errno, str_nat, split_line, strtol_errno}
use dbss.Redis.Request.{
  ParseReq, bad_request, request, is_einval, length_field, parse_args, parse_req,
}
use dbss.Common.{AreShort}
use dbss.Redis.Request.Wire.{
  crlf, header, args_bytes, req_bytes, split_line-header, length_field-crlf, strtol_errno-crlf,
}

-- One round of the loop at a whole argument, where the length leaves `e'` in `errno`.
parse_args-open :
    (f : ℕ) (e e' : Errno) (ptr line lf : Bytes) (len n parsed : ℕ) (args : List Bytes)
    → split_line ptr ≡ some (line, lf)
    → strtol_errno (drop 1 ptr) e ≡ e'
    → is_einval e' ≡ false
    → length_field (drop 1 ptr) ≡ some len
    → (n == 0) ≡ false
    → ltb (length lf) (len + 2) ≡ false
    → parse_args (suc f) e ptr n parsed args ≡ (
        if n == 1
        then (request (args ++ take len lf ∷ []) (parsed + (length line + 1) + (len + 2)), e')
        else parse_args f e'
            (drop (len + 2) lf)
            (n - 1)
            (parsed + (length line + 1) + (len + 2))
            (args ++ take len lf ∷ []))
unfolding parse_args
parse_args-open f e e' ptr line lf len n parsed args at_line left clean field some_left fits =
    rw (at_line, field, some_left, fits, parse_args)
      (subst (λ k. round k ≡ next e') (sym left) (rw clean refl))
  where
    next : Errno → ParseReq × Errno
    next k =
        if n == 1
        then (request (args ++ take len lf ∷ []) (parsed + (length line + 1) + (len + 2)), k)
        else parse_args f k (drop (len + 2) lf) (n - 1) (parsed + (length line + 1) + (len + 2))
            (args ++ take len lf ∷ [])

    round : Errno → ParseReq × Errno
    round k = if is_einval k then (bad_request args, k) else next k

-- The round at the number of arguments.
parse_args-count :
    (f : ℕ) (e e' : Errno) (ptr line lf : Bytes) (len : ℕ)
    → split_line ptr ≡ some (line, lf)
    → strtol_errno (drop 1 ptr) e ≡ e'
    → is_einval e' ≡ false
    → length_field (drop 1 ptr) ≡ some len
    → (len == 0) ≡ false
    → parse_args (suc f) e ptr 0 0 [] ≡ parse_args f e' lf len (0 + (length line + 1)) []
unfolding parse_args
parse_args-count f e e' ptr line lf len at_line left clean field some_arg =
    rw (at_line, field, some_arg, parse_args)
      (subst (λ k. round k ≡ parse_args f e' lf len (0 + (length line + 1)) []) (sym left)
        (rw clean refl))
  where
    round : Errno → ParseReq × Errno
    round k =
        if is_einval k
        then (bad_request [], k)
        else parse_args f k lf len (0 + (length line + 1)) []

pub drop-crlf : (s rest : Bytes) → drop (length s + 2) (s ++ crlf rest) ≡ rest
drop-crlf s rest =
    ap (λ n. drop n (s ++ crlf rest)) (sym (length-append s (crlf [])))
    ∙ ap (drop (length (s ++ crlf []))) (sym (append_assoc s (crlf []) rest))
    ∙ drop-length (s ++ crlf []) rest

-- The bytes of one argument.
abbrev arg_length : Bytes → ℕ
arg_length s = length (str_nat (length s)) + length s + 5

parse_args-arg :
    (f : ℕ) (e : Errno) (s rest : Bytes) (n parsed : ℕ) (args : List Bytes)
    → length s < 2 ^ 31
    → is_einval e ≡ false
    → (n == 0) ≡ false
    → parse_args (suc f) e (header b'$' (length s) (s ++ crlf rest)) n parsed args ≡ (
        if n == 1
        then (request (args ++ s ∷ []) (parsed + arg_length s), e)
        else parse_args f e rest (n - 1) (parsed + arg_length s) (args ++ s ∷ []))
parse_args-arg f e s rest n parsed args h clean some_left =
    let line : Bytes = b'$' ∷ (str_nat (length s) ++ b'\r' ∷ []) in
    let sum : parsed + (length line + 1) + (length s + 2) ≡ parsed + arg_length s =
      omega (arith, length-append (str_nat (length s)) (b'\r' ∷ [])) in
    parse_args-open f e e (header b'$' (length s) (s ++ crlf rest)) line (s ++ crlf rest) (length s)
      n parsed args (split_line-header b'$' (length s) (s ++ crlf rest) refl)
      (strtol_errno-crlf (length s) (s ++ crlf rest) e h) clean
      (length_field-crlf (length s) (s ++ crlf rest) h) some_left
      (ge→ltb _ _ (omega (arith, length-append s (crlf rest))))
    ∙ ap₂
        (λ (t : Bytes) (u : Bytes).
          if n == 1
          then (request (args ++ t ∷ []) (parsed + (length line + 1) + (length s + 2)), e)
          else parse_args f e u (n - 1) (parsed + (length line + 1) + (length s + 2))
              (args ++ t ∷ []))
        (take-length s (crlf rest)) (drop-crlf s rest)
    ∙ ap
        (λ (k : ℕ).
          if n == 1
          then (request (args ++ s ∷ []) k, e)
          else parse_args f e rest (n - 1) k (args ++ s ∷ []))
        sum

args_length : List Bytes → ℕ
args_length [] = 0
args_length (s ∷ ss) = arg_length s + args_length ss

length-args_bytes :
    (ss : List Bytes) (rest : Bytes) → length (args_bytes ss rest) ≡ args_length ss + length rest
unfolding args_bytes args_length
length-args_bytes [] rest = omega arith
length-args_bytes (s ∷ ss) rest = omega (
  arith,
  length-append (str_nat (length s)) (crlf (s ++ crlf (args_bytes ss rest))),
  length-append s (crlf (args_bytes ss rest)),
  length-args_bytes ss rest,
)

args_length_ge : (ss : List Bytes) → length ss ≤ args_length ss
unfolding args_length
args_length_ge [] = omega arith
args_length_ge (s ∷ ss) = omega (arith, args_length_ge ss)

parse_args-args :
    (f : ℕ) (e : Errno) (s : Bytes) (ss : List Bytes) (rest : Bytes) (parsed : ℕ)
    (args : List Bytes)
    → AreShort (s ∷ ss)
    → is_einval e ≡ false
    → length ss < f
    → parse_args f e (args_bytes (s ∷ ss) rest) (suc (length ss)) parsed args
      ≡ (request (args ++ s ∷ ss) (parsed + args_length (s ∷ ss)), e)
unfolding args_bytes args_length
parse_args-args zero e s ss rest parsed args short clean h = absurd (omega arith)
parse_args-args (suc f) e s [] rest parsed args short clean h =
    parse_args-arg f e s rest 1 parsed args short.0 clean refl
    ∙ ap (λ k. (request (args ++ s ∷ []) k, e)) (omega arith)
parse_args-args (suc f) e s (t ∷ ss) rest parsed args short clean h =
    parse_args-arg f e s (args_bytes (t ∷ ss) rest) (suc (suc (length ss))) parsed args short.0
      clean (ground arith)
    ∙ more (ground arith) (omega arith)
    ∙ parse_args-args f e t ss rest (parsed + arg_length s) (args ++ s ∷ []) short.1 clean
        (omega arith)
    ∙ ap₂ (λ ts k. (request ts k, e)) (append_assoc args (s ∷ []) (t ∷ ss)) (omega arith)
  where
    more :
        (suc (suc (length ss)) == 1) ≡ false
        → suc (suc (length ss)) - 1 ≡ suc (length ss)
        → (if suc (suc (length ss)) == 1
            then (request (args ++ s ∷ []) (parsed + arg_length s), e)
            else parse_args f e
                (args_bytes (t ∷ ss) rest)
                (suc (suc (length ss)) - 1)
                (parsed + arg_length s)
                (args ++ s ∷ []))
          ≡ parse_args f e
              (args_bytes (t ∷ ss) rest)
              (suc (length ss))
              (parsed + arg_length s)
              (args ++ s ∷ [])
    more others one_less = rw (others, one_less) refl

-- A Redis request of at least one argument is parsed to its arguments and its length, whatever
-- follows it, with `errno` left alone, if every length and the number of arguments is an `int` and
-- no earlier conversion left EINVAL in `errno`.
pub parse_req-req_bytes :
    (e : Errno) (s : Bytes) (ss : List Bytes) (rest : Bytes)
    → AreShort (s ∷ ss)
    → length (s ∷ ss) < 2 ^ 31
    → is_einval e ≡ false
    → parse_req e (req_bytes (s ∷ ss) rest) ≡ (request (s ∷ ss) (length (req_bytes (s ∷ ss) [])), e)
unfolding parse_req req_bytes
parse_req-req_bytes e s ss rest short few clean =
    let n = length (s ∷ ss) in
    let body = args_bytes (s ∷ ss) rest in
    let line : Bytes = b'*' ∷ (str_nat n ++ b'\r' ∷ []) in
    parse_args-count (length (header b'*' n body)) e e (header b'*' n body) line body n
      (split_line-header b'*' n body refl) (strtol_errno-crlf n body e few) clean
      (length_field-crlf n body few) (ground arith)
    ∙ parse_args-args (length (header b'*' n body)) e s ss rest (0 + (length line + 1)) [] short
        clean
        (omega (
          arith,
          length-append (str_nat n) (crlf body),
          length-args_bytes (s ∷ ss) rest,
          args_length_ge (s ∷ ss),
        ))
    ∙ ap (λ k. (request (s ∷ ss) k, e))
        (omega (
          arith,
          length-append (str_nat n) (b'\r' ∷ []),
          length-append (str_nat n) (crlf (args_bytes (s ∷ ss) [])),
          length-args_bytes (s ∷ ss) [],
        ))
