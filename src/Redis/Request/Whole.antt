-- ===== src/Redis/Request/Whole.antt =====
-- `recv_req` on a complete request, whatever its command.
use dbss.Common.{
  ◌^◌, ◌<◌, ◌≡◌, refl, sym, ap, ◌∙◌, false, some, List, [], ◌∷◌, ◌++◌, Bytes, length, drop,
  drop-length, append_assoc, AreShort,
}
use dbss.Text.{Errno, str_nat, strtolower}
use dbss.Buffer.{Memory, Buffer, decr}
use dbss.Redis.{RedisLink}
use dbss.Redis.Request.{
  ParseReq, is_einval, parse_req, finish_req, after_parse_req, recv_req, command_name,
}
use dbss.Redis.Convert.{convert_req_some}
use dbss.Redis.Request.Wire.{crlf, header, args_bytes, req_bytes}
use dbss.Redis.Request.Complete.{parse_req-req_bytes}

args_bytes-append : (ss : List Bytes) (rest : Bytes) → args_bytes ss rest ≡ args_bytes ss [] ++ rest
unfolding args_bytes
args_bytes-append [] rest = refl
args_bytes-append (s ∷ ss) rest =
    ap (λ t. header b'$' (length s) (s ++ crlf t)) (args_bytes-append ss rest)
    ∙ ap (header b'$' (length s)) (sym (append_assoc s (crlf (args_bytes ss [])) rest))
    ∙ ap (λ t. b'$' ∷ t)
        (sym (append_assoc (str_nat (length s)) (crlf (s ++ crlf (args_bytes ss []))) rest))

req_bytes-append : (ss : List Bytes) (rest : Bytes) → req_bytes ss rest ≡ req_bytes ss [] ++ rest
unfolding req_bytes
req_bytes-append ss rest =
    ap (header b'*' (length ss)) (args_bytes-append ss rest)
    ∙ ap (λ t. b'*' ∷ t) (sym (append_assoc (str_nat (length ss)) (crlf (args_bytes ss [])) rest))

-- The bytes behind the request are left.
pub decr-req_bytes :
    (ss : List Bytes) (rest : Bytes) (input : Buffer)
    → input.content ≡ req_bytes ss rest
    → (decr input (length (req_bytes ss []))).content ≡ rest
unfolding decr
decr-req_bytes ss rest input at =
    ap (drop (length (req_bytes ss []))) (at ∙ req_bytes-append ss rest)
    ∙ drop-length (req_bytes ss []) rest

-- The converted request has its command's name in front.
pub finish_req_some :
    (req : List Bytes) (r : RedisLink) (e : Errno)
    → (c : Bytes) × (cs : List Bytes) × ((finish_req req r e).0.recv_bytes ≡ c ∷ cs)
unfolding finish_req
finish_req_some req r e =
    convert_req_some (record r { cmd = strtolower (command_name req); recv_bytes = req }) e

module _ ⦃m : Memory⦄ where
  -- Where the input begins with a request, `recv_req` hands out its conversion and takes its bytes
  -- off.
  pub recv_req-req_bytes :
      (name : Bytes) (args : List Bytes) (rest : Bytes) (r : RedisLink) (input : Buffer) (e : Errno)
      → AreShort (name ∷ args)
      → length (name ∷ args) < 2 ^ 31
      → is_einval e ≡ false
      → input.content ≡ req_bytes (name ∷ args) rest
      → recv_req r input e ≡ (
        some (finish_req (name ∷ args) r e).0.recv_bytes,
        (finish_req (name ∷ args) r e).0,
        decr input (length (req_bytes (name ∷ args) [])),
        (finish_req (name ∷ args) r e).1,
      )
  unfolding recv_req after_parse_req
  recv_req-req_bytes name args rest r input e short few clean at =
      ap (λ (p : ParseReq × Errno). after_parse_req r input p.1 p.0)
        (ap (parse_req e) at ∙ parse_req-req_bytes e name args rest short few clean)
