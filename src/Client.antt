-- ===== src/Client.antt =====
-- src/SSDB_impl.h and src/SSDB_impl.cpp: `Status`, and `ClientImpl` over one link.
-- The commands of each data type are in the modules below this one.
pub mod Exchange
pub mod Ends
pub mod Kv
pub mod Hash
pub mod Zset
pub mod Queue
pub mod Replies
pub mod Conversation
pub mod Overloads
pub mod Program
use dbss.Common.{
  Bool, true, false, not, Option, none, some, List, [], ◌∷◌, ◌++◌, Bytes, bytes_eq, codes,
  if◌then◌else◌, is_empty,
}
use dbss.Text.{ℤ, Errno, errno_after, str_to_int64}
use dbss.Buffer.{Memory}
use dbss.Link.{Link, IoResult, failed, count}
use dbss.Link.Send.{send}
use dbss.Link.Socket.{World, flush, response}

pub record Status : Type 0 where
  pub code : Bytes

abbrev pub status : Bytes → Status
status c = record { code = c }

unfoldable pub ok : Status → Bool
ok s = bytes_eq s.code (codes "ok")

unfoldable pub not_found : Status → Bool
not_found s = bytes_eq s.code (codes "not_found")

unfoldable pub error : Status → Bool
error s = not (bytes_eq s.code (codes "ok"))

-- `Status(const std::vector<std::string>*)`; `none` is NULL.
unfoldable pub status_of : Option (List Bytes) → Status
status_of none = status (codes "error")
status_of (some []) = status (codes "error")
status_of (some (c ∷ _)) = status c

-- `_read_list`: the status, and what is appended to `ret`.
unfoldable pub read_list : Option (List Bytes) → List Bytes → Status × List Bytes
unfolding status_of ok
read_list (some (c ∷ vs)) ret = (status c, if ok (status c) then ret ++ vs else ret)
read_list resp ret = (status_of resp, ret)

-- `_read_str`: the status, and `*ret`.
unfoldable pub read_str : Option (List Bytes) → Bytes → Status × Bytes
unfolding status_of ok
read_str (some (c ∷ [])) ret =
    (if ok (status c) then status (codes "server_error") else status c, ret)
read_str (some (c ∷ v ∷ _)) ret = (status c, if ok (status c) then v else ret)
read_str resp ret = (status_of resp, ret)

-- `_read_int64`: the status, `*ret`, and `errno`.
unfoldable pub read_int64 : Option (List Bytes) → ℤ → Errno → Status × ℤ × Errno
unfolding status_of ok str_to_int64 errno_after
read_int64 (some (c ∷ [])) ret e =
    (if ok (status c) then status (codes "server_error") else status c, ret, e)
read_int64 (some (c ∷ v ∷ _)) ret e =
    if ok (status c) then (status c, str_to_int64 v, errno_after v e) else (status c, ret, e)
read_int64 resp ret e = (status_of resp, ret, e)

-- The pairs of a `std::map` as `multi_set` and `multi_hset` push them.
unfoldable pub flat_pairs : List (Bytes × Bytes) → List Bytes
flat_pairs [] = []
flat_pairs ((k, v) ∷ kvs) = k ∷ v ∷ flat_pairs kvs

-- `link` is NULL until `connect`; `resp` is `resp_`.
pub record ClientImpl : Type 0 where
  pub link : Option Link
  pub resp : List Bytes

pub record Session : Type 0 where
  pub client : ClientImpl
  pub world : World

-- A call on a client. `none` is a call through the NULL link, which crashes (or a loop out of fuel,
-- which the proofs exclude).
abbrev pub Exec : Type 0 → Type 0
Exec A = Session → Option (A × Session)

abbrev pub pure : {A : Type 0} → A → Exec A
pure a s = some (a, s)

infixl 5 ◌>>=◌
abbrev pub ◌>>=◌ : {A B : Type 0} → Exec A → (A → Exec B) → Exec B
◌>>=◌ m f s = elim (m s) [ none ↦ none | some (a, s') ↦ f a s' ]

-- The client after an exchange that left the link `l`.
abbrev with_link : ClientImpl → Link → ClientImpl
with_link c l = record c { link = some l }

-- `request` behind `response`: a NULL leaves `resp_` alone.
after_response :
    ClientImpl
    → Option (Option (List Bytes) × Link × World)
    → Option (Option (List Bytes) × Session)
after_response c none = none
after_response c (some (none, l, w)) = some (none, record { client = with_link c l; world = w })
after_response c (some (some rs, l, w)) =
    some (some rs, record { client = record (with_link c l) { resp = rs }; world = w })

module _ ⦃m : Memory⦄ where
  after_flush :
      ClientImpl → Option (IoResult × Link × World) → Option (Option (List Bytes) × Session)
  unfolding after_response response
  after_flush c none = none
  after_flush c (some (failed, l, w)) = some (none, record { client = with_link c l; world = w })
  after_flush c (some (count n, l, w)) = after_response c (response l w)

  after_send : ClientImpl → World → IoResult × Link → Option (Option (List Bytes) × Session)
  unfolding after_flush flush
  after_send c w (failed, l) = some (none, record { client = with_link c l; world = w })
  after_send c w (count n, l) = after_flush c (flush l w)

  -- `ClientImpl::request(const std::vector<std::string>&)`; the other overloads collect their
  -- arguments into the vector.
  unfoldable pub request : List Bytes → Exec (Option (List Bytes))
  unfolding after_send send
  request req s = elim s.client.link [
    | none ↦ none
    | some l ↦ after_send s.client s.world (send req l)
  ]

  -- The three shapes of a command: only the status, a value, a list.
  unfoldable pub call : List Bytes → Exec Status
  unfolding request status_of
  call req = do resp ← request req; pure (status_of resp)

  unfoldable pub call_str : List Bytes → Bytes → Exec (Status × Bytes)
  unfolding request read_str
  call_str req val = do resp ← request req; pure (read_str resp val)

  unfoldable pub call_list : List Bytes → List Bytes → Exec (Status × List Bytes)
  unfolding request read_list
  call_list req ret = do resp ← request req; pure (read_list resp ret)

  unfoldable pub int64_result : Option (List Bytes) → ℤ → Exec (Status × ℤ)
  unfolding read_int64
  int64_result resp ret s =
      let (st, v, e) = read_int64 resp ret s.world.errno in
      some ((st, v), record s { world = record s.world { errno = e } })

  unfoldable pub call_int64 : List Bytes → ℤ → Exec (Status × ℤ)
  unfolding request int64_result
  call_int64 req ret = do resp ← request req; int64_result resp ret
