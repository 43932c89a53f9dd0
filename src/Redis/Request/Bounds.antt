-- ===== src/Redis/Request/Bounds.antt =====
-- The loop of `parse_req` ends, and what it takes for a request lies inside the input.
use mathlib.Core.List.{concat-ne-nil}
use dbss.Common.{
  ℕ, zero, suc, ◌+◌, ◌-◌, ◌≤◌, ◌<◌, ◌≡◌, ◌≢◌, Option, none, some, List, [], ◌∷◌, ◌++◌, arith, ltb,
  ltb→ge, ◌==◌, if◌then◌else◌, Bytes, length, take, drop, length-drop, Option-cases, inl, inr,
  Bool-cases, if_elim,
}
use dbss.Text.{split_line, strtol_errno, Errno}
use dbss.Text.Lines.{length-split_line}
use dbss.Redis.Request.{
  ParseReq, request, bad_request, not_ready, out_of_fuel, is_einval, length_field, parse_args,
  parse_req, starts_with_star, wait_req, after_parse_req, recv_req,
}
use dbss.Buffer.{Memory, Buffer, size, make_room}
use dbss.Buffer.Capacity.{IsValid, decr-IsValid, nice-IsValid}
use dbss.Buffer.Room.{Roomy, make_room-Roomy}
use dbss.Redis.{RedisLink}

-- Out of fuel is excluded.
abbrev pub Fits : ℕ → ParseReq → Type 0
Fits total (request args n) = (n ≤ total) × (args ≢ [])
Fits total out_of_fuel = ⊥
Fits total _ = Unit {0}

Fits-mono : (n m : ℕ) (r : ParseReq) → n ≤ m → Fits n r → Fits m r
Fits-mono n m (request args k) h (le, some_arg) = (omega arith, some_arg)
Fits-mono n m (bad_request args) h f = tt
Fits-mono n m not_ready h f = tt
Fits-mono n m out_of_fuel h f = f

parse_args-Fits :
    (f : ℕ) (errno : Errno) (ptr : Bytes) (num_args parsed : ℕ) (args : List Bytes)
    → length ptr < f
    → Fits (parsed + length ptr) (parse_args f errno ptr num_args parsed args).0
unfolding parse_args
parse_args-Fits zero errno ptr num_args parsed args h = absurd (omega arith)
parse_args-Fits (suc f) errno ptr num_args parsed args h = elim (Option-cases (split_line ptr)) [
  | inl e ↦ rw (e, parse_args) tt
  | inr ((line, lf), e) ↦
      let size = length-split_line ptr e in
      rw (e, parse_args)
        (elim (Bool-cases (is_einval (strtol_errno (drop 1 ptr) errno))) [
          | inl stale ↦ rw stale tt
          | inr fresh ↦ rw fresh (elim (Option-cases (length_field (drop 1 ptr))) [
            | inl bad ↦ rw bad tt
            | inr (len, value) ↦
                rw value
                  (at_length (parse_args-Fits f (strtol_errno (drop 1 ptr) errno)) line lf len size)
          ])
        ])
]
  where
    at_length :
        ((p : Bytes) (n k : ℕ) (as_ : List Bytes)
          → length p < f
          → Fits (k + length p) (parse_args f (strtol_errno (drop 1 ptr) errno) p n k as_).0)
        → (line lf : Bytes) (len : ℕ) → length ptr ≡ length line + 1 + length lf
        → let parsed' = parsed + (length line + 1) in
          let args' = args ++ take len lf ∷ [] in
          let errno' = strtol_errno (drop 1 ptr) errno in
          Fits
            (parsed + length ptr)
            (if num_args == 0
              then if len == 0
                then (bad_request args, errno')
                else parse_args f errno' lf len parsed' args
              else if ltb (length lf) (len + 2)
              then (not_ready, errno')
              else if num_args == 1
              then (request args' (parsed' + (len + 2)), errno')
              else parse_args f errno'
                  (drop (len + 2) lf)
                  (num_args - 1)
                  (parsed' + (len + 2))
                  args').0
    at_length ih line lf len size =
        let P : ParseReq × Errno → Type 0 = λ r. Fits (parsed + length ptr) r.0 in
        let parsed' = parsed + (length line + 1) in
        let args' = args ++ take len lf ∷ [] in
        let rest = drop (len + 2) lf in
        if_elim P (num_args == 0) _ _
          (λ _.
            if_elim P (len == 0) _ _ (λ _. tt)
              (λ _.
                Fits-mono (parsed' + length lf) (parsed + length ptr) _ (omega arith)
                  (ih lf len parsed' args (omega arith))))
          (λ _.
            if_elim P (ltb (length lf) (len + 2)) _ _ (λ _. tt)
              (λ enough.
                let room = ltb→ge (length lf) (len + 2) enough in
                if_elim P (num_args == 1) _ _ (λ _. (omega arith, concat-ne-nil (take len lf) args))
                  (λ _.
                    Fits-mono (parsed' + (len + 2) + length rest) (parsed + length ptr) _
                      (omega (arith, length-drop (len + 2) lf))
                      (ih rest (num_args - 1) (parsed' + (len + 2)) args'
                        (omega (arith, length-drop (len + 2) lf))))))

-- `parse_req` ends on every input; a request has an argument, and takes no more than is there.
pub parse_req-Fits : (errno : Errno) (s : Bytes) → Fits (length s) (parse_req errno s).0
unfolding parse_req
parse_req-Fits errno s =
    if_elim (λ (r : ParseReq × Errno). Fits (length s) r.0) (starts_with_star s) _ _
      (λ _.
        Fits-mono (0 + length s) (length s) _ (omega arith)
          (parse_args-Fits (suc (length s)) errno s 0 0 [] (omega arith)))
      (λ _. tt)

module _ ⦃m : Memory⦄ where
  wait_req-IsValid :
      (r : RedisLink) (input : Buffer) (e : Errno) (b : Option Buffer)
      → IsValid input
      → Roomy input b
      → IsValid (wait_req r input e b).2
  unfolding wait_req
  wait_req-IsValid r input e none v room = nice-IsValid input v
  wait_req-IsValid r input e (some b) v ((valid, same), room) = valid

  after_parse_req-IsValid :
      (r : RedisLink) (input : Buffer) (e : Errno) (p : ParseReq)
      → IsValid input
      → Fits (size input) p
      → IsValid (after_parse_req r input e p).2
  unfolding after_parse_req
  after_parse_req-IsValid r input e (request args n) v (le, _) = decr-IsValid input n v le
  after_parse_req-IsValid r input e (bad_request args) v f = v
  after_parse_req-IsValid r input e not_ready v f =
      wait_req-IsValid r input e (make_room input) v (make_room-Roomy input v)
  after_parse_req-IsValid r input e out_of_fuel v f = v

  -- `recv_req` keeps a valid input buffer valid, whatever bytes it holds.
  pub recv_req-IsValid :
      (r : RedisLink) (input : Buffer) (e : Errno) → IsValid input → IsValid (recv_req r input e).2
  unfolding recv_req
  recv_req-IsValid r input e v =
      after_parse_req-IsValid r input (parse_req e input.content).1 (parse_req e input.content).0 v
        (parse_req-Fits e input.content)
