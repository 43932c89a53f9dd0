-- ===== src/Link/Socket/WriteLoop.antt =====
-- The loop of `write`: no byte is lost, repeated or reordered, and each round makes progress.
use dbss.Common.{
  ℕ, suc, ◌+◌, ◌-◌, ◌≤◌, ◌<◌, ◌≡◌, ◌≢◌, refl, sym, ap, ◌∙◌, subst, Bool, false, List, [], ◌∷◌, ◌++◌,
  Bytes, length, take, drop, min, ◌==◌, arith, if_elim, append_assoc, take-append-drop, length-drop,
  inl, inr, All, ◌⊎◌,
}
use dbss.Text.{other}
use dbss.Buffer.{size}
use dbss.Buffer.Capacity.{IsValid, decr-IsValid}
use dbss.Link.{IoResult, failed, count}
use dbss.Link.Socket.{
  WriteEvent, accepts, write_interrupted, write_blocked, write_error, WriteState, put_output,
  write_loop,
}

-- What is behind the peer and before it: the bytes sent, then those that wait.
abbrev pub all_bytes : WriteState → Bytes
all_bytes s = s.sent ++ s.buffer.content

-- `n` bytes were written, `ret` of them before.
abbrev pub Counted : ℕ → WriteState → IoResult → WriteState → Type 0
Counted ret s failed t = Unit {0}
Counted ret s (count n) t = n + size t.buffer ≡ ret + size s.buffer

abbrev IsQuiet : WriteEvent → Type 0
IsQuiet (accepts n) = Unit
IsQuiet write_interrupted = Unit
IsQuiet write_blocked = Unit
IsQuiet write_error = ⊥

-- No call of `::write` fails for good.
abbrev pub NoWriteError : List WriteEvent → Type 0
NoWriteError = All IsQuiet

pub record Wrote (ret : ℕ) (s : WriteState) (es : List WriteEvent) (r : IoResult × WriteState)
    : Type 0 where
  pub conserved : all_bytes r.1 ≡ all_bytes s
  pub counted : Counted ret s r.0 r.1
  pub fewer : length r.1.events ≤ length es
  pub same_total : r.1.buffer.total ≡ s.buffer.total
  pub valid : IsValid s.buffer → IsValid r.1.buffer
  pub quiet : NoWriteError es → (r.0 ≢ failed) × NoWriteError r.1.events

all_bytes-put_output : (k : ℕ) (s : WriteState) → all_bytes (put_output k s) ≡ all_bytes s
unfolding put_output
all_bytes-put_output k s =
    append_assoc s.sent (take k s.buffer.content) (drop k s.buffer.content)
    ∙ ap (λ t. s.sent ++ t) (take-append-drop k s.buffer.content)

size-put_output : (k : ℕ) (s : WriteState) → size (put_output k s).buffer ≡ size s.buffer - k
unfolding put_output
size-put_output k s = length-drop k s.buffer.content

IsValid-put_output :
    (k : ℕ) (s : WriteState)
    → k ≤ size s.buffer
    → IsValid s.buffer
    → IsValid (put_output k s).buffer
unfolding put_output
IsValid-put_output k s h v = decr-IsValid s.buffer k v h

events-put_output : (k : ℕ) (s : WriteState) → (put_output k s).events ≡ s.events
unfolding put_output
events-put_output k s = refl

total-put_output : (k : ℕ) (s : WriteState) → (put_output k s).buffer.total ≡ s.buffer.total
unfolding put_output
total-put_output k s = refl

-- A round that writes nothing.
Wrote-same :
    (ret : ℕ) (s t : WriteState) (es : List WriteEvent)
    → t.buffer ≡ s.buffer
    → t.sent ≡ s.sent
    → length t.events ≤ length es
    → (NoWriteError es → NoWriteError t.events)
    → Wrote ret s es (count ret, t)
Wrote-same ret s t es b e le q = record {
  conserved = rw (b, e) refl;
  counted = rw b refl;
  fewer = le;
  same_total = rw b refl;
  valid = λ v. subst IsValid (sym b) v;
  quiet = λ h. ((λ d. cc), q h);
}

-- A round that writes `k` bytes, before the others.
Wrote-trans :
    (ret k : ℕ) (s t : WriteState) (ev : WriteEvent) (es : List WriteEvent)
    (r : IoResult × WriteState)
    → all_bytes t ≡ all_bytes s
    → size t.buffer + k ≡ size s.buffer
    → t.buffer.total ≡ s.buffer.total
    → (IsValid s.buffer → IsValid t.buffer)
    → Wrote (ret + k) t es r
    → Wrote ret s (ev ∷ es) r
Wrote-trans ret k s t ev es r bytes size_ total valid w = record {
  conserved = w.conserved ∙ bytes;
  counted = counted r.0 w.counted;
  fewer = omega (arith, w.fewer);
  same_total = w.same_total ∙ total;
  valid = λ v. w.valid (valid v);
  quiet = λ h. w.quiet h.1;
}
  where
    counted : (x : IoResult) → Counted (ret + k) t x r.1 → Counted ret s x r.1
    counted failed h = tt
    counted (count n) h = omega arith

-- `write` sends a prefix of what waits and keeps the rest, counts it, stays in bounds, and fails
-- only at an error of the kernel.
pub write_loop-Wrote :
    (nb : Bool) (es : List WriteEvent) (s : WriteState) (ret : ℕ)
    → Wrote ret s es (write_loop nb es s ret)
unfolding write_loop
write_loop-Wrote nb [] s ret =
    let s' = record s { events = [] } in
    record {
      conserved = all_bytes-put_output (size s.buffer) s';
      counted = omega (arith, size-put_output (size s.buffer) s');
      fewer = omega (arith, ap length (events-put_output (size s.buffer) s'));
      same_total = total-put_output (size s.buffer) s';
      valid = IsValid-put_output (size s.buffer) s' (omega arith);
      quiet = λ _. ((λ e. cc), subst NoWriteError (sym (events-put_output (size s.buffer) s')) tt);
    }
write_loop-Wrote nb (write_interrupted ∷ es) s ret =
    if_elim (Wrote ret s (write_interrupted ∷ es)) (size s.buffer == 0) _ _
      (λ _. Wrote-same ret s _ _ refl refl (omega arith) (λ h. h))
      (λ _.
        Wrote-trans ret 0 s (record s { errno = other }) _ es _ refl (omega arith) refl (λ v. v)
          (subst
            (λ n.
              Wrote n (record s { errno = other }) es
                (write_loop nb es (record s { errno = other }) ret))
            (omega arith) (write_loop-Wrote nb es (record s { errno = other }) ret)))
write_loop-Wrote nb (write_blocked ∷ es) s ret =
    if_elim (Wrote ret s (write_blocked ∷ es)) (size s.buffer == 0) _ _
      (λ _. Wrote-same ret s _ _ refl refl (omega arith) (λ h. h))
      (λ _. Wrote-same ret s _ _ refl refl (omega arith) (λ h. h.1))
write_loop-Wrote nb (write_error ∷ es) s ret =
    if_elim (Wrote ret s (write_error ∷ es)) (size s.buffer == 0) _ _
      (λ _. Wrote-same ret s _ _ refl refl (omega arith) (λ h. h))
      (λ _. record {
        conserved = refl;
        counted = tt;
        fewer = omega arith;
        same_total = refl;
        valid = λ v. v;
        quiet = λ h. absurd h.0;
      })
write_loop-Wrote nb (accepts n ∷ es) s ret =
    let len = min n (size s.buffer) in
    let s0 = record s { events = es } in
    if_elim (Wrote ret s (accepts n ∷ es)) (size s.buffer == 0) _ _
      (λ _. Wrote-same ret s _ _ refl refl (omega arith) (λ h. h))
      (λ _.
        if_elim (Wrote ret s (accepts n ∷ es)) (len == 0) _ _
          (λ _. Wrote-same ret s _ _ refl refl (omega arith) (λ h. h.1))
          (λ _.
            Wrote-trans ret len s (put_output len s0) (accepts n) es _ (all_bytes-put_output len s0)
              (omega (arith, size-put_output len s0)) (total-put_output len s0)
              (IsValid-put_output len s0 (omega arith))
              (if_elim (Wrote (ret + len) (put_output len s0) es) nb _ _
                (λ _. write_loop-Wrote nb es (put_output len s0) (ret + len))
                (λ _.
                  Wrote-same (ret + len) (put_output len s0) (put_output len s0) es refl refl
                    (omega (arith, ap length (events-put_output len s0)))
                    (λ h. subst NoWriteError (sym (events-put_output len s0)) h)))))

-- With bytes to write, each call uses an event up, or, where none is left, writes them all.
pub write_loop_progress :
    (nb : Bool) (es : List WriteEvent) (s : WriteState) (ret : ℕ)
    → (size s.buffer == 0) ≡ false
    → (length (write_loop nb es s ret).1.events < length es)
      ⊎ ((length es ≡ 0) × (size (write_loop nb es s ret).1.buffer ≡ 0))
unfolding write_loop
write_loop_progress nb [] s ret h =
    inr (refl, omega (arith, size-put_output (size s.buffer) (record s { events = [] })))
write_loop_progress nb (write_interrupted ∷ es) s ret h =
    inl (rw h (omega (arith, (write_loop-Wrote nb es (record s { errno = other }) ret).fewer)))
write_loop_progress nb (write_blocked ∷ es) s ret h = inl (rw h (omega arith))
write_loop_progress nb (write_error ∷ es) s ret h = inl (rw h (omega arith))
write_loop_progress nb (accepts n ∷ es) s ret h =
    let len = min n (size s.buffer) in
    let s0 = record s { events = es } in
    let P : IoResult × WriteState → Type 0 = λ r. length r.1.events < suc (length es) in
    inl (
      rw h (
        if_elim P (len == 0) _ _ (λ _. omega arith)
          (λ _.
            if_elim P nb _ _
              (λ _. omega (arith, (write_loop-Wrote nb es (put_output len s0) (ret + len)).fewer))
              (λ _. omega (arith, ap length (events-put_output len s0))))))
