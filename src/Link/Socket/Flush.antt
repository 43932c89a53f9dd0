-- ===== src/Link/Socket/Flush.antt =====
-- `write` and `flush`: what they send, and that they end.
use dbss.Buffer.Steady.{IsSteady, steady_room, grow-total, nice-front_half}
use dbss.Common.{
  ℕ, zero, suc, ◌+◌, ◌≤◌, ◌≡◌, ◌≢◌, refl, sym, ap, ◌∙◌, subst, true, false, Option, some, [], ◌∷◌,
  ◌++◌, Bytes, length, ◌==◌, is_empty, arith, if_elim, Bool-cases, inl, inr, ◌⊎◌, Option-cases, ◌*◌,
}
use dbss.Buffer.{Memory, Buffer, size, grow}
use dbss.Buffer.Capacity.{IsValid, nice-IsValid, content-nice}
use dbss.Buffer.Room.{grow_roomy}
use dbss.Link.{Link, zero_buffer_size, IoResult, failed, count}
use dbss.Link.Socket.{
  World, WriteState, write_loop, first_grow, write, write_end, flush_loop, flush,
}
use dbss.Link.Socket.WriteLoop.{NoWriteError, write_loop-Wrote, write_loop_progress}

module _ ⦃m : Memory⦄ where
  pub first_grow_lem :
      (b : Buffer)
      → IsValid b
      → IsValid (first_grow b)
        × ((first_grow b).content ≡ b.content)
        × ((first_grow b).front ≡ b.front)
  unfolding first_grow
  first_grow_lem b v =
      if_elim (λ c. IsValid c × (c.content ≡ b.content) × (c.front ≡ b.front))
        (b.total == zero_buffer_size) _ _
        (λ _. elim (grow_roomy b v) [
          | inl refused ↦ rw refused (v, refl, refl)
          | inr (d, granted, (valid, same), front, room) ↦ rw granted (valid, same, front)
        ])
        (λ _. (v, refl, refl))

  -- What one call of `write` does to the link and to the world.
  pub record Writes (l : Link) (w : World) (r : IoResult × Link × World) : Type 0 where
    pub conserved : r.2.sent ++ r.1.output.content ≡ w.sent ++ l.output.content
    pub valid : IsValid r.1.output
    pub same_input : r.1.input ≡ l.input
    pub same_redis : r.1.redis ≡ l.redis
    pub same_mode : r.1.noblock ≡ l.noblock
    pub same_incoming : r.2.incoming ≡ w.incoming
    pub fewer : length r.2.outgoing ≤ length w.outgoing
    pub steady : IsSteady l.output → (r.0 ≡ failed) ⊎ IsSteady r.1.output
    pub quiet : NoWriteError w.outgoing → (r.0 ≢ failed) × NoWriteError r.2.outgoing

  first_grow-bounded :
      (b : Buffer) → b.total ≤ 16 * steady_room → (first_grow b).total ≤ 16 * steady_room
  unfolding first_grow
  first_grow-bounded b h =
      if_elim (λ (c : Buffer). c.total ≤ 16 * steady_room) (b.total == zero_buffer_size) _ _
        (λ at_zero. elim (Option-cases (grow b)) [
          | inl refused ↦ rw refused h
          | inr (c, e) ↦ rw e (rw (grow-total b c e) (ground arith))
        ])
        (λ _. h)

  write_end-IsSteady :
      (r : IoResult) (b : Buffer)
      → b.total ≤ 16 * steady_room
      → (r ≡ failed) ⊎ IsSteady (write_end r b)
  unfolding write_end
  write_end-IsSteady failed b h = inl refl
  write_end-IsSteady (count n) b h = inr (omega (arith, nice-front_half b))

  write_end_lem :
      (r : IoResult) (b : Buffer)
      → IsValid b
      → IsValid (write_end r b) × ((write_end r b).content ≡ b.content)
  unfolding write_end
  write_end_lem failed b v = (v, refl)
  write_end_lem (count n) b v = (nice-IsValid b v, content-nice b)

  start_state : Link → World → WriteState
  unfolding first_grow
  start_state l w = record {
    buffer = first_grow l.output;
    events = w.outgoing;
    sent = w.sent;
    errno = w.errno;
  }

  pub write-Writes : (l : Link) (w : World) → IsValid l.output → Writes l w (write l w)
  unfolding write start_state
  write-Writes l w v =
      let start = start_state l w in
      let r = write_loop l.noblock w.outgoing start 0 in
      let wrote = write_loop-Wrote l.noblock w.outgoing start 0 in
      let (grown, content, front) = first_grow_lem l.output v in
      let (valid, same) = write_end_lem r.0 r.1.buffer (wrote.valid grown) in
      record {
        conserved = ap (λ t. r.1.sent ++ t) same ∙ wrote.conserved ∙ ap (λ t. w.sent ++ t) content;
        valid = valid;
        same_input = refl;
        same_redis = refl;
        same_mode = refl;
        same_incoming = refl;
        fewer = wrote.fewer;
        steady = λ st.
            write_end-IsSteady r.0 r.1.buffer
              (omega (arith, wrote.same_total, first_grow-bounded l.output st.bounded));
        quiet = wrote.quiet;
      }

  empty_of_size : (s : Bytes) → length s ≡ 0 → is_empty s ≡ true
  empty_of_size [] h = refl
  empty_of_size (c ∷ s) h = absurd (omega arith)

  -- Enough rounds: one to find the output empty, or one for each event and two more.
  HasRounds : ℕ → Link → World → Type 0
  HasRounds f l w = ((is_empty l.output.content ≡ true) × (1 ≤ f)) ⊎ (length w.outgoing + 2 ≤ f)

  write_rounds :
      (f : ℕ) (l : Link) (w : World)
      → IsValid l.output
      → is_empty l.output.content ≡ false
      → HasRounds (suc f) l w
      → HasRounds f (write l w).1 (write l w).2
  unfolding write HasRounds start_state
  write_rounds f l w v h (inl (e, _)) = cc
  write_rounds f l w v h (inr enough) =
      let start = start_state l w in
      let r = write_loop l.noblock w.outgoing start 0 in
      let wrote = write_loop-Wrote l.noblock w.outgoing start 0 in
      let (grown, content, front) = first_grow_lem l.output v in
      let (valid, same) = write_end_lem r.0 r.1.buffer (wrote.valid grown) in
      elim (write_loop_progress l.noblock w.outgoing start 0 (size_ne content)) [
        | inl less ↦ inr (omega arith)
        | inr (no_event, done) ↦ inl (empty_of_size _ (ap length same ∙ done), omega arith)
      ]
    where
      positive : (s : Bytes) → is_empty s ≡ false → (length s == 0) ≡ false
      positive [] e = cc
      positive (c ∷ s) e = ground arith

      size_ne :
          (first_grow l.output).content ≡ l.output.content
          → (size (first_grow l.output) == 0) ≡ false
      size_ne e =
          subst (λ (s : Bytes). (length s == 0) ≡ false) (sym e) (positive l.output.content h)

  Writes-trans :
      (l l' : Link) (w w' : World) (n : ℕ) (r : IoResult × Link × World)
      → Writes l w (count n, l', w')
      → Writes l' w' r
      → Writes l w r
  Writes-trans l l' w w' n r a b = record {
    conserved = b.conserved ∙ a.conserved;
    valid = b.valid;
    same_input = b.same_input ∙ a.same_input;
    same_redis = b.same_redis ∙ a.same_redis;
    same_mode = b.same_mode ∙ a.same_mode;
    same_incoming = b.same_incoming ∙ a.same_incoming;
    fewer = omega (arith, a.fewer, b.fewer);
    steady = λ st. elim (a.steady st) [ inl e ↦ cc | inr st' ↦ b.steady st' ];
    quiet = λ h. b.quiet (a.quiet h).1;
  }

  -- How `flush` ends: with an error, or with nothing left to write.
  abbrev pub Flushes : Link → World → Option (IoResult × Link × World) → Type 0
  Flushes l w result =
      (r : IoResult × Link × World) × (result ≡ some r)
      × Writes l w r
      × ((r.0 ≡ failed) ⊎ (r.1.output.content ≡ []))

  nil_of_empty : (s : Bytes) → is_empty s ≡ true → s ≡ []
  nil_of_empty [] h = refl
  nil_of_empty (c ∷ s) h = cc

  flush_loop-Flushes :
      (f : ℕ) (l : Link) (w : World) (len : ℕ)
      → IsValid l.output
      → HasRounds f l w
      → Flushes l w (flush_loop f l w len)
  unfolding flush_loop
  flush_loop-Flushes zero l w len v h = absurd (unfold HasRounds in (omega arith))
  flush_loop-Flushes (suc f) l w len v h = elim (Bool-cases (is_empty l.output.content)) [
    | inl done ↦ (
      (count len, l, w),
      rw done refl,
      record {
        conserved = refl;
        valid = v;
        same_input = refl;
        same_redis = refl;
        same_mode = refl;
        same_incoming = refl;
        fewer = omega arith;
        steady = λ st. inr st;
        quiet = λ q. ((λ e. cc), q);
      },
      inr (nil_of_empty l.output.content done),
    )
    | inr more ↦ rw more (
        by_result (write l w) (write-Writes l w v) (λ n.
          flush_loop-Flushes f (write l w).1 (write l w).2 n (write-Writes l w v).valid
            (write_rounds f l w v more h)))
  ]
    where
      by_result :
          (r : IoResult × Link × World)
          → Writes l w r
          → ((n : ℕ) → Flushes r.1 r.2 (flush_loop f r.1 r.2 n))
          → Flushes l w (elim r.0 [
            | failed ↦ some (failed, r.1, r.2)
            | count n ↦ flush_loop f r.1 r.2 (len + n)
          ])
      by_result (failed, l', w') a rest = ((failed, l', w'), refl, a, inl refl)
      by_result (count n, l', w') a rest =
          let (r, e, b, end) = rest (len + n) in (r, e, Writes-trans l l' w w' n r a b, end)

  -- On a link with a valid output `flush` ends. It sends the output's bytes in order, a prefix of
  -- them if the kernel fails and all of them otherwise, fails only if the kernel does, and leaves
  -- the rest of the link and what is to arrive alone.
  pub flush-Flushes : (l : Link) (w : World) → IsValid l.output → Flushes l w (flush l w)
  unfolding flush
  flush-Flushes l w v =
      flush_loop-Flushes (length w.outgoing + 2) l w 0 v (unfold HasRounds in (inr (omega arith)))
