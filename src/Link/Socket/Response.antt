-- ===== src/Link/Socket/Response.antt =====
-- `response` ends, whatever the peer sends and however the kernel behaves.
use dbss.Common.{ℕ, zero, suc, ◌<◌, ◌≡◌, refl, ◌∙◌, Option, none, some, List, [], ◌∷◌, Bytes, arith}
use dbss.Text.{Errno}
use dbss.Buffer.{Memory}
use dbss.Buffer.Capacity.{IsValid}
use dbss.Link.{Link, IoResult, failed, count}
use dbss.Link.Receive.{recv}
use dbss.Link.Receive.Bounds.{Keeps, recv-Keeps}
use dbss.Link.Socket.{World, weight, read, after_read, after_recv, response_loop, response}
use dbss.Link.Socket.Read.{ReadsLink, read-ReadsLink}

module _ ⦃m : Memory⦄ where
  -- What every run of `response` leaves alone, and that the input stays in its bounds.
  pub record Frame (l : Link) (w : World) (r : Option (List Bytes) × Link × World) : Type 0 where
    pub valid : IsValid r.1.input
    pub same_output : r.1.output ≡ l.output
    pub same_mode : r.1.noblock ≡ l.noblock
    pub same_sent : r.2.sent ≡ w.sent
    pub same_outgoing : r.2.outgoing ≡ w.outgoing

  abbrev pub Ends : Link → World → Option (Option (List Bytes) × Link × World) → Type 0
  Ends l w result = (r : Option (List Bytes) × Link × World) × (result ≡ some r) × Frame l w r

  Next : ℕ → (Link → World → Option (Option (List Bytes) × Link × World)) → Type 0
  Next f again =
      (l : Link) (w : World) → IsValid l.input → weight w.incoming < f → Ends l w (again l w)

  after_read-Ends :
      (f : ℕ) (again : Link → World → Option (Option (List Bytes) × Link × World)) (l : Link)
      (w : World) (r : IoResult × Link × World)
      → Next f again
      → IsValid l.input
      → weight w.incoming < suc f
      → ReadsLink l w r
      → Ends l w (after_read again r)
  unfolding after_read Next
  after_read-Ends f again l w (failed, l', w') ih v k s = (
    (none, l', w'),
    refl,
    record {
      valid = s.valid v;
      same_output = s.same_output;
      same_mode = s.same_mode;
      same_sent = s.same_sent;
      same_outgoing = s.same_outgoing;
    },
  )
  after_read-Ends f again l w (count zero, l', w') ih v k s = (
    (none, l', w'),
    refl,
    record {
      valid = s.valid v;
      same_output = s.same_output;
      same_mode = s.same_mode;
      same_sent = s.same_sent;
      same_outgoing = s.same_outgoing;
    },
  )
  after_read-Ends f again l w (count (suc n), l', w') ih v k s =
      let (r, e, fr) = ih l' w' (s.valid v) (omega (arith, s.spends)) in
      (
        r,
        e,
        record {
          valid = fr.valid;
          same_output = fr.same_output ∙ s.same_output;
          same_mode = fr.same_mode ∙ s.same_mode;
          same_sent = fr.same_sent ∙ s.same_sent;
          same_outgoing = fr.same_outgoing ∙ s.same_outgoing;
        },
      )

  after_recv-Ends :
      (f : ℕ) (again : Link → World → Option (Option (List Bytes) × Link × World)) (l : Link)
      (w : World) (r : Option (List Bytes) × Link × Errno)
      → Next f again
      → weight w.incoming < suc f
      → Keeps l r
      → Ends l w (after_recv again w r)
  unfolding after_recv
  after_recv-Ends f again l w (none, l', e) ih k (v, out, mode) = (
    (none, l', record w { errno = e }),
    refl,
    record {
      valid = v;
      same_output = out;
      same_mode = mode;
      same_sent = refl;
      same_outgoing = refl;
    },
  )
  after_recv-Ends f again l w (some (x ∷ xs), l', e) ih k (v, out, mode) = (
    (some (x ∷ xs), l', record w { errno = e }),
    refl,
    record {
      valid = v;
      same_output = out;
      same_mode = mode;
      same_sent = refl;
      same_outgoing = refl;
    },
  )
  after_recv-Ends f again l w (some [], l', e) ih k (v, out, mode) =
      let w' = record w { errno = e } in
      let (r, result, fr) =
        after_read-Ends f again l' w' (read l' w') ih v k (read-ReadsLink l' w') in
      (
        r,
        result,
        record {
          valid = fr.valid;
          same_output = fr.same_output ∙ out;
          same_mode = fr.same_mode ∙ mode;
          same_sent = fr.same_sent;
          same_outgoing = fr.same_outgoing;
        },
      )

  response_loop-Ends : (f : ℕ) → Next f (response_loop f)
  unfolding response_loop Next
  response_loop-Ends zero = λ l w v k. absurd (omega arith)
  response_loop-Ends (suc f) = λ l w v k.
      after_recv-Ends f (response_loop f) l w (recv l w.errno) (response_loop-Ends f) k
        (recv-Keeps l w.errno v)

  -- On a link with a valid input `response` returns, with records or with NULL, whatever bytes and
  -- events are to come; the input stays in its bounds, and nothing is written.
  pub response-Ends : (l : Link) (w : World) → IsValid l.input → Ends l w (response l w)
  unfolding response Next
  response-Ends l w v = response_loop-Ends (suc (weight w.incoming)) l w v (omega arith)
