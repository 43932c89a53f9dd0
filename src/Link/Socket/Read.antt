-- ===== src/Link/Socket/Read.antt =====
-- `read`: it stays in bounds, and each read that goes on uses up something of what is to come.
use dbss.Common.{
  ℕ, suc, ◌+◌, ◌-◌, ◌≤◌, ◌<◌, ◌≡◌, refl, ap, subst, Bool, false, ◌&&◌, List, [], ◌∷◌, ◌++◌, Bytes,
  length, take, drop, min, ◌==◌, is_empty, arith, if_elim, length-take, length-drop, length-append,
  inl, inr, ◌⊎◌,
}
use dbss.Text.{Errno, other}
use dbss.Buffer.{Memory, Buffer, size, space, nice}
use dbss.Buffer.Capacity.{IsValid, incr-IsValid, nice-IsValid}
use dbss.Buffer.Room.{grow_roomy}
use dbss.Link.{Link, zero_buffer_size, IoResult, failed, count}
use dbss.Link.Socket.{
  ReadEvent, arrives, read_interrupted, read_blocked, read_error, World, ReadState, put_back,
  take_input, read_loop, weight, first_grow, read,
}
use dbss.Link.Socket.Flush.{first_grow_lem}

-- The bytes counted beyond `ret` come out of the weight.
abbrev pub Spends : ℕ → List ReadEvent → IoResult → List ReadEvent → Type 0
Spends ret es failed left = weight left ≤ weight es
Spends ret es (count n) left = (weight left + n ≤ weight es + ret) × (weight left ≤ weight es)

pub record Reads (ret : ℕ) (es : List ReadEvent) (b : Buffer) (r : IoResult × ReadState)
    : Type 0 where
  pub spends : Spends ret es r.0 r.1.events
  pub valid : IsValid b → IsValid r.1.buffer

pub content-take_input :
    (bs : Bytes) (b : Buffer) → (take_input bs b).content ≡ b.content ++ take (space b) bs
unfolding take_input
content-take_input bs b = refl

size-take_input :
    (bs : Bytes) (b : Buffer) → size (take_input bs b) ≡ size b + min (space b) (length bs)
size-take_input bs b = omega (
  arith,
  ap length (content-take_input bs b),
  length-append b.content (take (space b) bs),
  length-take (space b) bs,
)

pub take_input-IsValid : (bs : Bytes) (b : Buffer) → IsValid b → IsValid (take_input bs b)
unfolding take_input
take_input-IsValid bs b v =
    incr-IsValid b (take (space b) bs) v (omega (arith, length-take (space b) bs))

weight-put_back :
    (bs : Bytes) (es : List ReadEvent) → weight (put_back bs es) ≤ 1 + length bs + weight es
unfolding weight
weight-put_back [] es = omega arith
weight-put_back (c ∷ bs) es = omega arith

Reads-more :
    (ret k : ℕ) (ev : ReadEvent) (es : List ReadEvent) (b c : Buffer) (r : IoResult × ReadState)
    → weight es + k ≤ weight (ev ∷ es)
    → (IsValid b → IsValid c)
    → Reads (ret + k) es c r
    → Reads ret (ev ∷ es) b r
Reads-more ret k ev es b c (failed, s) h v w = record {
  spends = omega (arith, w.spends);
  valid = λ x. w.valid (v x);
}
Reads-more ret k ev es b c (count n, s) h v w = record {
  spends = (omega (arith, w.spends), omega (arith, w.spends));
  valid = λ x. w.valid (v x);
}

pub read_loop-Reads :
    (nb : Bool) (es : List ReadEvent) (e : Errno) (b : Buffer) (ret : ℕ)
    → Reads ret es b (read_loop nb es e b ret)
unfolding read_loop weight
read_loop-Reads nb [] e b ret = record { spends = ground arith; valid = λ v. v }
read_loop-Reads nb (read_interrupted ∷ es) e b ret =
    if_elim (Reads ret (read_interrupted ∷ es) b) (space b == 0) _ _
      (λ _. record { spends = omega arith; valid = λ v. v })
      (λ _.
        Reads-more ret 0 read_interrupted es b b _ (omega arith) (λ v. v)
          (subst (λ n. Reads n es b (read_loop nb es other b ret)) (omega arith)
            (read_loop-Reads nb es other b ret)))
read_loop-Reads nb (read_blocked ∷ es) e b ret =
    if_elim (Reads ret (read_blocked ∷ es) b) (space b == 0) _ _
      (λ _. record { spends = omega arith; valid = λ v. v })
      (λ _. record { spends = omega arith; valid = λ v. v })
read_loop-Reads nb (read_error ∷ es) e b ret =
    if_elim (Reads ret (read_error ∷ es) b) (space b == 0) _ _
      (λ _. record { spends = omega arith; valid = λ v. v })
      (λ _. record { spends = omega arith; valid = λ v. v })
read_loop-Reads nb (arrives bs ∷ es) e b ret =
    let P = Reads ret (arrives bs ∷ es) b in
    let b' = take_input bs b in
    let k = size b' - size b in
    let size_ = size-take_input bs b in
    let left = drop (space b) bs in
    if_elim P (space b == 0) _ _ (λ _. record { spends = omega arith; valid = λ v. v })
      (λ _.
        if_elim P (is_empty bs) _ _ (λ _. record { spends = omega arith; valid = λ v. v })
          (λ _.
            if_elim P (nb && is_empty left) _ _
              (λ _.
                Reads-more ret k (arrives bs) es b b' _ (omega arith) (take_input-IsValid bs b)
                  (read_loop-Reads nb es e b' (ret + k)))
              (λ _. record {
                spends = omega (arith, weight-put_back left es, length-drop (space b) bs);
                valid = take_input-IsValid bs b;
              })))

module _ ⦃m : Memory⦄ where
  -- What `read` does to the link and to the world.
  pub record ReadsLink (l : Link) (w : World) (r : IoResult × Link × World) : Type 0 where
    pub spends : Spends 0 w.incoming r.0 r.2.incoming
    pub valid : IsValid l.input → IsValid r.1.input
    pub same_output : r.1.output ≡ l.output
    pub same_mode : r.1.noblock ≡ l.noblock
    pub same_redis : r.1.redis ≡ l.redis
    pub same_sent : r.2.sent ≡ w.sent
    pub same_outgoing : r.2.outgoing ≡ w.outgoing

  pub read-ReadsLink : (l : Link) (w : World) → ReadsLink l w (read l w)
  unfolding read
  read-ReadsLink l w =
      let b = nice (first_grow l.input) in
      let r = read_loop-Reads l.noblock w.incoming w.errno b 0 in
      record {
        spends = r.spends;
        valid = λ v. r.valid (nice-IsValid (first_grow l.input) (first_grow_lem l.input v).0);
        same_output = refl;
        same_mode = refl;
        same_redis = refl;
        same_sent = refl;
        same_outgoing = refl;
      }

  pub first_grow_room :
      (b : Buffer)
      → IsValid b
      → (0 < space b) ⊎ (size b ≡ 0)
      → (0 < space (first_grow b)) ⊎ (size (first_grow b) ≡ 0)
  unfolding first_grow
  first_grow_room b v h =
      if_elim (λ c. (0 < space c) ⊎ (size c ≡ 0)) (b.total == zero_buffer_size) _ _
        (λ _. elim (grow_roomy b v) [
          | inl refused ↦ rw refused h
          | inr (d, granted, (valid, same), front, room) ↦ rw granted (inl room)
        ])
        (λ _. h)

  pub read_loop-arrives :
      (c : ℕ) (bs : Bytes) (es : List ReadEvent) (e : Errno) (b : Buffer)
      → 0 < space b
      → (j : ℕ) × (read_loop false (arrives (c ∷ bs) ∷ es) e b 0 ≡ (
        count (suc j),
        record {
          buffer = take_input (c ∷ bs) b;
          events = put_back (drop (space b) (c ∷ bs)) es;
          errno = e;
        },
      ))
  unfolding read_loop
  read_loop-arrives c bs es e b room =
      let n = size (take_input (c ∷ bs) b) - size b in
      let some_space : (space b == 0) ≡ false = ground arith in
      let positive : 0 + n ≡ suc (n - 1) = omega (arith, size-take_input (c ∷ bs) b) in
      (n - 1, rw some_space (rw positive refl))
