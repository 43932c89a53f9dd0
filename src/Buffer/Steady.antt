-- ===== src/Buffer/Steady.antt =====
-- A bound on the capacity of an output buffer that small packets pass through.
use dbss.Common.{
  ℕ, zero, suc, ◌+◌, ◌*◌, ◌≤◌, ◌<◌, ◌≡◌, subst, sym, some, inl, inr, Bytes, length, arith, ltb,
  ltb→lt, Bool, true, false, Bool-cases, Option-cases,
}
use dbss.Buffer.{
  Memory, Buffer, size, space, nice, next_total, grow, reserve, write_slot, record_need,
  append_record, append, grow_fuel,
}

-- The content and what is added to it take so much.
abbrev pub steady_room : ℕ
steady_room = 32 * 1024 * 1024 + 512

-- The offset is in the first half, and the capacity is one that `grow` reaches for small packets.
pub record IsSteady (b : Buffer) : Type 0 where
  pub front_half : 2 * b.front ≤ b.total
  pub bounded : b.total ≤ 16 * steady_room

next_total_steady :
    (t front need : ℕ)
    → t < front + need
    → 2 * front ≤ t
    → need ≤ steady_room
    → (t ≤ next_total t) × (next_total t ≤ 16 * steady_room)
next_total_steady t front need short half small = ground arith

pub nice-front_half :
    (b : Buffer) → (2 * (nice b).front ≤ (nice b).total) × ((nice b).total ≡ b.total)
unfolding nice
nice-front_half b = ground arith

module _ ⦃m : Memory⦄ where
  pub grow-total : (b c : Buffer) → grow b ≡ some c → c ≡ record b { total = next_total b.total }
  unfolding grow
  grow-total b c e = ground arith

  reserve-IsSteady :
      (f need : ℕ) (b : Buffer)
      → size b + need ≤ steady_room
      → IsSteady b
      → IsSteady (reserve f need b).1
  unfolding reserve
  reserve-IsSteady zero need b h s = s
  reserve-IsSteady (suc f) need b h s = elim (Bool-cases (ltb (space b) need)) [
    | inr fits ↦ rw (fits, reserve) s
    | inl short ↦ elim (Option-cases (grow b)) [
      | inl refused ↦ rw (short, refused, reserve) s
      | inr (c, e) ↦
          let (le, bound) =
            next_total_steady b.total b.front (size b + need)
              (omega (arith, ltb→lt (space b) need short)) s.front_half h in
          rw (short, e, reserve)
            (subst (λ d. IsSteady (reserve f need d).1) (sym (grow-total b c e))
              (reserve-IsSteady f need (record b { total = next_total b.total }) h (omega arith)))
    ]
  ]

  write_slot-IsSteady : (s : Bytes) (r : Bool × Buffer) → IsSteady r.1 → IsSteady (write_slot s r).1
  unfolding write_slot
  write_slot-IsSteady s (true, b) h = omega arith
  write_slot-IsSteady s (false, b) h = h

  pub append_record-IsSteady :
      (s : Bytes) (b : Buffer)
      → size b + length s + 17 ≤ steady_room
      → IsSteady b
      → IsSteady (append_record s b).1
  unfolding append_record
  append_record-IsSteady s b h st =
      write_slot-IsSteady _ _ (reserve-IsSteady grow_fuel (record_need s) b (small h) st)
    where
      small : size b + length s + 17 ≤ steady_room → size b + record_need s ≤ steady_room
      small k = unfold record_need in (ground arith)

  pub append-IsSteady :
      (s : Bytes) (b : Buffer)
      → size b + length s ≤ steady_room
      → IsSteady b
      → IsSteady (append s b).1
  unfolding append
  append-IsSteady s b h st = write_slot-IsSteady _ _ (reserve-IsSteady grow_fuel (length s) b h st)
