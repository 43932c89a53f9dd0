-- ===== src/Buffer/Append.antt =====
-- `append` and `append_record` of the buffer.
use dbss.Common.{
  ℕ, ◌+◌, ◌-◌, ◌^◌, ◌≤◌, ◌<◌, ◌≡◌, refl, subst, ◌⊎◌, inl, inr, true, false, Option, none, some, ◌∷◌,
  [], ◌++◌, arith, length, length-append, Bytes, sym,
}
use dbss.Text.{str_nat}
use dbss.Text.Decimal.{length-str_nat}
use dbss.Buffer.{
  record_need, Memory, Buffer, size, grow_fuel, grow, reserve, write_slot, record_bytes,
  append_record, append,
}
use dbss.Buffer.Capacity.{IsValid, reserve_lem, IsAmple, reserve_ample}

-- A record on the wire fits the room that is set aside for it.
record_need_small : (s : Bytes) → length s + 17 < 2 ^ 31 → record_need s ≡ 16 + length s + 1
unfolding record_need
record_need_small s h = ground arith

pub length-record_bytes :
    (s : Bytes) → length s < 2 ^ 31 → length (record_bytes s) ≤ 16 + length s + 1
unfolding record_bytes
length-record_bytes s h = omega (
  arith,
  length-str_nat 9 (length s) (omega arith),
  length-append (str_nat (length s)) (b'\n' ∷ (s ++ b'\n' ∷ [])),
  length-append s (b'\n' ∷ []),
)

module _ ⦃m : Memory⦄ where
  -- How a write of `s` ends: `s` stands behind the old content, inside the allocated bytes; or an
  -- allocation was refused and the content is the old one.
  abbrev pub Appended : Bytes → Buffer → Option ℕ × Buffer → Type 0
  Appended s b r =
      (t : ℕ) × (b.total ≤ t)
      × (t < 2 ^ 31)
      × (((r ≡ (some (length s), record b { total = t; content = b.content ++ s }))
            × (b.front + length (b.content ++ s) ≤ t))
          ⊎ ((r ≡ (none, record b { total = t })) × (grow (record b { total = t }) ≡ none)))

  write_slot-Appended :
      (s : Bytes) (need : ℕ) (b : Buffer)
      → IsValid b
      → length s ≤ need
      → Appended s b (write_slot s (reserve grow_fuel need b))
  unfolding write_slot
  write_slot-Appended s need b v h =
      let (t, le, small, end) = reserve_lem need b v.small in
      let result = reserve grow_fuel need b in
      let ends : ((result ≡ (true, record b { total = t })) × (need ≤ t - b.front - size b))
          ⊎ ((result ≡ (false, record b { total = t }))
              × (t - b.front - size b < need)
              × (grow (record b { total = t }) ≡ none)) =
        end in
      elim ends [
        | inl (e, fits) ↦ (t, le, small, inl (rw e, omega (arith, length-append b.content s)))
        | inr (e, short, refused) ↦ (t, le, small, inr (rw e, refused))
      ]

  pub append-Appended : (s : Bytes) (b : Buffer) → IsValid b → Appended s b (append s b)
  unfolding append
  append-Appended s b v = write_slot-Appended s (length s) b v (omega arith)

  -- On a valid buffer and a record shorter than 2^31 by more than 17 bytes, `append_record` either
  -- puts the whole record behind the content, inside the allocated bytes, and returns its length,
  -- or returns -1 with the content unchanged after an allocation that was refused.
  pub append_record-Appended :
      (s : Bytes) (b : Buffer)
      → IsValid b
      → length s + 17 < 2 ^ 31
      → Appended (record_bytes s) b (append_record s b)
  unfolding append_record
  append_record-Appended s b v h =
      subst (λ n. Appended (record_bytes s) b (write_slot (record_bytes s) (reserve grow_fuel n b)))
        (sym (record_need_small s h))
        (write_slot-Appended (record_bytes s) (16 + length s + 1) b v
          (length-record_bytes s (omega arith)))

  Appended-IsValid :
      (s : Bytes) (b : Buffer) (r : Option ℕ × Buffer) → IsValid b → Appended s b r → IsValid r.1
  Appended-IsValid s b r v (t, le, small, inl (e, fits)) =
      subst (λ (q : Option ℕ × Buffer). IsValid q.1) (sym e) (omega arith)
  Appended-IsValid s b r v (t, le, small, inr (e, refused)) =
      subst (λ (q : Option ℕ × Buffer). IsValid q.1) (sym e) (omega arith)

  pub append-IsValid : (s : Bytes) (b : Buffer) → IsValid b → IsValid (append s b).1
  append-IsValid s b v = Appended-IsValid s b _ v (append-Appended s b v)

  pub append_record-IsValid :
      (s : Bytes) (b : Buffer) → IsValid b → length s + 17 < 2 ^ 31 → IsValid (append_record s b).1
  append_record-IsValid s b v h = Appended-IsValid _ b _ v (append_record-Appended s b v h)

  -- With an ample allocator a write succeeds while all stays below 2^29 bytes.
  abbrev pub Extends : Bytes → Buffer → Buffer → Type 0
  Extends s b c = IsValid c × (c.front ≡ b.front) × (c.content ≡ b.content ++ s)

  write_slot_ample :
      (s : Bytes) (need : ℕ) (b : Buffer)
      → IsAmple
      → IsValid b
      → length s ≤ need
      → b.front + size b + need ≤ 2 ^ 29
      → Extends s b (write_slot s (reserve grow_fuel need b)).1
  unfolding write_slot
  write_slot_ample s need b ample v h k =
      let (t, le, small, fits, e) = reserve_ample need b ample v.small k in
      rw e (omega (arith, length-append b.content s), refl, refl)

  pub append_ample :
      (s : Bytes) (b : Buffer)
      → IsAmple
      → IsValid b
      → b.front + size b + length s ≤ 2 ^ 29
      → Extends s b (append s b).1
  unfolding append
  append_ample s b ample v k = write_slot_ample s (length s) b ample v (omega arith) k

  pub append_record_ample :
      (s : Bytes) (b : Buffer)
      → IsAmple
      → IsValid b
      → b.front + size b + (16 + length s + 1) ≤ 2 ^ 29
      → Extends (record_bytes s) b (append_record s b).1
  unfolding append_record
  append_record_ample s b ample v k =
      subst
        (λ n. Extends (record_bytes s) b (write_slot (record_bytes s) (reserve grow_fuel n b)).1)
        (sym (record_need_small s (omega arith)))
        (write_slot_ample (record_bytes s) (16 + length s + 1) b ample v
          (length-record_bytes s (omega arith)) k)
