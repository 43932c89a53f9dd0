-- ===== src/Buffer/Room.antt =====
-- The room that is made before the next read.
use dbss.Common.{
  ◌+◌, ◌*◌, ◌^◌, ◌≤◌, ◌<◌, ◌≡◌, refl, ◌∙◌, ◌⊎◌, inl, inr, Option, none, some, arith, ◌==◌,
  Bool-cases,
}
use dbss.Buffer.{Memory, Buffer, size, space, nice, grow, make_room}
use dbss.Buffer.Capacity.{IsValid, IsAmple, nice-IsValid, content-nice, grow_cases, grow-ne-none}

-- The same content in valid bounds.
abbrev pub SameContent : Buffer → Buffer → Type 0
SameContent b c = IsValid c × (c.content ≡ b.content)

module _ ⦃m : Memory⦄ where
  -- What `make_room` ends with: the same content with room behind it, or no room and a refused
  -- allocation.
  abbrev pub Roomy : Buffer → Option Buffer → Type 0
  Roomy b none = (space (nice b) ≡ 0) × (grow (nice b) ≡ none)
  Roomy b (some c) = SameContent b c × (0 < space c)

  -- A granted growth gives room.
  pub grow_roomy :
      (b : Buffer)
      → IsValid b
      → (grow b ≡ none)
        ⊎ ((d : Buffer) × (grow b ≡ some d) × SameContent b d × (d.front ≡ b.front) × (0 < space d))
  grow_roomy b v = elim (grow_cases b v.small) [
    | inl refused ↦ inl refused
    | inr (t, granted, le, floor, double, small) ↦
        inr (record b { total = t }, granted, (omega arith, refl), refl, omega arith)
  ]

  -- On a valid buffer `make_room` keeps the content and leaves room behind it, or fails where no
  -- room is left after `nice` and the growth is refused.
  pub make_room-Roomy : (b : Buffer) → IsValid b → Roomy b (make_room b)
  unfolding make_room
  make_room-Roomy b v = elim (Bool-cases (space b == 0)) [
    | inr room ↦ rw room ((v, refl), ground arith)
    | inl full ↦ rw full (elim (Bool-cases (space (nice b) == 0)) [
      | inr room ↦ rw room ((nice-IsValid b v, content-nice b), ground arith)
      | inl still ↦
          let zero_left : space (nice b) ≡ 0 = ground arith in
          rw still (elim (grow_roomy (nice b) (nice-IsValid b v)) [
            | inl refused ↦ rw refused (zero_left, refused)
            | inr (d, granted, (valid, same), _, room) ↦
                rw granted ((valid, same ∙ content-nice b), room)
          ])
    ])
  ]

  full_total : (b : Buffer) → IsValid b → space (nice b) ≡ 0 → b.total ≤ 2 * size b + 1
  unfolding nice
  full_total b v h = ground arith

  -- With an ample allocator there is room for content of at most 2^26 bytes.
  pub make_room_ample :
      (b : Buffer)
      → IsAmple
      → IsValid b
      → size b ≤ 2 ^ 26
      → (c : Buffer) × (make_room b ≡ some c) × SameContent b c × (0 < space c)
  make_room_ample b ample v h = by_result (make_room b) refl (make_room-Roomy b v)
    where
      total-nice : (nice b).total ≡ b.total
      total-nice = unfold nice in ground arith

      by_result :
          (r : Option Buffer)
          → make_room b ≡ r
          → Roomy b r
          → (c : Buffer) × (make_room b ≡ some c) × SameContent b c × (0 < space c)
      by_result none e (full, refused) =
          absurd
            (grow-ne-none (nice b) ample (omega (arith, total-nice, full_total b v full)) refused)
      by_result (some c) e (same, room) = (c, e, same, room)

  -- `nice` leaves room behind, if there was some or the buffer is empty.
  pub nice_room : (b : Buffer) → IsValid b → (0 < space b) ⊎ (size b ≡ 0) → 0 < space (nice b)
  unfolding nice
  nice_room b v h = ground arith
