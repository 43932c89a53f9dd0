-- ===== src/Buffer/Capacity.antt =====
-- The buffer's bounds, and the loop that makes room.
use native.Mathlib.Nat.{pow-suc, mul-le-mul_right}
use dbss.Common.{
  ℕ, zero, suc, ◌+◌, ◌-◌, ◌*◌, ◌^◌, ◌≤◌, ◌<◌, ◌≡◌, ◌≢◌, subst, ◌⊎◌, inl, inr, Bool, true, false,
  none, some, arith, ltb, ltb→ge, ltb→lt, Bool-cases, length, length-append, length-drop, Bytes,
}
use dbss.Buffer.{
  Memory, Buffer, new_buffer, size, space, incr, decr, nice, next_total, size_of_int, grow_fuel,
  grow, reserve,
}

-- The content lies inside the allocated bytes, whose number is a positive `int`.
pub record IsValid (b : Buffer) : Type 0 where
  pub within : b.front + size b ≤ b.total
  pub positive : 1 ≤ b.total
  pub small : b.total < 2 ^ 31

pub new_buffer-IsValid : (n : ℕ) → 1 ≤ n → n < 2 ^ 31 → IsValid (new_buffer n)
unfolding new_buffer
new_buffer-IsValid n h k = omega arith

pub incr-IsValid :
    (b : Buffer) (got : Bytes) → IsValid b → length got ≤ space b → IsValid (incr b got)
unfolding incr
incr-IsValid b got v h = omega (arith, length-append b.content got)

pub decr-IsValid : (b : Buffer) (n : ℕ) → IsValid b → n ≤ size b → IsValid (decr b n)
unfolding decr
decr-IsValid b n v h = omega (arith, length-drop n b.content)

pub nice-IsValid : (b : Buffer) → IsValid b → IsValid (nice b)
unfolding nice
nice-IsValid b v = ground arith

pub content-nice : (b : Buffer) → (nice b).content ≡ b.content
unfolding nice
content-nice b = ground arith

next_total_grows :
    (t : ℕ) → (t ≤ next_total t) × (8192 ≤ next_total t) × (t < 8192 ⊎ (2 * t ≤ next_total t))
next_total_grows t = ground arith

size_of_int_small : (n : ℕ) → n < 2 ^ 32 → size_of_int n < 2 ^ 63 → n < 2 ^ 31
size_of_int_small n h k = ground arith

next_total_bounded : (t : ℕ) → t < 2 ^ 31 → next_total t < 2 ^ 32
next_total_bounded t h = ground arith

scaled : (a t q c : ℕ) → 2 * a ≤ t → c ≤ a * (q * 2) → c ≤ t * q
scaled a t q c h k = omega (arith, mul-le-mul_right q h)

size_of_next : (t : ℕ) → t < 2 ^ 29 → size_of_int (next_total t) < 2 ^ 31
size_of_next t k = ground arith

module _ ⦃m : Memory⦄ where
  -- A granted request is a positive `int`, and the total at least doubles after the first.
  pub grow_cases :
      (b : Buffer)
      → b.total < 2 ^ 31
      → (grow b ≡ none)
        ⊎ ((t : ℕ) × (grow b ≡ some (record b { total = t }))
            × (b.total ≤ t)
            × (8192 ≤ t)
            × ((b.total < 8192) ⊎ (2 * b.total ≤ t))
            × (t < 2 ^ 31))
  unfolding grow
  grow_cases b k = elim (Bool-cases (m.grants (size_of_int (next_total b.total)))) [
    | inl g ↦
        let (le, floor, double) = next_total_grows b.total in
        inr (
          next_total b.total,
          rw g,
          le,
          floor,
          double,
          size_of_int_small (next_total b.total) (next_total_bounded b.total k)
              (m.grants_small (size_of_int (next_total b.total)) g),
        )
    | inr g ↦ inl (rw g)
  ]

  -- What `reserve` ends with: room for `need` bytes, or a total that could not grow. Only the total
  -- differs from the buffer at the start.
  abbrev pub Reserved : ℕ → Buffer → Bool × Buffer → Type 0
  Reserved need b r =
      (t : ℕ) × (b.total ≤ t)
      × (t < 2 ^ 31)
      × (((r ≡ (true, record b { total = t })) × (need ≤ t - b.front - size b))
          ⊎ ((r ≡ (false, record b { total = t }))
              × (t - b.front - size b < need)
              × (grow (record b { total = t }) ≡ none)))

  Reserved-trans :
      (need t : ℕ) (b : Buffer) (r : Bool × Buffer)
      → b.total ≤ t
      → Reserved need (record b { total = t }) r
      → Reserved need b r
  Reserved-trans need t b r h (u, p, q, e) = (u, omega arith, q, e)

  reserve_step :
      (f need : ℕ) (b : Buffer)
      → b.total < 2 ^ 31
      → ((t : ℕ)
          → b.total ≤ t
          → 8192 ≤ t
          → (b.total < 8192) ⊎ (2 * b.total ≤ t)
          → t < 2 ^ 31
          → Reserved need (record b { total = t }) (reserve f need (record b { total = t })))
      → Reserved need b (reserve (suc f) need b)
  unfolding reserve
  reserve_step f need b h rest = elim (Bool-cases (ltb (space b) need)) [
    | inr fits ↦ (b.total, omega arith, h, inl (rw (fits, reserve), ltb→ge _ _ fits))
    | inl short ↦ elim (grow_cases b h) [
      | inl refused ↦
          (b.total, omega arith, h, inr (rw (short, refused, reserve), ltb→lt _ _ short, refused))
      | inr (t, e, le, floor, double, small) ↦
          rw (short, e, reserve) (Reserved-trans need t b _ le (rest t le floor double small))
    ]
  ]

  reserve_large :
      (f need : ℕ) (b : Buffer)
      → 8192 ≤ b.total
      → b.total < 2 ^ 31
      → 2 ^ 31 ≤ b.total * 2 ^ f
      → Reserved need b (reserve f need b)
  reserve_large zero need b h k p = absurd (omega arith)
  reserve_large (suc f) need b h k p = reserve_step f need b k λ t le floor double small.
      reserve_large f need (record b { total = t }) floor small (enough t (double_large double))
    where
      double_large : {t : ℕ} → (b.total < 8192) ⊎ (2 * b.total ≤ t) → 2 * b.total ≤ t
      double_large d = omega arith

      enough : (t : ℕ) → 2 * b.total ≤ t → 2 ^ 31 ≤ t * 2 ^ f
      enough t d =
          scaled b.total t (2 ^ f) (2 ^ 31) d (subst (λ q. 2 ^ 31 ≤ b.total * q) (pow-suc 2 f) p)

  -- The loop of the appends, on a buffer of fewer than 2^31 bytes, never uses up its rounds: it
  -- ends with room for what is needed, or with too little and a refused allocation; it changes the
  -- capacity only, which does not fall and stays below 2^31.
  pub reserve_lem :
      (need : ℕ) (b : Buffer) → b.total < 2 ^ 31 → Reserved need b (reserve grow_fuel need b)
  reserve_lem need b h = reserve_step 30 need b h λ t le floor double small.
      reserve_large 30 need (record b { total = t }) floor small (omega arith)

  -- An allocator that grants every request below 2^31.
  abbrev pub IsAmple : Type 0
  IsAmple = (n : ℕ) → n < 2 ^ 31 → m.grants n ≡ true

  pub grow-ne-none : (b : Buffer) → IsAmple → b.total < 2 ^ 29 → grow b ≢ none
  unfolding grow
  grow-ne-none b ample h e =
      ground (arith, ample (size_of_int (next_total b.total)) (size_of_next b.total h))

  -- With such an allocator there is room for all that stays below 2^29.
  pub reserve_ample :
      (need : ℕ) (b : Buffer)
      → IsAmple
      → b.total < 2 ^ 31
      → b.front + size b + need ≤ 2 ^ 29
      → (t : ℕ) × (b.total ≤ t)
        × (t < 2 ^ 31)
        × (need ≤ t - b.front - size b)
        × (reserve grow_fuel need b ≡ (true, record b { total = t }))
  reserve_ample need b ample h k =
      let (t, le, small, end) = reserve_lem need b h in
      let result = reserve grow_fuel need b in
      let ends : ((result ≡ (true, record b { total = t })) × (need ≤ t - b.front - size b))
          ⊎ ((result ≡ (false, record b { total = t }))
              × (t - b.front - size b < need)
              × (grow (record b { total = t }) ≡ none)) =
        end in
      elim ends [
        | inl (e, fits) ↦ (t, le, small, fits, e)
        | inr (e, short, refused) ↦
            absurd (grow-ne-none (record b { total = t }) ample (omega arith) refused)
      ]
