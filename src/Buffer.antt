-- ===== src/Buffer.antt =====
-- src/util/bytes.h and src/util/bytes.cpp: `Buffer`, the growing byte buffer under a link.
-- The `size_` bytes at `data_` are the list `content`; `front` is `data_ - buf`. The bytes of `buf`
-- outside that range are never read, and have no part in the model. `Bytes` are taken by value.
-- Lengths are `int`s in the source; the model is exact below 2^31 - 17, and a buffer cannot grow
-- to 2^31, since that request overflows and is refused.
pub mod Capacity
pub mod Append
pub mod Room
pub mod Steady
pub mod Order
pub mod Records
pub mod Decode
pub mod Stats
use dbss.Common.{
  ℕ, zero, suc, ◌+◌, ◌-◌, ◌*◌, ◌/◌, ◌%◌, ◌^◌, ◌<◌, ◌≡◌, Bool, true, false, Option, none, some, List,
  [], ◌∷◌, ◌++◌, ltb, ◌==◌, if◌then◌else◌, is_empty, Bytes, length, drop,
}
use dbss.Text.{str_nat}

-- `realloc`, seen by the sizes that it grants, and what lies behind a vector. An object has fewer
-- than 2^63 bytes (PTRDIFF_MAX). `stray` is what `send_resp` appends where it reads a vector behind
-- its end.
pub record Memory : Type 0 where
  pub grants : ℕ → Bool
  pub grants_small : (n : ℕ) → grants n ≡ true → n < 2 ^ 63
  pub stray : List Bytes

pub record Buffer : Type 0 where
  pub total : ℕ
  pub origin_total : ℕ
  pub front : ℕ
  pub content : Bytes

-- `Buffer::Buffer`.
unfoldable pub new_buffer : ℕ → Buffer
new_buffer n = record { total = n; origin_total = n; front = 0; content = [] }

abbrev pub size : Buffer → ℕ
size b = length b.content

-- `space()`: the bytes behind the content.
abbrev pub space : Buffer → ℕ
space b = b.total - b.front - size b

-- The bytes that a read has put at `slot()`, then `incr`.
unfoldable pub incr : Buffer → Bytes → Buffer
incr b got = record b { content = b.content ++ got }

unfoldable pub decr : Buffer → ℕ → Buffer
decr b n = record b { front = b.front + n; content = drop n b.content }

unfoldable pub nice : Buffer → Buffer
nice b = if ltb (b.total / 2) b.front then record b { front = 0 } else b

abbrev pub next_total : ℕ → ℕ
next_total t = if ltb t (8 * 1024) then 8 * 1024 else if ltb t (512 * 1024) then 8 * t else 2 * t

-- An `int` as the `size_t` argument of `realloc`: a negative one becomes huge.
abbrev pub size_of_int : ℕ → ℕ
size_of_int n = let w = n % 2 ^ 32 in if ltb w (2 ^ 31) then w else w + (2 ^ 64 - 2 ^ 32)

-- The rounds that the loops over `grow` are given: the total at least doubles in each.
abbrev pub grow_fuel : ℕ
grow_fuel = 31

-- The bytes of one record on the wire: its length in decimal, a newline, its bytes, a newline.
unfoldable pub record_bytes : Bytes → Bytes
record_bytes s = str_nat (length s) ++ b'\n' ∷ (s ++ b'\n' ∷ [])

-- `int size = 16 + s.size() + 1`: 16 bytes are set aside for the length and its newline. A sum that
-- wraps around to a negative one asks for no room.
unfoldable pub record_need : Bytes → ℕ
record_need s = let n = (16 + length s + 1) % 2 ^ 32 in if ltb n (2 ^ 31) then n else 0

module _ ⦃m : Memory⦄ where
  -- `grow`; `none` is -1.
  unfoldable pub grow : Buffer → Option Buffer
  grow b =
      if m.grants (size_of_int (next_total b.total))
      then some (record b { total = next_total b.total })
      else none

  -- `while(need > space()) { if(grow() == -1) return -1; }`; `false` is the return.
  unfoldable pub reserve : ℕ → ℕ → Buffer → Bool × Buffer
  unfolding grow
  reserve zero need b = (false, b)
  reserve (suc f) need b = elim (ltb (space b) need) [
    | false ↦ (true, b)
    | true ↦ elim (grow b) [ none ↦ (false, b) | some b' ↦ reserve f need b' ]
  ]

  write_slot : Bytes → Bool × Buffer → Option ℕ × Buffer
  write_slot s (true, b) = (some (length s), record b { content = b.content ++ s })
  write_slot s (false, b) = (none, b)

  -- `append_record(s)`.
  unfoldable pub append_record : Bytes → Buffer → Option ℕ × Buffer
  unfolding reserve write_slot record_bytes record_need
  append_record s b = write_slot (record_bytes s) (reserve grow_fuel (record_need s) b)

  -- `append(p, size)`, and so the other overloads of `append`.
  unfoldable pub append : Bytes → Buffer → Option ℕ × Buffer
  unfolding reserve write_slot
  append s b = write_slot s (reserve grow_fuel (length s) b)

  -- The end of `Link::recv` and of `RedisLink::recv_req`, where a packet is not ready:
  -- `if(space() == 0){ nice(); if(space() == 0) if(grow() == -1) return NULL; }`
  unfoldable pub make_room : Buffer → Option Buffer
  unfolding nice grow
  make_room b =
      let b' = nice b in if space b == 0 then if space b' == 0 then grow b' else some b' else some b
