-- ===== src/Link/Parse.antt =====
-- The two loops of `Link::recv` that read a packet of the SSDB protocol from the input's bytes.
pub mod Complete
pub mod Partial
pub mod Rounds
pub mod Bounds
use dbss.Common.{
  ℕ, zero, suc, ◌+◌, ◌-◌, ◌*◌, ◌≤◌, ◌<◌, ◌≡◌, Bool, true, false, not, ◌&&◌, ◌||◌, Option, none,
  some, List, [], ◌∷◌, ◌++◌, ltb, ◌==◌, if◌then◌else◌, is_empty, Bytes, length, take, drop, All,
  ◌^◌,
}
use dbss.Text.{is_digit, atoi, split_line}
use dbss.Buffer.{record_bytes}
use dbss.Link.{max_packet_size}

-- How the loops end: at an empty line, with the records and the number of bytes parsed; at a format
-- error, where `recv` returns NULL; or before the packet is complete.
pub data Parsed : Type 0 where
  packet : List Bytes → ℕ → Parsed
  bad_format : List Bytes → Parsed
  not_ready : Parsed
  out_of_fuel : Parsed

-- `while(size > 0 && (head[0] == '\n' || head[0] == '\r'))`: the rest, and what is parsed by then.
unfoldable pub skip_blank : Bytes → ℕ → Bytes × ℕ
skip_blank [] parsed = ([], parsed)
skip_blank (c ∷ s) parsed =
    let more = skip_blank s (parsed + 1) in
    if (c == b'\n') || (c == b'\r') then more else (c ∷ s, parsed)

-- `head_len == 1 || (head_len == 2 && head[0] == '\r')`, on the line without its newline.
abbrev pub is_blank_line : Bytes → Bool
is_blank_line [] = true
is_blank_line (c ∷ []) = c == b'\r'
is_blank_line (c ∷ d ∷ s) = false

abbrev pub starts_with_digit : Bytes → Bool
starts_with_digit [] = false
starts_with_digit (c ∷ s) = is_digit c

-- The line end behind a record's body: `none` where the loop breaks, else its length and the rest.
abbrev pub line_end : Bytes → Option (ℕ × Bytes)
line_end [] = none
line_end (c ∷ []) = if c == b'\n' then some (1, []) else none
line_end (c ∷ d ∷ s) =
    if c == b'\n'
    then some (1, d ∷ s)
    else if (c == b'\r') && (d == b'\n')
    then some (2, s)
    else none

-- `body_len`: NULL is returned where the line is no length.
abbrev pub body_length : Bytes → Option ℕ
body_length line =
    if not (starts_with_digit line)
    then none
    else if ltb 19 (length line + 1)
    then none
    else atoi line

-- What one round of the loop does: it ends the loop, or leaves the unread bytes, `parsed` and
-- `recv_data` to the next round.
pub data Round : Type 0 where
  stop : Parsed → Round
  next : Bytes → ℕ → List Bytes → Round

-- The end of the loop's body: the record's bytes, and the line end behind them.
unfoldable pub take_record : Bytes → ℕ → ℕ → List Bytes → Round
take_record body body_len parsed recs =
    let recs' = recs ++ take body_len body ∷ [] in
    let after_body : Round = elim (line_end (drop body_len body)) [
      | none ↦ stop not_ready
      | some (n, rest) ↦
          if ltb max_packet_size (parsed + n)
          then stop (bad_format recs')
          else next rest (parsed + n) recs'
    ] in
    if ltb (length body) body_len then stop not_ready else after_body

-- The body of `while(size > 0)`.
unfoldable pub parse_record : Bytes → ℕ → List Bytes → Round
unfolding split_line atoi take_record
parse_record head parsed recs = elim (split_line head) [
  | none ↦ stop not_ready
  | some (line, body) ↦
      let head_len = length line + 1 in
      let record_at : Round = elim (body_length line) [
        | none ↦ stop (bad_format recs)
        | some body_len ↦ take_record body body_len (parsed + (head_len + body_len)) recs
      ] in
      if is_blank_line line then stop (packet recs (parsed + head_len)) else record_at
]

-- The loop. Each round takes two bytes at least.
unfoldable pub parse_records : ℕ → Bytes → ℕ → List Bytes → Parsed
unfolding parse_record
parse_records zero head parsed recs = out_of_fuel
parse_records (suc f) head parsed recs = elim (parse_record head parsed recs) [
  | stop r ↦ r
  | next rest parsed' recs' ↦ parse_records f rest parsed' recs'
]

unfoldable pub parse_packet : Bytes → Parsed
unfolding skip_blank parse_records
parse_packet s =
    let (head, parsed) = skip_blank s 0 in parse_records (suc (length head)) head parsed []

-- The wire format: the records one behind another, then an empty line.
unfoldable pub records_bytes : List Bytes → Bytes
unfolding record_bytes
records_bytes [] = []
records_bytes (s ∷ ss) = record_bytes s ++ records_bytes ss

unfoldable pub packet_bytes : List Bytes → Bytes
unfolding records_bytes
packet_bytes ss = records_bytes ss ++ b'\n' ∷ []
