-- ===== src/Link/Parse/Bounds.antt =====
-- What is taken for a packet lies inside the input, and holds a record.
use mathlib.Core.List.{concat-ne-nil}
use dbss.Common.{
  ℕ, zero, suc, ◌+◌, ◌-◌, ◌≤◌, ◌≡◌, ◌≢◌, refl, Bool, true, false, some, List, [], ◌∷◌, arith, ltb,
  ltb→ge, ◌==◌, Bytes, length, take, drop, length-drop, Option-cases, ◌⊎◌, inl, inr, Bool-cases,
  ◌||◌, subst,
}
use dbss.Text.{split_line}
use dbss.Text.Lines.{length-split_line}
use dbss.Link.{max_packet_size}
use dbss.Link.Parse.{
  Parsed, packet, Round, stop, next, line_end, is_blank_line, body_length, take_record,
  parse_record, parse_records, skip_blank, parse_packet,
}
use dbss.Link.Parse.Rounds.{length-line_end}

abbrev pub Fits : ℕ → Parsed → Type 0
Fits total (packet rs n) = (n ≤ total) × (rs ≢ [])
Fits total _ = Unit {0}

-- A line break at the head of the unread bytes.
abbrev starts_blank : Bytes → Bool
starts_blank [] = false
starts_blank (c ∷ s) = (c == b'\n') || (c == b'\r')

blank-starts_blank :
    (head line body : Bytes)
    → split_line head ≡ some (line, body)
    → is_blank_line line ≡ true
    → starts_blank head ≡ true
unfolding split_line
blank-starts_blank [] line body e h = cc
blank-starts_blank (c ∷ s) [] body e h = ground arith
blank-starts_blank (c ∷ s) (d ∷ []) body e h = ground arith
blank-starts_blank (c ∷ s) (d ∷ x ∷ l) body e h = cc

abbrev Started : List Bytes → Bytes → Type 0
Started recs head = (recs ≢ []) ⊎ (starts_blank head ≡ false)

abbrev Counts : ℕ → Round → Type 0
Counts total (stop r) = Fits total r
Counts total (next rest parsed recs) = (parsed + length rest ≡ total) × (recs ≢ [])

take_record-Counts :
    (total : ℕ) (body : Bytes) (body_len parsed : ℕ) (recs : List Bytes)
    → (body_len ≤ length body → parsed + (length body - body_len) ≡ total)
    → Counts total (take_record body body_len parsed recs)
unfolding take_record
take_record-Counts total body body_len parsed recs h =
    elim (Bool-cases (ltb (length body) body_len)) [
      | inl short ↦ rw short tt
      | inr enough ↦ rw enough (elim (Option-cases (line_end (drop body_len body))) [
        | inl e ↦ rw e tt
        | inr ((k, rest), e) ↦ rw e (elim (Bool-cases (ltb max_packet_size (parsed + k))) [
          | inl large ↦ rw large tt
          | inr fits ↦ rw fits (
            omega (
              arith,
              length-line_end (drop body_len body) e,
              length-drop body_len body,
              h (ltb→ge _ _ enough),
            ),
            concat-ne-nil (take body_len body) recs,
          )
        ])
      ])
    ]

parse_record-Counts :
    (head : Bytes) (parsed : ℕ) (recs : List Bytes)
    → Started recs head
    → Counts (parsed + length head) (parse_record head parsed recs)
unfolding parse_record
parse_record-Counts head parsed recs started = elim (Option-cases (split_line head)) [
  | inl e ↦ rw (e, parse_record) tt
  | inr ((line, body), e) ↦
      rw (e, parse_record)
        (elim (Bool-cases (is_blank_line line)) [
          | inl blank ↦ rw blank (
            omega (arith, length-split_line head e),
            some_record started (blank-starts_blank head line body e blank),
          )
          | inr open_ ↦ rw open_ (elim (Option-cases (body_length line)) [
            | inl bad ↦ rw bad tt
            | inr (n, value) ↦ rw value (
                take_record-Counts (parsed + length head) body n _ recs
                  (λ fits. omega (arith, length-split_line head e)))
          ])
        ])
]
  where
    some_record : Started recs head → starts_blank head ≡ true → recs ≢ []
    some_record (inl h) b = h
    some_record (inr h) b = cc

parse_records-Fits :
    (f : ℕ) (head : Bytes) (parsed : ℕ) (recs : List Bytes)
    → Started recs head
    → Fits (parsed + length head) (parse_records f head parsed recs)
unfolding parse_records
parse_records-Fits zero head parsed recs started = tt
parse_records-Fits (suc f) head parsed recs started =
    ends (parse_record head parsed recs) (parse_record-Counts head parsed recs started)
      (parse_records-Fits f)
  where
    after : Round → Parsed
    after (stop r) = r
    after (next rest p r) = parse_records f rest p r

    ends :
        (r : Round)
        → Counts (parsed + length head) r
        → ((rest : Bytes) (p : ℕ) (rs : List Bytes)
            → Started rs rest
            → Fits (p + length rest) (parse_records f rest p rs))
        → Fits (parsed + length head) (after r)
    ends (stop r) c ih = c
    ends (next rest p rs) c ih = rw (← c.0) (ih rest p rs (inl c.1))

skip_blank_lem :
    (s : Bytes) (parsed : ℕ)
    → ((skip_blank s parsed).1 + length (skip_blank s parsed).0 ≡ parsed + length s)
      × (starts_blank (skip_blank s parsed).0 ≡ false)
unfolding skip_blank
skip_blank_lem [] parsed = (refl, refl)
skip_blank_lem (c ∷ s) parsed = ground (arith, skip_blank_lem s (parsed + 1))

-- What `parse_packet` takes for a packet has at least one record, and ends inside the input.
pub parse_packet-Fits : (s : Bytes) → Fits (length s) (parse_packet s)
unfolding parse_packet
parse_packet-Fits s =
    let (count, start) = skip_blank_lem s 0 in
    let total : (skip_blank s 0).1 + length (skip_blank s 0).0 ≡ length s = omega arith in
    subst (λ n. Fits n (parse_packet s)) total
      (parse_records-Fits (suc (length (skip_blank s 0).0)) (skip_blank s 0).0 (skip_blank s 0).1 []
        (inr start))
