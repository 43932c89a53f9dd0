-- ===== src/Link/Parse/Rounds.antt =====
-- The parse loop ends within the rounds that it is given.
use dbss.Common.{
  ℕ, zero, suc, ◌+◌, ◌<◌, ◌≡◌, ◌≢◌, refl, some, List, [], ◌∷◌, arith, ltb, Bytes, length, drop,
  length-drop, Option-cases, inl, inr, Bool-cases,
}
use dbss.Text.{split_line}
use dbss.Text.Lines.{length-split_line}
use dbss.Link.{max_packet_size}
use dbss.Link.Parse.{
  Parsed, out_of_fuel, Round, stop, next, line_end, is_blank_line, body_length, take_record,
  parse_record, parse_records, skip_blank, parse_packet,
}

pub length-line_end :
    (s : Bytes) {n : ℕ} {rest : Bytes} → line_end s ≡ some (n, rest) → n + length rest ≡ length s
length-line_end [] h = cc
length-line_end (c ∷ []) h = ground arith
length-line_end (c ∷ d ∷ s) h = ground arith

-- A round that does not end the loop leaves fewer bytes.
abbrev pub Shrinks : ℕ → Round → Type 0
Shrinks n (stop r) = r ≢ out_of_fuel
Shrinks n (next rest parsed recs) = length rest < n

take_record-Shrinks :
    (n : ℕ) (body : Bytes) (body_len parsed : ℕ) (recs : List Bytes)
    → length body < n
    → Shrinks n (take_record body body_len parsed recs)
unfolding take_record
take_record-Shrinks n body body_len parsed recs h = elim (Bool-cases (ltb (length body) body_len)) [
  | inl short ↦ rw short (λ d. cc)
  | inr enough ↦ rw enough (elim (Option-cases (line_end (drop body_len body))) [
    | inl e ↦ rw e (λ d. cc)
    | inr ((k, rest), e) ↦ rw e (elim (Bool-cases (ltb max_packet_size (parsed + k))) [
      | inl large ↦ rw large (λ d. cc)
      | inr fits ↦
          rw fits (omega (arith, length-line_end (drop body_len body) e, length-drop body_len body))
    ])
  ])
]

pub parse_record-Shrinks :
    (head : Bytes) (parsed : ℕ) (recs : List Bytes)
    → Shrinks (length head) (parse_record head parsed recs)
unfolding parse_record
parse_record-Shrinks head parsed recs = elim (Option-cases (split_line head)) [
  | inl e ↦ rw (e, parse_record) (λ d. cc)
  | inr ((line, body), e) ↦
      rw (e, parse_record)
        (elim (Bool-cases (is_blank_line line)) [
          | inl blank ↦ rw blank (λ d. cc)
          | inr open_ ↦ rw open_ (elim (Option-cases (body_length line)) [
            | inl bad ↦ rw bad (λ d. cc)
            | inr (n, value) ↦ rw value (
                take_record-Shrinks (length head) body n _ recs
                  (omega (arith, length-split_line head e)))
          ])
        ])
]

-- The rounds beyond the unread bytes change nothing.
pub parse_records_fuel :
    (f g : ℕ) (head : Bytes) (parsed : ℕ) (recs : List Bytes)
    → length head < f
    → length head < g
    → parse_records f head parsed recs ≡ parse_records g head parsed recs
unfolding parse_records
parse_records_fuel zero g head parsed recs h k = absurd (omega arith)
parse_records_fuel (suc f) zero head parsed recs h k = absurd (omega arith)
parse_records_fuel (suc f) (suc g) head parsed recs h k =
    same (parse_record head parsed recs) (parse_record-Shrinks head parsed recs)
      (λ rest p r s. parse_records_fuel f g rest p r (omega arith) (omega arith))
  where
    after : ℕ → Round → Parsed
    after n (stop r) = r
    after n (next rest p r) = parse_records n rest p r

    same :
        (r : Round)
        → Shrinks (length head) r
        → ((rest : Bytes) (p : ℕ) (rs : List Bytes)
            → length rest < length head
            → parse_records f rest p rs ≡ parse_records g rest p rs)
        → after f r ≡ after g r
    same (stop r) s ih = refl
    same (next rest p rs) s ih = ih rest p rs s

-- Nor does the loop use up its rounds.
pub parse_records-ne-out_of_fuel :
    (f : ℕ) (head : Bytes) (parsed : ℕ) (recs : List Bytes)
    → length head < f
    → parse_records f head parsed recs ≢ out_of_fuel
unfolding parse_records
parse_records-ne-out_of_fuel zero head parsed recs h = absurd (omega arith)
parse_records-ne-out_of_fuel (suc f) head parsed recs h =
    ends (parse_record head parsed recs) (parse_record-Shrinks head parsed recs)
      (λ rest p r s. parse_records-ne-out_of_fuel f rest p r (omega arith))
  where
    after : Round → Parsed
    after (stop r) = r
    after (next rest p r) = parse_records f rest p r

    ends :
        (r : Round)
        → Shrinks (length head) r
        → ((rest : Bytes) (p : ℕ) (rs : List Bytes)
            → length rest < length head
            → parse_records f rest p rs ≢ out_of_fuel)
        → after r ≢ out_of_fuel
    ends (stop r) s ih = s
    ends (next rest p rs) s ih = ih rest p rs s

-- The parse of any bytes ends.
pub parse_packet-ne-out_of_fuel : (s : Bytes) → parse_packet s ≢ out_of_fuel
unfolding parse_packet
parse_packet-ne-out_of_fuel s =
    parse_records-ne-out_of_fuel (suc (length (skip_blank s 0).0)) (skip_blank s 0).0
      (skip_blank s 0).1 [] (omega arith)
