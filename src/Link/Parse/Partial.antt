-- ===== src/Link/Parse/Partial.antt =====
-- A packet that has not arrived whole is never an error, and never taken for a packet.
use dbss.Common.{
  ℕ, zero, suc, ◌+◌, ◌^◌, ◌≤◌, ◌<◌, ◌≡◌, ◌≢◌, refl, sym, ap, subst, ◌∙◌, inl, inr, true, false,
  none, some, List, [], ◌∷◌, ◌++◌, arith, ltb, Bytes, All, All-append_left, length, drop,
  append-nil, append-eq-append, length-append, Bool-cases,
}
use dbss.Text.{is_digit, str_nat, split_line}
use dbss.Text.Decimal.{IsDigit, str_nat-IsDigit, str_nat_cons}
use dbss.Buffer.{record_bytes}
use dbss.Link.{max_packet_size}
use dbss.Common.{AreShort}
use dbss.Link.Parse.{
  not_ready, is_blank_line, line_end, body_length, skip_blank, parse_record, parse_records,
  parse_packet, records_bytes, packet_bytes,
}
use dbss.Link.Parse.Complete.{
  split_line-digits, is_blank_line-str_nat, body_length-str_nat, parse_records-record,
  record_bytes-append, packet_bytes-cons, packet_bytes-nil, length-records_bytes, skip_blank-digit,
}
use dbss.Link.Parse.Rounds.{parse_records_fuel}

split_line-none : (line : Bytes) → All IsDigit line → split_line line ≡ none
unfolding split_line
split_line-none [] h = refl
split_line-none (c ∷ line) h = rw (split_line-none line h.1) (ground arith)

-- No newline yet.
parse_records-digits :
    (f : ℕ) (line : Bytes) (parsed : ℕ) (recs : List Bytes)
    → All IsDigit line
    → parse_records (suc f) line parsed recs ≡ not_ready
unfolding parse_records
parse_records-digits f line parsed recs h = rw (split_line-none line h, parse_records, parse_record)

line_end-short : (n : ℕ) (b : Bytes) → length b ≤ n → line_end (drop n b) ≡ none
line_end-short zero [] h = refl
line_end-short zero (c ∷ b) h = absurd (omega arith)
line_end-short (suc n) [] h = refl
line_end-short (suc n) (c ∷ b) h = line_end-short n b (omega arith)

parse_records-closed :
    (f : ℕ) (head line body : Bytes) (n parsed : ℕ) (recs : List Bytes)
    → split_line head ≡ some (line, body)
    → is_blank_line line ≡ false
    → body_length line ≡ some n
    → length body ≤ n
    → parse_records (suc f) head parsed recs ≡ not_ready
unfolding parse_records
parse_records-closed f head line body n parsed recs split open_ value short =
    rw (split, parse_records, parse_record)
      (rw (open_, value)
        (elim (Bool-cases (ltb (length body) n)) [
          | inl less ↦ rw less
          | inr more ↦ rw more (rw (line_end-short n body short))
        ]))

-- The length is there, and no more than the body.
parse_records-body :
    (f n : ℕ) (b : Bytes) (parsed : ℕ) (recs : List Bytes)
    → n < 2 ^ 31
    → length b ≤ n
    → parse_records (suc f) (str_nat n ++ b'\n' ∷ b) parsed recs ≡ not_ready
parse_records-body f n b parsed recs h short =
    parse_records-closed f _ (str_nat n) b n parsed recs
      (split_line-digits (str_nat n) b (str_nat-IsDigit n)) (is_blank_line-str_nat n)
      (body_length-str_nat n h) short

length-ne-nil : {A : Type 0} (m : List A) → m ≢ [] → 1 ≤ length m
length-ne-nil [] h = absurd (h refl)
length-ne-nil (x ∷ m) h = omega arith

-- A proper prefix of one record.
parse_records-cut :
    (f : ℕ) (s p m : Bytes) (parsed : ℕ) (recs : List Bytes)
    → length s < 2 ^ 31
    → m ≢ []
    → p ++ m ≡ str_nat (length s) ++ b'\n' ∷ (s ++ b'\n' ∷ [])
    → parse_records (suc f) p parsed recs ≡ not_ready
parse_records-cut f s p m parsed recs h more e =
    elim (append-eq-append p m (str_nat (length s)) (b'\n' ∷ (s ++ b'\n' ∷ [])) e) [
      | inl (t, p_is, rest) ↦
          subst (λ q. parse_records (suc f) q parsed recs ≡ not_ready) (sym p_is) (behind t rest)
      | inr (t, _, digits, _) ↦
          parse_records-digits f p parsed recs
            (All-append_left IsDigit p t (subst (All IsDigit) digits (str_nat-IsDigit (length s))))
    ]
  where
    behind :
        (t : Bytes)
        → t ++ m ≡ b'\n' ∷ (s ++ b'\n' ∷ [])
        → parse_records (suc f) (str_nat (length s) ++ t) parsed recs ≡ not_ready
    behind [] rest =
        rw append-nil (parse_records-digits f _ parsed recs (str_nat-IsDigit (length s)))
    behind (c ∷ t) rest =
        let newline : c ≡ b'\n' = ground arith in
        let tail : t ++ m ≡ s ++ b'\n' ∷ [] = ground arith in
        rw newline (
          parse_records-body f (length s) t parsed recs h (
            omega (
              arith,
              ap length tail,
              length-append t m,
              length-append s (b'\n' ∷ []),
              length-ne-nil m more,
            )))

-- The loop at a proper prefix of a packet.
pub parse_records-prefix :
    (f : ℕ) (ss : List Bytes) (p q : Bytes) (parsed : ℕ) (recs : List Bytes)
    → AreShort ss
    → length ss < f
    → parsed + length (records_bytes ss) ≤ max_packet_size
    → q ≢ []
    → p ++ q ≡ packet_bytes ss
    → parse_records f p parsed recs ≡ not_ready
parse_records-prefix zero ss p q parsed recs h k fits more e = absurd (omega arith)
parse_records-prefix (suc f) [] p q parsed recs h k fits more e =
    subst (λ t. parse_records (suc f) t parsed recs ≡ not_ready)
      (sym (nothing p (e ∙ packet_bytes-nil))) (parse_records-digits f [] parsed recs tt)
  where
    nothing : (t : Bytes) → t ++ q ≡ b'\n' ∷ [] → t ≡ []
    nothing [] _ = refl
    nothing (c ∷ t) d = absurd (omega (arith, ap length d, length-append t q, length-ne-nil q more))
parse_records-prefix (suc f) (s ∷ ss) p q parsed recs h k fits more e =
    elim (append-eq-append p q (record_bytes s) (packet_bytes ss) (e ∙ packet_bytes-cons s ss)) [
      | inl (m, p_is, rest) ↦
          subst (λ t. parse_records (suc f) t parsed recs ≡ not_ready) (sym p_is)
            (parse_records-record f s m parsed recs h.0 (omega (arith, length-records_bytes s ss))
              ∙ parse_records-prefix f ss m q (parsed + length (record_bytes s)) (recs ++ s ∷ [])
                  h.1 (omega arith) (omega (arith, length-records_bytes s ss)) more rest)
      | inr (m, cut, one, _) ↦
          parse_records-cut f s p m parsed recs h.0 cut
            (sym one ∙ sym (append-nil (record_bytes s)) ∙ record_bytes-append s [])
    ]

skip_blank-prefix : (n : ℕ) (t p q : Bytes) → p ++ q ≡ str_nat n ++ t → skip_blank p 0 ≡ (p, 0)
skip_blank-prefix n t [] q e = unfold skip_blank in refl
skip_blank-prefix n t (c ∷ p) q e =
    let (d, s, print, digit) = str_nat_cons n in
    let same : c ∷ (p ++ q) ≡ d ∷ (s ++ t) = e ∙ ap (λ l. l ++ t) print in
    let first : is_digit c ≡ true = ground arith in skip_blank-digit c p 0 first

-- A proper prefix of a packet of at least one record is not ready: no error and no packet.
pub parse_packet-prefix :
    (s : Bytes) (ss : List Bytes) (p q : Bytes)
    → AreShort (s ∷ ss)
    → length (records_bytes (s ∷ ss)) ≤ max_packet_size
    → q ≢ []
    → p ++ q ≡ packet_bytes (s ∷ ss)
    → parse_packet p ≡ not_ready
unfolding parse_packet
parse_packet-prefix s ss p q h fits more e =
    let printed = e ∙ packet_bytes-cons s ss ∙ record_bytes-append s (packet_bytes ss) in
    let fuel = suc (length p + length (s ∷ ss)) in
    rw (skip_blank-prefix (length s) _ p q printed) (
      parse_records_fuel (suc (length p)) fuel p 0 [] (omega arith) (omega arith)
      ∙ parse_records-prefix fuel (s ∷ ss) p q 0 [] h (omega arith) (omega arith) more e)
