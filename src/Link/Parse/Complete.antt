-- ===== src/Link/Parse/Complete.antt =====
-- A whole packet is parsed to its records, whatever follows it.
use dbss.Common.{
  ℕ, zero, suc, ◌+◌, ◌^◌, ◌≤◌, ◌<◌, ◌≡◌, refl, ap, ap₂, ◌∙◌, true, false, some, List, [], ◌∷◌, ◌++◌,
  arith, ltb, ge→ltb, Bytes, All, length, take, drop, append_assoc, append-nil, length-append,
  take-length, drop-length,
}
use dbss.Text.{is_digit, str_nat, split_line}
use dbss.Text.Decimal.{IsDigit, length-str_nat, str_nat-IsDigit, str_nat_cons, atoi-str_nat}
use dbss.Buffer.{record_bytes}
use dbss.Link.{max_packet_size}
use dbss.Common.{AreShort}
use dbss.Link.Parse.{
  packet, is_blank_line, starts_with_digit, line_end, body_length, skip_blank, parse_record,
  parse_records, parse_packet, records_bytes, packet_bytes,
}

pub split_line-digits :
    (line t : Bytes) → All IsDigit line → split_line (line ++ b'\n' ∷ t) ≡ some (line, t)
unfolding split_line
split_line-digits [] t h = refl
split_line-digits (c ∷ line) t h = rw (split_line-digits line t h.1) (ground arith)

pub is_blank_line-str_nat : (n : ℕ) → is_blank_line (str_nat n) ≡ false
is_blank_line-str_nat n = let (c, s, e, d) = str_nat_cons n in rw e (by_shape c s d)
  where
    by_shape : (c : ℕ) (s : Bytes) → is_digit c ≡ true → is_blank_line (c ∷ s) ≡ false
    by_shape c [] d = ground arith
    by_shape c (x ∷ s) d = refl

pub body_length-str_nat : (n : ℕ) → n < 2 ^ 31 → body_length (str_nat n) ≡ some n
body_length-str_nat n h =
    let (c, s, e, d) = str_nat_cons n in
    let first : starts_with_digit (str_nat n) ≡ true = rw e d in
    let short : ltb 19 (length (str_nat n) + 1) ≡ false =
      ge→ltb 19 _ (omega (arith, length-str_nat 9 n (omega arith))) in
    rw (first, short) (atoi-str_nat n h)

line_end-newline : (s : Bytes) → line_end (b'\n' ∷ s) ≡ some (1, s)
line_end-newline [] = refl
line_end-newline (d ∷ s) = refl

pub record_bytes-append :
    (s rest : Bytes) → record_bytes s ++ rest ≡ str_nat (length s) ++ b'\n' ∷ (s ++ b'\n' ∷ rest)
unfolding record_bytes
record_bytes-append s rest = simp append_assoc

pub length-record_bytes_sum :
    (s : Bytes) → length (record_bytes s) ≡ length (str_nat (length s)) + 1 + length s + 1
unfolding record_bytes
length-record_bytes_sum s = omega (
  arith,
  length-append (str_nat (length s)) (b'\n' ∷ (s ++ b'\n' ∷ [])),
  length-append s (b'\n' ∷ []),
)

pub split_line-record :
    (s rest : Bytes)
    → split_line (record_bytes s ++ rest) ≡ some (str_nat (length s), s ++ b'\n' ∷ rest)
split_line-record s rest =
    rw record_bytes-append (split_line-digits (str_nat (length s)) _ (str_nat-IsDigit (length s)))

-- One round of the loop at a record whose body is followed by a line end.
parse_records-open :
    (f : ℕ) (head line body rest : Bytes) (n k parsed : ℕ) (recs : List Bytes)
    → split_line head ≡ some (line, body)
    → is_blank_line line ≡ false
    → body_length line ≡ some n
    → ltb (length body) n ≡ false
    → line_end (drop n body) ≡ some (k, rest)
    → ltb max_packet_size (parsed + (length line + 1 + n) + k) ≡ false
    → parse_records (suc f) head parsed recs
      ≡ parse_records f rest (parsed + (length line + 1 + n) + k) (recs ++ take n body ∷ [])
unfolding parse_records
parse_records-open f head line body rest n k parsed recs split open_ value enough end fits =
    rw (split, parse_records, parse_record) (rw (open_, value) (rw enough (rw end (rw fits refl))))

-- One round of the loop at a whole record.
pub parse_records-record :
    (f : ℕ) (s rest : Bytes) (parsed : ℕ) (recs : List Bytes)
    → length s < 2 ^ 31
    → parsed + length (record_bytes s) ≤ max_packet_size
    → parse_records (suc f) (record_bytes s ++ rest) parsed recs
      ≡ parse_records f rest (parsed + length (record_bytes s)) (recs ++ s ∷ [])
parse_records-record f s rest parsed recs h fits =
    let count : parsed + (length (str_nat (length s)) + 1 + length s) + 1
        ≡ parsed + length (record_bytes s) =
      omega (arith, length-record_bytes_sum s) in
    parse_records-open f (record_bytes s ++ rest) (str_nat (length s)) (s ++ b'\n' ∷ rest) rest
      (length s) 1 parsed recs (split_line-record s rest) (is_blank_line-str_nat (length s))
      (body_length-str_nat (length s) h)
      (ge→ltb _ _ (omega (arith, length-append s (b'\n' ∷ rest))))
      (rw (drop-length s (b'\n' ∷ rest)) (line_end-newline rest))
      (ge→ltb _ _ (omega (arith, count)))
    ∙ ap (λ (c : ℕ). parse_records f rest c (recs ++ take (length s) (s ++ b'\n' ∷ rest) ∷ []))
        count
    ∙ ap (λ (t : Bytes). parse_records f rest (parsed + length (record_bytes s)) (recs ++ t ∷ []))
        (take-length s (b'\n' ∷ rest))

parse_records_end :
    (f : ℕ) (rest : Bytes) (parsed : ℕ) (recs : List Bytes)
    → parse_records (suc f) (b'\n' ∷ rest) parsed recs ≡ packet recs (parsed + 1)
unfolding parse_records split_line
parse_records_end f rest parsed recs = refl

pub packet_bytes-cons :
    (s : Bytes) (ss : List Bytes) → packet_bytes (s ∷ ss) ≡ record_bytes s ++ packet_bytes ss
unfolding packet_bytes
packet_bytes-cons s ss = append_assoc (record_bytes s) (records_bytes ss) (b'\n' ∷ [])

pub packet_bytes-nil : packet_bytes [] ≡ b'\n' ∷ []
unfolding packet_bytes
packet_bytes-nil = refl

pub length-packet_bytes :
    (ss : List Bytes) → length (packet_bytes ss) ≡ length (records_bytes ss) + 1
unfolding packet_bytes
length-packet_bytes ss = length-append (records_bytes ss) (b'\n' ∷ [])

pub length-records_bytes :
    (s : Bytes) (ss : List Bytes)
    → length (records_bytes (s ∷ ss)) ≡ length (record_bytes s) + length (records_bytes ss)
unfolding records_bytes
length-records_bytes s ss = length-append (record_bytes s) (records_bytes ss)

-- The loop at whole records and the empty line: each round takes one record.
pub parse_records-packet :
    (f : ℕ) (ss : List Bytes) (rest : Bytes) (parsed : ℕ) (recs : List Bytes)
    → AreShort ss
    → length ss < f
    → parsed + length (records_bytes ss) ≤ max_packet_size
    → parse_records f (packet_bytes ss ++ rest) parsed recs
      ≡ packet (recs ++ ss) (parsed + length (packet_bytes ss))
parse_records-packet zero ss rest parsed recs h k fits = absurd (omega arith)
parse_records-packet (suc f) [] rest parsed recs h k fits =
    rw (packet_bytes-nil, append-nil) (parse_records_end f rest parsed recs)
parse_records-packet (suc f) (s ∷ ss) rest parsed recs h k fits =
    let size = length-records_bytes s ss in
    rw (packet_bytes-cons s ss, append_assoc)
      (parse_records-record f s (packet_bytes ss ++ rest) parsed recs h.0 (omega (arith, size))
        ∙ parse_records-packet f ss rest (parsed + length (record_bytes s)) (recs ++ s ∷ []) h.1
            (omega arith) (omega (arith, size))
        ∙ ap₂ packet (append_assoc recs (s ∷ []) ss)
            (omega (arith, length-append (record_bytes s) (packet_bytes ss))))

pub skip_blank-digit :
    (c : ℕ) (s : Bytes) (parsed : ℕ)
    → is_digit c ≡ true
    → skip_blank (c ∷ s) parsed ≡ (c ∷ s, parsed)
unfolding skip_blank
skip_blank-digit c s parsed h = ground arith

-- Text that starts with a length is not skipped.
pub skip_blank-print :
    (n : ℕ) (t : Bytes) (parsed : ℕ) → skip_blank (str_nat n ++ t) parsed ≡ (str_nat n ++ t, parsed)
skip_blank-print n t parsed =
    let (c, s, e, d) = str_nat_cons n in rw e (skip_blank-digit c (s ++ t) parsed d)

pub length-le : (ss : List Bytes) → length ss ≤ length (records_bytes ss)
length-le [] = omega arith
length-le (s ∷ ss) =
    omega (arith, length-records_bytes s ss, length-record_bytes_sum s, length-le ss)

-- A packet of at least one record is parsed to its records and its length, whatever follows it, if
-- every record's length is an `int` and the records take at most `MAX_PACKET_SIZE` bytes.
pub parse_packet-packet_bytes :
    (s : Bytes) (ss : List Bytes) (rest : Bytes)
    → AreShort (s ∷ ss)
    → length (records_bytes (s ∷ ss)) ≤ max_packet_size
    → parse_packet (packet_bytes (s ∷ ss) ++ rest)
      ≡ packet (s ∷ ss) (length (packet_bytes (s ∷ ss)))
unfolding parse_packet
parse_packet-packet_bytes s ss rest h fits =
    let whole = packet_bytes (s ∷ ss) ++ rest in
    let skipped : skip_blank whole 0 ≡ (whole, 0) =
      rw (packet_bytes-cons s ss, append_assoc, record_bytes-append s)
        (skip_blank-print (length s) _ 0) in
    rw skipped (
      parse_records-packet (suc (length whole)) (s ∷ ss) rest 0 [] h
        (omega (
          arith,
          length-le (s ∷ ss),
          length-append (packet_bytes (s ∷ ss)) rest,
          length-packet_bytes (s ∷ ss),
        ))
        (omega arith)
      ∙ ap (packet (s ∷ ss)) (omega arith))
