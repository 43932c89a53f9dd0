-- ===== src/Buffer/Records.antt =====
-- src/util/bytes.cpp: `Buffer::read_record`.
use dbss.Common.{
  ℕ, ap₂, ◌+◌, ◌-◌, ◌^◌, ◌<◌, ◌≡◌, refl, ap, ◌∙◌, false, none, some, [], ◌∷◌, ◌++◌, ltb, ◌==◌,
  if◌then◌else◌, Bytes, length, take, drop, arith, ge→ltb, length-append, take-length, drop-length,
}
use dbss.Text.{atoi, split_line, str_nat}
use dbss.Buffer.{Buffer, size, record_bytes}
use dbss.Link.Parse.{body_length}
use dbss.Link.Parse.Complete.{split_line-record, body_length-str_nat, length-record_bytes_sum}

-- The `int` result: 0, -1, or 1 with the record in `*s`. It is `undefined` where the sum of the
-- lengths overflows an `int`, behind which the source reads outside of the buffer.
pub data Reading : Type 0 where
  incomplete malformed undefined : Reading
  record_read : Bytes → Reading

-- `size_ -= n`, with `data_` left where it was.
unfoldable pub shrink : ℕ → Buffer → Buffer
shrink n b = record b { content = take (size b - n) b.content }

-- What stands behind the record's body.
pub data RecordEnd : Type 0 where
  cut_off wrong_end : RecordEnd
  ends_in : ℕ → RecordEnd

unfoldable pub record_end : Bytes → RecordEnd
record_end [] = cut_off
record_end (c ∷ []) = if c == b'\n' then ends_in 1 else if c == b'\r' then cut_off else wrong_end
record_end (c ∷ d ∷ s) =
    if c == b'\n'
    then ends_in 1
    else if c == b'\r'
    then (if d == b'\n' then ends_in 2 else wrong_end)
    else wrong_end

-- The end of `read_record`, for a head of `head_len` bytes before `body`. A CR at the end of a buffer
-- of 2^31 - 1 bytes makes `head_len + body_len + 2` overflow.
unfoldable pub finish_record : ℕ → ℕ → Bytes → Buffer → Reading × Buffer
unfolding record_end shrink
finish_record head_len body_len body b = elim (record_end (drop body_len body)) [
  | cut_off ↦ (if ltb (size b) (2 ^ 31 - 1) then incomplete else undefined, b)
  | wrong_end ↦ (malformed, b)
  | ends_in n ↦ (record_read (take body_len body), shrink (head_len + body_len + n) b)
]

-- The length line has the checks of `Link::recv`: a digit in front, and at most 19 bytes.
unfoldable pub read_record : Buffer → Reading × Buffer
unfolding split_line atoi finish_record
read_record b = elim (split_line b.content) [
  | none ↦ (incomplete, b)
  | some (line, body) ↦ elim (body_length line) [
    | none ↦ (malformed, b)
    | some body_len ↦
        if ltb (2 ^ 31 - 1) (length line + 1 + body_len + 1)
        then (undefined, b)
        else if ltb (length body) body_len
        then (incomplete, b)
        else finish_record (length line + 1) body_len body b
  ]
]

read_record-open :
    (b : Buffer) (line body : Bytes) (n k : ℕ)
    → split_line b.content ≡ some (line, body)
    → body_length line ≡ some n
    → ltb (2 ^ 31 - 1) (length line + 1 + n + 1) ≡ false
    → ltb (length body) n ≡ false
    → record_end (drop n body) ≡ ends_in k
    → read_record b ≡ (record_read (take n body), shrink (length line + 1 + n + k) b)
unfolding read_record shrink finish_record
read_record-open b line body n k split value small enough end =
    rw (split, read_record) (rw value (rw small (rw enough (rw (end, finish_record) refl))))

record_end-newline : (s : Bytes) → record_end (b'\n' ∷ s) ≡ ends_in 1
unfolding record_end
record_end-newline [] = refl
record_end-newline (d ∷ s) = refl

length-record_append :
    (s rest : Bytes)
    → length (record_bytes s ++ rest) - (length (str_nat (length s)) + 1 + length s + 1)
      ≡ length rest
length-record_append s rest =
    omega (arith, length-record_bytes_sum s, length-append (record_bytes s) rest)

-- With the bytes of a record in front of the content, and any bytes behind them, fewer than 2^31 in
-- all, `read_record` gives the record; what it leaves is the front of the content, as long as the
-- bytes behind the record, so that the record's own bytes are still in front.
pub read_record-record_bytes :
    (s rest : Bytes) (b : Buffer)
    → length (record_bytes s ++ rest) < 2 ^ 31
    → b.content ≡ record_bytes s ++ rest
    → read_record b ≡ (record_read s, record b { content = take (length rest) b.content })
unfolding shrink
read_record-record_bytes s rest b h e =
    let room : length (str_nat (length s)) + 1 + length s + 1 < 2 ^ 31 =
      omega (arith, h, length-record_bytes_sum s, length-append (record_bytes s) rest) in
    read_record-open b (str_nat (length s)) (s ++ b'\n' ∷ rest) (length s) 1
      (ap split_line e ∙ split_line-record s rest)
      (body_length-str_nat (length s) (omega (arith, room)))
      (ge→ltb (2 ^ 31 - 1) (length (str_nat (length s)) + 1 + length s + 1) (omega (arith, room)))
      (ge→ltb (length (s ++ b'\n' ∷ rest)) (length s)
        (omega (arith, length-append s (b'\n' ∷ rest))))
      (ap record_end (drop-length s (b'\n' ∷ rest)) ∙ record_end-newline rest)
    ∙ ap₂ (λ t n. (record_read t, record b { content = take n b.content }))
        (take-length s (b'\n' ∷ rest))
        (ap (λ t. length t - (length (str_nat (length s)) + 1 + length s + 1)) e
          ∙ length-record_append s rest)
