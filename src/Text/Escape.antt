-- ===== src/Text/Escape.antt =====
-- src/util/strings.h: `str_escape` and `str_unescape`, and their round trip. A byte is below 256.
use dbss.Common.{
  ℕ, ◌+◌, ◌-◌, ◌*◌, ◌/◌, ◌%◌, ◌<◌, ◌≡◌, refl, ap, ◌∙◌, false, ◌&&◌, [], ◌∷◌, ◌++◌, Bytes, All, ltb,
  leb, ◌==◌, if◌then◌else◌, arith, All-append, ◌≤◌,
}

-- `hex[n]` of the digits "0123456789abcdef".
unfoldable pub hex_digit : ℕ → ℕ
hex_digit n = if ltb n 10 then b'0' + n else b'a' + (n - 10)

-- One round of the loop of `str_escape`.
unfoldable pub escape_byte : ℕ → Bytes
unfolding hex_digit
escape_byte c =
    if c == b'\r'
    then b'\\' ∷ b'r' ∷ []
    else if c == b'\n'
    then b'\\' ∷ b'n' ∷ []
    else if c == b'\t'
    then b'\\' ∷ b't' ∷ []
    else if c == b'\\'
    then b'\\' ∷ b'\\' ∷ []
    else if c == b' '
    then c ∷ []
    else if leb b'!' c && leb c b'~'
    then c ∷ []
    else b'\\' ∷ b'x' ∷ hex_digit (c / 16) ∷ hex_digit (c % 16) ∷ []

unfoldable pub str_escape : Bytes → Bytes
unfolding escape_byte
str_escape [] = []
str_escape (c ∷ s) = escape_byte c ++ str_escape s

-- `hex_int`, modulo 256: for a letter below 'a' the source's value is negative.
unfoldable pub hex_int : ℕ → ℕ
hex_int c = if leb b'0' c && leb c b'9' then c - b'0' else (c + 256 - b'a' + 10) % 256

-- `(char)((hex_int(c3) << 4) + hex_int(c4))`.
unfoldable pub hex_byte : ℕ → ℕ → ℕ
unfolding hex_int
hex_byte c3 c4 = (16 * hex_int c3 + hex_int c4) % 256

-- The byte behind a backslash, but for `x`.
unfoldable pub escaped_byte : ℕ → ℕ
escaped_byte c =
    if c == b'a'
    then 7
    else if c == b'b'
    then 8
    else if c == b'f'
    then 12
    else if c == b'v'
    then 11
    else if c == b'r'
    then b'\r'
    else if c == b'n'
    then b'\n'
    else if c == b't'
    then b'\t'
    else c

-- `str_unescape`. A backslash at the end is dropped, and so is `\x` with fewer than two bytes
-- behind.
unfoldable pub str_unescape : Bytes → Bytes
unfolding hex_byte escaped_byte
str_unescape [] = []
str_unescape (c ∷ []) = if c == b'\\' then [] else c ∷ []
str_unescape (c ∷ d ∷ []) =
    let plain = c ∷ str_unescape (d ∷ []) in
    if c == b'\\' then if d == b'x' then [] else escaped_byte d ∷ [] else plain
str_unescape (c ∷ d ∷ c3 ∷ []) =
    let plain = c ∷ str_unescape (d ∷ c3 ∷ []) in
    let short = str_unescape (c3 ∷ []) in
    let simple = escaped_byte d ∷ str_unescape (c3 ∷ []) in
    if c == b'\\' then if d == b'x' then short else simple else plain
str_unescape (c ∷ d ∷ c3 ∷ c4 ∷ s) =
    let plain = c ∷ str_unescape (d ∷ c3 ∷ c4 ∷ s) in
    let hex = hex_byte c3 c4 ∷ str_unescape s in
    let simple = escaped_byte d ∷ str_unescape (c3 ∷ c4 ∷ s) in
    if c == b'\\' then if d == b'x' then hex else simple else plain

unescape-plain :
    (c : ℕ) (s : Bytes) → (c == b'\\') ≡ false → str_unescape (c ∷ s) ≡ c ∷ str_unescape s
unfolding str_unescape
unescape-plain c [] h = rw h refl
unescape-plain c (d ∷ []) h = rw h refl
unescape-plain c (d ∷ c3 ∷ []) h = rw h refl
unescape-plain c (d ∷ c3 ∷ c4 ∷ s) h = rw h refl

unescape-simple :
    (d : ℕ) (s : Bytes)
    → (d == b'x') ≡ false
    → str_unescape (b'\\' ∷ d ∷ s) ≡ escaped_byte d ∷ str_unescape s
unfolding str_unescape
unescape-simple d [] h = rw h refl
unescape-simple d (c3 ∷ []) h = rw h refl
unescape-simple d (c3 ∷ c4 ∷ s) h = rw h refl

unescape-hex :
    (c3 c4 : ℕ) (s : Bytes)
    → str_unescape (b'\\' ∷ b'x' ∷ c3 ∷ c4 ∷ s) ≡ hex_byte c3 c4 ∷ str_unescape s
unfolding str_unescape
unescape-hex c3 c4 s = refl

hex_byte-hex_digit : (c : ℕ) → c < 256 → hex_byte (hex_digit (c / 16)) (hex_digit (c % 16)) ≡ c
unfolding hex_byte hex_digit
hex_byte-hex_digit c h = ground arith

-- Each escaped byte is read back, whatever follows.
unescape-escape_byte :
    (c : ℕ) (rest : Bytes) → c < 256 → str_unescape (escape_byte c ++ rest) ≡ c ∷ str_unescape rest
unfolding escape_byte escaped_byte
unescape-escape_byte c rest h = ground (
  arith,
  unescape-plain c rest,
  unescape-simple b'r' rest refl,
  unescape-simple b'n' rest refl,
  unescape-simple b't' rest refl,
  unescape-simple b'\\' rest refl,
  unescape-hex (hex_digit (c / 16)) (hex_digit (c % 16)) rest,
  hex_byte-hex_digit c h,
)

-- A byte that a terminal shows.
abbrev pub IsPrintable : ℕ → Type 0
IsPrintable c = (b' ' ≤ c) × (c ≤ b'~')

hex_digit-IsPrintable : (n : ℕ) → n < 16 → IsPrintable (hex_digit n)
unfolding hex_digit
hex_digit-IsPrintable n h = ground arith

escape_byte-IsPrintable : (c : ℕ) → c < 256 → All IsPrintable (escape_byte c)
unfolding escape_byte
escape_byte-IsPrintable c h =
    ground (arith, hex_digit-IsPrintable (c / 16), hex_digit-IsPrintable (c % 16))

-- `str_escape` of a text of bytes is printable, and `str_unescape` reads the text back from it.
pub str_unescape-str_escape :
    (s : Bytes)
    → All (λ c. c < 256) s
    → All IsPrintable (str_escape s) × (str_unescape (str_escape s) ≡ s)
unfolding str_escape
str_unescape-str_escape [] h = (tt, unfold str_unescape in refl)
str_unescape-str_escape (c ∷ s) h =
    let (printable, same) = str_unescape-str_escape s h.1 in
    (
      All-append IsPrintable (escape_byte c) (str_escape s) (escape_byte-IsPrintable c h.0)
          printable,
      unescape-escape_byte c (str_escape s) h.0 ∙ ap (λ t. c ∷ t) same,
    )
