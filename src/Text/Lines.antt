-- ===== src/Text/Lines.antt =====
-- `split_line`, the program's use of `memchr`.
use dbss.Common.{◌+◌, ◌≡◌, some, [], ◌∷◌, arith, Bytes, length, Option-cases, inl, inr}
use dbss.Text.{split_line}

pub length-split_line :
    (s : Bytes) {line rest : Bytes}
    → split_line s ≡ some (line, rest)
    → length s ≡ length line + 1 + length rest
unfolding split_line
length-split_line [] h = cc
length-split_line (c ∷ s) {line} {rest} h = elim (Option-cases (split_line s)) [
  | inl e ↦ ground arith
  | inr (parts, e) ↦ ground (arith, length-split_line s {line = parts.0} {rest = parts.1} e)
]
