-- ===== src/Text/Trim.antt =====
-- src/util/strings.h: `is_empty_str`, `ltrim`, `rtrim`, `trim`, `strtoupper` and `real_dirname`, on
-- C strings as the bytes before their zero.
use dbss.Common.{
  ℕ, ◌-◌, ◌≡◌, refl, ap, ◌∙◌, Bool, true, false, ◌&&◌, Option, none, some, [], ◌∷◌, ◌++◌, Bytes,
  All, map, leb, ◌==◌, if◌then◌else◌, is_empty, arith, subst, Bool-cases, inl, inr,
}
use dbss.Text.{is_space}

-- The first loop of `ltrim` and `is_empty_str`.
unfoldable pub ltrim : Bytes → Bytes
ltrim [] = []
ltrim (c ∷ s) = let more = ltrim s in if is_space c then more else c ∷ s

unfoldable pub is_empty_str : Bytes → Bool
unfolding ltrim
is_empty_str s = is_empty (ltrim s)

-- `rtrim` cuts the string behind its last byte that is no space.
unfoldable pub rtrim : Bytes → Bytes
rtrim [] = []
rtrim (c ∷ s) = let rest = rtrim s in if is_space c && is_empty rest then [] else c ∷ rest

unfoldable pub trim : Bytes → Bytes
unfolding ltrim rtrim
trim s = rtrim (ltrim s)

is_lower : ℕ → Bool
is_lower c = leb b'a' c && leb c b'z'

unfoldable pub strtoupper : Bytes → Bytes
unfolding is_lower
strtoupper s = map (λ c. if is_lower c then c - 32 else c) s

-- `strrchr(filepath, '/')`: the bytes before the last slash.
unfoldable pub before_slash : Bytes → Option Bytes
before_slash [] = none
before_slash (c ∷ s) = elim (before_slash s) [
  | some t ↦ some (c ∷ t)
  | none ↦ if c == b'/' then some [] else none
]

-- `real_dirname`, where `cwd` is what `getcwd` gives.
unfoldable pub real_dirname : Option Bytes → Bytes → Bytes
unfolding before_slash
real_dirname cwd path =
    let start : Bytes = elim cwd [ none ↦ [] | some d ↦ d ] in
    let is_rooted : Bool = elim path [ [] ↦ false | c ∷ s ↦ c == b'/' ] in
    let dir = if is_rooted then [] else start in
    elim (before_slash path) [ none ↦ dir | some t ↦ dir ++ b'/' ∷ t ]

-- The text starts, or ends, with no space.
unfoldable pub StartsPlain : Bytes → Type 0
StartsPlain [] = Unit
StartsPlain (c ∷ s) = is_space c ≡ false

unfoldable pub EndsPlain : Bytes → Type 0
EndsPlain [] = Unit
EndsPlain (c ∷ []) = is_space c ≡ false
EndsPlain (c ∷ d ∷ s) = EndsPlain (d ∷ s)

abbrev pub AllSpace : Bytes → Type 0
AllSpace = All (λ c. is_space c ≡ true)

ltrim_lem :
    (s : Bytes) → (pre : Bytes) × AllSpace pre × (s ≡ pre ++ ltrim s) × StartsPlain (ltrim s)
unfolding ltrim StartsPlain
ltrim_lem [] = ([], tt, refl, tt)
ltrim_lem (c ∷ s) = elim (Bool-cases (is_space c)) [
  | inl space ↦
      let (pre, spaces, cut, plain) = ltrim_lem s in
      (c ∷ pre, (space, spaces), rw (space, ltrim) (ap (λ t. c ∷ t) cut), rw (space, ltrim) plain)
  | inr plain ↦ ([], tt, rw (plain, ltrim) refl, rw (plain, ltrim) plain)
]

rtrim_lem :
    (s : Bytes) → (post : Bytes) × AllSpace post × (s ≡ rtrim s ++ post) × EndsPlain (rtrim s)
unfolding rtrim EndsPlain
rtrim_lem [] = ([], tt, refl, tt)
rtrim_lem (c ∷ s) =
    let (post, spaces, cut, plain) = rtrim_lem s in by_rest (rtrim s) refl post spaces cut plain
  where
    by_rest :
        (r : Bytes)
        → rtrim s ≡ r
        → (post : Bytes) → AllSpace post
        → s ≡ rtrim s ++ post
        → EndsPlain (rtrim s)
        → (post : Bytes) × AllSpace post
          × (c ∷ s ≡ rtrim (c ∷ s) ++ post)
          × EndsPlain (rtrim (c ∷ s))
    by_rest [] e post spaces cut plain = elim (Bool-cases (is_space c)) [
      | inl space ↦ (
        c ∷ post,
        (space, spaces),
        rw (space, e, rtrim) (ap (λ t. c ∷ t) (cut ∙ ap (λ t. t ++ post) e)),
        rw (space, e, rtrim) tt,
      )
      | inr solid ↦
          (post, spaces, rw (solid, rtrim) (ap (λ t. c ∷ t) cut), rw (solid, e, rtrim) solid)
    ]
    by_rest (d ∷ r) e post spaces cut plain =
        let keeps : (is_space c && is_empty (rtrim s)) ≡ false = ground arith in
        (
          post,
          spaces,
          rw (keeps, rtrim) (ap (λ t. c ∷ t) cut),
          rw (keeps, e, rtrim) (subst EndsPlain e plain),
        )

StartsPlain-rtrim : (s : Bytes) → StartsPlain s → StartsPlain (rtrim s)
unfolding rtrim StartsPlain
StartsPlain-rtrim [] h = tt
StartsPlain-rtrim (c ∷ s) h = rw (h, rtrim) h

-- `trim` cuts off a front and an end of spaces, and what it leaves neither starts nor ends with
-- one.
pub trim_lem :
    (s : Bytes)
    → (pre post : Bytes) × AllSpace pre
      × AllSpace post
      × (s ≡ pre ++ (trim s ++ post))
      × StartsPlain (trim s)
      × EndsPlain (trim s)
unfolding trim
trim_lem s =
    let (pre, spaces, cut, plain) = ltrim_lem s in
    let (post, spaces', cut', plain') = rtrim_lem (ltrim s) in
    (
      pre,
      post,
      spaces,
      spaces',
      cut ∙ ap (λ t. pre ++ t) cut',
      StartsPlain-rtrim (ltrim s) plain,
      plain',
    )
