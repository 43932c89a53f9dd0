-- ===== src/Redis/Convert/Ranges.antt =====
-- What `convert_req` makes of the requests for a range of a sorted set.
use dbss.Common.{
  ℕ, suc, zero, ◌+◌, ◌-◌, ◌^◌, ◌<◌, ◌≤◌, ◌≡◌, refl, ap, ap₂, ◌∙◌, true, false, List, [], ◌∷◌, Bytes,
  codes, is_empty, arith, ◌↔◌,
}
use dbss.Text.{ℤ, pos, negsuc, Errno, str_nat, str_int, str_to_int64, int_suc, int_pred}
use dbss.Text.Decimal.{str_to_int64-str_int}
use dbss.Redis.{RedisLink, cmds_raw, find_cmd}
use dbss.Redis.Convert.{
  convert_req, zrange_args, range_size, score_args, score_bound, score_options, is_infinite,
  unlimited,
}
use dbss.Redis.Convert.Bounds.{
  Bound, IsAbove, IsAbove-IsFrom, IsBelow, IsBelow-IsTo, IsFrom, IsInt32, IsTo, StepsIn, bound_text,
  exclusive, inclusive, inner_text, minus_inf, next_int, number_text, plus_inf, previous_int,
  str_to_int-str_int, unbounded,
}

int_suc_next : (z : ℤ) → IsInt32 z → IsInt32 (next_int z) → int_suc z ≡ next_int z
unfolding int_suc
int_suc_next (pos n) h g = ground arith
int_suc_next (negsuc zero) h g = ground arith
int_suc_next (negsuc (suc n)) h g = ground arith

int_pred_previous : (z : ℤ) → IsInt32 z → IsInt32 (previous_int z) → int_pred z ≡ previous_int z
unfolding int_pred
int_pred_previous (pos zero) h g = ground arith
int_pred_previous (pos (suc n)) h g = ground arith
int_pred_previous (negsuc n) h g = ground arith

score_bound-inner_text :
    (shift step : ℤ → ℤ) (infinity : Bytes) (b : Bound)
    → is_infinite infinity ≡ true
    → ((z : ℤ) → IsInt32 z → IsInt32 (step z) → shift z ≡ step z)
    → StepsIn step b
    → score_bound shift (bound_text infinity b) ≡ inner_text step b
unfolding score_bound bound_text inner_text
score_bound-inner_text shift step infinity unbounded all same h = rw all refl
score_bound-inner_text shift step infinity (inclusive z) all same h =
    let (finite, plain, _) = number_text z in rw (finite, plain) refl
score_bound-inner_text shift step infinity (exclusive z) all same h =
    ap (λ i. str_int (shift i)) (str_to_int-str_int z h.0) ∙ ap str_int (same z h.0 h.1)

bound_text_some :
    (infinity : Bytes) (b : Bound)
    → is_empty infinity ≡ false
    → is_empty (bound_text infinity b) ≡ false
unfolding bound_text
bound_text_some infinity unbounded h = h
bound_text_some infinity (inclusive z) h = (number_text z).2
bound_text_some infinity (exclusive z) h = refl

-- The arguments of a range with bounds whose texts are `smin` and `smax`.
score_args-bounds :
    (shift_min shift_max : ℤ → ℤ) (b0 name smin smax first last : Bytes)
    → is_empty smin ≡ false
    → is_empty smax ≡ false
    → score_bound shift_min smin ≡ first
    → score_bound shift_max smax ≡ last
    → score_args shift_min shift_max (b0 ∷ name ∷ smin ∷ smax ∷ [])
      ≡ name ∷ [] ∷ first ∷ last ∷ codes "0" ∷ unlimited ∷ [] ∷ []
unfolding score_args score_options
score_args-bounds shift_min shift_max b0 name smin smax first last some_min some_max e g =
    rw (some_min, some_max) (ap₂ (λ s t. name ∷ [] ∷ s ∷ t ∷ codes "0" ∷ unlimited ∷ [] ∷ []) e g)

range_size-pos :
    (start last : ℕ)
    → start ≤ last
    → last < 2 ^ 63 - 1
    → range_size (pos start) (pos last) ≡ pos (last - start + 1)
unfolding range_size
range_size-pos start last le small = ground arith

str_to_int64-str_nat : (n : ℕ) → n < 2 ^ 63 → str_to_int64 (str_nat n) ≡ pos n
unfolding str_int
str_to_int64-str_nat n h = str_to_int64-str_int (pos n) h

-- The arguments that a `zrange` is converted to.
zrange_args-indices :
    (b0 name : Bytes) (start last : ℕ)
    → start ≤ last
    → last < 2 ^ 63 - 1
    → zrange_args (b0 ∷ name ∷ str_nat start ∷ str_nat last ∷ [])
      ≡ name ∷ str_nat start ∷ str_nat (last - start + 1) ∷ []
unfolding zrange_args str_int
zrange_args-indices b0 name start last le small =
    rw (str_to_int64-str_nat start (omega arith), str_to_int64-str_nat last (omega arith))
      (ap (λ i. name ∷ str_nat start ∷ str_int i ∷ []) (range_size-pos start last le small))

-- The request that `convert_req` hands on for a command and its arguments.
abbrev pub converted : RedisLink → Errno → Bytes → List Bytes → List Bytes
converted r e cmd args = (convert_req (record r { cmd = cmd; recv_bytes = args }) e).0.recv_string

-- The arguments of a range in SSDB.
abbrev pub scan_args : Bytes → Bytes → Bytes → List Bytes
scan_args name first last = name ∷ [] ∷ first ∷ last ∷ codes "0" ∷ codes "2000000000" ∷ [] ∷ []

-- For indices from the front, `start` up to `last` below 2^63 - 1, `convert_req` turns `zrange` and
-- `zrevrange` into the offset `start` and the number of elements from `start` to `last`. A range of
-- integers between bounds, each without a limit, an inclusive `int64_t`, or exclusive and an `int`
-- before and behind the step, becomes the range of SSDB with both ends included: an exclusive bound
-- moves inwards by one, from either end, and the limit is 2000000000. The integers between the
-- bounds of Redis are exactly those that SSDB's bounds take in.
pub convert_req-ranges :
    (r : RedisLink) (e : Errno) (b0 name : Bytes) (start last : ℕ) (lo hi : Bound)
    → start ≤ last
    → last < 2 ^ 63 - 1
    → StepsIn next_int lo
    → StepsIn previous_int hi
    → (converted r e (codes "zrange") (b0 ∷ name ∷ str_nat start ∷ str_nat last ∷ [])
        ≡ codes "zrange" ∷ name ∷ str_nat start ∷ str_nat (last - start + 1) ∷ [])
      × (converted r e (codes "zrevrange") (b0 ∷ name ∷ str_nat start ∷ str_nat last ∷ [])
          ≡ codes "zrrange" ∷ name ∷ str_nat start ∷ str_nat (last - start + 1) ∷ [])
      × (converted r e
            (codes "zrangebyscore")
            (b0 ∷ name ∷ bound_text minus_inf lo ∷ bound_text plus_inf hi ∷ [])
          ≡ codes "zscan" ∷ scan_args name (inner_text next_int lo) (inner_text previous_int hi))
      × (converted r e
            (codes "zrevrangebyscore")
            (b0 ∷ name ∷ bound_text plus_inf hi ∷ bound_text minus_inf lo ∷ [])
          ≡ codes "zrscan" ∷ scan_args name (inner_text previous_int hi) (inner_text next_int lo))
      × ((z : ℤ)
          → (IsAbove lo z ↔ IsFrom (inner_text next_int lo) z)
            × (IsBelow hi z ↔ IsTo (inner_text previous_int hi) z))
unfolding convert_req find_cmd cmds_raw
convert_req-ranges r e b0 name start last lo hi le small h k =
    let low = score_bound-inner_text int_suc next_int minus_inf lo refl int_suc_next h in
    let high = score_bound-inner_text int_pred previous_int plus_inf hi refl int_pred_previous k in
    let some_low = bound_text_some minus_inf lo refl in
    let some_high = bound_text_some plus_inf hi refl in
    (
      ap (λ t. codes "zrange" ∷ t) (zrange_args-indices b0 name start last le small),
      ap (λ t. codes "zrrange" ∷ t) (zrange_args-indices b0 name start last le small),
      ap (λ t. codes "zscan" ∷ t)
          (score_args-bounds int_suc int_pred b0 name _ _ _ _ some_low some_high low high),
      ap (λ t. codes "zrscan" ∷ t)
          (score_args-bounds int_pred int_suc b0 name _ _ _ _ some_high some_low high low),
      λ z. (IsAbove-IsFrom lo z h, IsBelow-IsTo hi z k),
    )
