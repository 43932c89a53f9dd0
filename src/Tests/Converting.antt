-- ===== src/Tests/Converting.antt =====
-- Redis requests for ranges, and what they are converted to.
use dbss.Common.{◌↔◌, ◌≡◌, refl, ◌-◌, ◌+◌, [], ◌∷◌, codes, arith}
use dbss.Text.{ℤ, pos, negsuc, str_nat, str_int, clear}
use dbss.Redis.{new_redis}
use dbss.Redis.Convert.Ranges.{converted, scan_args, convert_req-ranges}
use dbss.Redis.Convert.Bounds.{
  inclusive, exclusive, bound_text, inner_text, next_int, previous_int, minus_inf, plus_inf,
  IsAbove, IsBelow, IsFrom, IsTo,
}

convert_req-ranges_example :
    (converted new_redis clear
        (codes "zrange")
        (codes "zrange" ∷ codes "z" ∷ str_nat 2 ∷ str_nat 4 ∷ [])
      ≡ codes "zrange" ∷ codes "z" ∷ str_nat 2 ∷ str_nat (4 - 2 + 1) ∷ [])
    × (converted new_redis clear
          (codes "zrevrange")
          (codes "zrange" ∷ codes "z" ∷ str_nat 2 ∷ str_nat 4 ∷ [])
        ≡ codes "zrrange" ∷ codes "z" ∷ str_nat 2 ∷ str_nat (4 - 2 + 1) ∷ [])
    × (converted new_redis clear (codes "zrangebyscore") (
          codes "zrange"
          ∷ codes "z"
          ∷ bound_text minus_inf (exclusive (negsuc 0))
          ∷ bound_text plus_inf (inclusive (pos 9))
          ∷ [])
        ≡ codes "zscan"
          ∷ scan_args
              (codes "z")
              (inner_text next_int (exclusive (negsuc 0)))
              (inner_text previous_int (inclusive (pos 9))))
    × (converted new_redis clear (codes "zrevrangebyscore") (
          codes "zrange"
          ∷ codes "z"
          ∷ bound_text plus_inf (inclusive (pos 9))
          ∷ bound_text minus_inf (exclusive (negsuc 0))
          ∷ [])
        ≡ codes "zrscan"
          ∷ scan_args
              (codes "z")
              (inner_text previous_int (inclusive (pos 9)))
              (inner_text next_int (exclusive (negsuc 0))))
    × ((z : ℤ)
        → (IsAbove (exclusive (negsuc 0)) z ↔ IsFrom (inner_text next_int (exclusive (negsuc 0))) z)
          × (IsBelow (inclusive (pos 9)) z ↔ IsTo (inner_text previous_int (inclusive (pos 9))) z))
convert_req-ranges_example =
    convert_req-ranges new_redis clear (codes "zrange") (codes "z") 2 4 (exclusive (negsuc 0))
      (inclusive (pos 9)) (omega arith) (omega arith) (omega arith, omega arith) (omega arith)

range_texts :
    inner_text next_int (exclusive (negsuc 0)) ∷ bound_text minus_inf (exclusive (negsuc 0)) ∷ []
    ≡ codes "0" ∷ codes "(-1" ∷ []
unfolding inner_text bound_text str_int str_nat
range_texts = refl
