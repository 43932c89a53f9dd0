-- ===== src/Client/Zset.antt =====
-- src/SSDB_impl.cpp: the commands on sorted sets. A list or a value that the code writes through a
-- pointer is the last argument and part of the result; a `std::map` is its pairs in key order.
use dbss.Common.{ℕ, Option, none, some, List, [], ◌∷◌, Bytes, codes}
use dbss.Text.{ℤ, str_int, str_nat}
use dbss.Buffer.{Memory}
use dbss.Client.{Status, Exec, call, call_list, call_int64}

unfoldable pub flat_scores : List (Bytes × ℤ) → List Bytes
unfolding str_int
flat_scores [] = []
flat_scores ((k, s) ∷ kss) = k ∷ str_int s ∷ flat_scores kss

-- A NULL score is an empty argument.
unfoldable pub score_text : Option ℤ → Bytes
unfolding str_int
score_text none = []
score_text (some i) = str_int i

module _ ⦃m : Memory⦄ where
  unfoldable pub zget : Bytes → Bytes → ℤ → Exec (Status × ℤ)
  unfolding call_int64
  zget name key ret = call_int64 (codes "zget" ∷ name ∷ key ∷ []) ret

  unfoldable pub zset : Bytes → Bytes → ℤ → Exec Status
  unfolding call str_int
  zset name key score = call (codes "zset" ∷ name ∷ key ∷ str_int score ∷ [])

  unfoldable pub zdel : Bytes → Bytes → Exec Status
  unfolding call
  zdel name key = call (codes "zdel" ∷ name ∷ key ∷ [])

  unfoldable pub zincr : Bytes → Bytes → ℤ → ℤ → Exec (Status × ℤ)
  unfolding call_int64 str_int
  zincr name key incrby ret = call_int64 (codes "zincr" ∷ name ∷ key ∷ str_int incrby ∷ []) ret

  unfoldable pub zsize : Bytes → ℤ → Exec (Status × ℤ)
  unfolding call_int64
  zsize name ret = call_int64 (codes "zsize" ∷ name ∷ []) ret

  unfoldable pub zclear : Bytes → ℤ → Exec (Status × ℤ)
  unfolding call_int64
  zclear name ret = call_int64 (codes "zclear" ∷ name ∷ []) ret

  unfoldable pub zrank : Bytes → Bytes → ℤ → Exec (Status × ℤ)
  unfolding call_int64
  zrank name key ret = call_int64 (codes "zrank" ∷ name ∷ key ∷ []) ret

  unfoldable pub zrrank : Bytes → Bytes → ℤ → Exec (Status × ℤ)
  unfolding call_int64
  zrrank name key ret = call_int64 (codes "zrrank" ∷ name ∷ key ∷ []) ret

  unfoldable pub zrange : Bytes → ℕ → ℕ → List Bytes → Exec (Status × List Bytes)
  unfolding call_list str_nat
  zrange name offset limit ret =
      call_list (codes "zrange" ∷ name ∷ str_nat offset ∷ str_nat limit ∷ []) ret

  unfoldable pub zrrange : Bytes → ℕ → ℕ → List Bytes → Exec (Status × List Bytes)
  unfolding call_list str_nat
  zrrange name offset limit ret =
      call_list (codes "zrrange" ∷ name ∷ str_nat offset ∷ str_nat limit ∷ []) ret

  unfoldable pub zkeys :
      Bytes → Bytes → Option ℤ → Option ℤ → ℕ → List Bytes → Exec (Status × List Bytes)
  unfolding call_list str_nat score_text
  zkeys name key_start score_start score_end limit ret =
      call_list
        (codes "zkeys"
          ∷ name
          ∷ key_start
          ∷ score_text score_start
          ∷ score_text score_end
          ∷ str_nat limit
          ∷ [])
        ret

  unfoldable pub zscan :
      Bytes → Bytes → Option ℤ → Option ℤ → ℕ → List Bytes → Exec (Status × List Bytes)
  unfolding call_list str_nat score_text
  zscan name key_start score_start score_end limit ret =
      call_list
        (codes "zscan"
          ∷ name
          ∷ key_start
          ∷ score_text score_start
          ∷ score_text score_end
          ∷ str_nat limit
          ∷ [])
        ret

  unfoldable pub zrscan :
      Bytes → Bytes → Option ℤ → Option ℤ → ℕ → List Bytes → Exec (Status × List Bytes)
  unfolding call_list str_nat score_text
  zrscan name key_start score_start score_end limit ret =
      call_list
        (codes "zrscan"
          ∷ name
          ∷ key_start
          ∷ score_text score_start
          ∷ score_text score_end
          ∷ str_nat limit
          ∷ [])
        ret

  unfoldable pub multi_zget : Bytes → List Bytes → List Bytes → Exec (Status × List Bytes)
  unfolding call_list
  multi_zget name names ret = call_list (codes "multi_zget" ∷ name ∷ names) ret

  unfoldable pub multi_zset : Bytes → List (Bytes × ℤ) → Exec Status
  unfolding call flat_scores
  multi_zset name kss = call (codes "multi_zset" ∷ name ∷ flat_scores kss)

  unfoldable pub multi_zdel : Bytes → List Bytes → Exec Status
  unfolding call
  multi_zdel name names = call (codes "multi_zdel" ∷ name ∷ names)
