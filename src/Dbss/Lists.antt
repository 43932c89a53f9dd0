-- ===== src/Dbss/Lists.antt =====
-- src/DBSS.cc: the methods that hand out a list of strings through a `vec_t`. `limit` and `vlen`
-- are its bounds on their number and length, an array of keys is its entries, and NULL is `none`.
use dbss.Common.{ℕ, Option, some, List, [], Bytes, length}
use dbss.Text.{ℤ}
use dbss.Buffer.{Memory}
use dbss.Client.Kv.{
  keys as client_keys, scan as client_scan, rscan as client_rscan, multi_get as client_multi_get,
}
use dbss.Client.Zset.{
  zrange as client_zrange, zrrange as client_zrrange, zkeys as client_zkeys, zscan as client_zscan,
  zrscan as client_zrscan, multi_zget as client_multi_zget,
}
use dbss.Client.Hash.{
  hkeys as client_hkeys, hscan as client_hscan, hrscan as client_hrscan,
  multi_hget as client_multi_hget, hgetall as client_hgetall,
}
use dbss.Client.Queue.{qslice as client_qslice}
use dbss.Dbss.{Vec, Method, call_then, fill_cells, fill_tight, or_else, until_null}

module _ ⦃m : Memory⦄ where
  unfoldable pub keys : Bytes → Bytes → ℕ → ℕ → Method (ℤ × Vec)
  unfolding fill_cells or_else client_keys
  keys key_start key_end limit vlen =
      let limit_ = or_else limit 10 in
      call_then (client_keys key_start key_end limit_ []) (fill_cells limit_ (or_else vlen 128))

  unfoldable pub scan : Bytes → Bytes → ℕ → ℕ → Method (ℤ × Vec)
  unfolding fill_cells or_else client_scan
  scan key_start key_end limit vlen =
      let limit_ = or_else limit 10 in
      call_then (client_scan key_start key_end limit_ []) (fill_cells limit_ (or_else vlen 128))

  unfoldable pub rscan : Bytes → Bytes → ℕ → ℕ → Method (ℤ × Vec)
  unfolding fill_cells or_else client_rscan
  rscan key_start key_end limit vlen =
      let limit_ = or_else limit 10 in
      call_then (client_rscan key_start key_end limit_ []) (fill_cells limit_ (or_else vlen 128))

  unfoldable pub zrange : Bytes → ℕ → ℕ → ℕ → Method (ℤ × Vec)
  unfolding fill_cells or_else client_zrange
  zrange name offset limit vlen =
      let limit_ = or_else limit 10 in
      call_then (client_zrange name offset limit_ []) (fill_cells limit_ (or_else vlen 128))

  unfoldable pub zrrange : Bytes → ℕ → ℕ → ℕ → Method (ℤ × Vec)
  unfolding fill_cells or_else client_zrrange
  zrrange name offset limit vlen =
      let limit_ = or_else limit 10 in
      call_then (client_zrrange name offset limit_ []) (fill_cells limit_ (or_else vlen 128))

  unfoldable pub zkeys : Bytes → Bytes → ℤ → ℤ → ℕ → ℕ → Method (ℤ × Vec)
  unfolding fill_cells or_else client_zkeys
  zkeys name key_start score_start score_end limit vlen =
      let limit_ = or_else limit 10 in
      call_then (client_zkeys name key_start (some score_start) (some score_end) limit_ [])
        (fill_cells limit_ (or_else vlen 128))

  unfoldable pub zscan : Bytes → Bytes → ℤ → ℤ → ℕ → ℕ → Method (ℤ × Vec)
  unfolding fill_cells or_else client_zscan
  zscan name key_start score_start score_end limit vlen =
      let limit_ = or_else limit 10 in
      call_then (client_zscan name key_start (some score_start) (some score_end) limit_ [])
        (fill_cells limit_ (or_else vlen 128))

  unfoldable pub zrscan : Bytes → Bytes → ℤ → ℤ → ℕ → ℕ → Method (ℤ × Vec)
  unfolding fill_cells or_else client_zrscan
  zrscan name key_start score_start score_end limit vlen =
      let limit_ = or_else limit 10 in
      call_then (client_zrscan name key_start (some score_start) (some score_end) limit_ [])
        (fill_cells limit_ (or_else vlen 128))

  unfoldable pub hkeys : Bytes → Bytes → Bytes → ℕ → ℕ → Method (ℤ × Vec)
  unfolding fill_tight client_hkeys
  hkeys name key_start key_end limit vlen =
      call_then (client_hkeys name key_start key_end limit []) (fill_tight limit vlen)

  unfoldable pub hscan : Bytes → Bytes → Bytes → ℕ → ℕ → Method (ℤ × Vec)
  unfolding fill_tight client_hscan
  hscan name key_start key_end limit vlen =
      call_then (client_hscan name key_start key_end limit []) (fill_tight limit vlen)

  unfoldable pub hrscan : Bytes → Bytes → Bytes → ℕ → ℕ → Method (ℤ × Vec)
  unfolding fill_tight client_hrscan
  hrscan name key_start key_end limit vlen =
      call_then (client_hrscan name key_start key_end limit []) (fill_tight limit vlen)

  unfoldable pub multi_get : List (Option Bytes) → ℕ → Method (ℤ × Vec)
  unfolding fill_tight until_null client_multi_get
  multi_get names vlen =
      call_then (client_multi_get (until_null names) []) (fill_tight (length names) vlen)

  unfoldable pub multi_hget : Bytes → List (Option Bytes) → ℕ → Method (ℤ × Vec)
  unfolding fill_tight until_null client_multi_hget
  multi_hget name names vlen =
      call_then (client_multi_hget name (until_null names) []) (fill_tight (length names) vlen)

  unfoldable pub multi_zget : Bytes → List (Option Bytes) → ℕ → Method (ℤ × Vec)
  unfolding fill_tight until_null client_multi_zget
  multi_zget name names vlen =
      call_then (client_multi_zget name (until_null names) []) (fill_tight (length names) vlen)

  unfoldable pub hgetall : Bytes → Method (ℤ × Vec)
  unfolding fill_tight client_hgetall
  hgetall name = call_then (client_hgetall name []) (λ s vs. fill_tight (length vs) 1000 s vs)

  unfoldable pub qslice : Bytes → ℤ → ℤ → ℕ → Method (ℤ × Vec)
  unfolding fill_tight client_qslice
  qslice name first last vlen =
      call_then (client_qslice name first last []) (λ s vs. fill_tight (length vs) vlen s vs)
