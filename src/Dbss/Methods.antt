-- ===== src/Dbss/Methods.antt =====
-- What the methods of `DBSS` hand out after an exchange with the server.
use dbss.Common.{
  ℕ, zero, suc, ◌+◌, ◌*◌, ◌^◌, ◌≤◌, ◌<◌, ◌≡◌, refl, ap, ◌∙◌, Option, some, List, [], ◌∷◌, Bytes,
  map, length, lt→ltb, ge→ltb, arith, subst, ◌==◌, if_elim, codes,
}
use dbss.Buffer.{Memory}
use dbss.Buffer.Capacity.{IsAmple}
use dbss.Link.{Link}
use dbss.Link.Socket.{ReadEvent, World}
use dbss.Client.{status, read_list, call_list, ok}
use dbss.Client.Exchange.{connected}
use dbss.Client.Replies.{Exchange, Returns, after_request, bind_some, multi_get-found, get-found}
use dbss.Text.{pos, str_nat}
use dbss.Text.{c_str}
use dbss.Dbss.{
  returned, overflow, strlen, strcpy, copy_strings, vec_of, fill_cells, fill_tight, block_size,
  until_null, or_else,
}
use dbss.Dbss.Values.{get, get_value, hand_out}
use dbss.Client.Kv.{get as client_get}
use dbss.Dbss.Lists.{keys, multi_get}
use dbss.Client.Kv.{keys as client_keys, multi_get as client_multi_get}
use dbss.Dbss.Copies.{FitCells, copy_strings-fits, copy_strings-tight}

or_else-positive : (n d : ℕ) → 1 ≤ n → or_else n d ≡ n
unfolding or_else
or_else-positive n d h = ground arith

block_size-small : (n vlen : ℕ) → n * vlen < 2 ^ 64 → block_size n vlen ≡ n * vlen
unfolding block_size
block_size-small n vlen h = omega arith

-- At least 8 bytes for each of at least `k` strings hold `k` pointers.
pointers_fit : (k limit vlen : ℕ) → k ≤ limit → 8 ≤ vlen → (0 + k) * 8 ≤ limit * vlen
pointers_fit zero limit vlen h wide = omega arith
pointers_fit (suc k) zero vlen h wide = absurd (omega arith)
pointers_fit (suc k) (suc limit) vlen h wide =
    omega (arith, pointers_fit k limit vlen (omega arith) wide)

strlen_le : (v : Bytes) → strlen v ≤ length v
unfolding strlen c_str
strlen_le [] = omega arith
strlen_le (c ∷ v) =
    if_elim (λ (s : Bytes). length s ≤ suc (length v)) (c == 0) _ _ (λ _. omega arith)
      (λ _. omega (arith, strlen_le v))

get_value-short :
    (v : Bytes) → length v ≤ 253 → get_value (status (codes "ok")) v ≡ returned (c_str v)
unfolding get_value ok strcpy
get_value-short v h =
    rw (lt→ltb (length v + 1) 255 (omega arith), lt→ltb (strlen v) 255 (omega (arith, strlen_le v)))
      refl

get_value-long : (v : Bytes) → 254 ≤ length v → get_value (status (codes "ok")) v ≡ overflow
unfolding get_value ok
get_value-long v h = rw (ge→ltb (length v + 1) 255 (omega arith)) refl

hand_out-wide :
    (block : ℕ) (val : Bytes) → 255 ≤ block → hand_out block (returned val) ≡ returned (pos 1, val)
unfolding hand_out
hand_out-wide block val h = rw (ge→ltb block 255 h) refl

hand_out-overflow : (block : ℕ) → hand_out block overflow ≡ overflow
unfolding hand_out
hand_out-overflow block = refl

module _ ⦃m : Memory⦄ where
  -- For an exchange of an idle client with a server that replies to `multi_get` with `ok` and any
  -- value at all, where memory below 2^31 is granted: `DBSS::multi_get` writes behind the end of
  -- a block.
  pub multi_get-overflow :
      (later : List ReadEvent) (names : List (Option Bytes)) (vlen : ℕ) (v : Bytes)
      (vs resp : List Bytes) (l : Link) (w : World)
      → IsAmple
      → Exchange later (codes "multi_get" ∷ until_null names) (codes "ok" ∷ v ∷ vs) l w
      → Returns
          (status (codes "ok"), overflow)
          (codes "multi_get" ∷ until_null names)
          (codes "ok" ∷ v ∷ vs)
          w
          (multi_get names vlen (connected l resp w))
  unfolding multi_get fill_tight
  multi_get-overflow later names vlen v vs resp l w ample x =
      let (l', w', e, idle, sent) =
        multi_get-found later (until_null names) (v ∷ vs) [] resp l w ample x in
      (
        l',
        w',
        bind_some (client_multi_get (until_null names) []) _ (connected l resp w) e
            ∙ ap
                (λ r.
                  some (
                    (status (codes "ok"), vec_of (pos 1) r),
                    connected l' (codes "ok" ∷ v ∷ vs) w',
                  ))
                (copy_strings-tight (block_size (length names) vlen) 0 v vs),
        idle,
        sent,
      )

  -- For an exchange of an idle client with a server, where memory below 2^31 is granted:
  -- `DBSS::keys` with nonzero bounds hands out the keys of the reply, each up to its first zero
  -- byte, with their number, when there are at most `limit` of them, each shorter than `vlen`,
  -- `vlen` is at least 8, the size of a pointer, and `limit * vlen` is below 2^64.
  pub keys-copied :
      (later : List ReadEvent) (key_start key_end : Bytes) (limit vlen : ℕ) (vs resp : List Bytes)
      (l : Link) (w : World)
      → IsAmple
      → 1 ≤ limit
      → 8 ≤ vlen
      → limit * vlen < 2 ^ 64
      → length vs ≤ limit
      → FitCells (λ _. vlen) vs
      → Exchange later
          (codes "keys" ∷ key_start ∷ key_end ∷ str_nat limit ∷ [])
          (codes "ok" ∷ vs)
          l
          w
      → Returns
          (
            status (codes "ok"),
            returned (pos 1, record { ptr = map c_str vs; count = length (map c_str vs) }),
          )
          (codes "keys" ∷ key_start ∷ key_end ∷ str_nat limit ∷ [])
          (codes "ok" ∷ vs)
          w
          (keys key_start key_end limit vlen (connected l resp w))
  unfolding keys fill_cells or_else client_keys call_list
  keys-copied later key_start key_end limit vlen vs resp l w ample some_limit wide small few fit x =
      rw (or_else-positive limit 10 some_limit, or_else-positive vlen 128 (omega arith))
        (let (l', w', e, idle, sent) =
            after_request later _ (codes "ok" ∷ vs) resp l w (λ r. read_list r []) ample x in
          (
            l',
            w',
            bind_some (client_keys key_start key_end limit []) _ (connected l resp w) e
                ∙ ap
                    (λ r.
                      some (
                        (status (codes "ok"), vec_of (pos 1) r),
                        connected l' (codes "ok" ∷ vs) w',
                      ))
                    (ap (λ room. copy_strings room (λ _. vlen) 0 vs)
                        (block_size-small limit vlen small)
                      ∙ copy_strings-fits (limit * vlen) (λ _. vlen) 0 vs fit
                          (pointers_fit (length vs) limit vlen few wide)),
            idle,
            sent,
          ))

  -- The value that `DBSS_get` reads, after the exchange.
  get-after :
      (later : List ReadEvent) (key v : Bytes) (block : ℕ) (resp : List Bytes) (l : Link)
      (w : World)
      → IsAmple
      → Exchange later (codes "get" ∷ key ∷ []) (codes "ok" ∷ v ∷ []) l w
      → Returns
          (status (codes "ok"), hand_out block (get_value (status (codes "ok")) v))
          (codes "get" ∷ key ∷ [])
          (codes "ok" ∷ v ∷ [])
          w
          (get key block (connected l resp w))
  unfolding get
  get-after later key v block resp l w ample x =
      let (l', w', e, idle, sent) = get-found later key v [] resp l w ample x in
      (l', w', bind_some (client_get key []) _ (connected l resp w) e, idle, sent)

  -- For an exchange of an idle client with a server that replies with `ok` and a value of at most
  -- 253 bytes, where memory below 2^31 is granted: `DBSS_get` hands the value out, up to its
  -- first zero byte, when the caller's block has 255 bytes.
  pub get-copied :
      (later : List ReadEvent) (key v : Bytes) (block : ℕ) (resp : List Bytes) (l : Link)
      (w : World)
      → IsAmple
      → length v ≤ 253
      → 255 ≤ block
      → Exchange later (codes "get" ∷ key ∷ []) (codes "ok" ∷ v ∷ []) l w
      → Returns
          (status (codes "ok"), returned (pos 1, c_str v))
          (codes "get" ∷ key ∷ [])
          (codes "ok" ∷ v ∷ [])
          w
          (get key block (connected l resp w))
  get-copied later key v block resp l w ample small wide x =
      subst
        (λ r.
          Returns (status (codes "ok"), r) (codes "get" ∷ key ∷ []) (codes "ok" ∷ v ∷ []) w
            (get key block (connected l resp w)))
        (ap (hand_out block) (get_value-short v small) ∙ hand_out-wide block (c_str v) wide)
        (get-after later key v block resp l w ample x)

  -- For an exchange of an idle client with a server that replies with `ok` and a value of 254
  -- bytes or more, where memory below 2^31 is granted: `DBSS_get` writes behind the end of an
  -- array, however large the caller's block is.
  pub get-overflow :
      (later : List ReadEvent) (key v : Bytes) (block : ℕ) (resp : List Bytes) (l : Link)
      (w : World)
      → IsAmple
      → 254 ≤ length v
      → Exchange later (codes "get" ∷ key ∷ []) (codes "ok" ∷ v ∷ []) l w
      → Returns
          (status (codes "ok"), overflow)
          (codes "get" ∷ key ∷ [])
          (codes "ok" ∷ v ∷ [])
          w
          (get key block (connected l resp w))
  get-overflow later key v block resp l w ample long x =
      subst
        (λ r.
          Returns (status (codes "ok"), r) (codes "get" ∷ key ∷ []) (codes "ok" ∷ v ∷ []) w
            (get key block (connected l resp w)))
        (ap (hand_out block) (get_value-long v long) ∙ hand_out-overflow block)
        (get-after later key v block resp l w ample x)
