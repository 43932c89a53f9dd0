-- ===== src/Redis/Reply/Mget.antt =====
-- The reply to an `mget`: the values that `send_resp` hands back.
use dbss.Common.{
  ℕ, drop, suc, ◌+◌, ◌-◌, ◌^◌, ◌≤◌, ◌≡◌, ◌≢◌, refl, ap, ◌∙◌, subst, false, Option, none, some, List,
  [], ◌∷◌, map, Bytes, bytes_eq, bytes_eq_iff, codes, length, All, arith, ge→ltb, Bool-cases, inl,
  inr, ◌%◌,
}
use dbss.Buffer.{Memory, Buffer, size}
use dbss.Buffer.Capacity.{IsValid, IsAmple}
use dbss.Buffer.Append.{Extends}
use dbss.Redis.Request.Mget.{mget_link}
use dbss.Redis.Reply.{
  minus_one, mget_values, mget_reply, count_minus, reply_parts, append_all, send_resp,
}
use dbss.Redis.Reply.Wire.{append_all_ample}
use dbss.Redis.Reply.Format.{
  Item, nil, value, array, item_bytes, items_bytes, reply_bytes, joined, joined-bulk, joined-array,
}

-- The keys of a request, each with its value where the server has one.
abbrev pub Lookup : Type 0
Lookup = List (Bytes × Option Bytes)

abbrev pub asked_keys : Lookup → List Bytes
asked_keys fs = map (λ f. f.0) fs

-- The server's response to `multi_get`: the keys that it has and their values, in the order asked.
abbrev pub found_pairs : Lookup → List Bytes
found_pairs [] = []
found_pairs ((k, none) ∷ fs) = found_pairs fs
found_pairs ((k, some v) ∷ fs) = k ∷ v ∷ found_pairs fs

abbrev pub answer_items : Lookup → List Item
answer_items [] = []
answer_items ((k, none) ∷ fs) = nil ∷ answer_items fs
answer_items ((k, some v) ∷ fs) = value v ∷ answer_items fs

-- No key is asked for twice.
abbrev pub AreDistinct : Lookup → Type 0
AreDistinct [] = Unit
AreDistinct (f ∷ fs) = All (λ g. f.0 ≢ g.0) fs × AreDistinct fs

bytes_eq-ne : (s t : Bytes) → s ≢ t → bytes_eq s t ≡ false
bytes_eq-ne s t h = elim (Bool-cases (bytes_eq s t)) [
  | inl e ↦ absurd (h ((bytes_eq_iff s t).0 e))
  | inr e ↦ e
]

-- A key that the response does not have.
mget_values-skip :
    (k : Bytes) (ks : List Bytes) (fs : Lookup)
    → All (λ g. k ≢ g.0) fs
    → mget_values (k ∷ ks) (found_pairs fs) ≡ minus_one ∷ mget_values ks (found_pairs fs)
unfolding mget_values
mget_values-skip k ks [] h = refl
mget_values-skip k ks ((j, none) ∷ fs) h = mget_values-skip k ks fs h.1
mget_values-skip k ks ((j, some v) ∷ fs) h = rw (bytes_eq-ne k j h.0, mget_values) refl

mget_values-found :
    (fs : Lookup)
    → AreDistinct fs
    → joined (mget_values (asked_keys fs) (found_pairs fs)) ≡ items_bytes (answer_items fs) []
unfolding mget_values joined items_bytes item_bytes
mget_values-found [] h = refl
mget_values-found ((k, none) ∷ fs) h =
    ap joined (mget_values-skip k (asked_keys fs) fs h.0)
    ∙ ap (item_bytes nil) (mget_values-found fs h.1)
mget_values-found ((k, some v) ∷ fs) h =
    rw ((bytes_eq_iff k k).1 refl, mget_values)
      (joined-bulk v (mget_values (asked_keys fs) (found_pairs fs))
        ∙ ap (item_bytes (value v)) (mget_values-found fs h.1))

found_pairs_even : (fs : Lookup) → length (found_pairs fs) % 2 ≡ 0
found_pairs_even [] = refl
found_pairs_even ((k, none) ∷ fs) = found_pairs_even fs
found_pairs_even ((k, some v) ∷ fs) = omega (arith, found_pairs_even fs)

length-answer_items : (fs : Lookup) → length (asked_keys fs) ≡ length (answer_items fs)
length-answer_items [] = refl
length-answer_items ((k, none) ∷ fs) = ap suc (length-answer_items fs)
length-answer_items ((k, some v) ∷ fs) = ap suc (length-answer_items fs)

-- The reply where the keys stand behind `skip` strings.
pub mget_reply-lookup :
    ⦃m : Memory⦄ (skip : ℕ) (keys : List Bytes) (fs : Lookup)
    → drop skip keys ≡ asked_keys fs
    → length keys ≡ skip + length (asked_keys fs)
    → AreDistinct fs
    → joined (mget_reply skip keys (found_pairs fs)) ≡ reply_bytes (array (answer_items fs))
unfolding mget_reply count_minus
mget_reply-lookup skip keys fs behind total h =
    rw (found_pairs_even fs, ge→ltb (length keys) skip (omega (arith, total)))
      (joined-array (answer_items fs) (length keys - skip)
        (mget_values (drop skip keys) (found_pairs fs))
        (omega (arith, total, length-answer_items fs))
        (ap (λ ks. joined (mget_values ks (found_pairs fs))) behind ∙ mget_values-found fs h))

-- The reply, on a link that has read an `mget` of the keys.
mget_reply-found :
    ⦃m : Memory⦄ (fs : Lookup)
    → AreDistinct fs
    → joined (reply_parts (mget_link (asked_keys fs)) (codes "ok" ∷ found_pairs fs))
      ≡ reply_bytes (array (answer_items fs))
unfolding reply_parts
mget_reply-found fs h =
    mget_reply-lookup 1 (codes "multi_get" ∷ asked_keys fs) fs refl (omega arith) h

module _ ⦃m : Memory⦄ where
  pub send_resp-mget :
      (fs : Lookup) (output : Buffer)
      → IsAmple
      → IsValid output
      → AreDistinct fs
      → output.front + size output + length (reply_bytes (array (answer_items fs))) ≤ 2 ^ 29
      → Extends
          (reply_bytes (array (answer_items fs)))
          output
          (send_resp (mget_link (asked_keys fs)) output (codes "ok" ∷ found_pairs fs))
  unfolding send_resp
  send_resp-mget fs output ample v h room =
      let reply = mget_reply-found fs h in
      let parts = reply_parts (mget_link (asked_keys fs)) (codes "ok" ∷ found_pairs fs) in
      subst (λ t. Extends t output (append_all parts output)) reply
        (append_all_ample parts output ample v (omega (arith, ap length reply)))
