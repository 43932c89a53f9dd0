-- ===== src/Client/Overloads.antt =====
-- `ClientImpl::request` against the overloads of `Link::request`.
use dbss.Common.{◌≡◌, refl, sym, ap, ◌∙◌, Option, none, some, List, [], ◌∷◌, Bytes}
use dbss.Buffer.{Memory}
use dbss.Link.{Link, IoResult, failed, count}
use dbss.Link.Send.{send}
use dbss.Link.Calls.{
  Parts, one, two, three, four, five, parts_list, send_parts, request_parts, send_parts-send_bytes,
  after_send as link_after_send, after_flush as link_after_flush,
}
use dbss.Link.Socket.{World, flush, response}
use dbss.Client.{Session, after_send, after_flush, after_response, request}
use dbss.Client.Exchange.{connected, send-plain}

-- The outcome of a request on the link, as the client keeps it: `resp_` has the last reply.
abbrev pub as_client :
    List Bytes
    → Option (Option (List Bytes) × Link × World)
    → Option (Option (List Bytes) × Session)
as_client resp none = none
as_client resp (some (none, l, w)) = some (none, connected l resp w)
as_client resp (some (some rs, l, w)) = some (some rs, connected l rs w)

module _ ⦃m : Memory⦄ where
  after_response_same :
      (l0 : Link) (resp : List Bytes) (o : Option (Option (List Bytes) × Link × World))
      → after_response (record { link = some l0; resp = resp }) o ≡ as_client resp o
  unfolding after_response
  after_response_same l0 resp none = refl
  after_response_same l0 resp (some (none, l, w)) = refl
  after_response_same l0 resp (some (some rs, l, w)) = refl

  after_flush_same :
      (l0 : Link) (resp : List Bytes) (o : Option (IoResult × Link × World))
      → after_flush (record { link = some l0; resp = resp }) o ≡ as_client resp (link_after_flush o)
  unfolding after_flush link_after_flush
  after_flush_same l0 resp none = refl
  after_flush_same l0 resp (some (failed, l, w)) = refl
  after_flush_same l0 resp (some (count n, l, w)) = after_response_same l0 resp (response l w)

  after_send_same :
      (l0 : Link) (resp : List Bytes) (w : World) (r : IoResult × Link)
      → after_send (record { link = some l0; resp = resp }) w r
        ≡ as_client resp (link_after_send w r)
  unfolding after_send link_after_send
  after_send_same l0 resp w (failed, l) = refl
  after_send_same l0 resp w (count n, l) = after_flush_same l0 resp (flush l w)

  send_same : (p : Parts) (l : Link) → l.redis ≡ none → send (parts_list p) l ≡ send_parts p l
  send_same (one a) l h = send-plain a ([]) l h ∙ sym (send_parts-send_bytes (one a) l)
  send_same (two a b) l h = send-plain a (b ∷ []) l h ∙ sym (send_parts-send_bytes (two a b) l)
  send_same (three a b c) l h =
      send-plain a (b ∷ c ∷ []) l h ∙ sym (send_parts-send_bytes (three a b c) l)
  send_same (four a b c d) l h =
      send-plain a (b ∷ c ∷ d ∷ []) l h ∙ sym (send_parts-send_bytes (four a b c d) l)
  send_same (five a b c d e) l h =
      send-plain a (b ∷ c ∷ d ∷ e ∷ []) l h ∙ sym (send_parts-send_bytes (five a b c d e) l)

  -- On a link without the Redis protocol, each overload of `Link::request` has the outcome of
  -- `ClientImpl::request` on the vector of its arguments: the same reply, link and world.
  pub request-request_parts :
      (p : Parts) (resp : List Bytes) (l : Link) (w : World)
      → l.redis ≡ none
      → request (parts_list p) (connected l resp w) ≡ as_client resp (request_parts p l w)
  unfolding request request_parts
  request-request_parts p resp l w h =
      ap (after_send (record { link = some l; resp = resp }) w) (send_same p l h)
      ∙ after_send_same l resp w (send_parts p l)
