-- ===== src/Client/Ends.antt =====
-- `ClientImpl::request` returns, whatever the server and the kernel do.
use dbss.Common.{◌≡◌, refl, sym, ap, ◌∙◌, subst, Option, none, some, List, Bytes}
use dbss.Buffer.{Memory}
use dbss.Buffer.Capacity.{IsValid}
use dbss.Link.{Link, IoResult, failed, count}
use dbss.Link.Send.{send}
use dbss.Link.Send.Bounds.{AreSendable, Sent, send-Sent}
use dbss.Link.Socket.{World, flush, response}
use dbss.Link.Socket.Flush.{Flushes, flush-Flushes}
use dbss.Link.Socket.Response.{Ends, response-Ends}
use dbss.Client.{ClientImpl, Session, after_send, after_flush, after_response, request}
use dbss.Client.Exchange.{connected}

module _ ⦃m : Memory⦄ where
  -- A request returns with the client connected and both buffers in their bounds, and what it
  -- returns is NULL, with `resp_` as it was, or the records that `resp_` then holds.
  pub data Returned (resp : List Bytes) : Option (List Bytes) × Session → Type 0 where
    null :
        (l : Link) (w : World)
        → IsValid l.input
        → IsValid l.output
        → Returned resp (none, connected l resp w)
    records :
        (reply : List Bytes) (l : Link) (w : World)
        → IsValid l.input
        → IsValid l.output
        → Returned resp (some reply, connected l reply w)

  abbrev pub RequestEnds : List Bytes → Option (Option (List Bytes) × Session) → Type 0
  RequestEnds resp result =
      (r : Option (List Bytes) × Session) × (result ≡ some r) × Returned resp r

  after_response-Ends :
      (resp : List Bytes) (c : ClientImpl) (l : Link) (w : World)
      (result : Option (Option (List Bytes) × Link × World))
      → c.resp ≡ resp
      → IsValid l.output
      → Ends l w result
      → RequestEnds resp (after_response c result)
  unfolding after_response
  after_response-Ends resp c l w result same v ((none, l', w'), e, frame) = (
    (none, connected l' resp w'),
    ap (after_response c) e ∙ ap (λ rs. some (none, connected l' rs w')) same,
    null l' w' frame.valid (subst IsValid (sym frame.same_output) v),
  )
  after_response-Ends resp c l w result same v ((some rs, l', w'), e, frame) = (
    (some rs, connected l' rs w'),
    ap (after_response c) e,
    records rs l' w' frame.valid (subst IsValid (sym frame.same_output) v),
  )

  after_flush-Ends :
      (resp : List Bytes) (c : ClientImpl) (l : Link) (w : World)
      (result : Option (IoResult × Link × World))
      → c.resp ≡ resp
      → IsValid l.input
      → Flushes l w result
      → RequestEnds resp (after_flush c result)
  unfolding after_flush
  after_flush-Ends resp c l w result same v ((failed, l', w'), e, a, end) = (
    (none, connected l' resp w'),
    ap (after_flush c) e ∙ ap (λ rs. some (none, connected l' rs w')) same,
    null l' w' (subst IsValid (sym a.same_input) v) a.valid,
  )
  after_flush-Ends resp c l w result same v ((count n, l', w'), e, a, end) =
      subst (λ r. RequestEnds resp (after_flush c r)) (sym e)
        (after_response-Ends resp c l' w' (response l' w') same a.valid
          (response-Ends l' w' (subst IsValid (sym a.same_input) v)))

  -- With arguments shorter than 2^31 by more than 17 bytes, and valid buffers, `request` on a
  -- connected client ends: with NULL and the old `resp_`, or with the records that `resp_` then
  -- holds. The buffers stay in their bounds, whatever memory is refused, whatever bytes the server
  -- sends, and however the kernel cuts or fails the calls. The kernel has finitely many events, and
  -- behind them it has nothing more to read and takes all that is written.
  pub request-Ends :
      (req resp : List Bytes) (l : Link) (w : World)
      → AreSendable req
      → IsValid l.input
      → IsValid l.output
      → RequestEnds resp (request req (connected l resp w))
  unfolding request
  request-Ends req resp l w short v_in v_out =
      let c : ClientImpl = record { link = some l; resp = resp } in
      by_send c (send req l) refl (send-Sent req l short v_out)
    where
      by_send :
          (c : ClientImpl) (r : IoResult × Link)
          → c.resp ≡ resp
          → Sent l r
          → RequestEnds resp (after_send c w r)
      by_send c (failed, l') same (e, _, _) = cc
      by_send c (count n, l') same (e, v, same_link) =
          unfold after_send in
          (after_flush-Ends resp c l' w (flush l' w) same
            (subst IsValid (sym (ap (λ (k : Link). k.input) same_link)) v_in)
            (flush-Flushes l' w v))
