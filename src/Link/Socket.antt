-- ===== src/Link/Socket.antt =====
-- `Link::read`, `Link::write`, `Link::flush` and `Link::response`. The kernel is two lists of
-- events: what the next calls of `::read` find, and what the next calls of `::write` do.
pub mod WriteLoop
pub mod Flush
pub mod Response
pub mod Read
pub mod Delivery
use dbss.Common.{
  ℕ, zero, suc, ◌+◌, ◌-◌, ◌*◌, ◌≤◌, ◌<◌, ◌≡◌, Bool, true, false, ◌&&◌, Option, none, some, List, [],
  ◌∷◌, ◌++◌, Bytes, length, take, drop, min, ◌==◌, if◌then◌else◌, is_empty, arith,
}
use dbss.Text.{Errno, other}
use dbss.Buffer.{Memory, Buffer, size, space, incr, decr, nice, grow}
use dbss.Link.{Link, zero_buffer_size, IoResult, failed, count}
use dbss.Link.Receive.{recv}

-- A call of `::read` finds bytes (none of them: the peer has closed), or returns -1 with EINTR,
-- with EWOULDBLOCK, or with another error. After the last event the peer has closed.
pub data ReadEvent : Type 0 where
  arrives : Bytes → ReadEvent
  read_interrupted read_blocked read_error : ReadEvent

-- A call of `::write` takes up to so many bytes, or returns -1. After the last event each call
-- takes all that it is given.
pub data WriteEvent : Type 0 where
  accepts : ℕ → WriteEvent
  write_interrupted write_blocked write_error : WriteEvent

-- The world outside the link: the events to come, the bytes that the peer was sent, and `errno`.
pub record World : Type 0 where
  pub incoming : List ReadEvent
  pub outgoing : List WriteEvent
  pub sent : Bytes
  pub errno : Errno

pub record ReadState : Type 0 where
  pub buffer : Buffer
  pub events : List ReadEvent
  pub errno : Errno

pub record WriteState : Type 0 where
  pub buffer : Buffer
  pub events : List WriteEvent
  pub sent : Bytes
  pub errno : Errno

-- The bytes that a read leaves in the socket.
abbrev pub put_back : Bytes → List ReadEvent → List ReadEvent
put_back [] es = es
put_back (b ∷ bs) es = arrives (b ∷ bs) ∷ es

-- A read of up to `space` bytes from those that are there, and `incr`.
pub take_input : Bytes → Buffer → Buffer
unfolding incr
take_input got b = incr b (take (space b) got)

-- The loop of `read`, with `noblock_` and the bytes read so far. With room left behind a
-- non-blocking read nothing is left of its bytes, so the next round takes the next event.
unfoldable pub read_loop : Bool → List ReadEvent → Errno → Buffer → ℕ → IoResult × ReadState
unfolding take_input
read_loop nb [] e b ret =
    (count (if space b == 0 then ret else 0), record { buffer = b; events = []; errno = e })
read_loop nb (read_interrupted ∷ es) e b ret =
    let full : IoResult × ReadState =
      (count ret, record { buffer = b; events = read_interrupted ∷ es; errno = e }) in
    let again = read_loop nb es other b ret in if space b == 0 then full else again
read_loop nb (read_blocked ∷ es) e b ret =
    if space b == 0
    then (count ret, record { buffer = b; events = read_blocked ∷ es; errno = e })
    else (count ret, record { buffer = b; events = es; errno = other })
read_loop nb (read_error ∷ es) e b ret =
    if space b == 0
    then (count ret, record { buffer = b; events = read_error ∷ es; errno = e })
    else (failed, record { buffer = b; events = es; errno = other })
read_loop nb (arrives bs ∷ es) e b ret =
    let full : IoResult × ReadState =
      (count ret, record { buffer = b; events = arrives bs ∷ es; errno = e }) in
    let closed : IoResult × ReadState = (count 0, record { buffer = b; events = es; errno = e }) in
    let b' = take_input bs b in
    let ret' = ret + (size b' - size b) in
    let left = drop (space b) bs in
    let stop : IoResult × ReadState =
      (count ret', record { buffer = b'; events = put_back left es; errno = e }) in
    let again = read_loop nb es e b' ret' in
    if space b == 0
    then full
    else if is_empty bs
    then closed
    else if nb && is_empty left
    then again
    else stop

-- `::write` of up to `k` bytes of the content, and `decr`.
pub put_output : ℕ → WriteState → WriteState
unfolding decr
put_output k s = record s { buffer = decr s.buffer k; sent = s.sent ++ take k s.buffer.content }

-- The loop of `write`, with `noblock_` and the bytes written so far.
unfoldable pub write_loop : Bool → List WriteEvent → WriteState → ℕ → IoResult × WriteState
unfolding put_output
write_loop nb [] s ret =
    (count (ret + size s.buffer), put_output (size s.buffer) (record s { events = [] }))
write_loop nb (write_interrupted ∷ es) s ret =
    let full : IoResult × WriteState = (count ret, record s { events = write_interrupted ∷ es }) in
    let again = write_loop nb es (record s { errno = other }) ret in
    if size s.buffer == 0 then full else again
write_loop nb (write_blocked ∷ es) s ret =
    if size s.buffer == 0
    then (count ret, record s { events = write_blocked ∷ es })
    else (count ret, record s { events = es; errno = other })
write_loop nb (write_error ∷ es) s ret =
    if size s.buffer == 0
    then (count ret, record s { events = write_error ∷ es })
    else (failed, record s { events = es; errno = other })
write_loop nb (accepts n ∷ es) s ret =
    let full : IoResult × WriteState = (count ret, record s { events = accepts n ∷ es }) in
    let len = min n (size s.buffer) in
    let none_taken : IoResult × WriteState = (count ret, record s { events = es }) in
    let s' = put_output len (record s { events = es }) in
    let stop : IoResult × WriteState = (count (ret + len), s') in
    let again = write_loop nb es s' (ret + len) in
    if size s.buffer == 0 then full else if len == 0 then none_taken else if nb then again else stop

module _ ⦃m : Memory⦄ where
  -- `if(total() == ZERO_BUFFER_SIZE) grow();`, whose result is not looked at.
  unfoldable pub first_grow : Buffer → Buffer
  unfolding grow
  first_grow b =
      let grown : Buffer = elim (grow b) [ none ↦ b | some b' ↦ b' ] in
      if b.total == zero_buffer_size then grown else b

  unfoldable pub read : Link → World → IoResult × Link × World
  unfolding first_grow nice read_loop
  read l w =
      let (ret, s) = read_loop l.noblock w.incoming w.errno (nice (first_grow l.input)) 0 in
      (ret, record l { input = s.buffer }, record w { incoming = s.events; errno = s.errno })

  -- An error returns before the last `nice`.
  pub write_end : IoResult → Buffer → Buffer
  unfolding nice
  write_end failed b = b
  write_end (count n) b = nice b

  unfoldable pub write : Link → World → IoResult × Link × World
  unfolding first_grow write_loop write_end
  write l w =
      let start : WriteState = record {
        buffer = first_grow l.output;
        events = w.outgoing;
        sent = w.sent;
        errno = w.errno;
      } in
      let (ret, s) = write_loop l.noblock w.outgoing start 0 in
      (
        ret,
        record l { output = write_end ret s.buffer },
        record w { outgoing = s.events; sent = s.sent; errno = s.errno },
      )

  -- `while(!output->empty())`, with `len`; `none` is out of fuel.
  unfoldable pub flush_loop : ℕ → Link → World → ℕ → Option (IoResult × Link × World)
  unfolding write
  flush_loop zero l w len = none
  flush_loop (suc f) l w len =
      let round : Option (IoResult × Link × World) =
        let (ret, l', w') = write l w in
        elim ret [ failed ↦ some (failed, l', w') | count n ↦ flush_loop f l' w' (len + n) ] in
      if is_empty l.output.content then some (count len, l, w) else round

  -- Each round uses an event up, or writes all there is.
  unfoldable pub flush : Link → World → Option (IoResult × Link × World)
  unfolding flush_loop
  flush l w = flush_loop (length w.outgoing + 2) l w 0

  -- One round of `response` behind `read`, and behind `recv`; `again` is the next round.
  after_read :
      (Link → World → Option (Option (List Bytes) × Link × World))
      → IoResult × Link × World
      → Option (Option (List Bytes) × Link × World)
  after_read again (failed, l, w) = some (none, l, w)
  after_read again (count zero, l, w) = some (none, l, w)
  after_read again (count (suc n), l, w) = again l w

  after_recv :
      (Link → World → Option (Option (List Bytes) × Link × World))
      → World
      → Option (List Bytes) × Link × Errno
      → Option (Option (List Bytes) × Link × World)
  unfolding after_read read
  after_recv again w (none, l, e) = some (none, l, record w { errno = e })
  after_recv again w (some (r ∷ rs), l, e) = some (some (r ∷ rs), l, record w { errno = e })
  after_recv again w (some [], l, e) = after_read again (read l (record w { errno = e }))

  -- `while(1)`; `none` is out of fuel, and `some (none, …)` is NULL.
  unfoldable pub response_loop : ℕ → Link → World → Option (Option (List Bytes) × Link × World)
  unfolding recv after_recv
  response_loop zero l w = none
  response_loop (suc f) l w = after_recv (response_loop f) w (recv l w.errno)

-- The bytes and events still to come: each read that goes on uses one of them up.
unfoldable pub weight : List ReadEvent → ℕ
weight [] = 0
weight (arrives bs ∷ es) = 1 + length bs + weight es
weight (_ ∷ es) = 1 + weight es

module _ ⦃m : Memory⦄ where
  unfoldable pub response : Link → World → Option (Option (List Bytes) × Link × World)
  unfolding response_loop weight
  response l w = response_loop (suc (weight w.incoming)) l w
