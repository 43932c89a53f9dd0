-- ===== src/Link/Calls.antt =====
-- src/net/link.cpp: the overloads of `Link::send` and `Link::request` on one to five texts.
use dbss.Common.{Option, none, some, List, [], ◌∷◌, Bytes, ◌≡◌, refl}
use dbss.Buffer.{Memory, Buffer, append_record, append}
use dbss.Link.{Link, IoResult, failed, count}
use dbss.Link.Send.{append_records, send_bytes}
use dbss.Link.Socket.{World, flush, response}

-- The arguments of an overload.
pub data Parts : Type 0 where
  one : Bytes → Parts
  two : Bytes → Bytes → Parts
  three : Bytes → Bytes → Bytes → Parts
  four : Bytes → Bytes → Bytes → Bytes → Parts
  five : Bytes → Bytes → Bytes → Bytes → Bytes → Parts

abbrev pub parts_list : Parts → List Bytes
parts_list (one a) = a ∷ []
parts_list (two a b) = a ∷ b ∷ []
parts_list (three a b c) = a ∷ b ∷ c ∷ []
parts_list (four a b c d) = a ∷ b ∷ c ∷ d ∷ []
parts_list (five a b c d e) = a ∷ b ∷ c ∷ d ∷ e ∷ []

module _ ⦃m : Memory⦄ where
  -- The buffer after `append_record(s)`, and the result of `append('\n')` on it.
  put : Bytes → Buffer → Buffer
  unfolding append_record
  put s o = (append_record s o).1

  end_packet : Link → Buffer → IoResult × Link
  unfolding append
  end_packet l o = (count 0, record l { output = (append (b'\n' ∷ []) o).1 })

  -- `send(s1)` to `send(s1, s2, s3, s4, s5)`.
  unfoldable pub send_parts : Parts → Link → IoResult × Link
  unfolding put end_packet
  send_parts (one a) l = end_packet l (put a l.output)
  send_parts (two a b) l = end_packet l (put b (put a l.output))
  send_parts (three a b c) l = end_packet l (put c (put b (put a l.output)))
  send_parts (four a b c d) l = end_packet l (put d (put c (put b (put a l.output))))
  send_parts (five a b c d e) l = end_packet l (put e (put d (put c (put b (put a l.output)))))

  -- `if(flush() == -1) return NULL; return response();`
  unfoldable pub after_flush :
      Option (IoResult × Link × World) → Option (Option (List Bytes) × Link × World)
  unfolding response
  after_flush none = none
  after_flush (some (failed, l, w)) = some (none, l, w)
  after_flush (some (count n, l, w)) = response l w

  -- `if(send(…) == -1) return NULL;`
  unfoldable pub after_send : World → IoResult × Link → Option (Option (List Bytes) × Link × World)
  unfolding after_flush flush
  after_send w (failed, l) = some (none, l, w)
  after_send w (count n, l) = after_flush (flush l w)

  -- `request(s1)` to `request(s1, s2, s3, s4, s5)`.
  unfoldable pub request_parts : Parts → Link → World → Option (Option (List Bytes) × Link × World)
  unfolding send_parts after_send
  request_parts p l w = after_send w (send_parts p l)

  -- The overloads of `send` do what `send(const std::vector<Bytes>&)` does.
  pub send_parts-send_bytes : (p : Parts) (l : Link) → send_parts p l ≡ send_bytes (parts_list p) l
  unfolding send_parts put end_packet send_bytes append_records
  send_parts-send_bytes (one a) l = refl
  send_parts-send_bytes (two a b) l = refl
  send_parts-send_bytes (three a b c) l = refl
  send_parts-send_bytes (four a b c d) l = refl
  send_parts-send_bytes (five a b c d e) l = refl
