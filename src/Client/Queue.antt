-- ===== src/Client/Queue.antt =====
-- src/SSDB_impl.cpp: the commands on queues. A list or a value that the code writes through a
-- pointer is the last argument and part of the result; a `std::map` is its pairs in key order.
use dbss.Common.{List, [], ◌∷◌, Bytes, codes}
use dbss.Text.{ℤ, str_int}
use dbss.Buffer.{Memory}
use dbss.Client.{Status, Exec, call, call_str, call_list}

module _ ⦃m : Memory⦄ where
  unfoldable pub qpush : Bytes → Bytes → Exec Status
  unfolding call
  qpush key val = call (codes "qpush" ∷ key ∷ val ∷ [])

  unfoldable pub qpop : Bytes → Bytes → Exec (Status × Bytes)
  unfolding call_str
  qpop key val = call_str (codes "qpop" ∷ key ∷ []) val

  unfoldable pub qslice : Bytes → ℤ → ℤ → List Bytes → Exec (Status × List Bytes)
  unfolding call_list str_int
  qslice name first last ret =
      call_list (codes "qslice" ∷ name ∷ str_int first ∷ str_int last ∷ []) ret
