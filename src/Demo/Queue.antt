-- ===== src/Demo/Queue.antt =====
-- src/demo.cpp: the last block of `main`, on queues.
use dbss.Common.{ℕ, suc, ◌%◌, ◌^◌, ◌++◌, List, [], ◌∷◌, Bytes, codes, length, if◌then◌else◌}
use dbss.Text.{pos, str_nat, str_int, of_word}
use dbss.Text.{c_str}
use dbss.Client.{ok}
use dbss.Client.Program.{set, get, qpush, qslice, qpop}
use dbss.Demo.{Script, pure, ◌>>=◌, ◌>>◌, on_client, print}

-- The loop that prints a queue, from the index `i`.
unfoldable pub items_text : ℕ → List Bytes → Bytes
unfolding c_str str_nat
items_text i [] = []
items_text i (x ∷ xs) =
    codes "    " ++ str_nat i ++ codes " " ++ c_str x ++ codes "\n" ++ items_text (suc i) xs

-- `printf("length: %d\n", (int)val.size())`.
unfoldable pub length_line : Bytes → Bytes
unfolding str_int
length_line val = codes "length: " ++ str_int (of_word 32 (length val % 2 ^ 32)) ++ codes "\n"

-- `printf("qpop k = %s\n", val.c_str())`.
unfoldable pub popped_line : Bytes → Bytes
unfolding c_str
popped_line val = codes "qpop k = " ++ c_str val ++ codes "\n"

abbrev error_line : Bytes
error_line = codes "error!\n"

unfoldable pub queue_block : Bytes → List Bytes → Script Unit
unfolding ok items_text length_line popped_line
queue_block val vals = do
  s ← on_client (set (codes "k") (codes "hello ssdb!")) tt
  print (if ok s then codes "k = hello ssdb!\n" else error_line)
  (s, val) ← on_client (get (codes "k")) val
  print (length_line val)
  s ← on_client (qpush (codes "k") (codes "hello1!")) tt
  print (if ok s then codes "qpush k = hello1!\n" else error_line)
  s ← on_client (qpush (codes "k") (codes "hello2!")) tt
  print (if ok s then codes "qpush k = hello2!\n" else error_line)
  (s, vals) ← on_client (qslice (codes "k") (pos 0) (pos 1)) vals
  print (if ok s then codes "qslice 0 1\n" ++ items_text 0 vals else error_line)
  (s, val) ← on_client (qpop (codes "k")) val
  print (if ok s then popped_line val else error_line)
  (s, val) ← on_client (qpop (codes "k")) val
  print (if ok s then popped_line val else error_line)
  pure tt
