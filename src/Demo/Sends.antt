-- ===== src/Demo/Sends.antt =====
-- The commands that the demonstration sends, whatever is answered.
use dbss.Common.{
  ℕ, ◌≡◌, refl, Bool, true, List, [], ◌∷◌, ◌++◌, Bytes, codes, if_elim, if◌then◌else◌,
}
use dbss.Text.{ℤ, str_int, str_nat}
use dbss.Client.{flat_pairs}
use dbss.Client.Zset.{flat_scores, score_text}
use dbss.Client.Program.{Shape, Old, Command, Result, Program, finish, perform, request_of}
use dbss.Demo.{Outcome, returned, aborted, Script}
use dbss.Text.{c_str}
use dbss.Demo.Kv.{kv_block}
use dbss.Demo.Hash.{hash_block}
use dbss.Demo.Zset.{zset_block}
use dbss.Demo.Queue.{queue_block}
use dbss.Demo.Main.{blocks, main}

-- The program's commands are these requests in order, whatever is answered; or an assertion fails
-- before the last.
pub data Sends : List (List Bytes) → Program Outcome → Type 0 where
  returns : (n : ℕ) (out : Bytes) → Sends [] (finish (returned n out))
  aborts : (reqs : List (List Bytes)) (out : Bytes) → Sends reqs (finish (aborted out))
  sends :
      {k : Shape} {c : Command k} {old : Old k} {next : Result k → Program Outcome}
      {req : List Bytes} {reqs : List (List Bytes)}
      → request_of c ≡ req
      → ((r : Result k) → Sends reqs (next r))
      → Sends (req ∷ reqs) (perform c old next)

checked :
    {reqs : List (List Bytes)} {p : Program Outcome} (b : Bool) (out : Bytes)
    → Sends reqs p
    → Sends reqs (if b then p else finish (aborted out))
checked {reqs} {p} b out h =
    if_elim (Sends reqs) b p (finish (aborted out)) (λ _. h) (λ _. aborts reqs out)

-- A block sends the requests, and goes on.
abbrev BlockSends : {A : Type 0} → List (List Bytes) → Script A → Type 0
BlockSends {A} sent block =
    (reqs : List (List Bytes)) (rest : A → Bytes → Program Outcome) (out : Bytes)
    → ((a : A) (out' : Bytes) → Sends reqs (rest a out'))
    → Sends (sent ++ reqs) (block rest out)

abbrev pub kv_requests : List (List Bytes)
kv_requests =
    (codes "setx" ∷ codes "k" ∷ codes "test_val" ∷ codes "3" ∷ [])
    ∷ (codes "set" ∷ codes "k" ∷ codes "test_val" ∷ [])
    ∷ (codes "get" ∷ codes "k" ∷ [])
    ∷ (codes "del" ∷ codes "k" ∷ [])
    ∷ (codes "get" ∷ codes "k" ∷ [])
    ∷ (codes "incr" ∷ codes "k" ∷ codes "3" ∷ [])
    ∷ (codes "incr" ∷ codes "k" ∷ codes "-1" ∷ [])
    ∷ (codes "keys" ∷ [] ∷ [] ∷ codes "2" ∷ [])
    ∷ (codes "scan" ∷ [] ∷ [] ∷ codes "2" ∷ [])
    ∷ (codes "rscan" ∷ [] ∷ [] ∷ codes "2" ∷ [])
    ∷ (codes "multi_set" ∷ codes "k1" ∷ codes "v1" ∷ codes "k2" ∷ codes "v2" ∷ [])
    ∷ (codes "multi_get" ∷ codes "k1" ∷ codes "k2" ∷ [])
    ∷ (codes "multi_del" ∷ codes "k1" ∷ codes "k2" ∷ [])
    ∷ []

abbrev pub hash_requests : List (List Bytes)
hash_requests =
    (codes "hset" ∷ codes "h" ∷ codes "k" ∷ codes "test_val" ∷ [])
    ∷ (codes "hget" ∷ codes "h" ∷ codes "k" ∷ [])
    ∷ (codes "hdel" ∷ codes "h" ∷ codes "k" ∷ [])
    ∷ (codes "hget" ∷ codes "h" ∷ codes "k" ∷ [])
    ∷ (codes "hsize" ∷ codes "h" ∷ [])
    ∷ (codes "hincr" ∷ codes "h" ∷ codes "k" ∷ codes "3" ∷ [])
    ∷ (codes "hincr" ∷ codes "h" ∷ codes "k" ∷ codes "-1" ∷ [])
    ∷ (codes "hkeys" ∷ codes "h" ∷ [] ∷ [] ∷ codes "2" ∷ [])
    ∷ (codes "hscan" ∷ codes "h" ∷ [] ∷ [] ∷ codes "2" ∷ [])
    ∷ (codes "hrscan" ∷ codes "h" ∷ [] ∷ [] ∷ codes "2" ∷ [])
    ∷ (codes "multi_hset" ∷ codes "h" ∷ codes "k1" ∷ codes "v1" ∷ codes "k2" ∷ codes "v2" ∷ [])
    ∷ (codes "multi_hget" ∷ codes "h" ∷ codes "k1" ∷ codes "k2" ∷ [])
    ∷ (codes "hgetall" ∷ codes "h" ∷ [])
    ∷ (codes "multi_hdel" ∷ codes "h" ∷ codes "k1" ∷ codes "k2" ∷ [])
    ∷ (codes "hclear" ∷ codes "h" ∷ [])
    ∷ []

abbrev pub zset_requests : List (List Bytes)
zset_requests =
    (codes "zset" ∷ codes "z" ∷ codes "k" ∷ codes "100" ∷ [])
    ∷ (codes "zget" ∷ codes "z" ∷ codes "k" ∷ [])
    ∷ (codes "zdel" ∷ codes "z" ∷ codes "k" ∷ [])
    ∷ (codes "zget" ∷ codes "z" ∷ codes "k" ∷ [])
    ∷ (codes "zsize" ∷ codes "z" ∷ [])
    ∷ (codes "zincr" ∷ codes "z" ∷ codes "k" ∷ codes "3" ∷ [])
    ∷ (codes "zincr" ∷ codes "z" ∷ codes "k" ∷ codes "-1" ∷ [])
    ∷ (codes "zset" ∷ codes "z" ∷ codes "a" ∷ codes "-1" ∷ [])
    ∷ (codes "zset" ∷ codes "z" ∷ codes "b" ∷ codes "3" ∷ [])
    ∷ (codes "zset" ∷ codes "z" ∷ codes "c" ∷ codes "4" ∷ [])
    ∷ (codes "zkeys" ∷ codes "z" ∷ [] ∷ [] ∷ codes "90" ∷ codes "2" ∷ [])
    ∷ (codes "zrange" ∷ codes "z" ∷ codes "0" ∷ codes "2" ∷ [])
    ∷ (codes "zrrange" ∷ codes "z" ∷ codes "0" ∷ codes "2" ∷ [])
    ∷ (codes "zscan" ∷ codes "z" ∷ [] ∷ [] ∷ codes "90" ∷ codes "2" ∷ [])
    ∷ (codes "zrscan" ∷ codes "z" ∷ [] ∷ codes "90" ∷ [] ∷ codes "2" ∷ [])
    ∷ (codes "multi_zset" ∷ codes "z" ∷ codes "k1" ∷ codes "123" ∷ codes "k2" ∷ codes "124" ∷ [])
    ∷ (codes "multi_zget" ∷ codes "z" ∷ codes "k1" ∷ codes "k2" ∷ [])
    ∷ (codes "multi_zdel" ∷ codes "z" ∷ codes "k1" ∷ codes "k2" ∷ [])
    ∷ (codes "zrank" ∷ codes "z" ∷ codes "b" ∷ [])
    ∷ (codes "zrrank" ∷ codes "z" ∷ codes "b" ∷ [])
    ∷ (codes "zclear" ∷ codes "z" ∷ [])
    ∷ []

abbrev pub queue_requests : List (List Bytes)
queue_requests =
    (codes "set" ∷ codes "k" ∷ codes "hello ssdb!" ∷ [])
    ∷ (codes "get" ∷ codes "k" ∷ [])
    ∷ (codes "qpush" ∷ codes "k" ∷ codes "hello1!" ∷ [])
    ∷ (codes "qpush" ∷ codes "k" ∷ codes "hello2!" ∷ [])
    ∷ (codes "qslice" ∷ codes "k" ∷ codes "0" ∷ codes "1" ∷ [])
    ∷ (codes "qpop" ∷ codes "k" ∷ [])
    ∷ (codes "qpop" ∷ codes "k" ∷ [])
    ∷ []

-- What the demonstration asks a server, from the first block to the last.
abbrev pub demo_requests : List (List Bytes)
demo_requests = kv_requests ++ (hash_requests ++ (zset_requests ++ queue_requests))

kv_block-Sends : (ret : ℤ) (val : Bytes) → BlockSends kv_requests (kv_block ret val)
unfolding kv_block request_of str_int str_nat flat_pairs flat_scores score_text
kv_block-Sends ret val reqs rest out more =
    (sends refl λ _. checked _ _ (
      sends refl λ _. checked _ _ (
        sends refl λ _. checked _ _ (
          sends refl λ _. checked _ _ (
            sends refl λ _. checked _ _ (
              sends refl λ _. checked _ _ (
                sends refl λ _. checked _ _ (
                  sends refl λ _. checked _ _ (
                    sends refl λ _. checked _ _ (
                      sends refl λ _. checked _ _ (
                        sends refl λ _. checked _ _ (
                          sends refl
                            λ _. checked _ _ (sends refl λ _. checked _ _ (more _ _))))))))))))))

hash_block-Sends : (val : Bytes) → BlockSends hash_requests (hash_block val)
unfolding hash_block request_of str_int str_nat flat_pairs flat_scores score_text
hash_block-Sends val reqs rest out more =
    (sends refl λ _. checked _ _ (
      sends refl λ _. checked _ _ (
        sends refl λ _. checked _ _ (
          sends refl λ _. checked _ _ (
            sends refl λ _. checked _ _ (
              sends refl λ _. checked _ _ (
                sends refl λ _. checked _ _ (
                  sends refl λ _. checked _ _ (
                    sends refl λ _. checked _ _ (
                      sends refl λ _. checked _ _ (
                        sends refl λ _. checked _ _ (
                          sends refl λ _. checked _ _ (
                            sends refl λ _.
                              (sends refl λ _.
                                checked _ _ (sends refl λ _. checked _ _ (more _ _))))))))))))))))

zset_block-Sends : (score : ℤ) → BlockSends zset_requests (zset_block score)
unfolding zset_block request_of str_int str_nat flat_pairs flat_scores score_text
zset_block-Sends score reqs rest out more =
    (sends refl λ _. checked _ _ (
      sends refl λ _. checked _ _ (
        sends refl λ _. checked _ _ (
          sends refl λ _. checked _ _ (
            sends refl λ _. checked _ _ (
              sends refl λ _. checked _ _ (
                sends refl λ _. checked _ _ (
                  sends refl λ _.
                    (sends refl λ _.
                      (sends refl λ _.
                        (sends refl λ _. checked _ _ (
                          sends refl λ _. checked _ _ (
                            sends refl λ _. checked _ _ (
                              sends refl λ _. checked _ _ (
                                sends refl λ _. checked _ _ (
                                  sends refl λ _. checked _ _ (
                                    sends refl λ _. checked _ _ (
                                      sends refl λ _. checked _ _ (
                                        sends refl λ _. checked _ _ (
                                          sends refl λ _. checked _ _ (
                                            sends refl
                                              λ _. checked _ _ (more _ _))))))))))))))))))))))

queue_block-Sends :
    (val : Bytes) (vals : List Bytes) → BlockSends queue_requests (queue_block val vals)
unfolding queue_block request_of str_int str_nat flat_pairs flat_scores score_text
queue_block-Sends val vals reqs rest out more =
    (sends refl λ _.
      (sends refl λ _.
        (sends refl
          λ _. (sends refl λ _. (sends refl λ _. (sends refl λ _. (sends refl λ _. more _ _)))))))

pub main-Sends : (name : Bytes) (ret score : ℤ) → Sends demo_requests (main name true ret score)
unfolding main blocks
main-Sends name ret score =
    let after_zset : Bytes → Unit → Bytes → Program Outcome =
      λ val _ out. queue_block val [] (λ _ out. finish (returned 0 out)) (out ++ codes "\n") in
    let after_hash : Bytes → Bytes → Program Outcome =
      λ val out. zset_block score (after_zset val) (out ++ codes "\n") in
    let after_kv : Bytes → Bytes → Program Outcome =
      λ val out. hash_block val after_hash (out ++ codes "\n") in
    kv_block-Sends ret [] _ after_kv
      (codes "Usage: " ++ c_str name ++ codes " [ip] [port]\n" ++ codes "\n")
      λ val out. hash_block-Sends val _ after_hash (out ++ codes "\n") λ val out.
        zset_block-Sends score _ (after_zset val) (out ++ codes "\n") λ _ out.
          queue_block-Sends val [] [] (λ _ out. finish (returned 0 out)) (out ++ codes "\n")
            (λ _ out. returns 0 out)
