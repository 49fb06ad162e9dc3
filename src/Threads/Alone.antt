-- ===== src/Threads/Alone.antt =====
-- The steps of one thread, without others, against `RedisCommand` (cpp/src/CodisClient.cpp) as a whole.
use codis_client.Prelude.{
  ℕ, zero, suc, ◌≡◌, refl, inl, inr, Bool, true, false, Bool-cases, List, Option, none, some,
  length, ltb, ◌==◌, ℤ, Bytes, codes,
}
use codis_client.Reply.{RedisReply, Reply, of_redis}
use codis_client.KeyPrefix.{inner_command}
use codis_client.Run.{Run, M, ok, thrown, fault, exited, pure, and_then, ◌>>=◌}
use codis_client.Hiredis.{Hiredis, Ptr, null, TimeVal, State, redis_set_timeout, redis_command_argv}
use codis_client.ConnPool.{Pool, borrow_item, return_item, reconnect}
use codis_client.Client.{
  Client, ClientM, time_val, on_pool, answer, error_reply, finish, second_reply, retry, first_reply,
  attempt, send_to, send, redis_command,
}
use codis_client.Threads.{
  Stage, step, with_a_pool, after_borrow, after_first, after_reconnect, after_second,
}

module _ ⦃lib : Hiredis⦄ where
  -- `n` steps of one call.
  unfoldable pub steps : ℕ → Stage → ClientM Stage
  unfolding step
  steps zero st = pure st
  steps (suc n) st = do st' ← step st; steps n st'

  -- The stage at the end of a call.
  abbrev ended : Reply → ClientM Stage
  ended rep = pure (Stage.done rep)

  bind_alike :
      {S A B C D : Type 0} (r : Run S A) (f : A → M S B) (g : B → M S D) (h : A → M S C)
      (k : C → M S D)
      → ((a : A) (s : S) → and_then (f a s) g ≡ and_then (h a s) k)
      → and_then (and_then r f) g ≡ and_then (and_then r h) k
  bind_alike (ok a s) f g h k same = same a s
  bind_alike (thrown s) f g h k same = refl
  bind_alike fault f g h k same = refl
  bind_alike exited f g h k same = refl

  steps-done :
      (n : ℕ) (rep : Reply) (s : State Client lib.World)
      → steps n (Stage.done rep) s ≡ ok (Stage.done rep) s
  unfolding steps
  steps-done zero rep s = refl
  steps-done (suc n) rep s = steps-done n rep s

  steps-leaving :
      (n : ℕ) (rep : Reply) (s : State Client lib.World)
      → steps (suc n) (Stage.leaving rep) s ≡ (answer rep >>= ended) s
  unfolding steps
  steps-leaving n rep s = steps-done n rep _

  steps-replied :
      (n : ℕ) (c : Ptr) (r : RedisReply) (s : State Client lib.World)
      → steps (suc (suc n)) (Stage.replied c r) s ≡ (finish c r >>= ended) s
  unfolding steps finish
  steps-replied n c r s =
      bind_alike (on_pool (return_item c) s) _ (steps (suc n)) _ ended
        λ _ t. steps-leaving n (of_redis r) t

  steps-second :
      (n : ℕ) (c : Ptr) (r : Option RedisReply) (s : State Client lib.World)
      → steps (suc (suc n)) (after_second c r) s ≡ (second_reply c r >>= ended) s
  unfolding second_reply
  steps-second n c none s = steps-leaving (suc n) (error_reply (codes "Do Command faild.")) s
  steps-second n c (some r) s = steps-replied n c r s

  -- From the second attempt on.
  steps-retry :
      (n : ℕ) (argv : List Bytes) (tv : TimeVal) (c : Ptr) (fine : Bool)
      (s : State Client lib.World)
      → steps (suc (suc (suc (suc n)))) (after_reconnect argv tv c fine) s
        ≡ (retry c argv tv fine >>= ended) s
  unfolding steps retry
  steps-retry n argv tv c false s =
      steps-leaving (suc (suc (suc n))) (error_reply (codes "reconnect faild!")) s
  steps-retry n argv tv c true s =
      bind_alike (redis_set_timeout c tv s) _ (steps (suc (suc (suc n)))) _ ended λ _ t.
        bind_alike (redis_command_argv c argv t) _ (steps (suc (suc n))) (second_reply c) ended
          λ r u. steps-second n c r u

  steps-first :
      (n : ℕ) (argv : List Bytes) (tv : TimeVal) (c : Ptr) (r : Option RedisReply)
      (s : State Client lib.World)
      → steps (suc (suc (suc (suc (suc n))))) (after_first argv tv c r) s
        ≡ (first_reply c argv tv r >>= ended) s
  unfolding steps first_reply
  steps-first n argv tv c none s =
      bind_alike (on_pool (reconnect c) s) _ (steps (suc (suc (suc (suc n))))) (retry c argv tv)
        ended λ fine t. steps-retry n argv tv c fine t
  steps-first n argv tv c (some r) s = steps-replied (suc (suc (suc n))) c r s

  steps-attempt :
      (n : ℕ) (argv : List Bytes) (tv : TimeVal) (c : Ptr) (s : State Client lib.World)
      → steps (suc (suc (suc (suc (suc (suc (suc n))))))) (after_borrow argv tv c) s
        ≡ (attempt argv tv c >>= ended) s
  unfolding steps attempt
  steps-attempt n argv tv c s = elim (Bool-cases (c == null)) [
    | inl none_ ↦ rw none_ (
        steps-leaving (suc (suc (suc (suc (suc (suc n))))))
          (error_reply (codes "context is NULL !!")) s)
    | inr some_ ↦ rw some_ (
        bind_alike (redis_set_timeout c tv s) _ (steps (suc (suc (suc (suc (suc (suc n))))))) _
          ended
          λ _ t.
            bind_alike (redis_command_argv c argv t) _ (steps (suc (suc (suc (suc (suc n))))))
              (first_reply c argv tv) ended λ r u. steps-first n argv tv c r u)
  ]

  steps-send_to :
      (o : Option Pool) (argv : List Bytes) (tv : TimeVal) (s : State Client lib.World)
      → steps 9 (with_a_pool o argv tv) s ≡ (send_to o argv tv >>= ended) s
  unfolding steps send_to
  steps-send_to none argv tv s = steps-done 9 _ s
  steps-send_to (some p) argv tv s =
      bind_alike (on_pool borrow_item _) _ (steps 7) (attempt argv tv) ended
        λ c t. steps-attempt 0 argv tv c t

  -- A call of `RedisCommand` that is not interrupted takes at most ten steps, and with them it does what
  -- the function does as a whole, with any outcome: a result, an undefined behaviour, or the end of
  -- the process.
  pub steps-redis_command :
      (args : List Bytes) (tt' : ℤ) (s : State Client lib.World)
      → steps 10 (Stage.called args tt') s
        ≡ and_then (redis_command args tt' s) (λ rep. pure (Stage.done rep))
  unfolding steps redis_command send
  steps-redis_command args tt' s = elim (Bool-cases (ltb (length args) 2)) [
    | inl short ↦ rw short (steps-done 9 _ s)
    | inr long ↦
        rw long
          (steps-send_to s.object.conn_pool (inner_command s.object.bid args) (time_val tt') s)
  ]
