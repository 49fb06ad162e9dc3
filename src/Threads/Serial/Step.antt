-- ===== src/Threads/Serial/Step.antt =====
-- What one step of a thread in `RedisCommand` (cpp/src/CodisClient.cpp) does to a server.
use codis_client.Prelude.{
  ℕ, zero, suc, ◌≡◌, refl, ap, subst, ◌∙◌, ◌⊎◌, inl, inr, Bool, true, false, Bool-cases, List, [],
  ◌∷◌, Option, none, some, length, ltb, ◌==◌, Bytes,
}
use codis_client.Reply.{RedisReply, Reply, of_redis}
use codis_client.KeyPrefix.{inner_command}
use codis_client.Run.{and_then, Run, Yields, Yields-bind, ok, thrown, fault, exited, pure}
use codis_client.Hiredis.{Hiredis, Ptr, null, TimeVal, State, redis_set_timeout, redis_command_argv}
use codis_client.ConnPool.{Pool, borrow_item, return_item, reconnect}
use codis_client.Client.{Client, on_pool, error_reply}
use codis_client.Threads.{
  Stage, step, with_a_pool, after_borrow, after_first, after_reconnect, after_second,
}
use codis_client.Threads.Server.{
  Server, Plain, Quiet, on_pool-Quiet, borrow_item-Calm, return_item-Calm, reconnect-Calm,
}
use codis_client.Threads.Serial.{Event, Attempts, Answers, Passes, Replay}

failed-Attempts :
    (loses : Bool) (argv : List Bytes) (n : ℕ) (text : Bytes) (es : List Event) (rep : Reply)
    → (es ≡ []) × (rep ≡ error_reply text)
    → Attempts loses argv n es rep
failed-Attempts loses argv zero text es rep (e, e') = (e, (text, e'))
failed-Attempts loses argv (suc n) text es rep h = inl (failed-Attempts loses argv n text es rep h)

module _ ⦃lib : Hiredis⦄ (server : Server lib) (d : server.Content) (bid : Bytes) where
  -- After a step from `st`.
  abbrev pub Traced : Stage → Stage → State Client lib.World → Type 0
  Traced st st' t =
      Plain bid t
      × ((es : List Event) × Replay server es d (server.content t.world)
          × Passes server.loses bid st es st')

  -- The call is served as at `st`.
  abbrev Alike : Stage → Stage → Type 0
  Alike st st' =
      (es : List Event) (rep : Reply)
      → Answers server.loses bid st' es rep
      → Answers server.loses bid st es rep

  Quiet-Traced :
      {A : Type 0} (st : Stage) (r : Run (State Client lib.World) A) (next : A → Stage)
      → Yields (λ _. Quiet server d bid) r
      → ((a : A) → Alike st (next a))
      → Yields (Traced st) (and_then r (λ a. pure (next a)))
  Quiet-Traced st (ok a t) next (h, plain) f = (plain, ([], h, f a))
  Quiet-Traced st (thrown t) next h f = tt
  Quiet-Traced st fault next h f = tt
  Quiet-Traced st exited next h f = tt

  set_timeout-Quiet :
      (c : Ptr) (tv : TimeVal) (s : State Client lib.World)
      → Quiet server d bid s
      → Yields (λ _. Quiet server d bid) (redis_set_timeout c tv s)
  set_timeout-Quiet c tv s (h, plain) = elim (Bool-cases (lib.live s.world c)) [
    | inl e ↦ rw e (server.content-set_timeout c tv s.world ∙ h, plain)
    | inr e ↦ rw e tt
  ]

  with_a_pool-Answers :
      (o : Option Pool) (p : Pool) (b : Bytes) (args : List Bytes) (tv : TimeVal) (es : List Event)
      (rep : Reply)
      → o ≡ some p
      → b ≡ bid
      → Answers server.loses bid (with_a_pool o (inner_command b args) tv) es rep
      → Attempts server.loses (inner_command bid args) 2 es rep
  with_a_pool-Answers none p b args tv es rep e same h = cc
  with_a_pool-Answers (some q) p b args tv es rep e same h =
      subst (λ x. Attempts server.loses (inner_command x args) 2 es rep) same h

  after_borrow-Alike :
      (argv : List Bytes) (tv : TimeVal) (c : Ptr)
      → Alike (Stage.locked argv tv) (after_borrow argv tv c)
  after_borrow-Alike argv tv c = elim (Bool-cases (c == null)) [
    | inl e ↦ rw e (failed-Attempts server.loses argv 2 _)
    | inr e ↦ rw e (λ es rep x. x)
  ]

  after_reconnect-Alike :
      (argv : List Bytes) (tv : TimeVal) (c : Ptr) (fine : Bool)
      → Alike (Stage.lost argv tv c) (after_reconnect argv tv c fine)
  after_reconnect-Alike argv tv c true = λ es rep x. x
  after_reconnect-Alike argv tv c false = failed-Attempts server.loses argv 1 _

  -- What an attempt leaves.
  abbrev Sent : List Bytes → server.Content → Option RedisReply → server.Content → Type 0
  Sent argv x r y =
      ((r ≡ none) × (y ≡ x))
      ⊎ ((r ≡ some (server.execute argv x).0) × (y ≡ (server.execute argv x).1))
      ⊎ ((server.loses ≡ true) × (r ≡ none) × (y ≡ (server.execute argv x).1))

  abbrev After : List Bytes → Option RedisReply → State Client lib.World → Type 0
  After argv r t = Plain bid t × Sent argv d r (server.content t.world)

  command_argv-Sent :
      (c : Ptr) (argv : List Bytes) (s : State Client lib.World)
      → Quiet server d bid s
      → Yields (After argv) (redis_command_argv c argv s)
  command_argv-Sent c argv s (h, plain) = elim (Bool-cases (lib.live s.world c)) [
    | inl e ↦ rw e (
      plain,
      subst
          (λ x.
            Sent argv x (lib.command_argv c argv s.world).0
              (server.content (lib.command_argv c argv s.world).1))
          h (server.content-command_argv c argv s.world e),
    )
    | inr e ↦ rw e tt
  ]

  -- The call stands at `st` before an attempt, and at `next r` after it, where `n` more attempts may follow.
  attempt-Traced :
      (st : Stage) (next : Option RedisReply → Stage) (argv : List Bytes) (c : Ptr) (n : ℕ)
      → ((es : List Event) (rep : Reply)
          → Attempts server.loses argv (suc n) es rep
          → Answers server.loses bid st es rep)
      → ((es : List Event) (rep : Reply)
          → Answers server.loses bid (next none) es rep
          → Attempts server.loses argv n es rep)
      → ((r : RedisReply) → next (some r) ≡ Stage.replied c r)
      → (r : Option RedisReply) (t : State Client lib.World) → After argv r t
      → Traced st (next r) t
  attempt-Traced st next argv c n before lost answered r t (plain, inl (e, h)) =
      rw e (plain, ([], h, λ es rep x. before es rep (inl (lost es rep x))))
  attempt-Traced st next argv c n before lost answered r t (plain, inr (inl (e, h))) =
      let rep0 = (server.execute argv d).0 in
      rw (e, answered rep0)
        (
          plain,
          (
            (argv, rep0) ∷ [],
            (refl, h),
            λ es rep x.
                before ((argv, rep0) ∷ es) rep
                  (inr (inl (rep0, ap (λ l. (argv, rep0) ∷ l) x.0, x.1))),
          ),
        )
  attempt-Traced st next argv c n before lost answered r t (plain, inr (inr (l, e, h))) =
      let rep0 = (server.execute argv d).0 in
      rw e (
        plain,
        (
          (argv, rep0) ∷ [],
          (refl, h),
          λ es rep x.
              before ((argv, rep0) ∷ es) rep (inr (inr (l, (rep0, es, refl, lost es rep x)))),
        ),
      )

  pub step-Traced :
      (st : Stage) (s : State Client lib.World)
      → Quiet server d bid s
      → Yields (Traced st) (step st s)
  unfolding step
  step-Traced (Stage.called args tt') s (h, (b, (p, e, none_))) =
      elim (Bool-cases (ltb (length args) 2)) [
        | inl short ↦
            rw short (
              (b, (p, e, none_)),
              ([], h, failed-Attempts server.loses (inner_command bid args) 2 _),
            )
        | inr long ↦ rw long (
          (b, (p, e, none_)),
          (
            [],
            h,
            λ es rep. with_a_pool-Answers s.object.conn_pool p s.object.bid args _ es rep e b,
          ),
        )
      ]
  step-Traced (Stage.waiting argv tv) s (h, plain) = (plain, ([], h, λ es rep x. x))
  step-Traced (Stage.locked argv tv) s q =
      Quiet-Traced (Stage.locked argv tv) (on_pool borrow_item s) (after_borrow argv tv)
        (on_pool-Quiet server d bid borrow_item (borrow_item-Calm server d) s q)
        (after_borrow-Alike argv tv)
  step-Traced (Stage.borrowed argv tv c) s q =
      Quiet-Traced (Stage.borrowed argv tv c) (redis_set_timeout c tv s)
        (λ _. Stage.timed argv tv c) (set_timeout-Quiet c tv s q) (λ _ es rep x. x)
  step-Traced (Stage.timed argv tv c) s q =
      Yields-bind (After argv) (Traced (Stage.timed argv tv c)) (redis_command_argv c argv s)
        (λ r. pure (after_first argv tv c r)) (command_argv-Sent c argv s q)
        (attempt-Traced (Stage.timed argv tv c) (after_first argv tv c) argv c 1 (λ es rep x. x)
          (λ es rep x. x) (λ r. refl))
  step-Traced (Stage.lost argv tv c) s q =
      Quiet-Traced (Stage.lost argv tv c) (on_pool (reconnect c) s) (after_reconnect argv tv c)
        (on_pool-Quiet server d bid (reconnect c) (reconnect-Calm server d c) s q)
        (after_reconnect-Alike argv tv c)
  step-Traced (Stage.retrying argv tv c) s q =
      Quiet-Traced (Stage.retrying argv tv c) (redis_set_timeout c tv s)
        (λ _. Stage.retimed argv tv c) (set_timeout-Quiet c tv s q) (λ _ es rep x. x)
  step-Traced (Stage.retimed argv tv c) s q =
      Yields-bind (After argv) (Traced (Stage.retimed argv tv c)) (redis_command_argv c argv s)
        (λ r. pure (after_second c r)) (command_argv-Sent c argv s q)
        (attempt-Traced (Stage.retimed argv tv c) (after_second c) argv c 0 (λ es rep x. x)
          (failed-Attempts server.loses argv 0 _) (λ r. refl))
  step-Traced (Stage.replied c r) s q =
      Quiet-Traced (Stage.replied c r) (on_pool (return_item c) s) (λ _. Stage.leaving (of_redis r))
        (on_pool-Quiet server d bid (return_item c) (return_item-Calm server d c) s q)
        (λ _ es rep x. x)
  step-Traced (Stage.leaving rep') s (h, plain) = (plain, ([], h, λ es rep x. x))
  step-Traced (Stage.done rep') s (h, plain) = (plain, ([], h, λ es rep x. x))
