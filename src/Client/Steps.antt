-- ===== src/Client/Steps.antt =====
-- The steps of `CodisClient::RedisCommand` (cpp/src/CodisClient.cpp) and who owns the connections of
-- the client between them.
use codis_client.Prelude.{Option, ℕ, suc, ◌≡◌, refl, ◌∙◌, subst, sym, List, ◌∷◌, some, arith, Bytes}
use codis_client.Reply.{RedisReply, Reply, of_redis}
use codis_client.Run.{Run, Returns, Returns-bind, ok, thrown, fault, exited}
use codis_client.Hiredis.{Hiredis, Ptr, TimeVal, State, redis_set_timeout, redis_command_argv}
use codis_client.Hiredis.Laws.{HiredisLaws}
use codis_client.ConnPool.{Pool, PoolM, return_item}
use codis_client.ConnPool.Ownership.{Owns, return_item-Owns}
use codis_client.ConnPool.Reconnect.{live_of_Owns}
use codis_client.Client.{Client, with_pool, on_pool, on_pool_of, answer, finish}

module _ ⦃lib : Hiredis⦄ where
  abbrev pub at_pool : Pool → lib.World → State Pool lib.World
  at_pool p w = record { object = p; world = w }

  -- The client has a pool; `hs` is what has been borrowed from it, and `n` threads hold the read lock.
  abbrev pub Settled : List Ptr → ℕ → State Client lib.World → Type 0
  Settled hs n s =
      (p : Pool) × (s.object.conn_pool ≡ some p)
      × Owns hs (at_pool p s.world)
      × (s.object.readers ≡ n)

  -- The command `argv` was sent over `c`, which gave the reply `r` and the world `w`.
  abbrev pub Sent : Ptr → List Bytes → Option RedisReply → lib.World → Type 0
  Sent c argv r w = (v : lib.World) × (lib.command_argv c argv v ≡ (r, w))

  -- After a method of the pool that began in the state `s`.
  abbrev pub After :
      {A : Type 0}
      → (A → State Pool lib.World → Type 0)
      → State Client lib.World
      → A
      → State Client lib.World
      → Type 0
  After P s a t =
      (q : Pool) × (t.object.conn_pool ≡ some q)
      × P a (at_pool q t.world)
      × (t.object.readers ≡ s.object.readers)

  with_pool-Returns :
      {A : Type 0} (P : A → State Pool lib.World → Type 0) (c : Client)
      (r : Run (State Pool lib.World) A)
      → Returns P r
      → Returns
          (λ a t.
            (q : Pool) × (t.object.conn_pool ≡ some q)
            × P a (at_pool q t.world)
            × (t.object.readers ≡ c.readers))
          (with_pool c r)
  with_pool-Returns P c (ok a t) h = (t.object, refl, h, refl)
  with_pool-Returns P c (thrown t) h = h
  with_pool-Returns P c fault h = h
  with_pool-Returns P c exited h = h

  pub on_pool-Returns :
      {A : Type 0} (P : A → State Pool lib.World → Type 0) (m : PoolM A) (p : Pool)
      (s : State Client lib.World)
      → s.object.conn_pool ≡ some p
      → Returns P (m (at_pool p s.world))
      → Returns (After P s) (on_pool m s)
  on_pool-Returns {A} P m p s e h =
      subst (λ x. Returns (After P s) (on_pool_of x m s)) (sym e) (with_pool-Returns P s.object _ h)

module _ ⦃lib : Hiredis⦄ (laws : HiredisLaws lib) (hs : List Ptr) (n : ℕ) where
  pub set_timeout-Settled :
      (c : Ptr) (tv : TimeVal) (s : State Client lib.World)
      → Settled (c ∷ hs) n s
      → Returns (λ _. Settled (c ∷ hs) n) (redis_set_timeout c tv s)
  set_timeout-Settled c tv s (p, e, owns, r) =
      rw (live_of_Owns laws hs c (at_pool p s.world) owns)
        (p, e, ((owns.0.0, λ q m. laws.live-set_timeout c tv s.world q ∙ owns.0.1 q m), owns.1), r)

  pub command_argv-Settled :
      (c : Ptr) (argv : List Bytes) (s : State Client lib.World)
      → Settled (c ∷ hs) n s
      → Returns (λ r t. Settled (c ∷ hs) n t × Sent c argv r t.world) (redis_command_argv c argv s)
  command_argv-Settled c argv s (p, e, owns, r) =
      rw (live_of_Owns laws hs c (at_pool p s.world) owns) (
        (
          p,
          e,
          ((owns.0.0, λ q m. laws.live-command_argv c argv s.world q ∙ owns.0.1 q m), owns.1),
          r,
        ),
        (s.world, refl),
      )

  pub answer-Settled :
      (rep : Reply) (s : State Client lib.World)
      → Settled hs (suc n) s
      → Returns (λ _. Settled hs n) (answer rep s)
  answer-Settled rep s (p, e, owns, r) = (p, e, owns, omega arith)

  pub finish-Settled :
      (c : Ptr) (r : RedisReply) (s : State Client lib.World)
      → Settled (c ∷ hs) (suc n) s
      → Returns (λ _. Settled hs n) (finish c r s)
  unfolding finish
  finish-Settled c r s (p, e, owns, l) =
      Returns-bind _ (λ _. Settled hs n) (on_pool (return_item c) s) _
        (on_pool-Returns (λ _. Owns hs) (return_item c) p s e
          (return_item-Owns laws hs c (at_pool p s.world) owns))
        λ _ t (q, e', owns', l'). answer-Settled (of_redis r) t (q, e', owns', l' ∙ l)
