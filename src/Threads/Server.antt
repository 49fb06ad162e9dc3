-- ===== src/Threads/Server.antt =====
-- A Redis server behind the threads of `RedisCommand` (cpp/src/CodisClient.cpp): what the calls of the pool do
-- to it.
use codis_client.Prelude.{
  ◌≡◌, refl, ◌∙◌, ◌⊎◌, inl, inr, Bool, true, false, Bool-cases, List, [], ◌∷◌, none, some, ◌==◌,
  if◌then◌else◌, bytes_eq, Bytes, ℤ,
}
use codis_client.Reply.{RedisReply}
use codis_client.Run.{Run, Yields, Yields-bind, ok, thrown, fault, exited, pure, ◌>>=◌, ◌>>◌}
use codis_client.Hiredis.{Hiredis, Ptr, null, TimeVal, State, redis_err, redis_free, redis_connect}
use codis_client.ConnPool.{
  Pool, PoolM, create, authenticate, borrow_loop, borrow_new, borrow_item, return_item, destroy,
  reconnect,
}
use codis_client.Client.{Client, on_pool, with_pool}

-- A server that answers each command that it executes; over a connection that it has closed a command is not
-- executed and gets no reply. Where `loses` is true, the reply may get lost on its way, by the time limit
-- or a broken connection. `content` is what the server holds, `execute` what a command does.
pub record Server (lib : Hiredis) : Type 1 where
  pub Content : Type 0
  pub content : lib.World → Content
  pub execute : List Bytes → Content → RedisReply × Content
  pub loses : Bool
  pub content-connect :
      (a : Bytes) (n : ℤ) (w : lib.World) → content (lib.connect a n w).1 ≡ content w
  pub content-free : (c : Ptr) (w : lib.World) → content (lib.free c w) ≡ content w
  pub content-set_timeout :
      (c : Ptr) (tv : TimeVal) (w : lib.World) → content (lib.set_timeout c tv w) ≡ content w
  pub content-command_argv :
      (c : Ptr) (argv : List Bytes) (w : lib.World)
      → lib.live w c ≡ true
      → (((lib.command_argv c argv w).0 ≡ none)
          × (content (lib.command_argv c argv w).1 ≡ content w))
        ⊎ (((lib.command_argv c argv w).0 ≡ some (execute argv (content w)).0)
            × (content (lib.command_argv c argv w).1 ≡ (execute argv (content w)).1))
        ⊎ ((loses ≡ true)
            × ((lib.command_argv c argv w).0 ≡ none)
            × (content (lib.command_argv c argv w).1 ≡ (execute argv (content w)).1))

module _ ⦃lib : Hiredis⦄ (server : Server lib) (d : server.Content) where
  -- The server holds `d`, and the pool has no password.
  abbrev Still : State Pool lib.World → Type 0
  Still s = (server.content s.world ≡ d) × (s.object.password ≡ [])

  -- Code of the pool that leaves it so.
  abbrev Calm : {A : Type 0} → PoolM A → Type 0
  Calm m = (s : State Pool lib.World) → Still s → Yields (λ _. Still) (m s)

  bind-Calm :
      {A B : Type 0} (m : PoolM A) (k : A → PoolM B)
      → Calm m
      → ((a : A) → Calm (k a))
      → Calm (m >>= k)
  bind-Calm m k h next s still = Yields-bind (λ _. Still) (λ _. Still) (m s) k (h s still) next

  if-Calm : {A : Type 0} (b : Bool) (m n : PoolM A) → Calm m → Calm n → Calm (if b then m else n)
  if-Calm true m n h h' = h
  if-Calm false m n h h' = h'

  redis_err-Calm : (c : Ptr) → Calm (redis_err c)
  redis_err-Calm c s h = elim (Bool-cases (lib.live s.world c)) [ inl e ↦ rw e h | inr e ↦ rw e tt ]

  redis_free-Calm : (c : Ptr) → Calm (redis_free c)
  redis_free-Calm c s h = elim (Bool-cases (lib.live s.world c)) [
    | inl e ↦ rw e (server.content-free c s.world ∙ h.0, h.1)
    | inr e ↦ rw e tt
  ]

  redis_connect-Calm : (a : Bytes) (n : ℤ) → Calm (redis_connect a n)
  redis_connect-Calm a n s h = (server.content-connect a n s.world ∙ h.0, h.1)

  -- A connection that failed is freed.
  tested-Calm :
      {A : Type 0} (c : Ptr) (good bad : PoolM A)
      → Calm good
      → Calm bad
      → Calm (redis_err c >>= (λ failed. if failed == 0 then good else do redis_free c; bad))
  tested-Calm c good bad h h' = bind-Calm (redis_err c) _ (redis_err-Calm c) λ failed.
      if-Calm (failed == 0) good _ h
        (bind-Calm (redis_free c) (λ _. bad) (redis_free-Calm c) (λ _. h'))

  authenticate-Calm : (password : Bytes) (c : Ptr) → password ≡ [] → Calm (authenticate password c)
  unfolding bytes_eq
  authenticate-Calm password c e s h = rw e h

  create-Calm : Calm create
  unfolding create
  create-Calm s h =
      Yields-bind (λ _. Still) (λ _. Still) (redis_connect s.object.address s.object.port s) _
        (redis_connect-Calm s.object.address s.object.port s h)
        λ ret.
          bind-Calm (if ret == null then pure 0 else redis_err ret) _
            (if-Calm (ret == null) (pure 0) (redis_err ret) (λ _ x. x) (redis_err-Calm ret))
            λ failed.
              if-Calm (failed == 0) (authenticate s.object.password ret) _
                (authenticate-Calm s.object.password ret h.1)
                (bind-Calm (redis_free ret) (λ _. pure null) (redis_free-Calm ret) (λ _ _ x. x))

  borrow_loop-Calm : (cs : List Ptr) → Calm (borrow_loop cs)
  unfolding borrow_loop
  borrow_loop-Calm [] s h = h
  borrow_loop-Calm (c ∷ cs) s h =
      tested-Calm c (pure c) (borrow_loop cs) (λ _ x. x) (borrow_loop-Calm cs) _ h

  borrow_new-Calm : Calm borrow_new
  unfolding borrow_new
  borrow_new-Calm =
      bind-Calm create _ create-Calm
        λ c s h. if-Calm (c == null) (pure null) _ (λ _ x. x) (λ _ x. x) s h

  pub borrow_item-Calm : Calm borrow_item
  unfolding borrow_item
  borrow_item-Calm s h =
      Yields-bind (λ _. Still) (λ _. Still) (borrow_loop s.object.unused s) _
        (borrow_loop-Calm s.object.unused s h)
        λ c. if-Calm (c == null) borrow_new (pure c) borrow_new-Calm (λ _ x. x)

  pub return_item-Calm : (c : Ptr) → Calm (return_item c)
  unfolding return_item
  return_item-Calm c s h = h

  destroy-Calm : (c : Ptr) → Calm (destroy c)
  unfolding destroy
  destroy-Calm c = if-Calm (c == null) (pure tt) (redis_free c) (λ _ x. x) (redis_free-Calm c)

  pub reconnect-Calm : (c : Ptr) → Calm (reconnect c)
  unfolding reconnect
  reconnect-Calm c s h =
      Yields-bind (λ _. Still) (λ _. Still) (destroy c s) _ (destroy-Calm c s h)
        λ _.
          bind-Calm (redis_connect s.object.address s.object.port) _
            (redis_connect-Calm s.object.address s.object.port)
            λ c'. tested-Calm c' (pure true) (pure false) (λ _ x. x) (λ _ x. x)

module _ ⦃lib : Hiredis⦄ (bid : Bytes) where
  -- The business ID, and a pool without a password.
  abbrev pub Plain : State Client lib.World → Type 0
  Plain s = (s.object.bid ≡ bid) × ((p : Pool) × (s.object.conn_pool ≡ some p) × (p.password ≡ []))

module _ ⦃lib : Hiredis⦄ (server : Server lib) (d : server.Content) (bid : Bytes) where
  abbrev pub Quiet : State Client lib.World → Type 0
  Quiet s = (server.content s.world ≡ d) × Plain bid s

  with_pool-Quiet :
      {A : Type 0} (o : Client) (r : Run (State Pool lib.World) A)
      → o.bid ≡ bid
      → Yields (λ _. Still server d) r
      → Yields (λ _. Quiet) (with_pool o r)
  with_pool-Quiet o (ok a t) b (h, none_) = (h, (b, (t.object, refl, none_)))
  with_pool-Quiet o (thrown t) b h = tt
  with_pool-Quiet o fault b h = tt
  with_pool-Quiet o exited b h = tt

  pub on_pool-Quiet :
      {A : Type 0} (m : PoolM A)
      → ((s : State Pool lib.World) → Still server d s → Yields (λ _. Still server d) (m s))
      → (s : State Client lib.World) → Quiet s
      → Yields (λ _. Quiet) (on_pool m s)
  on_pool-Quiet m calm s (h, (b, (p, e, none_))) = rw e (
      with_pool-Quiet s.object (m (record { object = p; world = s.world })) b
        (calm (record { object = p; world = s.world }) (h, none_)))
