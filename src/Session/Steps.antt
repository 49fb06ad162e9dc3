-- ===== src/Session/Steps.antt =====
-- The life of a `BfdCodis` (cpp/src/BfdCodis.cpp) with its `RoundRobinCodisPool` as a sequence of whole
-- calls: its construction, the methods that threads call one after another, and the calls of its watcher.
use codis_client.Prelude.{◌≡◌, sym, subst, [], ◌∷◌, none, ℤ, Bytes}
use codis_client.Run.{Run, Yields, Safe, ok, thrown, fault, exited}
use codis_client.Hiredis.{Hiredis, State}
use codis_client.Hiredis.Laws.{HiredisLaws}
use codis_client.Environment.{Environment}
use codis_client.BfdCodis.{Bfd, BfdM}
use codis_client.BfdCodis.Interface.{by_bfd, by_bfd-forward}
use codis_client.RoundRobin.{Json}
use codis_client.Methods.Interface.{Method, by_client}
use codis_client.Methods.Tame.{by_client-Tame}
use codis_client.Session.{Outside, beside, inside, new_round_robin, proxy_watcher}
use codis_client.Session.Installation.{Managed}
use codis_client.Session.Deletion.{at_bfd}
use codis_client.Session.Watching.{Supplied, new_round_robin-Supplied, proxy_watcher-Managed}
use codis_client.Session.Calls.{forward-Managed}

module _ ⦃lib : Hiredis⦄ ⦃env : Environment⦄ ⦃json : Json⦄ where
  -- A whole call of a method that returns or throws, or one of the watcher that returns.
  pub data Step (s t : State Bfd Outside) : Type 1 where
    returns : {A : Type 0} (m : Method A) (a : A) → inside (by_bfd m) s ≡ ok a t → Step s t
    throws : {A : Type 0} (m : Method A) → inside (by_bfd m) s ≡ thrown t → Step s t
    notified : (type state : ℤ) → proxy_watcher type state s ≡ ok tt t → Step s t

  -- The states after the construction, in a memory without clients, and any number of calls.
  pub data Reach : State Bfd Outside → Type 1 where
    constructed :
        (zookeeper_addr proxy_path business_id : Bytes) (w : lib.World) (v : env.World)
        {t : State Bfd Outside}
        → new_round_robin zookeeper_addr proxy_path business_id
            (at_bfd (record { clients = none ∷ []; pool = none }) w v)
          ≡ ok tt t
        → Reach t
    stepped : {s t : State Bfd Outside} → Reach s → Step s t → Reach t

  beside-Safe :
      {A : Type 0} (P : Bfd → lib.World → Type 0) (v : env.World) (r : Run (State Bfd lib.World) A)
      → Safe (λ t. P t.object t.world) r
      → Safe (λ t. P t.object t.world.0) (beside v r)
  beside-Safe P v (ok a t) h = h
  beside-Safe P v (thrown t) h = h
  beside-Safe P v fault h = tt
  beside-Safe P v exited h = tt

module _ ⦃lib : Hiredis⦄ ⦃env : Environment⦄ ⦃json : Json⦄ (laws : HiredisLaws lib) where
  call-Managed :
      {A : Type 0} (m : Method A) (s : State Bfd Outside)
      → Managed s.object s.world.0
      → Safe (λ t. Managed t.object t.world.0) (inside (by_bfd m) s)
  call-Managed m s h =
      let s' : State Bfd lib.World = record { object = s.object; world = s.world.0 } in
      beside-Safe Managed s.world.1 (by_bfd m s') (
        subst (λ (f : BfdM _). Safe (λ t. Managed t.object t.world) (f s')) (sym (by_bfd-forward m))
          (forward-Managed (by_client m) s.object s.world.0 (by_client-Tame laws m) h))

  Step-Managed :
      (s t : State Bfd Outside) → Step s t → Managed s.object s.world.0 → Managed t.object t.world.0
  Step-Managed s t (Step.returns m a e) h =
      subst (Safe (λ t. Managed t.object t.world.0)) e (call-Managed m s h)
  Step-Managed s t (Step.throws m e) h =
      subst (Safe (λ t. Managed t.object t.world.0)) e (call-Managed m s h)
  Step-Managed s t (Step.notified type state e) h =
      subst (Yields (λ _ t. Managed t.object t.world.0)) e
        (proxy_watcher-Managed laws type state s.object s.world.0 s.world.1 h)

  -- After the construction and any sequence of whole calls of methods other than `mget2`, which return or
  -- throw, and of the watcher, the pool and all its clients are in order: the clients of the pool are
  -- different and exist, no other client does, all locks are free, and the connections in the
  -- pools of all clients are live and pairwise different.
  pub Reach-Managed : (s : State Bfd Outside) → Reach s → Managed s.object s.world.0
  Reach-Managed s (Reach.constructed zookeeper_addr proxy_path business_id w v e) =
      (subst (Yields Supplied) e
        (new_round_robin-Supplied laws zookeeper_addr proxy_path business_id w v)).0
  Reach-Managed t (Reach.stepped {s} r step) = Step-Managed s t step (Reach-Managed s r)
