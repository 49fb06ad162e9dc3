-- ===== src/Session/Deletion.antt =====
-- `delete` of the clients of a `RoundRobinCodisPool` (cpp/src/RoundRobinCodisPool.cpp), with the
-- destructors of `CodisClient` and `RedisClientPool` that it runs.
use codis_client.Prelude.{
  All-set, All-get_elem?, ◌≡◌, ◌≢◌, refl, sym, ap, subst, false, ◌∙◌, List, [], ◌∷◌, ◌++◌, Option,
  none, some, get_elem?, set, All, All-In, All-weaken, In, inl, inr, Distinct, get_elem?-set_ne,
  set-set, ==_ne,
}
use codis_client.Run.{ok, and_then}
use codis_client.Hiredis.{Hiredis, Ptr, null, State}
use codis_client.Hiredis.Laws.{HiredisLaws}
use codis_client.Environment.{Environment}
use codis_client.ConnPool.{Pool, delete_pool}
use codis_client.ConnPool.Ownership.{Holds, Holds-perm}
use codis_client.ConnPool.Reuse.{free_all}
use codis_client.ConnPool.Deletion.{
  destroy_all-free_all, Holds-free_all, dead_after_frees, All-dead_after_frees,
}
use codis_client.Client.{Client, delete_client, delete_pool_of, with_pool, on_pool_of}
use codis_client.Client.Steps.{at_pool}
use codis_client.BfdCodis.{Bfd, on_client_at, with_client}
use codis_client.Session.{Outside, delete_proxy, delete_proxies, beside, set_client}
use codis_client.Session.Memory.{pool_idle, idle, ReadyIf, Exists, idle-take, clear, Sound}

module _ ⦃lib : Hiredis⦄ where
  abbrev pub at_client : Client → lib.World → State Client lib.World
  at_client o w = record { object = o; world = w }

module _ ⦃lib : Hiredis⦄ (laws : HiredisLaws lib) where
  delete_pool-free_all :
      (p : Pool) (hs : List Ptr) (w : lib.World)
      → Holds w (p.unused ++ hs)
      → delete_pool (at_pool p w) ≡ ok tt (at_pool p (free_all p.unused w))
  unfolding delete_pool
  delete_pool-free_all p hs w h = destroy_all-free_all laws p.unused hs (at_pool p w) h

  -- The destructor of a client.
  pub delete_client-free_all :
      (o : Client) (p : Pool) (hs : List Ptr) (w : lib.World)
      → o.conn_pool ≡ some p
      → Holds w (p.unused ++ hs)
      → delete_client (at_client o w)
        ≡ ok tt (at_client (record o { conn_pool = none }) (free_all p.unused w))
  unfolding delete_client
  delete_client-free_all o p hs w e h =
      ap (λ x. delete_pool_of x (at_client o w)) e
      ∙ ap
          (λ x.
            and_then (on_pool_of x delete_pool (at_client o w))
              (λ _ s. ok tt (record s { object = record s.object { conn_pool = none } })))
          e
      ∙ ap
          (λ x.
            and_then (with_pool o x)
              (λ _ s. ok tt (record s { object = record s.object { conn_pool = none } })))
          (delete_pool-free_all p hs w h)

module _ ⦃lib : Hiredis⦄ ⦃env : Environment⦄ where
  abbrev pub at_bfd : Bfd → lib.World → env.World → State Bfd Outside
  at_bfd b w v = record { object = b; world = (w, v) }

module _ ⦃lib : Hiredis⦄ ⦃env : Environment⦄ (laws : HiredisLaws lib) where
  delete_proxy-clear :
      (c : Ptr) (o : Client) (p : Pool) (b : Bfd) (w : lib.World) (v : env.World)
      → c ≢ null
      → get_elem? b.clients c ≡ some (some o)
      → o.conn_pool ≡ some p
      → Holds w (p.unused ++ idle (set b.clients c none))
      → delete_proxy c (at_bfd b w v)
        ≡ ok tt (at_bfd (record b { clients = set b.clients c none }) (free_all p.unused w) v)
  unfolding delete_proxy
  delete_proxy-clear c o p b w v ne at e h =
      let b' : Bfd = record b {
        clients = set b.clients c (some (record o { conn_pool = none }));
      } in
      rw (==_ne c null ne) (
        ap
          (λ x.
            and_then (beside v (on_client_at x c delete_client (record { object = b; world = w })))
              (λ _. set_client c none))
          at
        ∙ ap (λ x. and_then (beside v (with_client b c x)) (λ _. set_client c none))
            (delete_client-free_all laws o p (idle (set b.clients c none)) w e h)
        ∙ ap (λ os. ok tt (at_bfd (record b { clients = os }) (free_all p.unused w) v))
            (set-set b.clients c (some (record o { conn_pool = none })) none))

module _ ⦃lib : Hiredis⦄ where
  abbrev pub AllDead : lib.World → List Ptr → Type 0
  AllDead w = All (λ q. lib.live w q ≡ false)

  -- The connections that the pools of these clients held are freed.
  abbrev pub Freed : List (Option Client) → List Ptr → lib.World → Type 0
  Freed os cs w =
      (c : Ptr)
      → In c cs
      → (o : Client) → get_elem? os c ≡ some (some o)
      → AllDead w (pool_idle o.conn_pool)

  -- What is freed in the one world is freed in the other.
  abbrev pub StayDead : lib.World → lib.World → Type 0
  StayDead w w' = (q : Ptr) → lib.live w q ≡ false → lib.live w' q ≡ false

  Freed-first :
      (os : List (Option Client)) (c : Ptr) (cs : List Ptr) (o : Client) (p : Pool)
      (w w' : lib.World)
      → get_elem? os c ≡ some (some o)
      → o.conn_pool ≡ some p
      → All (λ q. q ≢ c) cs
      → AllDead w p.unused
      → StayDead w w'
      → Freed (set os c none) cs w'
      → Freed os (c ∷ cs) w'
  Freed-first os c cs o p w w' at e apart dead stay freed d (inl same) o' at' =
      let same_client : o' ≡ o = cc in
      let same_pool : o'.conn_pool ≡ some p = ap (λ x. x.conn_pool) same_client ∙ e in
      subst (λ x. AllDead w' (pool_idle x)) (sym same_pool)
        (All-weaken _ _ p.unused (λ q h. stay q h) dead)
  Freed-first os c cs o p w w' at e apart dead stay freed d (inr later) o' at' =
      freed d later o' (get_elem?-set_ne os c d none (All-In (λ q. q ≢ c) cs d apart later) ∙ at')

module _ ⦃lib : Hiredis⦄ ⦃env : Environment⦄ (laws : HiredisLaws lib) where
  -- `delete` of all clients at those addresses succeeds, frees all connections of their pools, and leaves the rest
  -- of the memory sound.
  pub delete_proxies-clear :
      (cs : List Ptr) (b : Bfd) (w : lib.World) (v : env.World)
      → Distinct cs
      → All (Exists b.clients) cs
      → Sound b.clients w
      → (w' : lib.World) × (delete_proxies cs (at_bfd b w v)
          ≡ ok tt (at_bfd (record b { clients = clear b.clients cs }) w' v))
        × Sound (clear b.clients cs) w'
        × Freed b.clients cs w'
        × StayDead w w'
  unfolding delete_proxies clear
  delete_proxies-clear [] b w v apart exist sound = (w, refl, sound, (λ c h. absurd h), (λ q h. h))
  delete_proxies-clear (c ∷ cs) b w v (ne, apart) ((o, at, c_), exist) (holds, ready) =
      let (p, e, no_, idle_) = All-get_elem? ReadyIf b.clients c (some o) ready at in
      let apart' : Holds w (p.unused ++ idle (set b.clients c none)) =
        subst (λ x. Holds w (pool_idle x ++ idle (set b.clients c none))) e
          (Holds-perm w (idle-take b.clients c o at) holds) in
      let b' : Bfd = record b { clients = set b.clients c none } in
      let (w', rest, sound', freed, stay) =
        delete_proxies-clear cs b' (free_all p.unused w) v apart
          (exist_after b.clients c cs ne exist)
          (
            Holds-free_all laws p.unused (idle (set b.clients c none)) w apart',
            All-set ReadyIf b.clients c none tt ready,
          ) in
      (
        w',
        ap (λ x. and_then x (λ _. delete_proxies cs))
              (delete_proxy-clear laws c o p b w v c_ at e apart')
            ∙ rest,
        sound',
        Freed-first b.clients c cs o p (free_all p.unused w) w' at e ne
            (All-dead_after_frees laws p.unused w) stay freed,
        λ q h. stay q (dead_after_frees laws p.unused w q h),
      )
    where
      exist_after :
          (os : List (Option Client)) (c : Ptr) (ds : List Ptr)
          → All (λ q. q ≢ c) ds
          → All (Exists os) ds
          → All (Exists (set os c none)) ds
      exist_after os c [] n h = tt
      exist_after os c (d ∷ ds) n h =
          ((h.0.0, get_elem?-set_ne os c d none n.0 ∙ h.0.1, h.0.2), exist_after os c ds n.1 h.1)
