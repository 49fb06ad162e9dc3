-- ===== src/Session/Watching.antt =====
-- The constructor of `RoundRobinCodisPool` and its watcher (cpp/src/RoundRobinCodisPool.cpp).
use mathlib.Core.List.{Nodup-nil, not-mem-nil}
use codis_client.Session.Memory.{idle}
use codis_client.Prelude.{
  ℕ, zero, suc, ◌+◌, ◌<◌, ◌≡◌, ◌≢◌, inl, inr, arith, refl, sym, subst, Bool, true, false, ◌&&◌,
  List, [], ◌∷◌, none, some, length, get_elem?, ℤ, int_eq, Bytes, ◌==◌, if◌then◌else◌, Bool-cases,
  ==_ne,
}
use codis_client.Run.{
  Run, Yields, Yields-bind, Yields-mono, Ends-Yields, ok, pure, exit, and_then, ◌>>=◌, ◌>>◌,
}
use codis_client.Hiredis.{Hiredis, Ptr, State}
use codis_client.Hiredis.Laws.{HiredisLaws}
use codis_client.Environment.{Environment}
use codis_client.Client.{Client}
use codis_client.BfdCodis.{Bfd}
use codis_client.RoundRobin.{RoundRobin, Json}
use codis_client.Session.{
  Outside, SessionM, robin_of, call, run, put_robin, wait_connected, get_proxy_infos, init,
  init_proxy_conns, connect, blank, new_round_robin, reconnect_session, proxy_watcher,
}
use codis_client.Session.Deletion.{at_bfd}
use codis_client.Session.Installation.{Managed, Installed, Renewed, init_proxy_conns-Ends}
use codis_client.Session.Reading.{Reads, get_proxy_infos-Reads}

-- A fact about every branch of the watcher.
branches :
    {A : Type 0} (P : A → Type 0) (a b c d : Bool) (x y z : A)
    → P x
    → P y
    → P z
    → P (if a then x else if b then x else if c then z else if d then y else z)
branches P true b c d x y z p q r = p
branches P false true c d x y z p q r = p
branches P false false true d x y z p q r = r
branches P false false false true x y z p q r = q
branches P false false false false x y z p q r = r

module _ ⦃lib : Hiredis⦄ ⦃env : Environment⦄ where
  wait_connected-Reads :
      (n : ℕ) (zh : Ptr) (b : Bfd) (w : lib.World) (v : env.World)
      → Yields (Reads b w) (wait_connected n zh (at_bfd b w v))
  unfolding wait_connected
  wait_connected-Reads zero zh b w v = ((env.state zh v).1, refl)
  wait_connected-Reads (suc n) zh b w v =
      let (st, v1) = env.state zh v in
      elim (Bool-cases (int_eq st env.connected_state)) [
        | inl yes_ ↦ rw yes_ (v1, refl)
        | inr no_ ↦ rw no_ (wait_connected-Reads n zh b w (env.usleep 30000 v1))
      ]

  -- The environment after a poll of the session that does not find it connected, and the sleep.
  abbrev pub slept : Ptr → env.World → env.World
  slept zh v = env.usleep 30000 (env.state zh v).1

  -- The session is found connected at the poll number `k`, and not before.
  abbrev pub ConnectsAfter : ℕ → Ptr → env.World → Type 0
  ConnectsAfter zero zh v = int_eq (env.state zh v).0 env.connected_state ≡ true
  ConnectsAfter (suc k) zh v =
      (int_eq (env.state zh v).0 env.connected_state ≡ false) × ConnectsAfter k zh (slept zh v)

  abbrev pub after_polls : ℕ → Ptr → env.World → env.World
  after_polls zero zh v = (env.state zh v).1
  after_polls (suc k) zh v = after_polls k zh (slept zh v)

  -- The wait for the session ends at the first poll that finds it connected, if that is among the
  -- first `n`, with the rounds that are left.
  pub wait_connected_ends :
      (n k : ℕ) (zh : Ptr) (b : Bfd) (w : lib.World) (v : env.World)
      → ConnectsAfter k zh v
      → k < n
      → (left : ℕ) × (left + k ≡ n)
        × (wait_connected n zh (at_bfd b w v) ≡ ok left (at_bfd b w (after_polls k zh v)))
  unfolding wait_connected
  wait_connected_ends zero k zh b w v h lt = absurd (omega arith)
  wait_connected_ends (suc n) zero zh b w v h lt = (suc n, omega arith, rw h refl)
  wait_connected_ends (suc n) (suc k) zh b w v (no_, h) lt =
      let (left, sum, e) = wait_connected_ends n k zh b w (slept zh v) h (omega arith) in
      (left, omega arith, rw no_ e)

module _ ⦃lib : Hiredis⦄ ⦃env : Environment⦄ where
  -- The pool is in order, and its clients are those for some proxies, at least one.
  abbrev pub Supplied : Unit {0} → State Bfd Outside → Type 0
  Supplied _ t =
      Managed t.object t.world.0
      × ((infos : List (Bytes × ℤ)) × (infos ≢ []) × Installed infos t.object)

module _ ⦃lib : Hiredis⦄ ⦃env : Environment⦄ ⦃json : Json⦄ (laws : HiredisLaws lib) where
  supply :
      (infos : List (Bytes × ℤ)) (b : Bfd) (w : lib.World) (v : env.World)
      → Managed b w
      → Yields Supplied
          ((if length infos == 0 then exit else init_proxy_conns infos) (at_bfd b w v))
  supply [] b w v m = tt
  supply (i ∷ infos) b w v m = rw (==_ne (length (i ∷ infos)) 0 (omega arith)) (
      Yields-mono (λ _. Renewed (i ∷ infos) b m) Supplied
        (init_proxy_conns (i ∷ infos) (at_bfd b w v))
        (Ends-Yields ⊥ (λ _. Renewed (i ∷ infos) b m) (init_proxy_conns (i ∷ infos) (at_bfd b w v))
          (init_proxy_conns-Ends laws (i ∷ infos) b w v m))
        (λ _ t (m', inst, gone). (m', (i ∷ infos, λ e. cc, inst))))

  pub init-Supplied :
      (b : Bfd) (w : lib.World) (v : env.World)
      → Managed b w
      → Yields Supplied (init (at_bfd b w v))
  unfolding init
  init-Supplied b w v m =
      let k =
        λ (infos : List (Bytes × ℤ)). if length infos == 0 then exit else init_proxy_conns infos in
      subst
        (λ x.
          Yields Supplied
            (and_then (robin_of x (at_bfd b w v)) (λ r. get_proxy_infos r.zh r.proxy_path >>= k)))
        (sym m.has)
        (Yields-bind (Reads b w) Supplied (get_proxy_infos m.r.zh m.r.proxy_path (at_bfd b w v)) k
          (get_proxy_infos-Reads m.r.zh m.r.proxy_path b w v)
          λ infos t (v1, e). rw e (supply infos b w v1 m))

  with_handle :
      (b : Bfd) (w : lib.World) (m : Managed b w) (zh : Ptr)
      → Managed (record b { pool = some (record m.r { zh = zh }) }) w
  with_handle b w m zh = record {
    r = record m.r { zh = zh };
    has = refl;
    apart = m.apart;
    exist = m.exist;
    only = m.only;
    sound = m.sound;
    room = m.room;
  }

  pub connect-Supplied :
      (b : Bfd) (w : lib.World) (v : env.World)
      → Managed b w
      → Yields Supplied (connect (at_bfd b w v))
  unfolding connect
  connect-Supplied b w v m =
      let r = m.r in
      let (zh, v1) = env.init r.zookeeper_addr 10000 v in
      let b' : Bfd = record b { pool = some (record r { zh = zh }) } in
      let k = λ (left : ℕ). if left == 0 then exit else init in
      let later = λ (x : RoundRobin). call (env.init x.zookeeper_addr 10000) >>= λ h.
      put_robin (record x { zh = h }) >> (wait_connected 10000 h >>= k) in
      subst (λ x. Yields Supplied (and_then (robin_of x (at_bfd b w v)) later)) (sym m.has)
        (Yields-bind (Reads b' w) Supplied (wait_connected 10000 zh (at_bfd b' w v1)) k
          (wait_connected-Reads 10000 zh b' w v1)
          λ left t (v2, e). rw e (elim (Bool-cases (left == 0)) [
            | inl none_left ↦ rw none_left tt
            | inr some_left ↦ rw some_left (init-Supplied b' w v2 (with_handle b w m zh))
          ]))

  -- Where the constructor, in a memory without clients, returns, the pool has at least one proxy, its clients are new
  -- ones for its proxies, no other client exists, and all is in order.
  pub new_round_robin-Supplied :
      (zookeeper_addr proxy_path business_id : Bytes) (w : lib.World) (v : env.World)
      → Yields Supplied (
          new_round_robin zookeeper_addr proxy_path business_id
            (at_bfd (record { clients = none ∷ []; pool = none }) w v))
  unfolding new_round_robin idle
  new_round_robin-Supplied zookeeper_addr proxy_path business_id w v =
      let r = blank zookeeper_addr proxy_path business_id in
      connect-Supplied (record { clients = none ∷ []; pool = some r }) w v
        (record {
          r = r;
          has = refl;
          apart = tt;
          exist = tt;
          only = λ c o h. nobody c o h;
          sound = ((Nodup-nil, λ c h. absurd (not-mem-nil h)), (tt, tt));
          room = omega arith;
        })
    where
      nobody : (c : Ptr) (o : Client) → get_elem? (none ∷ []) c ≡ some (some o) → ⊥
      nobody zero o h = cc
      nobody (suc c) o h = cc

  reconnect_session-Supplied :
      (b : Bfd) (w : lib.World) (v : env.World)
      → Managed b w
      → Yields Supplied (reconnect_session (at_bfd b w v))
  reconnect_session-Supplied b w v m =
      subst
        (λ x.
          Yields Supplied
            (and_then (robin_of x (at_bfd b w v)) (λ r. run (env.close r.zh) >> connect)))
        (sym m.has) (connect-Supplied b w (env.close m.r.zh v) m)

  -- Whatever the event, where the watcher of a pool in order returns, the pool and all of its clients are in
  -- order: different, existing, no other client left, their connections live and different.
  pub proxy_watcher-Managed :
      (type state : ℤ) (b : Bfd) (w : lib.World) (v : env.World)
      → Managed b w
      → Yields (λ _ t. Managed t.object t.world.0) (proxy_watcher type state (at_bfd b w v))
  unfolding proxy_watcher
  proxy_watcher-Managed type state b w v m =
      let fresh = weaken (reconnect_session (at_bfd b w v)) (reconnect_session-Supplied b w v m) in
      let renewed =
        weaken (init (at_bfd b w (env.sleep 5 v))) (init-Supplied b w (env.sleep 5 v) m) in
      let P = λ (m : SessionM (Unit {0})).
        Yields (λ _ t. Managed t.object t.world.0) (m (at_bfd b w v)) in
      branches P (int_eq type env.session_event && int_eq state env.connecting_state)
        (int_eq type env.session_event && int_eq state env.expired_session_state)
        (int_eq type env.session_event && int_eq state env.connected_state)
        (int_eq state env.connected_state && int_eq type env.child_event) reconnect_session
        (run (env.sleep 5) >> init) (pure tt) fresh renewed m
    where
      weaken :
          (r : Run (State Bfd Outside) (Unit {0}))
          → Yields Supplied r
          → Yields (λ _ t. Managed t.object t.world.0) r
      weaken r h = Yields-mono Supplied (λ _ t. Managed t.object t.world.0) r h (λ _ t s. s.0)
