-- ===== src/Session/Installation.antt =====
-- `InitProxyConns` of cpp/src/RoundRobinCodisPool.cpp, and what holds of the pool and its clients between
-- its calls.
use codis_client.Prelude.{
  true, false, ◌⊎◌, ℕ, ◌≤◌, ◌<◌, ◌≡◌, ◌≢◌, inl, inr, arith, refl, sym, ap, subst, ◌∙◌, List, [],
  ◌∷◌, Option, none, some, length, get_elem?, get_elem?-lt, All, All-In, All-weaken, Distinct, In,
  ℤ, Bytes,
}
use codis_client.Run.{
  Ends, Ends-mono, Ends-Returns, Returns, Returns-bind, Returns-mono, Returns-Ends, fault, exited,
  and_then, ◌>>=◌, ◌>>◌,
}
use codis_client.Hiredis.{Hiredis, Ptr, null, State}
use codis_client.Hiredis.Laws.{HiredisLaws}
use codis_client.Environment.{Environment}
use codis_client.Client.{Client, ClientM}
use codis_client.RoundRobin.{RoundRobin}
use codis_client.BfdCodis.{Bfd, on_client, on_client_at}
use codis_client.ConnPool.Ownership.{Holds}
use codis_client.Session.{
  Outside, SessionM, inside, beside, robin_of, put_robin, new_proxies, delete_proxies,
  init_proxy_conns,
}
use codis_client.Session.Memory.{Exists, clear, clear-kept, clear-only, length-clear, Sound}
use codis_client.Session.Deletion.{at_bfd, Freed, delete_proxies-clear}
use codis_client.Session.Creation.{
  Serving, Grown, new_proxies-Grown, threads_made, new_proxies-cases,
}

-- The pool `r` is there; its clients are different and exist, no other client does, and everything that
-- they hold is in order.
pub record Managed ⦃lib : Hiredis⦄ (b : Bfd) (w : lib.World) : Type 0 where
  pub r : RoundRobin
  pub has : b.pool ≡ some r
  pub apart : Distinct r.proxys
  pub exist : All (Exists b.clients) r.proxys
  pub only : (c : Ptr) (o : Client) → get_elem? b.clients c ≡ some (some o) → In c r.proxys
  pub sound : Sound b.clients w
  pub room : 0 < length b.clients

-- The clients of the pool are those for these proxies.
abbrev pub Installed : List (Bytes × ℤ) → Bfd → Type 0
Installed infos b =
    (r : RoundRobin) × (b.pool ≡ some r)
    × (r.proxy_infos ≡ infos)
    × Serving r.business_id b.clients r.proxys infos

-- None of these clients exists.
abbrev pub Deleted : List Ptr → List (Option Client) → Type 0
Deleted cs os = (c : Ptr) → In c cs → (o : Client) → get_elem? os c ≢ some (some o)

-- No client exists.
abbrev pub Emptied : List (Option Client) → Type 0
Emptied os = (c : Ptr) (o : Client) → get_elem? os c ≢ some (some o)

below_of_Exists :
    (os : List (Option Client)) (cs : List Ptr) → All (Exists os) cs → All (λ c. c < length os) cs
below_of_Exists os cs h = All-weaken _ _ cs (λ c (o, at, ne). get_elem?-lt os c (some o) at) h

ne_of_below : (n q : ℕ) (cs : List Ptr) → All (λ c. c < n) cs → n ≤ q → All (λ c. q ≢ c) cs
ne_of_below n q cs h le = All-weaken _ _ cs (λ c lt e. omega arith) h

-- New clients are not among those that are deleted.
Serving-clear :
    (n : ℕ) (business_id : Bytes) (os : List (Option Client)) (ds cs : List Ptr)
    (infos : List (Bytes × ℤ))
    → All (λ c. c < n) ds
    → All (λ c. n ≤ c) cs
    → Serving business_id os cs infos
    → Serving business_id (clear os ds) cs infos
Serving-clear n bid os ds [] [] old new h = tt
Serving-clear n bid os ds [] (i ∷ infos) old new h = h
Serving-clear n bid os ds (c ∷ cs) [] old new h = h
Serving-clear n bid os ds (c ∷ cs) (i ∷ infos) old new ((o, at, s), h) = (
  (o, clear-kept os ds c (ne_of_below n c ds old new.0) ∙ at, s),
  Serving-clear n bid os ds cs infos old new.1 h,
)

exist_of_Serving :
    (business_id : Bytes) (os : List (Option Client)) (cs : List Ptr) (infos : List (Bytes × ℤ))
    → All (λ c. c ≢ null) cs
    → Serving business_id os cs infos
    → All (Exists os) cs
exist_of_Serving bid os [] [] new h = tt
exist_of_Serving bid os [] (i ∷ infos) new h = tt
exist_of_Serving bid os (c ∷ cs) [] new h = absurd h
exist_of_Serving bid os (c ∷ cs) (i ∷ infos) new ((o, at, s), h) =
    ((o, at, new.0), exist_of_Serving bid os cs infos new.1 h)

module _ ⦃lib : Hiredis⦄ ⦃env : Environment⦄ where
  -- The pool manages new clients for these proxies, and its former ones do not exist.
  abbrev pub Renewed :
      {w : lib.World} → List (Bytes × ℤ) → (b : Bfd) → Managed b w → State Bfd Outside → Type 0
  Renewed infos b m t =
      Managed t.object t.world.0 × Installed infos t.object × Deleted m.r.proxys t.object.clients

  -- `InitProxyConns` on the pool `r`, and what follows in it when the new clients are made.
  abbrev install : List (Bytes × ℤ) → RoundRobin → List Ptr → SessionM (Unit {0})
  install infos r cs =
      put_robin (record r { proxys = cs; proxy_infos = infos }) >> delete_proxies r.proxys

  abbrev renew : List (Bytes × ℤ) → RoundRobin → SessionM (Unit {0})
  renew infos r = new_proxies r.business_id infos >>= install infos r

module _ ⦃lib : Hiredis⦄ where
  Managed-Installed :
      (b : Bfd) (w w' : lib.World) (m : Managed b w) (os : List (Option Client)) (cs : List Ptr)
      (infos : List (Bytes × ℤ))
      → Grown m.r.business_id b.clients os cs infos
      → Sound (clear os m.r.proxys) w'
      → let b' : Bfd = record {
        clients = clear os m.r.proxys;
        pool = some (record m.r { proxys = cs; proxy_infos = infos });
      } in
        Managed b' w' × Installed infos b' × Deleted m.r.proxys b'.clients
  Managed-Installed b w w' m os cs infos g sound =
      let old = below_of_Exists b.clients m.r.proxys m.exist in
      let serving =
        Serving-clear (length b.clients) m.r.business_id os m.r.proxys cs infos old g.fresh
          g.serving in
      let room = m.room in
      let longer = g.longer in
      (
        record {
          r = record m.r { proxys = cs; proxy_infos = infos };
          has = refl;
          apart = g.apart;
          exist =
              exist_of_Serving m.r.business_id (clear os m.r.proxys) cs infos
                (All-weaken _ _ cs (λ c le e. omega arith) g.fresh) serving;
          only = λ c o h.
              let (there, other) = clear-only os m.r.proxys c o h in
              elim (g.only c o there) [
                | inl was ↦ absurd (All-In (λ d. c ≢ d) m.r.proxys c other (m.only c o was) refl)
                | inr new ↦ new
              ];
          sound = sound;
          room = omega (arith, length-clear os m.r.proxys);
        },
        (record m.r { proxys = cs; proxy_infos = infos }, refl, refl, serving),
        λ c was o h. All-In (λ d. c ≢ d) m.r.proxys c (clear-only os m.r.proxys c o h).1 was refl,
      )

module _ ⦃lib : Hiredis⦄ ⦃env : Environment⦄ (laws : HiredisLaws lib) where
  init_proxy_conns-Renewed :
      (infos : List (Bytes × ℤ)) (b : Bfd) (w : lib.World) (v : env.World)
      → (m : Managed b w)
      → Returns (λ _ _. Unit {0}) (new_proxies m.r.business_id infos (at_bfd b w v))
      → Returns
          (λ _ t. Renewed infos b m t × Freed b.clients m.r.proxys t.world.0)
          (init_proxy_conns infos (at_bfd b w v))
  unfolding init_proxy_conns
  init_proxy_conns-Renewed infos b w v m returns =
      let P = λ (_ : Unit {0}) (t : State Bfd Outside).
        Renewed infos b m t × Freed b.clients m.r.proxys t.world.0 in
      subst (λ x. Returns P (and_then (robin_of x (at_bfd b w v)) (renew infos))) (sym m.has)
        (Returns-bind _ P (new_proxies m.r.business_id infos (at_bfd b w v)) (install infos m.r)
          (Ends-Returns ⊥ _ _ (new_proxies m.r.business_id infos (at_bfd b w v))
            (new_proxies-Grown m.r.business_id infos b w v) returns)
          λ cs t (os, v', t_, g). rw t_ (
            let b' : Bfd = record {
              clients = os;
              pool = some (record m.r { proxys = cs; proxy_infos = infos });
            } in
            let (w', gone, sound', freed, stay) =
              delete_proxies-clear laws m.r.proxys b' w v' m.apart
                (All-weaken _ _ m.r.proxys (λ c (o, at, ne). (o, g.kept c o at, ne)) m.exist)
                (subst (Holds w) (sym g.same_idle) m.sound.0, g.ready m.sound.1) in
            rw gone (
              Managed-Installed b w w' m os cs infos g sound',
              λ c was o at. freed c was o (g.kept c o at),
            )))

  pub init_proxy_conns-Managed :
      (infos : List (Bytes × ℤ)) (b : Bfd) (w : lib.World) (v : env.World)
      → (m : Managed b w)
      → ((threads_made infos v ≡ false) × (init_proxy_conns infos (at_bfd b w v) ≡ exited))
        ⊎ ((threads_made infos v ≡ true)
            × Returns
                (λ _ t.
                  (Managed t.object t.world.0
                    × Installed infos t.object
                    × Deleted m.r.proxys t.object.clients)
                  × Freed b.clients m.r.proxys t.world.0)
                (init_proxy_conns infos (at_bfd b w v)))
  unfolding init_proxy_conns
  init_proxy_conns-Managed infos b w v m = elim (new_proxies-cases m.r.business_id infos b w v) [
    | inl (no_, e) ↦ inl (
      no_,
      ap (λ x. and_then (robin_of x (at_bfd b w v)) (renew infos)) m.has
          ∙ ap (λ x. and_then x (install infos m.r)) e,
    )
    | inr (yes_, returns) ↦ inr (yes_, init_proxy_conns-Renewed infos b w v m returns)
  ]

  pub init_proxy_conns-Ends :
      (infos : List (Bytes × ℤ)) (b : Bfd) (w : lib.World) (v : env.World)
      → (m : Managed b w) → Ends ⊥ (λ _. Renewed infos b m) (init_proxy_conns infos (at_bfd b w v))
  init_proxy_conns-Ends infos b w v m = elim (init_proxy_conns-Managed infos b w v m) [
    | inl (no_, e) ↦ subst (Ends ⊥ (λ _. Renewed infos b m)) (sym e) tt
    | inr (yes_, returns) ↦
        Returns-Ends ⊥ (λ _. Renewed infos b m) (init_proxy_conns infos (at_bfd b w v))
          (Returns-mono _ (λ _. Renewed infos b m) (init_proxy_conns infos (at_bfd b w v)) returns
            (λ _ t h. h.0))
  ]

  on_client_missing :
      {A : Type 0} (x : Option (Option Client)) (c : Ptr) (m : ClientM A) (s : State Bfd lib.World)
      → ((o : Client) → x ≢ some (some o))
      → on_client_at x c m s ≡ fault
  on_client_missing none c m s h = refl
  on_client_missing (some none) c m s h = refl
  on_client_missing (some (some o)) c m s h = absurd (h o refl)

  -- A thread that has got a client from `GetProxy` and calls a method of it only after the watcher's
  -- `InitProxyConns` has returned uses a client that was deleted: whatever the method, its behaviour is
  -- undefined.
  pub init_proxy_conns_stale :
      {A : Type 0} (method : ClientM A) (c : Ptr) (infos : List (Bytes × ℤ)) (b : Bfd)
      (w : lib.World) (v : env.World) (m : Managed b w)
      → In c m.r.proxys
      → Ends ⊥
          (λ _ t. inside (on_client c method) t ≡ fault)
          (init_proxy_conns infos (at_bfd b w v))
  init_proxy_conns_stale method c infos b w v m held =
      Ends-mono ⊥ ⊥ _ (λ _ t. inside (on_client c method) t ≡ fault)
        (init_proxy_conns infos (at_bfd b w v)) (λ e. e)
        (λ _ t (m', inst, gone). ap (beside t.world.1) (
          on_client_missing (get_elem? t.object.clients c) c method
            (record { object = t.object; world = t.world.0 }) (gone c held)))
        (init_proxy_conns-Ends infos b w v m)
