-- ===== src/Session/Creation.antt =====
-- The clients that `InitProxyConns` of cpp/src/RoundRobinCodisPool.cpp makes, with the constructor of
-- `CodisClient`.
use codis_client.Prelude.{
  Bool, true, false, ◌⊎◌, if◌then◌else◌, ◌+◌, ◌≤◌, ◌≡◌, ◌⊎◌, inl, inr, arith, refl, ap, ◌∙◌, List,
  [], ◌∷◌, ◌++◌, Option, some, length, length-append, get_elem?, get_elem?-append,
  get_elem?-append_last, get_elem?-append_cases, All, All-append, All-weaken, Distinct, In, ℤ,
  Bytes, Bool-cases,
}
use codis_client.Run.{Ends, Ends-bind, Returns, Returns-bind, exited}
use codis_client.Hiredis.{Hiredis, Ptr}
use codis_client.Environment.{Environment}
use codis_client.ConnPool.{Pool, new_pool}
use codis_client.Client.{Client, new_client, to_char}
use codis_client.BfdCodis.{Bfd}
use codis_client.Session.{new_proxy, new_proxies}
use codis_client.Session.Memory.{pool_idle, idle, ReadyIf, idle-append_last}
use codis_client.Session.Deletion.{at_bfd}

-- A new client for that proxy.
abbrev pub Serves : Bytes → Bytes × ℤ → Client → Type 0
Serves business_id (address, port) o =
    (p : Pool) × (o.conn_pool ≡ some p)
    × (p.address ≡ address)
    × (p.port ≡ port)
    × (p.unused ≡ [])
    × (p.password ≡ [])
    × (o.readers ≡ 0)
    × (o.bid ≡ business_id)

-- At the addresses stand clients for the proxies, in their order.
abbrev pub Serving : Bytes → List (Option Client) → List Ptr → List (Bytes × ℤ) → Type 0
Serving business_id os [] [] = Unit {0}
Serving business_id os [] (i ∷ infos) = ⊥
Serving business_id os (c ∷ cs) [] = ⊥
Serving business_id os (c ∷ cs) (i ∷ infos) =
    ((o : Client) × (get_elem? os c ≡ some (some o)) × Serves business_id i o)
    × Serving business_id os cs infos

-- The memory `os` has grown to `os'` by clients for those proxies, at new addresses.
pub record Grown (business_id : Bytes) (os os' : List (Option Client)) (cs : List Ptr)
    (infos : List (Bytes × ℤ)) : Type 0 where
  pub kept :
      (c : Ptr) (o : Client) → get_elem? os c ≡ some (some o) → get_elem? os' c ≡ some (some o)
  pub only :
      (c : Ptr) (o : Client)
      → get_elem? os' c ≡ some (some o)
      → (get_elem? os c ≡ some (some o)) ⊎ In c cs
  pub longer : length os ≤ length os'
  pub fresh : All (λ c. length os ≤ c) cs
  pub apart : Distinct cs
  pub serving : Serving business_id os' cs infos
  pub same_idle : idle os' ≡ idle os
  pub ready : All ReadyIf os → All ReadyIf os'

Grown-none : (business_id : Bytes) (os : List (Option Client)) → Grown business_id os os [] []
Grown-none business_id os = record {
  kept = λ c o h. h;
  only = λ c o h. inl h;
  longer = omega arith;
  fresh = tt;
  apart = tt;
  serving = tt;
  same_idle = refl;
  ready = λ h. h;
}

Grown-more :
    (business_id : Bytes) (os os' : List (Option Client)) (o : Client) (i : Bytes × ℤ)
    (cs : List Ptr) (infos : List (Bytes × ℤ))
    → Serves business_id i o
    → Grown business_id (os ++ some o ∷ []) os' cs infos
    → Grown business_id os os' (length os ∷ cs) (i ∷ infos)
Grown-more business_id os os' o i cs infos (p, e, a, q, no_idle, no_pass, nobody, b) g =
    let len : length (os ++ some o ∷ []) ≡ length os + 1 = length-append os (some o ∷ []) in
    record {
      kept = λ c x h. g.kept c x (get_elem?-append os (some o ∷ []) c (some x) h);
      only = λ c x h. elim (g.only c x h) [
        | inl e' ↦ elim (get_elem?-append_cases os (some o) c (some x) e') [
          | inl old ↦ inl old
          | inr new ↦ inr (inl new)
        ]
        | inr m ↦ inr (inr m)
      ];
      longer = omega (arith, g.longer);
      fresh = (omega arith, All-weaken _ _ cs (λ c h. omega arith) g.fresh);
      apart = (All-weaken _ _ cs (λ c h x. omega arith) g.fresh, g.apart);
      serving = (
        (
          o,
          g.kept (length os) o (get_elem?-append_last os (some o)),
          (p, e, a, q, no_idle, no_pass, nobody, b),
        ),
        g.serving,
      );
      same_idle = g.same_idle ∙ idle-append_last os o (ap (λ x. pool_idle x) e ∙ no_idle);
      ready = λ h. g.ready (All-append ReadyIf os (some o ∷ []) h ((p, e, no_pass, nobody), tt));
    }

module _ ⦃lib : Hiredis⦄ ⦃env : Environment⦄ where
  new_proxy-Serves :
      (business_id : Bytes) (i : Bytes × ℤ) (b : Bfd) (w : lib.World) (v : env.World)
      → Ends ⊥
          (λ c t.
            (o : Client) × (v' : env.World) × (c ≡ length b.clients)
            × (t ≡ at_bfd (record b { clients = b.clients ++ some o ∷ [] }) w v')
            × Serves business_id i o)
          (new_proxy business_id i (at_bfd b w v))
  unfolding new_proxy new_client
  new_proxy-Serves business_id (address, port) b w v =
      let (garbage, v1) = env.uninitialised v in
      let (loop, v2) = env.create_event_loop 64 v1 in
      let (made, v3) = env.create_thread v2 in
      elim (Bool-cases made) [
        | inl yes_ ↦ rw yes_ (_, v3, refl, refl, (_, refl, refl, refl, refl, refl, refl, refl))
        | inr no_ ↦ rw no_ tt
      ]

  pub new_proxies-Grown :
      (business_id : Bytes) (infos : List (Bytes × ℤ)) (b : Bfd) (w : lib.World) (v : env.World)
      → Ends ⊥
          (λ cs t.
            (os : List (Option Client)) × (v' : env.World) × (t
              ≡ at_bfd (record b { clients = os }) w v')
            × Grown business_id b.clients os cs infos)
          (new_proxies business_id infos (at_bfd b w v))
  unfolding new_proxies
  new_proxies-Grown business_id [] b w v = (b.clients, v, refl, Grown-none business_id b.clients)
  new_proxies-Grown business_id (i ∷ infos) b w v =
      Ends-bind ⊥ _ _ (new_proxy business_id i (at_bfd b w v)) _
        (new_proxy-Serves business_id i b w v)
        λ c t (o, v1, c_, t_, serves).
          rw (c_, t_)
            (Ends-bind ⊥ _ _
              (new_proxies business_id infos
                (at_bfd (record b { clients = b.clients ++ some o ∷ [] }) w v1))
              _
              (new_proxies-Grown business_id infos (record b { clients = b.clients ++ some o ∷ [] })
                w v1)
              λ cs u (os, v', u_, g).
                (os, v', u_, Grown-more business_id b.clients os o i cs infos serves g))

  -- Whether the operating system makes a thread for each of the clients.
  abbrev pub threads_made : List (Bytes × ℤ) → env.World → Bool
  threads_made [] v = true
  threads_made (i ∷ infos) v =
      let (made, v1) = env.create_thread (env.create_event_loop 64 (env.uninitialised v).1).1 in
      if made then threads_made infos v1 else false

  -- The thread of a new client.
  abbrev thread : env.World → Bool × env.World
  thread v = env.create_thread (env.create_event_loop 64 (env.uninitialised v).1).1

  abbrev made_client : Bytes → Bytes × ℤ → env.World → Client
  made_client business_id (address, port) v =
      let (garbage, v1) = env.uninitialised v in
      record {
        loop = (env.create_event_loop 64 v1).0;
        conn_pool = some (new_pool address port [] true false 1 100 garbage);
        bid = business_id;
        readers = 0;
        proxy_ip = address;
        proxy_port = to_char port ∷ [];
      }

  -- It ends the process exactly where one of the threads cannot be made.
  pub new_proxies-cases :
      (business_id : Bytes) (infos : List (Bytes × ℤ)) (b : Bfd) (w : lib.World) (v : env.World)
      → ((threads_made infos v ≡ false) × (new_proxies business_id infos (at_bfd b w v) ≡ exited))
        ⊎ ((threads_made infos v ≡ true)
            × Returns (λ _ _. Unit {0}) (new_proxies business_id infos (at_bfd b w v)))
  unfolding new_proxies new_proxy new_client
  new_proxies-cases business_id [] b w v = inr (refl, tt)
  new_proxies-cases business_id (i ∷ infos) b w v = elim (Bool-cases (thread v).0) [
    | inl yes_ ↦
        let o = made_client business_id i v in
        let b' : Bfd = record b { clients = b.clients ++ some o ∷ [] } in
        elim (new_proxies-cases business_id infos b' w (thread v).1) [
          | inl (no_, ends) ↦ rw (yes_, ends) (inl (no_, refl))
          | inr (all, returns) ↦ rw yes_ (
              inr (
                all,
                Returns-bind _ (λ _ _. Unit {0})
                    (new_proxies business_id infos (at_bfd b' w (thread v).1)) _ returns
                    (λ cs t h. tt),
              ))
        ]
    | inr no_ ↦ rw no_ (inl (refl, refl))
  ]
