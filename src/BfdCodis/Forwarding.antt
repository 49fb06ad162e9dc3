-- ===== src/BfdCodis/Forwarding.antt =====
-- What a method of `BfdCodis` (cpp/src/BfdCodis.cpp) does besides the one that it forwards to.
use codis_client.Prelude.{
  get_elem?-lt, get_elem?-set, get_elem?-set_ne, ℕ, ◌%◌, ◌^◌, ◌<◌, ◌≡◌, ◌≢◌, refl, sym, ap, subst,
  ◌∙◌, List, Option, some, get_elem?, length, arith, pos,
}
use codis_client.Run.{Run, ok, thrown, fault, exited, and_then}
use codis_client.Hiredis.{Hiredis, Ptr, State}
use codis_client.Client.{Client, ClientM}
use codis_client.RoundRobin.{RoundRobin}
use codis_client.RoundRobin.Turns.{index_at, get_proxy-turn}
use codis_client.BfdCodis.{
  Bfd, with_client, with_robin, next_proxy_of, on_client, on_client_at, forward,
}

module _ ⦃lib : Hiredis⦄ where
  -- After a call: the client at `c` is `o`, all others are as in `cs`, and the pool is `r`.
  abbrev pub Only :
      List (Option Client)
      → RoundRobin
      → Ptr
      → State Client lib.World
      → State Bfd lib.World
      → Type 0
  Only cs r c t u =
      (u.world ≡ t.world)
      × (u.object.pool ≡ some r)
      × (get_elem? u.object.clients c ≡ some (some t.object))
      × ((q : Ptr) → q ≢ c → get_elem? u.object.clients q ≡ get_elem? cs q)

  -- The outcome of a call against that of the client's method.
  abbrev pub Forwarded :
      {A : Type 0}
      → List (Option Client)
      → RoundRobin
      → Ptr
      → Run (State Client lib.World) A
      → Run (State Bfd lib.World) A
      → Type 0
  Forwarded cs r c (ok a t) (ok b u) = (b ≡ a) × Only cs r c t u
  Forwarded cs r c (thrown t) (thrown u) = Only cs r c t u
  Forwarded cs r c fault fault = Unit {0}
  Forwarded cs r c exited exited = Unit {0}
  Forwarded cs r c (ok a t) (thrown u) = ⊥
  Forwarded cs r c (ok a t) fault = ⊥
  Forwarded cs r c (ok a t) exited = ⊥
  Forwarded cs r c (thrown t) (ok b u) = ⊥
  Forwarded cs r c (thrown t) fault = ⊥
  Forwarded cs r c (thrown t) exited = ⊥
  Forwarded cs r c fault (ok b u) = ⊥
  Forwarded cs r c fault (thrown u) = ⊥
  Forwarded cs r c fault exited = ⊥
  Forwarded cs r c exited (ok b u) = ⊥
  Forwarded cs r c exited (thrown u) = ⊥
  Forwarded cs r c exited fault = ⊥

  pub with_client-Forwarded :
      {A : Type 0} (b : Bfd) (r : RoundRobin) (c : Ptr) (o : Client)
      (out : Run (State Client lib.World) A)
      → b.pool ≡ some r
      → get_elem? b.clients c ≡ some (some o)
      → Forwarded b.clients r c out (with_client b c out)
  with_client-Forwarded b r c o (ok a t) e at = (
    refl,
    (
      refl,
      e,
      get_elem?-set b.clients c (some t.object) (some o) at,
      λ q ne. get_elem?-set_ne b.clients c q (some t.object) ne,
    ),
  )
  with_client-Forwarded b r c o (thrown t) e at = (
    refl,
    e,
    get_elem?-set b.clients c (some t.object) (some o) at,
    λ q ne. get_elem?-set_ne b.clients c q (some t.object) ne,
  )
  with_client-Forwarded b r c o fault e at = tt
  with_client-Forwarded b r c o exited e at = tt

  -- Where the pool has proxies and the next one in turn is the client at `c`, which has not been
  -- deleted, the call number `k` of a method of `BfdCodis` ends as the client's method `m` does, with the
  -- same result or exception; it changes that client as `m` does, leaves every other client as it is,
  -- and moves the pool on by one.
  pub forward-Forwarded :
      {A : Type 0} (m : ClientM A) (k : ℕ) (b : Bfd) (r : RoundRobin) (w : lib.World) (c : Ptr)
      (o : Client)
      → b.pool ≡ some r
      → r.proxy_index ≡ index_at k
      → k < 2 ^ 31
      → get_elem? r.proxys (k % length r.proxys) ≡ some c
      → get_elem? b.clients c ≡ some (some o)
      → Forwarded b.clients
          (record r { proxy_index = pos k })
          c
          (m (record { object = o; world = w }))
          (forward m (record { object = b; world = w }))
  unfolding forward
  forward-Forwarded m k b r w c o has turn small next at =
      let (c', at', step) =
        get_proxy-turn k r w turn small (omega (arith, get_elem?-lt r.proxys _ c next)) in
      let same : c' ≡ c = cc in
      let b' : Bfd = record b { pool = some (record r { proxy_index = pos k }) } in
      let s : State Bfd lib.World = record { object = b; world = w } in
      let runs : forward m s ≡ with_client b' c (m (record { object = o; world = w })) =
        ap (λ x. and_then (next_proxy_of x s) (λ d. on_client d m)) has
        ∙ ap (λ x. and_then (with_robin b x) (λ d. on_client d m)) step
        ∙ ap (λ d. on_client d m (record { object = b'; world = w })) same
        ∙ ap (λ x. on_client_at x c m (record { object = b'; world = w })) at in
      subst
        (Forwarded b.clients (record r { proxy_index = pos k }) c
          (m (record { object = o; world = w })))
        (sym runs)
        (with_client-Forwarded b' (record r { proxy_index = pos k }) c o
          (m (record { object = o; world = w })) refl at)
