-- ===== src/Session/Calls.antt =====
-- A whole call of a method of `BfdCodis` (cpp/src/BfdCodis.cpp) on a pool that is in order.
use mathlib.Core.List.Perm
use codis_client.Prelude.{
  All-set, All-get_elem?, length-set, ◌<◌, ◌≡◌, inl, inr, refl, sym, ap, subst, ◌∙◌, ◌++◌, Option,
  none, some, length, get_elem?, get_elem?-set, get_elem?-set_ne, set, All-weaken, ℤ, ◌==◌, ==_iff,
  Bool-cases,
}
use codis_client.Run.{Run, Safe, Safe-bind, ok, thrown, fault, exited, and_then}
use codis_client.Hiredis.{Hiredis, Ptr, State}
use codis_client.ConnPool.Ownership.{Holds, Holds-perm}
use codis_client.Client.{Client, ClientM}
use codis_client.Client.Steps.{Settled}
use codis_client.Methods.Tame.{Tame}
use codis_client.RoundRobin.{RoundRobin, get_proxy, pick, next_int, at_index}
use codis_client.BfdCodis.{
  Bfd, forward, with_robin, with_client, next_proxy_of, on_client, on_client_at,
}
use codis_client.Session.Memory.{
  pool_idle, idle, ReadyIf, Exists, idle-take, idle-set, get_elem?-set_cases,
}
use codis_client.Session.Installation.{Managed}

module _ ⦃lib : Hiredis⦄ where
  -- The pool with another index.
  abbrev Turned : RoundRobin → lib.World → State RoundRobin lib.World → Type 0
  Turned r w t = (i : ℤ) × (t ≡ record { object = record r { proxy_index = i }; world = w })

  at_index-Turned :
      (o : Option Ptr) (r : RoundRobin) (w : lib.World) (i : ℤ)
      → Safe (Turned r w) (at_index o (record { object = record r { proxy_index = i }; world = w }))
  at_index-Turned none r w i = tt
  at_index-Turned (some c) r w i = (i, refl)

  pick-Turned :
      (o : Option ℤ) (r : RoundRobin) (w : lib.World)
      → Safe (Turned r w) (pick o (record { object = r; world = w }))
  pick-Turned none r w = tt
  pick-Turned (some i) r w = elim (Bool-cases (length r.proxys == 0)) [
    | inl e ↦ rw e tt
    | inr e ↦ rw e (at_index-Turned _ r w i)
  ]

  with_robin-Turned :
      (b : Bfd) (r : RoundRobin) (w : lib.World) (out : Run (State RoundRobin lib.World) Ptr)
      → Safe (Turned r w) out
      → Safe
          (λ t.
            (i : ℤ) × (t ≡ record {
              object = record b { pool = some (record r { proxy_index = i }) };
              world = w;
            }))
          (with_robin b out)
  with_robin-Turned b r w (ok c t) (i, e) =
      (i, ap (λ x. record { object = record b { pool = some x.object }; world = x.world }) e)
  with_robin-Turned b r w (thrown t) (i, e) =
      (i, ap (λ x. record { object = record b { pool = some x.object }; world = x.world }) e)
  with_robin-Turned b r w fault h = tt
  with_robin-Turned b r w exited h = tt

  turned-Managed :
      (b : Bfd) (w : lib.World) (m : Managed b w) (i : ℤ)
      → Managed (record b { pool = some (record m.r { proxy_index = i }) }) w
  turned-Managed b w m i = record {
    r = record m.r { proxy_index = i };
    has = refl;
    apart = m.apart;
    exist = m.exist;
    only = m.only;
    sound = m.sound;
    room = m.room;
  }

  Settled-Managed :
      (b : Bfd) (w : lib.World) (m : Managed b w) (c : Ptr) (o : Client)
      → get_elem? b.clients c ≡ some (some o)
      → Settled (idle (set b.clients c none)) 0 (record { object = o; world = w })
  Settled-Managed b w m c o at =
      let (p, e, no_, nobody) = All-get_elem? ReadyIf b.clients c (some o) m.sound.1 at in
      (
        p,
        e,
        (
          subst (λ x. Holds w (pool_idle x ++ idle (set b.clients c none))) e
              (Holds-perm w (idle-take b.clients c o at) m.sound.0),
          no_,
        ),
        nobody,
      )

  -- The client at `c` becomes `o'`.
  updated-Managed :
      (b : Bfd) (w w' : lib.World) (m : Managed b w) (c : Ptr) (o o' : Client)
      → get_elem? b.clients c ≡ some (some o)
      → Settled (idle (set b.clients c none)) 0 (record { object = o'; world = w' })
      → Managed (record b { clients = set b.clients c (some o') }) w'
  updated-Managed b w w' m c o o' at (p, e, (holds, no_), nobody) = record {
    r = m.r;
    has = m.has;
    apart = m.apart;
    exist = All-weaken _ _ m.r.proxys (λ q h. still q h) m.exist;
    only = λ q x h. elim (get_elem?-set_cases b.clients c q (some o') (some x) h) [
      | inl (same, y) ↦ m.only q o (ap (get_elem? b.clients) same ∙ at)
      | inr (other, y) ↦ m.only q x y
    ];
    sound = (
      Holds-perm w' (Perm.symm (idle-set b.clients c (some o) o' at))
          (subst (λ x. Holds w' (pool_idle x ++ idle (set b.clients c none))) (sym e) holds),
      All-set ReadyIf b.clients c (some o') (p, e, no_, nobody) m.sound.1,
    );
    room = subst (λ n. 0 < n) (sym (length-set b.clients c (some o'))) m.room;
  }
    where
      still : (q : Ptr) → Exists b.clients q → Exists (set b.clients c (some o')) q
      still q (x, there, ne) = elim (Bool-cases (q == c)) [
        | inl same ↦
            let e' : q ≡ c = (==_iff q c).0 same in
            (
              o',
              ap (get_elem? (set b.clients c (some o'))) e'
                  ∙ get_elem?-set b.clients c (some o') (some o) at,
              ne,
            )
        | inr other ↦
            (x, get_elem?-set_ne b.clients c q (some o') (λ e'. cc ((==_iff q c).1 e')) ∙ there, ne)
      ]

  with_client-Managed :
      {A : Type 0} (b : Bfd) (w : lib.World) (m : Managed b w) (c : Ptr) (o : Client)
      (out : Run (State Client lib.World) A)
      → get_elem? b.clients c ≡ some (some o)
      → Safe (Settled (idle (set b.clients c none)) 0) out
      → Safe (λ t. Managed t.object t.world) (with_client b c out)
  with_client-Managed b w m c o (ok a t) at h = updated-Managed b w t.world m c o t.object at h
  with_client-Managed b w m c o (thrown t) at h = updated-Managed b w t.world m c o t.object at h
  with_client-Managed b w m c o fault at h = tt
  with_client-Managed b w m c o exited at h = tt

  on_client-Managed :
      {A : Type 0} (method : ClientM A) (c : Ptr) (b : Bfd) (w : lib.World)
      (x : Option (Option Client))
      → Tame method
      → Managed b w
      → get_elem? b.clients c ≡ x
      → Safe
          (λ t. Managed t.object t.world)
          (on_client_at x c method (record { object = b; world = w }))
  on_client-Managed method c b w none tame m at = tt
  on_client-Managed method c b w (some none) tame m at = tt
  on_client-Managed method c b w (some (some o)) tame m at =
      with_client-Managed b w m c o (method (record { object = o; world = w })) at (
        tame (idle (set b.clients c none)) (record { object = o; world = w })
          (Settled-Managed b w m c o at))

  pub forward-Managed :
      {A : Type 0} (method : ClientM A) (b : Bfd) (w : lib.World)
      → Tame method
      → Managed b w
      → Safe (λ t. Managed t.object t.world) (forward method (record { object = b; world = w }))
  unfolding forward get_proxy
  forward-Managed method b w tame m =
      let s : State Bfd lib.World = record { object = b; world = w } in
      subst
        (λ x.
          Safe (λ t. Managed t.object t.world)
            (and_then (next_proxy_of x s) (λ d. on_client d method)))
        (sym m.has)
        (Safe-bind _ (λ t. Managed t.object t.world) (next_proxy_of (some m.r) s)
          (λ d. on_client d method)
          (with_robin-Turned b m.r w _ (pick-Turned (next_int m.r.proxy_index) m.r w))
          (λ t (i, e). subst (λ x. Managed x.object x.world) (sym e) (turned-Managed b w m i))
          λ d t (i, e). rw e (
            on_client-Managed method d (record b { pool = some (record m.r { proxy_index = i }) }) w
              (get_elem? b.clients d) tame (turned-Managed b w m i) refl))
