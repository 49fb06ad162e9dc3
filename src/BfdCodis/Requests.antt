-- ===== src/BfdCodis/Requests.antt =====
-- What `mget2` of `BfdCodis` (cpp/src/BfdCodis.cpp) does besides the one that it forwards to.
use codis_client.Prelude.{
  ℕ, ◌%◌, ◌^◌, ◌<◌, ◌≡◌, refl, sym, ap, subst, ◌∙◌, List, Option, some, get_elem?, get_elem?-lt,
  length, arith, Bytes, pos,
}
use codis_client.Run.{Run, ok, thrown, fault, exited, and_then}
use codis_client.Hiredis.{Hiredis, Ptr, State}
use codis_client.Client.{Client}
use codis_client.AsyncMget.{Request, KvMap, AsyncClient}
use codis_client.RoundRobin.{RoundRobin}
use codis_client.RoundRobin.Turns.{index_at, get_proxy-turn}
use codis_client.BfdCodis.{Bfd, with_robin, next_proxy_of, with_client}
use codis_client.BfdCodis.Forwarding.{Forwarded, with_client-Forwarded}
use codis_client.BfdCodis.Async.{
  AsyncBfd, with_bfd, with_async, async_client, on_async_at, on_async, mget2,
}
use codis_client.AsyncMget

-- The requests, the local variables and the calls of the users' functions, which all clients share.
record Shared : Type 0 where
  requests : List (Option Request)
  locals : List (Option Ptr)
  called : List (ℕ × KvMap)

module _ {S T : Type 0} where
  abbrev map_state : {A : Type 0} → (S → T) → Run S A → Run T A
  map_state f (ok a s) = ok a (f s)
  map_state f (thrown s) = thrown (f s)
  map_state f fault = fault
  map_state f exited = exited

module _ {W : Type 0} where
  abbrev pub client_part : State AsyncClient W → State Client W
  client_part t = record { object = t.object.client; world = t.world }

  abbrev pub bfd_part : State AsyncBfd W → State Bfd W
  bfd_part t = record { object = t.object.bfd; world = t.world }

  abbrev shared_of_client : State AsyncClient W → Shared
  shared_of_client t = record {
    requests = t.object.requests;
    locals = t.object.locals;
    called = t.object.called;
  }

  abbrev shared_of_bfd : State AsyncBfd W → Shared
  shared_of_bfd t = record {
    requests = t.object.requests;
    locals = t.object.locals;
    called = t.object.called;
  }

module _ ⦃lib : Hiredis⦄ where
  -- The outcome of a call against that of the client's `mget2`.
  abbrev pub AsyncForwarded :
      {A : Type 0}
      → List (Option Client)
      → RoundRobin
      → Ptr
      → Run (State AsyncClient lib.World) A
      → Run (State AsyncBfd lib.World) A
      → Type 0
  AsyncForwarded cs r c out out' =
      Forwarded cs r c (map_state client_part out) (map_state bfd_part out')
      × (map_state shared_of_bfd out' ≡ map_state shared_of_client out)

  bfd_part-with_async :
      {A : Type 0} (b : AsyncBfd) (c : Ptr) (out : Run (State AsyncClient lib.World) A)
      → with_client b.bfd c (map_state client_part out) ≡ map_state bfd_part (with_async b c out)
  bfd_part-with_async b c (ok a t) = refl
  bfd_part-with_async b c (thrown t) = refl
  bfd_part-with_async b c fault = refl
  bfd_part-with_async b c exited = refl

  shared-with_async :
      {A : Type 0} (b : AsyncBfd) (c : Ptr) (out : Run (State AsyncClient lib.World) A)
      → map_state shared_of_bfd (with_async b c out) ≡ map_state shared_of_client out
  shared-with_async b c (ok a t) = refl
  shared-with_async b c (thrown t) = refl
  shared-with_async b c fault = refl
  shared-with_async b c exited = refl

  -- Where the pool has proxies and the next one in turn is the client at `c`, which has not been deleted, the
  -- call number `k` of a method of `BfdCodis`, if it is `mget2`, ends as the `mget2` of that client does, with the
  -- same result: it changes that client and the requests as that one does, leaves every other client as it
  -- is, and moves the pool on by one.
  pub mget2-AsyncForwarded :
      (keys : List Bytes) (callback k : ℕ) (b : AsyncBfd) (r : RoundRobin) (w : lib.World) (c : Ptr)
      (o : Client)
      → b.bfd.pool ≡ some r
      → r.proxy_index ≡ index_at k
      → k < 2 ^ 31
      → get_elem? r.proxys (k % length r.proxys) ≡ some c
      → get_elem? b.bfd.clients c ≡ some (some o)
      → AsyncForwarded b.bfd.clients
          (record r { proxy_index = pos k })
          c
          (AsyncMget.mget2 keys callback (record { object = async_client b o; world = w }))
          (mget2 keys callback (record { object = b; world = w }))
  unfolding mget2
  mget2-AsyncForwarded keys callback k b r w c o has turn small next at =
      let (c', at', step) =
        get_proxy-turn k r w turn small (omega (arith, get_elem?-lt r.proxys _ c next)) in
      let same : c' ≡ c = cc in
      let b' : AsyncBfd = record b {
        bfd = record b.bfd { pool = some (record r { proxy_index = pos k }) };
      } in
      let s : State Bfd lib.World = record { object = b.bfd; world = w } in
      let m = AsyncMget.mget2 keys callback in
      let out = m (record { object = async_client b o; world = w }) in
      let runs : mget2 keys callback (record { object = b; world = w }) ≡ with_async b' c out =
        ap (λ x. and_then (with_bfd b (next_proxy_of x s)) (λ d. on_async d m)) has
        ∙ ap (λ x. and_then (with_bfd b (with_robin b.bfd x)) (λ d. on_async d m)) step
        ∙ ap (λ d. on_async d m (record { object = b'; world = w })) same
        ∙ ap (λ x. on_async_at x c m (record { object = b'; world = w })) at in
      subst (AsyncForwarded b.bfd.clients (record r { proxy_index = pos k }) c out) (sym runs) (
        subst
            (Forwarded b.bfd.clients (record r { proxy_index = pos k }) c
              (map_state client_part out))
            (bfd_part-with_async b' c out)
            (with_client-Forwarded b'.bfd (record r { proxy_index = pos k }) c o
              (map_state client_part out) refl at),
        shared-with_async b' c out,
      )
