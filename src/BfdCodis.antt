-- ===== src/BfdCodis.antt =====
-- `BfdCodis` of cpp/include/BfdCodis.h and cpp/src/BfdCodis.cpp: each method asks the pool for the next
-- proxy and calls the method of that name of its client.
pub mod Values
pub mod Collections
pub mod Structures
pub mod Forwarding
pub mod Interface
pub mod Async
pub mod Requests
use codis_client.Prelude.{Bool, true, false, List, [], Option, none, some, get_elem?, set}
use codis_client.Run.{Run, M, ok, thrown, fault, exited, pure, ◌>>=◌, ◌>>◌}
use codis_client.Hiredis.{Hiredis, Ptr, State, get, put}
use codis_client.Client.{Client, ClientM}
use codis_client.RoundRobin.{RoundRobin, get_proxy}

-- `clients` is the memory that holds the objects of class `CodisClient`: the address of one is its
-- position, and one that has been deleted is `none`.
pub record Bfd : Type 0 where
  pub clients : List (Option Client)
  pub pool : Option RoundRobin

-- The destructor. Its test assigns `NULL` to `m_Pool`, so it never deletes anything.
unfoldable pub delete_bfd : {W : Type 0} → M (State Bfd W) (Unit {0})
delete_bfd = do b ← get; put (record b { pool = none })

module _ ⦃lib : Hiredis⦄ where
  abbrev pub BfdM : Type 0 → Type 0
  BfdM = M (State Bfd lib.World)

  abbrev pub with_robin :
      {A : Type 0} → Bfd → Run (State RoundRobin lib.World) A → Run (State Bfd lib.World) A
  with_robin b (ok a t) =
      ok a (record { object = record b { pool = some t.object }; world = t.world })
  with_robin b (thrown t) =
      thrown (record { object = record b { pool = some t.object }; world = t.world })
  with_robin b fault = fault
  with_robin b exited = exited

  abbrev pub next_proxy_of : Option RoundRobin → BfdM Ptr
  next_proxy_of none s = fault
  next_proxy_of (some r) s =
      with_robin s.object (get_proxy (record { object = r; world = s.world }))

  -- `m_Pool->GetProxy()`
  abbrev pub next_proxy : BfdM Ptr
  next_proxy s = next_proxy_of s.object.pool s

  abbrev pub with_client :
      {A : Type 0} → Bfd → Ptr → Run (State Client lib.World) A → Run (State Bfd lib.World) A
  with_client b c (ok a t) =
      ok a (record {
        object = record b { clients = set b.clients c (some t.object) };
        world = t.world;
      })
  with_client b c (thrown t) =
      thrown (record {
        object = record b { clients = set b.clients c (some t.object) };
        world = t.world;
      })
  with_client b c fault = fault
  with_client b c exited = exited

  abbrev pub on_client_at : {A : Type 0} → Option (Option Client) → Ptr → ClientM A → BfdM A
  on_client_at none c m s = fault
  on_client_at (some none) c m s = fault
  on_client_at (some (some o)) c m s =
      with_client s.object c (m (record { object = o; world = s.world }))

  -- A method of the client at `c`.
  abbrev pub on_client : {A : Type 0} → Ptr → ClientM A → BfdM A
  on_client c m s = on_client_at (get_elem? s.object.clients c) c m s

  -- `m_Pool->GetProxy()->…`
  unfoldable pub forward : {A : Type 0} → ClientM A → BfdM A
  forward m = do c ← next_proxy; on_client c m
