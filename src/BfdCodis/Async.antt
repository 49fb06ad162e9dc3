-- ===== src/BfdCodis/Async.antt =====
-- `mget2` of `BfdCodis` (cpp/src/BfdCodis.cpp). The requests, the local variables and the calls of the
-- user's functions are those of all clients.
use codis_client.Prelude.{List, Option, none, some, get_elem?, set, Bool, ℕ, Bytes}
use codis_client.Run.{Run, M, ok, thrown, fault, exited, ◌>>=◌}
use codis_client.Hiredis.{Hiredis, Ptr, State}
use codis_client.Client.{Client}
use codis_client.AsyncMget.{Request, KvMap, AsyncClient, AsyncM}
use codis_client.BfdCodis.{Bfd, next_proxy}
use codis_client.AsyncMget

pub record AsyncBfd : Type 0 where
  pub bfd : Bfd
  pub requests : List (Option Request)
  pub locals : List (Option Ptr)
  pub called : List (ℕ × KvMap)

module _ ⦃lib : Hiredis⦄ where
  abbrev pub AsyncBfdM : Type 0 → Type 0
  AsyncBfdM = M (State AsyncBfd lib.World)

  abbrev pub with_bfd :
      {A : Type 0} → AsyncBfd → Run (State Bfd lib.World) A → Run (State AsyncBfd lib.World) A
  with_bfd b (ok a t) = ok a (record { object = record b { bfd = t.object }; world = t.world })
  with_bfd b (thrown t) = thrown (record { object = record b { bfd = t.object }; world = t.world })
  with_bfd b fault = fault
  with_bfd b exited = exited

  abbrev pub next_client : AsyncBfdM Ptr
  next_client s = with_bfd s.object (next_proxy (record { object = s.object.bfd; world = s.world }))

  -- The state after a call of the client at `c`.
  abbrev pub put_back : AsyncBfd → Ptr → AsyncClient → AsyncBfd
  put_back b c a = record {
    bfd = record b.bfd { clients = set b.bfd.clients c (some a.client) };
    requests = a.requests;
    locals = a.locals;
    called = a.called;
  }

  abbrev pub with_async :
      {A : Type 0}
      → AsyncBfd
      → Ptr
      → Run (State AsyncClient lib.World) A
      → Run (State AsyncBfd lib.World) A
  with_async b c (ok a t) = ok a (record { object = put_back b c t.object; world = t.world })
  with_async b c (thrown t) = thrown (record { object = put_back b c t.object; world = t.world })
  with_async b c fault = fault
  with_async b c exited = exited

  abbrev pub async_client : AsyncBfd → Client → AsyncClient
  async_client b o = record {
    client = o;
    requests = b.requests;
    locals = b.locals;
    called = b.called;
  }

  abbrev pub on_async_at : {A : Type 0} → Option (Option Client) → Ptr → AsyncM A → AsyncBfdM A
  on_async_at none c m s = fault
  on_async_at (some none) c m s = fault
  on_async_at (some (some o)) c m s =
      with_async s.object c (m (record { object = async_client s.object o; world = s.world }))

  abbrev pub on_async : {A : Type 0} → Ptr → AsyncM A → AsyncBfdM A
  on_async c m s = on_async_at (get_elem? s.object.bfd.clients c) c m s

  unfoldable pub mget2 : List Bytes → ℕ → AsyncBfdM Bool
  mget2 keys callback = do c ← next_client; on_async c (AsyncMget.mget2 keys callback)
