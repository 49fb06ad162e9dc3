-- ===== src/Threads/Lifetime.antt =====
-- `~CodisClient` (cpp/src/CodisClient.cpp) while threads are in `RedisCommand`. The destructor takes the lock
-- `p_rwlock` for writing, and waits as long as a thread holds it for reading. When its body has ended, the members of
-- the client are destroyed and its memory is released, which is a step of its own.
pub mod Closing
pub mod Late
use codis_client.Prelude.{
  ℕ, Bool, true, false, ◌&&◌, Option, none, some, List, [], ◌∷◌, ◌==◌, if◌then◌else◌,
}
use codis_client.Run.{Run, ok, thrown, fault, exited, pure, ◌>>◌}
use codis_client.Hiredis.{Hiredis, State}
use codis_client.ConnPool.{Pool}
use codis_client.Client.{Client, delete_client}
use codis_client.Threads.{Stage, Threads, ThreadsM, client_of, turn}

-- The thread `i` takes a step; or the destructor tries to take the lock, and deletes the pool if it gets it; or its
-- body has ended, and the object goes.
pub data Act : Type 0 where
  turn_of : ℕ → Act
  destruct : Act
  release : Act

abbrev pub is_done : Stage → Bool
is_done (Stage.done rep) = true
is_done st = false

abbrev pub all_done : List Stage → Bool
all_done [] = true
all_done (st ∷ sts) = is_done st && all_done sts

-- The pool is gone, as it is at the end of the body.
abbrev pub is_gone : Option Pool → Bool
is_gone none = true
is_gone (some p) = false

module _ ⦃lib : Hiredis⦄ where
  abbrev pub with_stages :
      List Stage
      → Run (State Client lib.World) (Unit {0})
      → Run (State Threads lib.World) (Unit {0})
  with_stages stages (ok x t) =
      ok tt (record { object = record { client = t.object; stages = stages }; world = t.world })
  with_stages stages (thrown t) =
      thrown (record { object = record { client = t.object; stages = stages }; world = t.world })
  with_stages stages fault = fault
  with_stages stages exited = exited

  -- `pthread_rwlock_wrlock` waits for the readers; nobody can take the lock until the destructor has released it.
  unfoldable pub try_destruct : ThreadsM (Unit {0})
  try_destruct s =
      if s.object.client.readers == 0
      then with_stages s.object.stages (delete_client (client_of s))
      else ok tt s

  -- The end of the object. A call that has not returned, or not begun, uses it afterwards, and its behaviour is counted as
  -- undefined at once.
  abbrev pub try_release : ThreadsM (Unit {0})
  try_release s =
      if is_gone s.object.client.conn_pool && all_done s.object.stages then ok tt s else fault

  abbrev pub act : Act → ThreadsM (Unit {0})
  act (turn_of i) = turn i
  act destruct = try_destruct
  act release = try_release

  unfoldable pub acts : List Act → ThreadsM (Unit {0})
  acts [] = pure tt
  acts (a ∷ rest) = do act a; acts rest
