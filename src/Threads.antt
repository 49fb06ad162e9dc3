-- ===== src/Threads.antt =====
-- `CodisClient::RedisCommand` (cpp/src/CodisClient.cpp) in several threads over one client: each thread
-- stands at one of the stages below, and a step is one critical section of the pool's mutex (`borrowItem`,
-- `Reconnect`, `returnItem`), one call of hiredis on a context, or one call on the lock `p_rwlock`.
pub mod Holding
pub mod Safety
pub mod Alone
pub mod Race
pub mod Progress
pub mod Shutdown
pub mod Server
pub mod Serial
pub mod Lifetime
use codis_client.Prelude.{
  ℕ, zero, suc, Bool, true, false, List, [], ◌∷◌, Option, none, some, length, get_elem?, set, ltb,
  ◌==◌, if◌then◌else◌, ℤ, Bytes, codes,
}
use codis_client.Reply.{RedisReply, Reply, of_redis}
use codis_client.KeyPrefix.{inner_command}
use codis_client.Run.{Run, M, ok, thrown, fault, exited, pure, ◌>>=◌, ◌>>◌}
use codis_client.Hiredis.{
  Hiredis, Ptr, null, TimeVal, State, get, redis_set_timeout, redis_command_argv,
}
use codis_client.ConnPool.{Pool, borrow_item, return_item, reconnect}
use codis_client.Client.{Client, ClientM, time_val, error_reply, on_pool, rdlock, unlock}

-- Where a call of `RedisCommand` stands, with its local variables: it is about to
--   called: test the length of the command and the pool;
--   waiting: take the read lock;
--   locked: borrow a connection;
--   borrowed: set the time limit of the first attempt;
--   timed: send the command;
--   lost: call `Reconnect`;
--   retrying, retimed: set the time limit, and send the command again;
--   replied: return the connection;
--   leaving: release the read lock.
pub data Stage : Type 0 where
  called : List Bytes → ℤ → Stage
  waiting : List Bytes → TimeVal → Stage
  locked : List Bytes → TimeVal → Stage
  borrowed : List Bytes → TimeVal → Ptr → Stage
  timed : List Bytes → TimeVal → Ptr → Stage
  lost : List Bytes → TimeVal → Ptr → Stage
  retrying : List Bytes → TimeVal → Ptr → Stage
  retimed : List Bytes → TimeVal → Ptr → Stage
  replied : Ptr → RedisReply → Stage
  leaving : Reply → Stage
  done : Reply → Stage

-- Where the call stands once it has tested `m_ConnPool`.
abbrev pub with_a_pool : Option Pool → List Bytes → TimeVal → Stage
with_a_pool none argv tv = Stage.done (error_reply (codes "Can not fetch client from pool!!!"))
with_a_pool (some _) argv tv = Stage.waiting argv tv

-- After `borrowItem`, the two attempts and `Reconnect`.
abbrev pub after_borrow : List Bytes → TimeVal → Ptr → Stage
after_borrow argv tv c =
    if c == null
    then Stage.leaving (error_reply (codes "context is NULL !!"))
    else Stage.borrowed argv tv c

abbrev pub after_first : List Bytes → TimeVal → Ptr → Option RedisReply → Stage
after_first argv tv c none = Stage.lost argv tv c
after_first argv tv c (some r) = Stage.replied c r

abbrev pub after_reconnect : List Bytes → TimeVal → Ptr → Bool → Stage
after_reconnect argv tv c false = Stage.leaving (error_reply (codes "reconnect faild!"))
after_reconnect argv tv c true = Stage.retrying argv tv c

abbrev pub after_second : Ptr → Option RedisReply → Stage
after_second c none = Stage.leaving (error_reply (codes "Do Command faild."))
after_second c (some r) = Stage.replied c r

module _ ⦃lib : Hiredis⦄ where
  -- One step of a call.
  unfoldable pub step : Stage → ClientM Stage
  step (Stage.called args tt') =
      if ltb (length args) 2
      then pure (Stage.done (error_reply (codes "Command length should gt 2")))
      else do c ← get; pure (with_a_pool c.conn_pool (inner_command c.bid args) (time_val tt'))
  step (Stage.waiting argv tv) = do rdlock; pure (Stage.locked argv tv)
  step (Stage.locked argv tv) = do c ← on_pool borrow_item; pure (after_borrow argv tv c)
  step (Stage.borrowed argv tv c) = do redis_set_timeout c tv; pure (Stage.timed argv tv c)
  step (Stage.timed argv tv c) = do r ← redis_command_argv c argv; pure (after_first argv tv c r)
  step (Stage.lost argv tv c) = do
    fine ← on_pool (reconnect c)
    pure (after_reconnect argv tv c fine)
  step (Stage.retrying argv tv c) = do redis_set_timeout c tv; pure (Stage.retimed argv tv c)
  step (Stage.retimed argv tv c) = do r ← redis_command_argv c argv; pure (after_second c r)
  step (Stage.replied c r) = do on_pool (return_item c); pure (Stage.leaving (of_redis r))
  step (Stage.leaving rep) = do unlock; pure (Stage.done rep)
  step (Stage.done rep) = pure (Stage.done rep)

-- The client, and the stage of each thread.
pub record Threads : Type 0 where
  pub client : Client
  pub stages : List Stage

module _ ⦃lib : Hiredis⦄ where
  abbrev pub ThreadsM : Type 0 → Type 0
  ThreadsM = M (State Threads lib.World)

  -- The state after a step of the thread `i`.
  abbrev pub moved :
      List Stage → ℕ → Run (State Client lib.World) Stage → Run (State Threads lib.World) (Unit {0})
  moved stages i (ok st t) =
      ok tt (record {
        object = record { client = t.object; stages = set stages i st };
        world = t.world;
      })
  moved stages i (thrown t) =
      thrown (record { object = record { client = t.object; stages = stages }; world = t.world })
  moved stages i fault = fault
  moved stages i exited = exited

  abbrev pub client_of : State Threads lib.World → State Client lib.World
  client_of s = record { object = s.object.client; world = s.world }

  abbrev pub step_from : Option Stage → ℕ → ThreadsM (Unit {0})
  step_from none i s = ok tt s
  step_from (some st) i s = moved s.object.stages i (step st (client_of s))

  -- The thread `i` takes a step; there may be no such thread.
  abbrev pub turn : ℕ → ThreadsM (Unit {0})
  turn i s = step_from (get_elem? s.object.stages i) i s

  -- The threads take steps in that order.
  unfoldable pub run : List ℕ → ThreadsM (Unit {0})
  run [] = pure tt
  run (i ∷ schedule) = do turn i; run schedule
