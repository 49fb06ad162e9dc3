-- ===== src/Client/Answers.antt =====
-- What `CodisClient::RedisCommand` (cpp/src/CodisClient.cpp) sends and returns where the server
-- answers, and what happens where it has closed the connection.
use codis_client.Prelude.{
  Distinct, ◌+◌, ◌<◌, ◌≡◌, ◌≢◌, refl, ◌∙◌, ap, subst, sym, true, false, List, [], ◌∷◌, ◌++◌, Option,
  none, some, arith, ==_ne, Bytes, ℤ, length, ltb, All,
}
use codis_client.Reply.{RedisReply, of_redis}
use codis_client.KeyPrefix.{inner_command}
use codis_client.Run.{ok, fault, and_then}
use codis_client.Hiredis.{Hiredis, Ptr, null, State}
use codis_client.Hiredis.Laws.{HiredisLaws}
use codis_client.ConnPool.{Pool, PoolM, reconnect, borrow_item, return_item, decrement}
use codis_client.ConnPool.Ownership.{not_null}
use codis_client.ConnPool.Reuse.{Failed, Fine, free_all, borrow_item_first, live_after_frees}
use codis_client.Client.Steps.{at_pool}
use codis_client.Client.{
  Client, time_val, with_pool, on_pool, on_pool_of, finish, retry, first_reply, attempt, send_to,
  send, redis_command,
}

module _ ⦃lib : Hiredis⦄ where
  abbrev pub with_conn_pool : State Client lib.World → Pool → lib.World → State Client lib.World
  with_conn_pool s p w = record { object = record s.object { conn_pool = some p }; world = w }

  on_pool-ok :
      {A : Type 0} (m : PoolM A) (p : Pool) (s : State Client lib.World) (a : A)
      (t : State Pool lib.World)
      → s.object.conn_pool ≡ some p
      → m (at_pool p s.world) ≡ ok a t
      → on_pool m s ≡ ok a (with_conn_pool s t.object t.world)
  on_pool-ok m p s a t e h =
      subst (λ x. on_pool_of x m s ≡ ok a (with_conn_pool s t.object t.world)) (sym e)
        (ap (with_pool s.object) h)

module _ ⦃lib : Hiredis⦄ (laws : HiredisLaws lib) (args : List Bytes) (tt' : ℤ) (bad : List Ptr)
    (c : Ptr) (rest : List Ptr) (p : Pool) (s : State Client lib.World)
    (connected : s.object.conn_pool ≡ some p) (idle : p.unused ≡ bad ++ c ∷ rest)
    (apart : Distinct (bad ++ c ∷ [])) (failed : All (Failed s.world) bad) (fine : Fine s.world c)
    (long : 1 < length args) where
  -- The world when the command is sent: the failed connections in front are freed, and the time limit
  -- is set.
  abbrev pub sending : lib.World
  sending = lib.set_timeout c (time_val tt') (free_all bad s.world)

  abbrev pub sent : Option RedisReply × lib.World
  sent = lib.command_argv c (inner_command s.object.bid args) sending

  live_sending : lib.live sending c ≡ true
  live_sending =
      laws.live-set_timeout c (time_val tt') (free_all bad s.world) c
      ∙ live_after_frees laws bad c s.world apart fine

  -- The state in which the first attempt is made.
  abbrev locked : State Client lib.World
  locked = record {
    object = record s.object {
      readers = s.object.readers + 1;
      conn_pool = some (record p { unused = rest });
    };
    world = sent.1;
  }

  -- The state with a connection, before the time limit is set.
  abbrev borrowed : State Client lib.World
  borrowed = record locked { world = free_all bad s.world }

  attempt-first_reply :
      attempt (inner_command s.object.bid args) (time_val tt') c borrowed
      ≡ first_reply c (inner_command s.object.bid args) (time_val tt') sent.0 locked
  unfolding attempt
  attempt-first_reply = rw (
    ==_ne c null (not_null laws s.world c fine.0),
    live_after_frees laws bad c s.world apart fine,
    live_sending,
  )

  redis_command-first_reply :
      redis_command args tt' s
      ≡ first_reply c (inner_command s.object.bid args) (time_val tt') sent.0 locked
  unfolding redis_command send send_to
  redis_command-first_reply =
      let argv = inner_command s.object.bid args in
      let s' : State Client lib.World = record s {
        object = record s.object { readers = s.object.readers + 1 };
      } in
      let short : ltb (length args) 2 ≡ false = ground arith in
      let unsent : redis_command args tt' s ≡ send_to s.object.conn_pool argv (time_val tt') s =
        rw short in
      unsent
      ∙ ap (λ x. send_to x argv (time_val tt') s) connected
      ∙ ap (λ r. and_then r (attempt argv (time_val tt')))
          (on_pool-ok borrow_item p s' c _ connected
            (borrow_item_first laws bad c rest (at_pool p s.world) idle apart failed fine))
      ∙ attempt-first_reply

  -- For a command of two arguments or more, on a client whose pool holds a connection that has not
  -- failed, behind others that have and are all different: where the server answers at the first
  -- attempt, `RedisCommand` returns a copy of that answer; it has sent the command with its business
  -- ID over that connection, freed those in front of it, and put it back behind the others.
  pub redis_command_answered :
      (r : RedisReply) (w : lib.World)
      → sent ≡ (some r, w)
      → redis_command args tt' s
        ≡ ok
            (of_redis r)
            (with_conn_pool s (record p { unused = rest ++ c ∷ []; used = decrement p.used }) w)
  unfolding first_reply finish return_item
  redis_command_answered r w e =
      redis_command-first_reply
      ∙ ap
          (λ x.
            first_reply c (inner_command s.object.bid args) (time_val tt') x.0
              (record locked { world = x.1 }))
          e
      ∙ ap
          (λ n. ok (of_redis r) (record {
            object = record s.object {
              conn_pool = some (record p { unused = rest ++ c ∷ []; used = decrement p.used });
              readers = n;
            };
            world = w;
          }))
          (omega arith)

  live_sent : lib.live sent.1 c ≡ true
  live_sent = laws.live-command_argv c (inner_command s.object.bid args) sending c ∙ live_sending

  reconnect-moved :
      (q : Pool)
      → let new = lib.connect q.address q.port (lib.free c sent.1) in
        new.0 ≢ null
        → lib.err new.1 new.0 ≡ 0
        → reconnect c (at_pool q sent.1) ≡ ok true (at_pool q new.1)
  unfolding reconnect
  reconnect-moved q made fine' =
      let new = lib.connect q.address q.port (lib.free c sent.1) in
      let live_new : lib.live new.1 new.0 ≡ true =
        ground (arith, laws.live-connect q.address q.port (lib.free c sent.1) new.0) in
      rw (==_ne c null (not_null laws s.world c fine.0), live_sent, live_new, fine')

  dead_moved :
      (q : Pool)
      → let new = lib.connect q.address q.port (lib.free c sent.1) in
        new.0 ≢ c → lib.live new.1 c ≡ false
  dead_moved q moved =
      ground
        (arith, laws.live-connect q.address q.port (lib.free c sent.1) c, laws.live-free c sent.1 c)

  -- For a command of two arguments or more, on a client whose pool holds a connection that has not
  -- failed, behind others that have and are all different: where the first attempt gets no answer,
  -- as when the server has closed the connection, and `redisConnect` makes a connection in order at
  -- another address, `RedisCommand` goes on with the one that was freed: its behaviour is undefined.
  pub redis_command_dangling :
      sent.0 ≡ none
      → let new = lib.connect p.address p.port (lib.free c sent.1) in
        new.0 ≢ null → new.0 ≢ c → lib.err new.1 new.0 ≡ 0 → redis_command args tt' s ≡ fault
  unfolding first_reply retry
  redis_command_dangling closed made moved ok' =
      let argv = inner_command s.object.bid args in
      let tv = time_val tt' in
      redis_command-first_reply
      ∙ ap (λ x. first_reply c argv tv x locked) closed
      ∙ ap (λ r. and_then r (λ again. retry c argv tv again))
          (on_pool-ok (reconnect c) (record p { unused = rest }) locked true _ refl
            (reconnect-moved (record p { unused = rest }) made ok'))
      ∙ rw (dead_moved p moved) refl
