-- ===== src/Threads/Serial/Twice.antt =====
-- How `RedisCommand` (cpp/src/CodisClient.cpp) has a command executed twice.
use codis_client.Prelude.{
  ◌≡◌, ◌≢◌, refl, ap, sym, ◌∙◌, inl, inr, true, List, [], ◌∷◌, none, some, ==_ne, Bytes,
}
use codis_client.Reply.{RedisReply}
use codis_client.Run.{ok}
use codis_client.Hiredis.{Hiredis, Ptr, null, TimeVal, State}
use codis_client.Hiredis.Laws.{HiredisLaws}
use codis_client.ConnPool.{Pool, destroy, reconnect}
use codis_client.ConnPool.Ownership.{not_null}
use codis_client.Client.{Client}
use codis_client.Threads.{Stage, Threads, step, run}
use codis_client.Threads.Race.{live_new}
use codis_client.Threads.Server.{Server}

module _ ⦃lib : Hiredis⦄ where
  -- One thread over a client with the pool `p`.
  abbrev pub one_thread : Client → Pool → Stage → lib.World → State Threads lib.World
  one_thread o p st w = record {
    object = record { client = record o { conn_pool = some p }; stages = st ∷ [] };
    world = w;
  }

module _ ⦃lib : Hiredis⦄ (laws : HiredisLaws lib) (server : Server lib) where
  -- An attempt that is answered has been executed.
  executed_of_reply :
      (c : Ptr) (argv : List Bytes) (w w' : lib.World) (r : RedisReply)
      → lib.live w c ≡ true
      → lib.command_argv c argv w ≡ (some r, w')
      → server.content w' ≡ (server.execute argv (server.content w)).1
  executed_of_reply c argv w w' r live e =
      let got : (lib.command_argv c argv w).0 ≡ some r = ap (λ x. x.0) e in
      let after : server.content w' ≡ server.content (lib.command_argv c argv w).1 =
        ap (λ x. server.content x.1) (sym e) in
      elim (server.content-command_argv c argv w live) [
        | inl (none_, h) ↦ cc
        | inr (inl (some_, h)) ↦ after ∙ h
        | inr (inr (l, none_, h)) ↦ cc
      ]

  -- A thread is about to send its command over a live connection. If the server executes it, but no reply comes,
  -- `redisConnect` then gives a new context in order at the same address, and the second attempt gets a reply:
  -- the thread goes on with that reply, and the server has executed the command twice.
  pub run_twice :
      (o : Client) (p : Pool) (argv : List Bytes) (tv : TimeVal) (c : Ptr) (r : RedisReply)
      (w w1 w2 w3 : lib.World)
      → lib.live w c ≡ true
      → lib.command_argv c argv w ≡ (none, w1)
      → server.content w1 ≡ (server.execute argv (server.content w)).1
      → lib.connect p.address p.port (lib.free c w1) ≡ (c, w2)
      → lib.err w2 c ≡ 0
      → lib.command_argv c argv (lib.set_timeout c tv w2) ≡ (some r, w3)
      → (run (0 ∷ 0 ∷ 0 ∷ 0 ∷ []) (one_thread o p (Stage.timed argv tv c) w)
          ≡ ok tt (one_thread o p (Stage.replied c r) w3))
        × (server.content w3 ≡ (server.execute argv (server.execute argv (server.content w)).1).1)
  unfolding run step reconnect destroy
  run_twice o p argv tv c r w w1 w2 w3 live lost executed made fine answered =
      let ne : c ≢ null = not_null laws w c live in
      let live1 : lib.live w1 c ≡ true =
        ap (λ x. lib.live x.1 c) (sym lost) ∙ (laws.live-command_argv c argv w c ∙ live) in
      let live2 = live_new laws p.address p.port (lib.free c w1) c w2 made ne in
      let live3 : lib.live (lib.set_timeout c tv w2) c ≡ true =
        laws.live-set_timeout c tv w2 c ∙ live2 in
      let same : server.content (lib.set_timeout c tv w2)
          ≡ (server.execute argv (server.content w)).1 =
        server.content-set_timeout c tv w2
        ∙ (ap (λ x. server.content x.1) (sym made)
            ∙ (server.content-connect p.address p.port (lib.free c w1)
                ∙ (server.content-free c w1 ∙ executed))) in
      (
        rw (live, lost, ==_ne c null ne, live1, made, live2, fine, live2, live3, answered) refl,
        executed_of_reply c argv (lib.set_timeout c tv w2) w3 r live3 answered
            ∙ ap (λ x. (server.execute argv x).1) same,
      )
