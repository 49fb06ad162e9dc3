-- ===== src/Threads/Race.antt =====
-- How two threads in `RedisCommand` (cpp/src/CodisClient.cpp) come to send over one connection.
use codis_client.Prelude.{
  ◌≡◌, ◌≢◌, ◌∙◌, ap, arith, true, List, [], ◌∷◌, some, ==_ne, Bytes, bytes_eq, ℤ, sym,
}
use codis_client.Run.{ok}
use codis_client.Hiredis.{Hiredis, Ptr, null, TimeVal, State}
use codis_client.Hiredis.Laws.{HiredisLaws}
use codis_client.ConnPool.{
  Pool, borrow_loop, borrow_new, borrow_item, create, destroy, reconnect, increment,
}
use codis_client.ConnPool.Ownership.{not_null}
use codis_client.Client.{Client}
use codis_client.Threads.{Stage, Threads, step, run}

module _ ⦃lib : Hiredis⦄ where
  -- Two threads over a client with the pool `p`, which has no idle connection.
  abbrev pub two_threads : Client → Pool → Stage → Stage → lib.World → State Threads lib.World
  two_threads o p st st' w = record {
    object = record {
      client = record o { conn_pool = some (record p { unused = []; password = [] }) };
      stages = st ∷ st' ∷ [];
    };
    world = w;
  }

module _ ⦃lib : Hiredis⦄ (laws : HiredisLaws lib) where
  pub live_new :
      (a : Bytes) (n : ℤ) (w : lib.World) (d : Ptr) (w' : lib.World)
      → lib.connect a n w ≡ (d, w')
      → d ≢ null
      → lib.live w' d ≡ true
  live_new a n w d w' made ne =
      let r = lib.connect a n w in
      let ne' : r.0 ≢ null = λ e. ne (ap (λ x. x.0) (sym made) ∙ e) in
      ap (λ x. lib.live x.1 x.0) (sym made) ∙ ground (arith, laws.live-connect a n w r.0)

  -- Two threads over a client whose pool is empty, the first with a live connection over which it got no
  -- reply, the second about to borrow one: if `redisConnect` makes the first thread's new connection at
  -- another address, and then the second thread's at the address that was freed, both in order, both
  -- threads are about to send their commands over that one connection.
  pub run_shared :
      (o : Client) (p : Pool) (argv argv' : List Bytes) (tv tv' : TimeVal) (c d : Ptr)
      (w w1 w2 : lib.World)
      → lib.live w c ≡ true
      → lib.connect p.address p.port (lib.free c w) ≡ (d, w1)
      → d ≢ null
      → lib.err w1 d ≡ 0
      → lib.connect p.address p.port w1 ≡ (c, w2)
      → lib.err w2 c ≡ 0
      → run (0 ∷ 1 ∷ 0 ∷ 1 ∷ []) (two_threads o p (Stage.lost argv tv c) (Stage.locked argv' tv') w)
        ≡ ok tt (
            two_threads o
              (record p { used = increment p.used })
              (Stage.retimed argv tv c)
              (Stage.timed argv' tv' c)
              (lib.set_timeout c tv' (lib.set_timeout c tv w2)))
  unfolding run step reconnect destroy borrow_item borrow_loop borrow_new create bytes_eq
  run_shared o p argv argv' tv tv' c d w w1 w2 live made ne fine made' fine' =
      let ne_c : c ≢ null = not_null laws w c live in
      let live1 = live_new p.address p.port (lib.free c w) d w1 made ne in
      let live2 = live_new p.address p.port w1 c w2 made' ne_c in
      let live3 = laws.live-set_timeout c tv w2 c ∙ live2 in
      rw (
        ==_ne c null ne_c,
        live,
        made,
        live1,
        fine,
        made',
        ==_ne c null ne_c,
        live2,
        fine',
        ==_ne c null ne_c,
        live2,
        ==_ne c null ne_c,
        live3,
      )
