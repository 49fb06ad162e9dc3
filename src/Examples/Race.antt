-- ===== src/Examples/Race.antt =====
-- Two threads that come to share a connection, and one thread alone, over the small hiredis of Examples.
use codis_client.Prelude.{
  ◌≡◌, refl, true, false, List, [], ◌∷◌, some, arith, ◌==◌, pos, Bytes, codes,
}
use codis_client.Run.{ok}
use codis_client.Hiredis.{TimeVal}
use codis_client.ConnPool.{Pool, new_pool}
use codis_client.Client.{Client}
use codis_client.Threads.{Stage, run}
use codis_client.Threads.Race.{two_threads, run_shared}
use codis_client.Examples.{ToyWorld, toy, toy_laws}

abbrev some_pool : Pool
some_pool = new_pool (codes "db1") (pos 6379) [] true false 1 100 0

abbrev a_client : Client
a_client = record {
  loop = 5;
  conn_pool = some some_pool;
  bid = codes "shop";
  readers = 2;
  proxy_ip = codes "db1";
  proxy_port = 235 ∷ [];
}

abbrev half_second : TimeVal
half_second = record { tv_sec = pos 0; tv_usec = pos 500000 }

abbrev get_x : List Bytes
get_x = codes "GET" ∷ codes "shop_x" ∷ []

-- The connection 8 exists; 7 is the next address to be given out.
abbrev before : ToyWorld
before = record { alive = λ q. q == 8; failing = λ q. 0; spare = 7; reuses = false; replies = [] }

abbrev after_first : ToyWorld
after_first = (toy.connect (codes "db1") (pos 6379) (toy.free 8 before)).1

abbrev after_second : ToyWorld
after_second = (toy.connect (codes "db1") (pos 6379) after_first).1

run_shared_example :
    run (0 ∷ 1 ∷ 0 ∷ 1 ∷ []) (
      two_threads a_client some_pool
        (Stage.lost get_x half_second 8)
        (Stage.locked get_x half_second)
        before)
    ≡ ok tt (
        two_threads a_client
          (record some_pool { used = 1 })
          (Stage.retimed get_x half_second 8)
          (Stage.timed get_x half_second 8)
          after_second)
run_shared_example =
    run_shared toy_laws a_client some_pool get_x get_x half_second half_second 8 7 before
      after_first after_second refl refl (λ e. omega arith) refl refl refl
