-- ===== src/Examples/Sessions.antt =====
-- A small ZooKeeper and operating system, and the theorems about the session at concrete states.
use mathlib.Core.List.{Nodup-nil, not-mem-nil}
use codis_client.Prelude.{
  ℕ, zero, suc, ◌+◌, ◌-◌, ◌≡◌, ◌≢◌, ◌⊎◌, refl, inl, true, false, List, [], ◌∷◌, none, some,
  get_elem?, arith, ◌==◌, if◌then◌else◌, pos, negsuc, codes,
}
use codis_client.Run.{Ends, Safe, ok, fault}
use codis_client.Hiredis.{Ptr, null}
use codis_client.Environment.{Environment}
use codis_client.ConnPool.{new_pool}
use codis_client.Client.{Client}
use codis_client.Client.Steps.{Settled}
use codis_client.RoundRobin.{RoundRobin}
use codis_client.BfdCodis.{Bfd, on_client}
use codis_client.Methods.Interface.{Method, by_client}
use codis_client.Methods.Tame.{by_client-Settled}
use codis_client.Session.{inside, init_proxy_conns, wait_connected, zk_get}
use codis_client.Session.Memory.{idle, Sound}
use codis_client.Session.Deletion.{at_bfd}
use codis_client.Session.Installation.{Managed, init_proxy_conns_stale}
use codis_client.Session.Reading.{zk_get_terminator}
use codis_client.Session.Watching.{after_polls, wait_connected_ends}
use codis_client.Examples.{ToyWorld, toy, toy_laws}
use codis_client.Examples.Data.{toy_json}

-- Its state is how many polls find the session still connecting.
instance abbrev pub toy_env : Environment
toy_env = record {
  World = ℕ;
  init = λ addr timeout v. (9, v);
  close = λ zh v. v;
  state = λ zh v. (if v == 0 then pos 3 else pos 1, v - 1);
  get_children = λ zh path watch v. (some (codes "p1" ∷ []), v);
  get = λ zh path watch n v. (some (if n == 0 then [] else codes "db1:6379", 8), v);
  malloc = λ n v. (0 ∷ 0 ∷ 0 ∷ 0 ∷ 0 ∷ 0 ∷ 0 ∷ 0 ∷ 0 ∷ [], v);
  usleep = λ n v. v;
  sleep = λ n v. v;
  create_event_loop = λ n v. (5, v);
  uninitialised = λ v. (0, v);
  create_thread = λ v. (true, v);
  expired_session_state = negsuc 111;
  connecting_state = pos 1;
  connected_state = pos 3;
  child_event = pos 4;
  session_event = negsuc 0;
}

abbrev pub quiet : ToyWorld
quiet = record { alive = λ q. false; failing = λ q. 0; spare = 4; reuses = true; replies = [] }

abbrev pub a_client : Client
a_client = record {
  loop = 5;
  conn_pool = some (new_pool (codes "db1") (pos 6379) [] true false 1 100 0);
  bid = codes "shop";
  readers = 0;
  proxy_ip = codes "db1";
  proxy_port = 235 ∷ [];
}

abbrev pub a_robin : RoundRobin
a_robin = record {
  proxys = 1 ∷ [];
  proxy_index = negsuc 0;
  proxy_infos = (codes "db1", pos 6379) ∷ [];
  zh = 9;
  zookeeper_addr = codes "zk1:2181";
  proxy_path = codes "/zk/codis/db_test/proxy";
  business_id = codes "shop";
}

abbrev pub a_bfd : Bfd
a_bfd = record { clients = none ∷ some a_client ∷ []; pool = some a_robin }

a_bfd-Sound : Sound a_bfd.clients quiet
unfolding idle
a_bfd-Sound = (
  (Nodup-nil, λ c m. absurd (not-mem-nil m)),
  (tt, ((new_pool (codes "db1") (pos 6379) [] true false 1 100 0, refl, refl, refl), tt)),
)

a_bfd_only : (c : Ptr) (o : Client) → get_elem? a_bfd.clients c ≡ some (some o) → (c ≡ 1) ⊎ ⊥
a_bfd_only zero o h = cc
a_bfd_only (suc zero) o h = inl refl
a_bfd_only (suc (suc c)) o h = cc

one_ne_null : 1 ≢ null
one_ne_null e = cc

abbrev managed : Managed a_bfd quiet
managed = record {
  r = a_robin;
  has = refl;
  apart = (tt, tt);
  exist = ((a_client, refl, one_ne_null), tt);
  only = a_bfd_only;
  sound = a_bfd-Sound;
  room = omega arith;
}

init_proxy_conns_stale_example :
    Ends ⊥
      (λ _ t. inside (on_client 1 (by_client (Method.get (codes "x") (pos 500)))) t ≡ fault)
      (init_proxy_conns ((codes "db2", pos 6380) ∷ []) (at_bfd a_bfd quiet 0))
init_proxy_conns_stale_example =
    init_proxy_conns_stale toy_laws (by_client (Method.get (codes "x") (pos 500))) 1
      ((codes "db2", pos 6380) ∷ []) a_bfd quiet 0 managed (inl refl)

wait_connected_ends_example :
    (left : ℕ) × (left + 2 ≡ 10000)
    × (wait_connected 10000 9 (at_bfd a_bfd quiet 2)
        ≡ ok left (at_bfd a_bfd quiet (after_polls 2 9 2)))
wait_connected_ends_example =
    wait_connected_ends 10000 2 9 a_bfd quiet 2 (refl, (refl, refl)) (omega arith)

zk_get_terminator_example :
    let last : ℕ = 0 in
    ((last ≡ 0)
      × (zk_get 9 (codes "/p1") true (at_bfd a_bfd quiet 0)
          ≡ ok (codes "db1:6379") (at_bfd a_bfd quiet 0)))
    ⊎ ((last ≢ 0) × (zk_get 9 (codes "/p1") true (at_bfd a_bfd quiet 0) ≡ fault))
zk_get_terminator_example =
    zk_get_terminator 9 (codes "/p1") true a_bfd quiet 0 0 0 (codes "db1:6379")
      (0 ∷ 0 ∷ 0 ∷ 0 ∷ 0 ∷ 0 ∷ 0 ∷ 0 ∷ []) 0
      (
        (λ e. omega arith),
        (
          (λ e. omega arith),
          (
            (λ e. omega arith),
            (
              (λ e. omega arith),
              (
                (λ e. omega arith),
                ((λ e. omega arith), ((λ e. omega arith), ((λ e. omega arith), tt))),
              ),
            ),
          ),
        ),
      )
      refl refl refl refl

a_client-Settled : Settled [] 0 (record { object = a_client; world = quiet })
a_client-Settled = (
  new_pool (codes "db1") (pos 6379) [] true false 1 100 0,
  refl,
  ((Nodup-nil, λ c m. absurd (not-mem-nil m)), refl),
  refl,
)

by_client-Settled_example :
    Safe
      (Settled [] 0)
      (by_client (Method.get (codes "x") (pos 500)) (record { object = a_client; world = quiet }))
by_client-Settled_example =
    by_client-Settled toy_laws (Method.get (codes "x") (pos 500)) []
      (record { object = a_client; world = quiet }) a_client-Settled
