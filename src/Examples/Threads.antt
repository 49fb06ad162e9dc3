-- ===== src/Examples/Threads.antt =====
-- Several threads over a hiredis that gives a freed address out next.
use mathlib.Core.List.{Nodup-cons, Nodup-nil, mem-singleton, not-mem-nil}
use codis_client.Prelude.{
  ◌++◌, ℕ, ◌≡◌, refl, true, false, List, [], ◌∷◌, some, arith, ◌==◌, ==-refl, if◌then◌else◌,
  get_elem?, inl, pos, codes,
}
use codis_client.Reply.{Reply}
use codis_client.Run.{Returns}
use codis_client.Hiredis.{Hiredis, Ptr, State}
use codis_client.Hiredis.Laws.{HiredisLaws}
use codis_client.ConnPool.{new_pool}
use codis_client.Client.{Client}
use codis_client.Threads.{Stage, Threads, run}
use codis_client.Threads.Holding.{Steady}
use codis_client.Threads.Safety.{InOrder, SteadyRun}
use codis_client.Threads.Progress.{run-ended}
use codis_client.Examples.{
  ToyWorld, toy_live, toy_new, toy_connect, toy_reply, toy_new-live, toy_reply-alive,
  toy_connect-live, toy_free-live,
}

abbrev free_next : Ptr → ToyWorld → ToyWorld
free_next c w = record w { alive = λ q. if q == c then false else w.alive q; spare = c }

instance abbrev pub reusing : Hiredis
reusing = record {
  World = ToyWorld;
  live = toy_live;
  err = λ w. w.failing;
  connect = toy_connect;
  free = free_next;
  set_timeout = λ c t w. w;
  command_argv = λ c argv w. toy_reply w.replies w;
  async_live = toy_live;
  async_err = λ w. w.failing;
  async_connect = toy_connect;
  async_set_disconnect_callback = λ c w. w;
  async_disconnect = λ c w. w;
  async_command_argv = λ c d argv w. (true, w);
  ae_attach = λ l c w. w;
}

pub reusing_laws : HiredisLaws reusing
reusing_laws = record {
  live-null = λ w. refl;
  live-new = λ a p w. toy_new-live w;
  live-connect = λ a p w q. toy_connect-live (toy_new w) w.alive q;
  live-free = λ c w q. toy_free-live c w.alive q;
  live-set_timeout = λ c t w q. refl;
  live-command_argv = λ c argv w q. toy_reply-alive w.replies w q;
  err-free = λ c w q ne. refl;
}

toy_new-free : (c : Ptr) (w : ToyWorld) → toy_new (free_next c w) ≡ c
toy_new-free c w = rw (==-refl c)

pub reusing-Steady : (st : Stage) (s : State Client ToyWorld) → Steady st s
reusing-Steady (Stage.called args tt') s = tt
reusing-Steady (Stage.waiting argv tv) s = tt
reusing-Steady (Stage.locked argv tv) s = tt
reusing-Steady (Stage.borrowed argv tv c) s = tt
reusing-Steady (Stage.timed argv tv c) s = tt
reusing-Steady (Stage.lost argv tv c) s = λ p e. inl (toy_new-free c s.world)
reusing-Steady (Stage.retrying argv tv c) s = tt
reusing-Steady (Stage.retimed argv tv c) s = tt
reusing-Steady (Stage.replied c r) s = tt
reusing-Steady (Stage.leaving rep) s = tt
reusing-Steady (Stage.done rep) s = tt

pub reusing-SteadyRun : (schedule : List ℕ) (s : State Threads ToyWorld) → SteadyRun schedule s
reusing-SteadyRun [] s = tt
reusing-SteadyRun (i ∷ schedule) s = (
  λ st e. reusing-Steady st (record { object = s.object.client; world = s.world }),
  λ t e. reusing-SteadyRun schedule t,
)

-- Three threads, one of which holds the connection 1 and has got no reply over it.
abbrev pub three_threads : State Threads ToyWorld
three_threads = record {
  object = record {
    client = record {
      loop = 5;
      conn_pool = some (new_pool (codes "db1") (pos 6379) [] true false 1 100 0);
      bid = codes "shop";
      readers = 1;
      proxy_ip = codes "db1";
      proxy_port = 235 ∷ [];
    };
    stages =
        Stage.called (codes "GET" ∷ codes "x" ∷ []) (pos 500)
        ∷ Stage.lost (codes "GET" ∷ codes "shop_y" ∷ [])
            (record { tv_sec = pos 0; tv_usec = pos 0 }) 1
        ∷ Stage.called (codes "GET" ∷ []) (pos 500)
        ∷ [];
  };
  world = record { alive = λ q. q == 1; failing = λ q. 0; spare = 4; reuses = true; replies = [] };
}

pub three_threads-InOrder : InOrder three_threads
three_threads-InOrder = (
  new_pool (codes "db1") (pos 6379) [] true false 1 100 0,
  refl,
  (
    (Nodup-cons.1 (not-mem-nil, Nodup-nil), λ q m. rw ((mem-singleton {A = ℕ} hlevel).0 m) refl),
    refl,
  ),
  refl,
)

-- The first thread is interrupted after each of its steps.
abbrev in_turn : List ℕ
in_turn = 0 ∷ 1 ∷ 2 ∷ 0 ∷ 1 ∷ 0 ∷ 1 ∷ 0 ∷ 1 ∷ 0 ∷ 1 ∷ 0 ∷ 0 ∷ 2 ∷ 0 ∷ 0 ∷ 0 ∷ []

run-ended_example :
    Returns
      (λ _ t. (rep : Reply) × (get_elem? t.object.stages 0 ≡ some (Stage.done rep)))
      (run in_turn three_threads)
run-ended_example =
    run-ended reusing_laws in_turn 0 (Stage.called (codes "GET" ∷ codes "x" ∷ []) (pos 500))
      three_threads three_threads-InOrder (reusing-SteadyRun in_turn three_threads) refl
      (omega arith)

-- Ten steps of each thread, one by one.
abbrev pub ten_rounds : List ℕ
ten_rounds = let r : List ℕ = 0 ∷ 1 ∷ 2 ∷ [] in r ++ r ++ r ++ r ++ r ++ r ++ r ++ r ++ r ++ r
