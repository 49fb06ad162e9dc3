-- ===== src/Examples/Lifetime.antt =====
-- The destructor of a client with three threads, over the hiredis of Examples/Threads.
use mathlib.Core.List.{Nodup-nil, not-mem-nil}
use codis_client.Prelude.{
  zero, suc, false, true, ℕ, ◌≡◌, refl, sym, subst, ◌⊎◌, inl, inr, arith, List, [], ◌∷◌, pos, codes,
}
use codis_client.Run.{Run, Returns, ok, thrown, fault, exited}
use codis_client.Hiredis.{State}
use codis_client.ConnPool.{new_pool, reconnect, destroy, delete_pool}
use codis_client.Client.{delete_client}
use codis_client.Threads.{Stage, Threads, step}
use codis_client.Threads.Safety.{InOrder}
use codis_client.Threads.Lifetime.{Act, turn_of, destruct, release, act, acts, try_destruct}
use codis_client.Threads.Lifetime.Closing.{Closed, Fair, FairRun, acts-Kept}
use codis_client.Threads.Lifetime.Late.{acts_late}
use codis_client.Examples.{ToyWorld}
use codis_client.Examples.Threads.{
  reusing, reusing_laws, reusing-Steady, three_threads, three_threads-InOrder,
}

FairRun-next :
    (a : Act) (rest : List Act) (s s' : State Threads ToyWorld)
    → act a s ≡ ok tt s'
    → Fair a s
    → FairRun rest s'
    → FairRun (a ∷ rest) s
FairRun-next a rest s s' e fair later =
    (fair, λ t e'. let same : t ≡ s' = cc in subst (FairRun rest) (sym same) later)

-- The state after code that returns.
abbrev after :
    Run (State Threads ToyWorld) (Unit {0}) → State Threads ToyWorld → State Threads ToyWorld
after (ok x t) s = t
after (thrown t) s = s
after fault s = s
after exited s = s

abbrev then_ : Act → State Threads ToyWorld → State Threads ToyWorld
then_ a s = after (act a s) s

steady : (i : ℕ) (s : State Threads ToyWorld) → Fair (turn_of i) s
steady i s st e = reusing-Steady st (record { object = s.object.client; world = s.world })

-- The destructor waits for the second thread, and gets the lock when this one has returned; the others begin
-- after that, and at the end the object goes.
abbrev last_acts : List Act
last_acts = destruct ∷ turn_of 0 ∷ turn_of 2 ∷ release ∷ []

abbrev turns_and : ℕ → List Act → List Act
turns_and zero rest = rest
turns_and (suc n) rest = turn_of 1 ∷ turns_and n rest

abbrev waiting_destructor : List Act
waiting_destructor = destruct ∷ turns_and 4 last_acts

waiting_destructor-FairRun : FairRun waiting_destructor three_threads
unfolding try_destruct step reconnect destroy delete_client delete_pool
waiting_destructor-FairRun =
    let s1 = three_threads in
    let s2 = then_ (turn_of 1) s1 in
    let s3 = then_ (turn_of 1) s2 in
    let s4 = then_ (turn_of 1) s3 in
    let s5 = then_ (turn_of 1) s4 in
    let s6 = then_ destruct s5 in
    let s7 = then_ (turn_of 0) s6 in
    let s8 = then_ (turn_of 2) s7 in
    FairRun-next destruct (turns_and 4 last_acts) s1 s1 refl (inl λ e. omega arith) (
      FairRun-next (turn_of 1) (turns_and 3 last_acts) s1 s2 refl (steady 1 s1) (
        FairRun-next (turn_of 1) (turns_and 2 last_acts) s2 s3 refl (steady 1 s2) (
          FairRun-next (turn_of 1) (turns_and 1 last_acts) s3 s4 refl (steady 1 s3) (
            FairRun-next (turn_of 1) last_acts s4 s5 refl (steady 1 s4) (
              FairRun-next destruct (turn_of 0 ∷ turn_of 2 ∷ release ∷ []) s5 s6 refl
                (inr (refl, (refl, (refl, tt))))
                (FairRun-next (turn_of 0) (turn_of 2 ∷ release ∷ []) s6 s7 refl (steady 0 s6) (
                  FairRun-next (turn_of 2) (release ∷ []) s7 s8 refl (steady 2 s7)
                    (refl, λ t e. tt))))))))

acts-Kept_example : Returns (λ _ t. InOrder t ⊎ Closed t) (acts waiting_destructor three_threads)
acts-Kept_example =
    acts-Kept reusing_laws waiting_destructor three_threads (inl three_threads-InOrder)
      waiting_destructor-FairRun

-- A thread waits for the lock, another one has not begun.
abbrev late_thread : State Threads ToyWorld
late_thread = record three_threads {
  object = record {
    client = record three_threads.object.client { readers = 0 };
    stages =
        Stage.called (codes "GET" ∷ codes "x" ∷ []) (pos 500)
        ∷ Stage.waiting (codes "GET" ∷ codes "shop_y" ∷ [])
            (record { tv_sec = pos 0; tv_usec = pos 500000 })
        ∷ [];
  };
  world = record three_threads.world { alive = λ q. false };
}

late_thread-InOrder : InOrder late_thread
late_thread-InOrder = (
  new_pool (codes "db1") (pos 6379) [] true false 1 100 0,
  refl,
  ((Nodup-nil, λ q m. absurd (not-mem-nil m)), refl),
  refl,
)

acts_late_example : acts (destruct ∷ turn_of 1 ∷ turn_of 1 ∷ []) late_thread ≡ fault
acts_late_example =
    acts_late reusing_laws 1 (codes "GET" ∷ codes "shop_y" ∷ [])
      (record { tv_sec = pos 0; tv_usec = pos 500000 }) late_thread late_thread-InOrder refl refl
