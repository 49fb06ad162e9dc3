-- ===== src/Threads/Shutdown.antt =====
-- The end of `RedisCommand` in all threads, and `~CodisClient` (cpp/src/CodisClient.cpp) after it.
use codis_client.Prelude.{
  ℕ, ◌≡◌, refl, subst, List, [], ◌∷◌, Option, none, some, length, get_elem?, length-set,
}
use codis_client.Reply.{Reply}
use codis_client.Run.{Run, Yields, Yields-bind, ok, thrown, fault, exited}
use codis_client.Hiredis.{Hiredis, State}
use codis_client.Client.{Client}
use codis_client.Threads.{Stage, Threads, step, step_from, moved, client_of, turn, run}

abbrev pub IsDone : Stage → Type 0
IsDone st = (rep : Reply) × (st ≡ Stage.done rep)

module _ ⦃lib : Hiredis⦄ where
  abbrev pub AsMany : ℕ → State Threads lib.World → Type 0
  AsMany n t = length t.object.stages ≡ n

  moved-AsMany :
      (stages : List Stage) (i : ℕ) (r : Run (State Client lib.World) Stage)
      → Yields (λ _. AsMany (length stages)) (moved stages i r)
  moved-AsMany stages i (ok st t) = length-set stages i st
  moved-AsMany stages i (thrown t) = tt
  moved-AsMany stages i fault = tt
  moved-AsMany stages i exited = tt

  step_from-AsMany :
      (o : Option Stage) (i : ℕ) (s : State Threads lib.World)
      → Yields (λ _. AsMany (length s.object.stages)) (step_from o i s)
  step_from-AsMany none i s = refl
  step_from-AsMany (some st) i s = moved-AsMany s.object.stages i (step st (client_of s))

  pub run-AsMany :
      (schedule : List ℕ) (n : ℕ) (s : State Threads lib.World)
      → AsMany n s
      → Yields (λ _. AsMany n) (run schedule s)
  unfolding run
  run-AsMany [] n s h = h
  run-AsMany (i ∷ schedule) n s h =
      Yields-bind (λ _. AsMany n) (λ _. AsMany n) (turn i s) (λ _. run schedule)
        (subst (λ m. Yields (λ _. AsMany m) (turn i s)) h
          (step_from-AsMany (get_elem? s.object.stages i) i s))
        λ _ t. run-AsMany schedule n t
