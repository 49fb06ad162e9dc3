-- ===== src/Examples/Locks.antt =====
-- Two threads that return connections to one pool, a step at a time.
use codis_client.Prelude.{own, program, ℕ, ◌≡◌, List, [], ◌∷◌, ◌++◌, pos, codes}
use codis_client.Hiredis.{State}
use codis_client.ConnPool.{Pool, new_pool}
use codis_client.ScopedLock.{Section, interleave, start}
use codis_client.ScopedLock.Whole.{one_by_one, finished, Left}
use codis_client.Run.{Safe}
use codis_client.ScopedLock.Steps.{HeldInside}
use codis_client.ScopedLock.Atomic.{interleave-one_by_one}
use codis_client.ScopedLock.Pool.{return_section}
use codis_client.Examples.{ToyWorld, toy}
use codis_client.Prelude.{true, false}

abbrev a_pool : State Pool ToyWorld
a_pool = record {
  object = new_pool (codes "db1") (pos 6379) [] true false 1 100 0;
  world = record { alive = λ q. true; failing = λ q. 0; spare = 9; reuses = true; replies = [] };
}

abbrev returns : List (List (Section (State Pool ToyWorld)))
returns = (return_section 1 ∷ []) ∷ (return_section 2 ∷ return_section 3 ∷ []) ∷ []

-- The second thread tries to take the mutex between the steps of the first one.
abbrev in_between : List ℕ
in_between = 0 ∷ 1 ∷ 0 ∷ 1 ∷ 0 ∷ 0 ∷ 1 ∷ 1 ∷ 0 ∷ 1 ∷ []

interleave-one_by_one_example :
    (h : List (ℕ × Section (State Pool ToyWorld))) × (one_by_one h a_pool
      ≡ finished (interleave in_between (start returns a_pool)))
    × ((i : ℕ)
        → (rest : List (Section (State Pool ToyWorld))) × (own i h ++ rest ≡ program returns i)
          × Left (interleave in_between (start returns a_pool)) i rest)
    × Safe HeldInside (interleave in_between (start returns a_pool))
interleave-one_by_one_example = interleave-one_by_one in_between returns a_pool
