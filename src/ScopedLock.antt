-- ===== src/ScopedLock.antt =====
-- `ScopedLock` of cpp/include/ScopedLock.h: threads whose critical sections run under one mutex, a step of a section
-- at a time. The lock itself, `pthread_mutex_t`, is the field `holder`.
pub mod Whole
pub mod Steps
pub mod Atomic
pub mod Pool
use codis_client.Prelude.{ℕ, List, [], ◌∷◌, map, Option, none, some, get_elem?, set}
use codis_client.Run.{Run, M, ok, thrown, fault, exited, pure, ◌>>◌}

-- The body of a block that begins with a `ScopedLock`: steps on the data that the mutex protects.
abbrev pub Section : Type 0 → Type 0
Section S = List (M S (Unit {0}))

-- Where a thread stands, with the sections that are still to come: before the next one, or inside one, with the steps
-- that are left of it.
pub data Place (S : Type 0) : Type 0 where
  outside : List (Section S) → Place S
  inside : Section S → List (Section S) → Place S

pub record Guarded (S : Type 0) : Type 0 where
  pub holder : Option ℕ
  pub shared : S
  pub places : List (Place S)

module _ {S : Type 0} where
  -- The constructor: `pthread_mutex_lock` waits while another thread holds the mutex.
  abbrev pub lock : Option ℕ → ℕ → Section S → List (Section S) → M (Guarded S) (Unit {0})
  lock none i section rest g =
      ok tt (record g { holder = some i; places = set g.places i (Place.inside section rest) })
  lock (some j) i section rest g = ok tt g

  -- The destructor, at the end of the block, and where an exception leaves it.
  abbrev pub unlock : ℕ → List (Section S) → M (Guarded S) (Unit {0})
  unlock i rest g = ok tt (record g { holder = none; places = set g.places i (Place.outside rest) })

  abbrev pub worked :
      ℕ → Section S → List (Section S) → Guarded S → Run S (Unit {0}) → Run (Guarded S) (Unit {0})
  worked i ms rest g (ok x s) =
      ok tt (record g { shared = s; places = set g.places i (Place.inside ms rest) })
  worked i ms rest g (thrown s) = unlock i rest (record g { shared = s })
  worked i ms rest g fault = fault
  worked i ms rest g exited = exited

  -- A step of the thread `i`.
  abbrev pub step_at : Option (Place S) → ℕ → M (Guarded S) (Unit {0})
  step_at none i g = ok tt g
  step_at (some (Place.outside [])) i g = ok tt g
  step_at (some (Place.outside (section ∷ rest))) i g = lock g.holder i section rest g
  step_at (some (Place.inside [] rest)) i g = unlock i rest g
  step_at (some (Place.inside (m ∷ ms) rest)) i g = worked i ms rest g (m g.shared)

  -- The threads take their steps in that order.
  unfoldable pub interleave : List ℕ → M (Guarded S) (Unit {0})
  interleave [] = pure tt
  interleave (i ∷ schedule) = do (λ g. step_at (get_elem? g.places i) i g); interleave schedule

  -- Nobody has begun.
  abbrev pub start : List (List (Section S)) → S → Guarded S
  start programs s = record { holder = none; shared = s; places = map Place.outside programs }
