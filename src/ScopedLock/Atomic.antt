-- ===== src/ScopedLock/Atomic.antt =====
-- Threads under a `ScopedLock` (cpp/include/ScopedLock.h) against their sections one after the other.
use codis_client.Prelude.{
  own, own-append, program, ℕ, zero, suc, ◌≡◌, refl, sym, ap, ◌∙◌, List, [], ◌∷◌, ◌++◌, map,
  append_assoc, fun_ext, some, get_elem?,
}
use codis_client.Run.{Run, Safe, Safe-bind, ok, thrown, fault, exited, and_then}
use codis_client.ScopedLock.{Section, Place, Guarded, step_at, interleave, start}
use codis_client.ScopedLock.Whole.{
  one_by_one, to_come, finish, finished, Left, and_then-ok, and_then_assoc, one_by_one-append,
}
use codis_client.ScopedLock.Steps.{
  Exclusive, Stepped, SteppedTo, step_at-Stepped, HeldInside, step_at-HeldInside,
}

module _ {S : Type 0} where
  to_come-start :
      (programs : List (List (Section S))) (i : ℕ)
      → to_come (get_elem? (map Place.outside programs) i) ≡ program programs i
  to_come-start [] i = refl
  to_come-start (p ∷ programs) zero = refl
  to_come-start (p ∷ programs) (suc i) = to_come-start programs i

  nobody_inside :
      (programs : List (List (Section S))) (i : ℕ) (ms : Section S) (rest : List (Section S))
      → get_elem? (map Place.outside programs) i ≡ some (Place.inside ms rest)
      → ⊥
  nobody_inside [] i ms rest e = cc
  nobody_inside (p ∷ programs) zero ms rest e = cc
  nobody_inside (p ∷ programs) (suc i) ms rest e = nobody_inside programs i ms rest e

  start-Exclusive : (programs : List (List (Section S))) (s : S) → Exclusive (start programs s)
  start-Exclusive programs s i ms rest e = absurd (nobody_inside programs i ms rest e)

  -- What a run that ends in `r` has done from `g` on.
  abbrev Explained : Guarded S → Run (Guarded S) (Unit {0}) → Type 0
  Explained g r =
      (h : List (ℕ × Section S)) × (and_then (finish g.holder g) (λ _. one_by_one h) ≡ finished r)
      × ((i : ℕ)
          → (rest : List (Section S)) × (own i h ++ rest ≡ to_come (get_elem? g.places i))
            × Left r i rest)

  Explained-Stepped :
      (g u : Guarded S) (r : Run (Guarded S) (Unit {0}))
      → Stepped g u
      → Explained u r
      → Explained g r
  Explained-Stepped g u r (ex, (h, done, programs)) (k, all, lists) = (
    h ++ k,
    ap (and_then (finish g.holder g)) (fun_ext λ x. fun_ext λ s. one_by_one-append h k s)
        ∙ (sym (and_then_assoc (finish g.holder g) (one_by_one h) (one_by_one k))
            ∙ (ap (λ x. and_then x (λ _. one_by_one k)) done ∙ all)),
    λ i.
        let (rest, same, left) = lists i in
        (
          rest,
          ap (λ l. l ++ rest) (own-append i h k)
              ∙ (append_assoc (own i h) (own i k) rest
                  ∙ (ap (λ l. own i h ++ l) same ∙ programs i)),
          left,
        ),
  )

  Explained-step :
      (g : Guarded S) (r : Run (Guarded S) (Unit {0})) (schedule : List ℕ)
      → SteppedTo g r
      → ((u : Guarded S) → Exclusive u → Explained u (interleave schedule u))
      → Explained g (and_then r (λ _. interleave schedule))
  unfolding own
  Explained-step g (ok x u) schedule stepped ih =
      Explained-Stepped g u (interleave schedule u) stepped (ih u stepped.0)
  Explained-step g (thrown u) schedule stepped ih = absurd stepped
  Explained-step g fault schedule stepped ih =
      ([], ap (λ x. and_then x (λ _. one_by_one [])) stepped, λ i. (_, refl, tt))
  Explained-step g exited schedule stepped ih =
      ([], ap (λ x. and_then x (λ _. one_by_one [])) stepped, λ i. (_, refl, tt))

  interleave-Explained :
      (schedule : List ℕ) (g : Guarded S) → Exclusive g → Explained g (interleave schedule g)
  unfolding interleave one_by_one own
  interleave-Explained [] g ex = ([], and_then-ok (finish g.holder g), λ i. (_, refl, refl))
  interleave-Explained (i ∷ schedule) g ex =
      Explained-step g (step_at (get_elem? g.places i) i g) schedule
        (step_at-Stepped (get_elem? g.places i) i g refl ex) (λ u. interleave-Explained schedule u)

  interleave-HeldInside :
      (schedule : List ℕ) (g : Guarded S) → HeldInside g → Safe HeldInside (interleave schedule g)
  unfolding interleave
  interleave-HeldInside [] g held = held
  interleave-HeldInside (i ∷ schedule) g held =
      Safe-bind HeldInside HeldInside (step_at (get_elem? g.places i) i g)
        (λ _. interleave schedule) (step_at-HeldInside (get_elem? g.places i) i g refl held)
        (λ u h. h) (λ x u h. interleave-HeldInside schedule u h)

  -- Threads that run their critical sections under one `ScopedLock`, where each section is a sequence of steps that may
  -- throw, end the process or have undefined behaviour, and the steps of the threads come in any order: there is a
  -- list of whole sections whose execution one after the other, with their exceptions caught, has the outcome of the
  -- run, after the thread that holds the mutex at its end, if any, has ended its section. The sections of each
  -- thread stand there in the order of its program, without a gap, and if the run returns, what is left of the
  -- program are the sections that the thread has not begun. The mutex is held then by a thread that is inside a
  -- section, or by nobody.
  pub interleave-one_by_one :
      (schedule : List ℕ) (programs : List (List (Section S))) (s : S)
      → (h : List (ℕ × Section S)) × (one_by_one h s
          ≡ finished (interleave schedule (start programs s)))
        × ((i : ℕ)
            → (rest : List (Section S)) × (own i h ++ rest ≡ program programs i)
              × Left (interleave schedule (start programs s)) i rest)
        × Safe HeldInside (interleave schedule (start programs s))
  interleave-one_by_one schedule programs s =
      let (h, all, lists) =
        interleave-Explained schedule (start programs s) (start-Exclusive programs s) in
      (
        h,
        all,
        λ i. let (rest, same, left) = lists i in (rest, same ∙ to_come-start programs i, left),
        interleave-HeldInside schedule (start programs s) (λ i e. cc),
      )
