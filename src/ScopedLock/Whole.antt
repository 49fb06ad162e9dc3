-- ===== src/ScopedLock/Whole.antt =====
-- The critical sections that `ScopedLock` (cpp/include/ScopedLock.h) makes, as wholes and one after the other.
use codis_client.Prelude.{
  ℕ, ◌≡◌, refl, sym, ap, ◌∙◌, List, [], ◌∷◌, ◌++◌, fun_ext, Option, none, some, get_elem?,
}
use codis_client.Run.{Run, M, ok, thrown, fault, exited, and_then}
use codis_client.ScopedLock.{Section, Place, Guarded}

module _ {S : Type 0} where
  -- A section as a whole: its steps up to the first one that throws.
  abbrev pub whole : Section S → M S (Unit {0})
  whole [] s = ok tt s
  whole (m ∷ ms) s = and_then (m s) (λ _. whole ms)

  -- The exception is caught outside of the section.
  abbrev pub caught : Run S (Unit {0}) → Run S (Unit {0})
  caught (ok x s) = ok x s
  caught (thrown s) = ok tt s
  caught fault = fault
  caught exited = exited

  -- The sections of the threads, with the thread of each, one after the other.
  unfoldable pub one_by_one : List (ℕ × Section S) → M S (Unit {0})
  one_by_one [] s = ok tt s
  one_by_one ((i, section) ∷ h) s = and_then (caught (whole section s)) (λ _. one_by_one h)

  -- What the thread at that place has still to do: in its section, and after it.
  abbrev pub in_section : Option (Place S) → Section S
  in_section none = []
  in_section (some (Place.outside rest)) = []
  in_section (some (Place.inside ms rest)) = ms

  abbrev pub to_come : Option (Place S) → List (Section S)
  to_come none = []
  to_come (some (Place.outside rest)) = rest
  to_come (some (Place.inside ms rest)) = rest

  -- The thread that holds the mutex ends its section.
  abbrev pub finish : Option ℕ → Guarded S → Run S (Unit {0})
  finish none g = ok tt g.shared
  finish (some i) g = caught (whole (in_section (get_elem? g.places i)) g.shared)

  abbrev pub finished : Run (Guarded S) (Unit {0}) → Run S (Unit {0})
  finished (ok x g) = finish g.holder g
  finished (thrown g) = thrown g.shared
  finished fault = fault
  finished exited = exited

  -- The sections of the thread `i` that a run leaves; a run that does not return says nothing of them.
  abbrev pub Left : Run (Guarded S) (Unit {0}) → ℕ → List (Section S) → Type 0
  Left (ok x g) i rest = rest ≡ to_come (get_elem? g.places i)
  Left (thrown g) i rest = Unit {0}
  Left fault i rest = Unit {0}
  Left exited i rest = Unit {0}

  pub and_then-ok : (r : Run S (Unit {0})) → and_then r (λ x s. ok tt s) ≡ r
  and_then-ok (ok x s) = refl
  and_then-ok (thrown s) = refl
  and_then-ok fault = refl
  and_then-ok exited = refl

  pub and_then_assoc :
      (r : Run S (Unit {0})) (m n : M S (Unit {0}))
      → and_then (and_then r (λ _. m)) (λ _. n) ≡ and_then r (λ _ s. and_then (m s) (λ _. n))
  and_then_assoc (ok x s) m n = refl
  and_then_assoc (thrown s) m n = refl
  and_then_assoc fault m n = refl
  and_then_assoc exited m n = refl

  pub one_by_one-append :
      (h k : List (ℕ × Section S)) (s : S)
      → one_by_one (h ++ k) s ≡ and_then (one_by_one h s) (λ _. one_by_one k)
  unfolding one_by_one
  one_by_one-append [] k s = refl
  one_by_one-append ((i, section) ∷ h) k s =
      ap (and_then (caught (whole section s))) (fun_ext λ x. fun_ext λ t. one_by_one-append h k t)
      ∙ sym (and_then_assoc (caught (whole section s)) (one_by_one h) (one_by_one k))
