-- ===== src/ScopedLock/Steps.antt =====
-- One step of a thread under a `ScopedLock` (cpp/include/ScopedLock.h).
use codis_client.Prelude.{
  own, ℕ, ◌≡◌, refl, sym, ap, subst, ◌∙◌, ◌⊎◌, inl, inr, false, Bool-cases, List, [], ◌∷◌, ◌++◌,
  Option, none, some, get_elem?, get_elem?-set, get_elem?-set_ne, set, ◌==◌, ==-refl, ==_iff,
}
use codis_client.Run.{Run, M, Safe, ok, thrown, fault, exited, and_then}
use codis_client.ScopedLock.{Section, Place, Guarded, lock, worked, step_at}
use codis_client.ScopedLock.Whole.{
  whole, caught, one_by_one, in_section, to_come, finish, and_then-ok,
}

module _ {S : Type 0} where
  -- Only the holder is inside a section.
  abbrev pub Exclusive : Guarded S → Type 0
  Exclusive g =
      (i : ℕ) (ms : Section S) (rest : List (Section S))
      → get_elem? g.places i ≡ some (Place.inside ms rest)
      → g.holder ≡ some i

  -- A step to `u`, in which the sections `h` have begun.
  abbrev pub Stepped : Guarded S → Guarded S → Type 0
  Stepped g u =
      Exclusive u
      × ((h : List (ℕ × Section S)) × (and_then (finish g.holder g) (λ _. one_by_one h)
            ≡ finish u.holder u)
          × ((i : ℕ) → own i h ++ to_come (get_elem? u.places i) ≡ to_come (get_elem? g.places i)))

  abbrev pub SteppedTo : Guarded S → Run (Guarded S) (Unit {0}) → Type 0
  SteppedTo g (ok x u) = Stepped g u
  SteppedTo g (thrown u) = ⊥
  SteppedTo g fault = finish g.holder g ≡ fault
  SteppedTo g exited = finish g.holder g ≡ exited

  -- The places after a step of the thread `i`.
  to_come-set :
      (places : List (Place S)) (i : ℕ) (p q : Place S) (h : List (ℕ × Section S))
      → get_elem? places i ≡ some q
      → own i h ++ to_come (some p) ≡ to_come (some q)
      → ((j : ℕ) → j == i ≡ false → own j h ≡ [])
      → (j : ℕ) → own j h ++ to_come (get_elem? (set places i p) j) ≡ to_come (get_elem? places j)
  to_come-set places i p q h there mine others j = elim (Bool-cases (j == i)) [
    | inl e ↦
        let j_i : j ≡ i = (==_iff j i).0 e in
        subst
          (λ k. own k h ++ to_come (get_elem? (set places i p) k) ≡ to_come (get_elem? places k))
          (sym j_i) (rw (get_elem?-set places i p q there, there) mine)
    | inr e ↦ rw (others j e, get_elem?-set_ne places i j p (λ x. cc ((==_iff j i).1 x)))
  ]

  Exclusive-set :
      (g : Guarded S) (i : ℕ) (p q : Place S) (holder : Option ℕ) (s : S)
      → get_elem? g.places i ≡ some q
      → Exclusive g
      → (g.holder ≡ none) ⊎ (g.holder ≡ some i)
      → ((ms : Section S) (rest : List (Section S)) → p ≡ Place.inside ms rest → holder ≡ some i)
      → Exclusive (record { holder = holder; shared = s; places = set g.places i p })
  Exclusive-set g i p q holder s there ex free mine j ms rest e = elim (Bool-cases (j == i)) [
    | inl same ↦
        let j_i : j ≡ i = (==_iff j i).0 same in
        let e' : get_elem? (set g.places i p) i ≡ some (Place.inside ms rest) =
          subst (λ k. get_elem? (set g.places i p) k ≡ some (Place.inside ms rest)) j_i e in
        let p_in : p ≡ Place.inside ms rest = cc (get_elem?-set g.places i p q there) in
        subst (λ k. holder ≡ some k) (sym j_i) (mine ms rest p_in)
    | inr other ↦
        let e' : get_elem? g.places j ≡ some (Place.inside ms rest) =
          sym (get_elem?-set_ne g.places i j p (λ x. cc ((==_iff j i).1 x))) ∙ e in
        let held : g.holder ≡ some j = ex j ms rest e' in
        elim free [ inl none_ ↦ cc | inr some_ ↦ let j_i : j ≡ i = cc in cc ((==_iff j i).1 j_i) ]
  ]

  -- Nothing has happened.
  same-Stepped : (g : Guarded S) → Exclusive g → Stepped g g
  unfolding one_by_one own
  same-Stepped g ex = (ex, ([], and_then-ok (finish g.holder g), λ i. refl))

  lock-Stepped :
      (holder : Option ℕ) (i : ℕ) (section : Section S) (rest : List (Section S)) (g : Guarded S)
      → g.holder ≡ holder
      → get_elem? g.places i ≡ some (Place.outside (section ∷ rest))
      → Exclusive g
      → SteppedTo g (lock holder i section rest g)
  unfolding one_by_one own
  lock-Stepped (some j) i section rest g e there ex = same-Stepped g ex
  lock-Stepped none i section rest g e there ex =
      let p = Place.inside section rest in
      let q = Place.outside (section ∷ rest) in
      let now : get_elem? (set g.places i p) i ≡ some p = get_elem?-set g.places i p q there in
      (
        Exclusive-set g i p q (some i) g.shared there ex (inl e) (λ ms rest' _. refl),
        (
          (i, section) ∷ [],
          ap (λ h. and_then (finish h g) (λ _. one_by_one ((i, section) ∷ []))) e
              ∙ (and_then-ok (caught (whole section g.shared))
                  ∙ ap (λ o. caught (whole (in_section o) g.shared)) (sym now)),
          to_come-set g.places i p q ((i, section) ∷ []) there (rw (==-refl i) refl)
              (λ j ne. rw ne refl),
        ),
      )

  -- A step inside the section of the thread `i`, which is then at the place `p`.
  inside-Stepped :
      (i : ℕ) (ms : Section S) (rest : List (Section S)) (g : Guarded S) (p : Place S)
      (holder : Option ℕ) (s : S)
      → get_elem? g.places i ≡ some (Place.inside ms rest)
      → Exclusive g
      → to_come (some p) ≡ rest
      → ((ns : Section S) (rest' : List (Section S)) → p ≡ Place.inside ns rest' → holder ≡ some i)
      → caught (whole ms g.shared)
        ≡ finish holder (record { holder = holder; shared = s; places = set g.places i p })
      → Stepped g (record { holder = holder; shared = s; places = set g.places i p })
  unfolding one_by_one own
  inside-Stepped i ms rest g p holder s there ex coming mine done =
      let q = Place.inside ms rest in
      let held : g.holder ≡ some i = ex i ms rest there in
      (
        Exclusive-set g i p q holder s there ex (inr held) mine,
        (
          [],
          and_then-ok (finish g.holder g)
              ∙ (ap (λ h. finish h g) held
                  ∙ (ap (λ o. caught (whole (in_section o) g.shared)) there ∙ done)),
          to_come-set g.places i p q [] there coming (λ j ne. refl),
        ),
      )

  holding :
      (i : ℕ) (ms : Section S) (rest : List (Section S)) (g : Guarded S)
      → get_elem? g.places i ≡ some (Place.inside ms rest)
      → Exclusive g
      → finish g.holder g ≡ caught (whole ms g.shared)
  holding i ms rest g there ex =
      ap (λ h. finish h g) (ex i ms rest there)
      ∙ ap (λ o. caught (whole (in_section o) g.shared)) there

  worked-Stepped :
      (i : ℕ) (m : M S (Unit {0})) (ms : Section S) (rest : List (Section S)) (g : Guarded S)
      (r : Run S (Unit {0}))
      → get_elem? g.places i ≡ some (Place.inside (m ∷ ms) rest)
      → Exclusive g
      → m g.shared ≡ r
      → SteppedTo g (worked i ms rest g r)
  worked-Stepped i m ms rest g (ok x s) there ex e =
      let p = Place.inside ms rest in
      let held : g.holder ≡ some i = ex i (m ∷ ms) rest there in
      let now : get_elem? (set g.places i p) i ≡ some p =
        get_elem?-set g.places i p (Place.inside (m ∷ ms) rest) there in
      inside-Stepped i (m ∷ ms) rest g p g.holder s there ex refl (λ ns rest' _. held)
        (ap (λ x. caught (and_then x (λ _. whole ms))) e
          ∙ (ap (λ o. caught (whole (in_section o) s)) (sym now)
              ∙ ap
                  (λ h.
                    finish h (record { holder = g.holder; shared = s; places = set g.places i p }))
                  (sym held)))
  worked-Stepped i m ms rest g (thrown s) there ex e =
      inside-Stepped i (m ∷ ms) rest g (Place.outside rest) none s there ex refl (λ ns rest' h. cc)
        (ap (λ x. caught (and_then x (λ _. whole ms))) e)
  worked-Stepped i m ms rest g fault there ex e =
      holding i (m ∷ ms) rest g there ex ∙ ap (λ x. caught (and_then x (λ _. whole ms))) e
  worked-Stepped i m ms rest g exited there ex e =
      holding i (m ∷ ms) rest g there ex ∙ ap (λ x. caught (and_then x (λ _. whole ms))) e

  pub step_at-Stepped :
      (o : Option (Place S)) (i : ℕ) (g : Guarded S)
      → get_elem? g.places i ≡ o
      → Exclusive g
      → SteppedTo g (step_at o i g)
  step_at-Stepped none i g there ex = same-Stepped g ex
  step_at-Stepped (some (Place.outside [])) i g there ex = same-Stepped g ex
  step_at-Stepped (some (Place.outside (section ∷ rest))) i g there ex =
      lock-Stepped g.holder i section rest g refl there ex
  step_at-Stepped (some (Place.inside [] rest)) i g there ex =
      inside-Stepped i [] rest g (Place.outside rest) none g.shared there ex refl (λ ns rest' h. cc)
        refl
  step_at-Stepped (some (Place.inside (m ∷ ms) rest)) i g there ex =
      worked-Stepped i m ms rest g (m g.shared) there ex refl

  -- A thread at this place is inside a section.
  abbrev pub Inside : Option (Place S) → Type 0
  Inside o = (ms : Section S) × (rest : List (Section S)) × (o ≡ some (Place.inside ms rest))

  -- The mutex is held by nobody, or by a thread that is inside a section.
  abbrev pub HeldInside : Guarded S → Type 0
  HeldInside g = (i : ℕ) → g.holder ≡ some i → Inside (get_elem? g.places i)

  HeldInside-set :
      (g : Guarded S) (i : ℕ) (q : Place S) (ms : Section S) (rest : List (Section S)) (s : S)
      (holder : Option ℕ)
      → get_elem? g.places i ≡ some q
      → ((j : ℕ) → holder ≡ some j → (j ≡ i) ⊎ (g.holder ≡ some j))
      → HeldInside g
      → HeldInside
          (record { holder = holder; shared = s; places = set g.places i (Place.inside ms rest) })
  HeldInside-set g i q ms rest s holder there who held j e =
      let here : get_elem? (set g.places i (Place.inside ms rest)) i ≡ some (Place.inside ms rest) =
        get_elem?-set g.places i (Place.inside ms rest) q there in
      elim (Bool-cases (j == i)) [
        | inl same ↦
            subst (λ k. Inside (get_elem? (set g.places i (Place.inside ms rest)) k))
              (sym ((==_iff j i).0 same)) (ms, rest, here)
        | inr other ↦ elim (who j e) [
          | inl j_i ↦ cc ((==_iff j i).1 j_i)
          | inr was ↦
              let (ns, rest', at) = held j was in
              (
                ns,
                rest',
                get_elem?-set_ne g.places i j (Place.inside ms rest) (λ x. cc ((==_iff j i).1 x))
                    ∙ at,
              )
        ]
      ]

  lock-HeldInside :
      (holder : Option ℕ) (i : ℕ) (section : Section S) (rest : List (Section S)) (g : Guarded S)
      → get_elem? g.places i ≡ some (Place.outside (section ∷ rest))
      → HeldInside g
      → Safe HeldInside (lock holder i section rest g)
  lock-HeldInside (some j) i section rest g there held = held
  lock-HeldInside none i section rest g there held =
      HeldInside-set g i (Place.outside (section ∷ rest)) section rest g.shared (some i) there
        (λ j e. inl cc) held

  worked-HeldInside :
      (i : ℕ) (m : M S (Unit {0})) (ms : Section S) (rest : List (Section S)) (g : Guarded S)
      (r : Run S (Unit {0}))
      → get_elem? g.places i ≡ some (Place.inside (m ∷ ms) rest)
      → HeldInside g
      → Safe HeldInside (worked i ms rest g r)
  worked-HeldInside i m ms rest g (ok x s) there held =
      HeldInside-set g i (Place.inside (m ∷ ms) rest) ms rest s g.holder there (λ j e. inr e) held
  worked-HeldInside i m ms rest g (thrown s) there held = λ j e. cc
  worked-HeldInside i m ms rest g fault there held = tt
  worked-HeldInside i m ms rest g exited there held = tt

  pub step_at-HeldInside :
      (o : Option (Place S)) (i : ℕ) (g : Guarded S)
      → get_elem? g.places i ≡ o
      → HeldInside g
      → Safe HeldInside (step_at o i g)
  step_at-HeldInside none i g there held = held
  step_at-HeldInside (some (Place.outside [])) i g there held = held
  step_at-HeldInside (some (Place.outside (section ∷ rest))) i g there held =
      lock-HeldInside g.holder i section rest g there held
  step_at-HeldInside (some (Place.inside [] rest)) i g there held = λ j e. cc
  step_at-HeldInside (some (Place.inside (m ∷ ms) rest)) i g there held =
      worked-HeldInside i m ms rest g (m g.shared) there held
