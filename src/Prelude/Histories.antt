-- ===== src/Prelude/Histories.antt =====
-- What several threads have done, in its order and with the thread of each entry, against what each of them
-- has to do.
use Prim.Native.Nat.{ℕ, zero, suc}
use mathlib.Core.Path.{◌≡◌, refl, sym, ap, subst, ◌∙◌}
use mathlib.Core.Logic.{inl, inr}
use mathlib.Core.Bool.{false}
use mathlib.Core.List.{List, [], ◌∷◌, ◌++◌, map}
use codis_client.Prelude.Tests.{◌==◌, if◌then◌else◌, Bool-cases, ==-refl, ==_iff}

module _ {ℓ} {A : Type ℓ} where
  -- The entries of the thread `i`.
  unfoldable pub own : ℕ → List (ℕ × A) → List A
  own i [] = []
  own i ((j, a) ∷ h) = if i == j then a ∷ own i h else own i h

  pub own-append : (i : ℕ) (h k : List (ℕ × A)) → own i (h ++ k) ≡ own i h ++ own i k
  unfolding own
  own-append i [] k = refl
  own-append i ((j, a) ∷ h) k = elim (Bool-cases (i == j)) [
    | inl e ↦ rw e (ap (◌∷◌ a) (own-append i h k))
    | inr e ↦ rw e (own-append i h k)
  ]

  own-first : (i : ℕ) (a : A) (h : List (ℕ × A)) → own i ((i, a) ∷ h) ≡ a ∷ own i h
  unfolding own
  own-first i a h = rw (==-refl i) refl

  own-later : (i j : ℕ) (a : A) (h : List (ℕ × A)) → i == j ≡ false → own i ((j, a) ∷ h) ≡ own i h
  unfolding own
  own-later i j a h e = rw e refl

  -- What the thread `i` has to do.
  abbrev pub program : List (List A) → ℕ → List A
  program [] i = []
  program (p ∷ programs) zero = p
  program (p ∷ programs) (suc i) = program programs i

module _ {ℓ κ} {A : Type ℓ} {B : Type κ} (f : A → B) where
  pub program-map :
      (programs : List (List A)) (i : ℕ)
      → program (map (map f) programs) i ≡ map f (program programs i)
  program-map [] i = refl
  program-map (p ∷ programs) zero = refl
  program-map (p ∷ programs) (suc i) = program-map programs i

  -- A list of images that begins with `b`.
  map-split :
      (b : B) (bs : List B) (xs : List A)
      → b ∷ bs ≡ map f xs
      → (a : A) × (rest : List A) × (xs ≡ a ∷ rest) × (b ≡ f a) × (bs ≡ map f rest)
  map-split b bs [] e = cc
  map-split b bs (a ∷ rest) e = (a, rest, refl, cc, cc)

  abbrev pub in_history : ℕ × A → ℕ × B
  in_history (i, a) = (i, f a)

  abbrev Covers : List (ℕ × B) → (ℕ → List A) → (ℕ → List B) → Type κ
  Covers h p r = (i : ℕ) → own i h ++ r i ≡ map f (p i)

  -- The program of the thread `j` without its first entry.
  abbrev without_first : ℕ → List A → (ℕ → List A) → ℕ → List A
  without_first j rest p i = if i == j then rest else p i

  Covers-without_first :
      (j : ℕ) (b : B) (h : List (ℕ × B)) (p : ℕ → List A) (r : ℕ → List B) (rest : List A)
      → Covers ((j, b) ∷ h) p r
      → own j h ++ r j ≡ map f rest
      → Covers h (without_first j rest p) r
  Covers-without_first j b h p r rest covers here i = elim (Bool-cases (i == j)) [
    | inl e ↦ rw e (subst (λ n. own n h ++ r n ≡ map f rest) (sym ((==_iff i j).0 e)) here)
    | inr e ↦ rw e (ap (λ l. l ++ r i) (sym (own-later i j b h e)) ∙ covers i)
  ]

  -- A history of images, of threads whose programs are images, is the image of a history.
  abbrev Lifted : List (ℕ × B) → (ℕ → List A) → (ℕ → List B) → Type (ℓ ⊔ κ)
  Lifted h p r =
      (k : List (ℕ × A)) × (h ≡ map in_history k)
      × ((i : ℕ) → (rest : List A) × (own i k ++ rest ≡ p i) × (r i ≡ map f rest))

  own-without_first :
      (j : ℕ) (a : A) (k : List (ℕ × A)) (p : ℕ → List A) (rest : List A) (i : ℕ) (left : List A)
      → p j ≡ a ∷ rest
      → own i k ++ left ≡ without_first j rest p i
      → own i ((j, a) ∷ k) ++ left ≡ p i
  unfolding own
  own-without_first j a k p rest i left first same = elim (Bool-cases (i == j)) [
    | inl e ↦
        let value : without_first j rest p i ≡ rest = rw e refl in
        rw e (ap (◌∷◌ a) (same ∙ value) ∙ (sym first ∙ ap p (sym ((==_iff i j).0 e))))
    | inr e ↦ let value : without_first j rest p i ≡ p i = rw e refl in rw e (same ∙ value)
  ]

  Lifted-first :
      (j : ℕ) (a : A) (h : List (ℕ × B)) (p : ℕ → List A) (r : ℕ → List B) (rest : List A)
      → p j ≡ a ∷ rest
      → Lifted h (without_first j rest p) r
      → Lifted ((j, f a) ∷ h) p r
  Lifted-first j a h p r rest first (k, image, programs) = (
    (j, a) ∷ k,
    ap (◌∷◌ (j, f a)) image,
    λ i.
        let (left, same, images) = programs i in
        (left, own-without_first j a k p rest i left first same, images),
  )

  pub Covers-Lifted :
      (h : List (ℕ × B)) (p : ℕ → List A) (r : ℕ → List B) → Covers h p r → Lifted h p r
  unfolding own
  Covers-Lifted [] p r covers = ([], refl, λ i. (p i, refl, covers i))
  Covers-Lifted ((j, b) ∷ h) p r covers =
      let (a, rest, first, image, here) =
        map-split b (own j h ++ r j) (p j)
          (ap (λ l. l ++ r j) (sym (own-first j b h)) ∙ covers j) in
      subst (λ x. Lifted ((j, x) ∷ h) p r) (sym image)
        (Lifted-first j a h p r rest first (
          Covers-Lifted h (without_first j rest p) r
            (Covers-without_first j b h p r rest covers here)))
