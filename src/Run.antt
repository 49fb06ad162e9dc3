-- ===== src/Run.antt =====
-- The outcome of C++ code that runs on a state: it returns, it throws (`myexception`, the only
-- exception that the library throws itself, or that of JsonCpp), its behaviour is undefined, as where it reads
-- through a dangling or a null pointer, or it ends the process by `exit(1)`.

use mathlib.Core.Path.{◌≡◌, refl}

pub data Run (S A : Type 0) : Type 0 where
  ok : A → S → Run S A
  thrown : S → Run S A
  fault : Run S A
  exited : Run S A

abbrev pub M : Type 0 → Type 0 → Type 0
M S A = S → Run S A

module _ {S : Type 0} where
  abbrev pub pure : {A : Type 0} → A → M S A
  pure = ok

  abbrev pub and_then : {A B : Type 0} → Run S A → (A → M S B) → Run S B
  and_then (ok a s) k = k a s
  and_then (thrown s) k = thrown s
  and_then fault k = fault
  and_then exited k = exited

  infixl 5 ◌>>=◌ ◌>>◌
  abbrev pub ◌>>=◌ : {A B : Type 0} → M S A → (A → M S B) → M S B
  m >>= k = λ s. and_then (m s) k

  abbrev pub ◌>>◌ : {A B : Type 0} → M S A → M S B → M S B
  m >> n = m >>= λ _. n

  abbrev pub undefined : {A : Type 0} → M S A
  undefined s = fault

  abbrev pub exit : {A : Type 0} → M S A
  exit s = exited

  abbrev pub throw : {A : Type 0} → M S A
  throw s = thrown s

  -- What holds of the result and the state of code that returns; the other outcomes are excluded.
  abbrev pub Returns : {A : Type 0} → (A → S → Type 0) → Run S A → Type 0
  Returns P (ok a s) = P a s
  Returns P (thrown s) = ⊥
  Returns P fault = ⊥
  Returns P exited = ⊥

  pub Returns-bind :
      {A B : Type 0} (P : A → S → Type 0) (Q : B → S → Type 0) (r : Run S A) (k : A → M S B)
      → Returns P r
      → ((a : A) (s : S) → P a s → Returns Q (k a s))
      → Returns Q (and_then r k)
  Returns-bind P Q (ok a s) k h next = next a s h
  Returns-bind P Q (thrown s) k h next = h
  Returns-bind P Q fault k h next = h
  Returns-bind P Q exited k h next = h

  pub Returns-mono :
      {A : Type 0} (P Q : A → S → Type 0) (r : Run S A)
      → Returns P r
      → ((a : A) (s : S) → P a s → Q a s)
      → Returns Q r
  Returns-mono P Q (ok a s) h f = f a s h
  Returns-mono P Q (thrown s) h f = h
  Returns-mono P Q fault h f = h
  Returns-mono P Q exited h f = h

  -- Code that returns has a result.
  pub Returns-result :
      {A : Type 0} (P : A → S → Type 0) (r : Run S A)
      → Returns P r
      → (a : A) × (s : S) × (r ≡ ok a s) × P a s
  Returns-result P (ok a s) h = (a, s, refl, h)
  Returns-result P (thrown s) h = absurd h
  Returns-result P fault h = absurd h
  Returns-result P exited h = absurd h

  -- What holds of the result and the state of code that returns, where it may also end the process;
  -- `U` holds if its behaviour is undefined, and it does not throw.
  abbrev pub Ends : {A : Type 0} → Type 0 → (A → S → Type 0) → Run S A → Type 0
  Ends U P (ok a s) = P a s
  Ends U P (thrown s) = ⊥
  Ends U P fault = U
  Ends U P exited = Unit {0}

  pub Ends-bind :
      {A B : Type 0} (U : Type 0) (P : A → S → Type 0) (Q : B → S → Type 0) (r : Run S A)
      (k : A → M S B)
      → Ends U P r
      → ((a : A) (s : S) → P a s → Ends U Q (k a s))
      → Ends U Q (and_then r k)
  Ends-bind U P Q (ok a s) k h next = next a s h
  Ends-bind U P Q (thrown s) k h next = h
  Ends-bind U P Q fault k h next = h
  Ends-bind U P Q exited k h next = h

  pub Ends-mono :
      {A : Type 0} (U V : Type 0) (P Q : A → S → Type 0) (r : Run S A)
      → (U → V)
      → ((a : A) (s : S) → P a s → Q a s)
      → Ends U P r
      → Ends V Q r
  Ends-mono U V P Q (ok a s) u f h = f a s h
  Ends-mono U V P Q (thrown s) u f h = h
  Ends-mono U V P Q fault u f h = u h
  Ends-mono U V P Q exited u f h = h

  -- What holds of the state of code that returns or throws.
  abbrev pub Safe : {A : Type 0} → (S → Type 0) → Run S A → Type 0
  Safe P (ok a s) = P s
  Safe P (thrown s) = P s
  Safe P fault = Unit {0}
  Safe P exited = Unit {0}

  pub Safe-bind :
      {A B : Type 0} (P Q : S → Type 0) (r : Run S A) (k : A → M S B)
      → Safe P r
      → ((s : S) → P s → Q s)
      → ((a : A) (s : S) → P s → Safe Q (k a s))
      → Safe Q (and_then r k)
  Safe-bind P Q (ok a s) k h weaken next = next a s h
  Safe-bind P Q (thrown s) k h weaken next = weaken s h
  Safe-bind P Q fault k h weaken next = tt
  Safe-bind P Q exited k h weaken next = tt

  -- What holds of the result and the state of code that returns; nothing is said of the other outcomes.
  abbrev pub Yields : {A : Type 0} → (A → S → Type 0) → Run S A → Type 0
  Yields P (ok a s) = P a s
  Yields P (thrown s) = Unit {0}
  Yields P fault = Unit {0}
  Yields P exited = Unit {0}

  pub Yields-bind :
      {A B : Type 0} (P : A → S → Type 0) (Q : B → S → Type 0) (r : Run S A) (k : A → M S B)
      → Yields P r
      → ((a : A) (s : S) → P a s → Yields Q (k a s))
      → Yields Q (and_then r k)
  Yields-bind P Q (ok a s) k h next = next a s h
  Yields-bind P Q (thrown s) k h next = tt
  Yields-bind P Q fault k h next = tt
  Yields-bind P Q exited k h next = tt

  pub Yields-mono :
      {A : Type 0} (P Q : A → S → Type 0) (r : Run S A)
      → Yields P r
      → ((a : A) (s : S) → P a s → Q a s)
      → Yields Q r
  Yields-mono P Q (ok a s) h f = f a s h
  Yields-mono P Q (thrown s) h f = tt
  Yields-mono P Q fault h f = tt
  Yields-mono P Q exited h f = tt

  pub Ends-Yields :
      {A : Type 0} (U : Type 0) (P : A → S → Type 0) (r : Run S A) → Ends U P r → Yields P r
  Ends-Yields U P (ok a s) h = h
  Ends-Yields U P (thrown s) h = tt
  Ends-Yields U P fault h = tt
  Ends-Yields U P exited h = tt

  pub Returns-Ends :
      {A : Type 0} (U : Type 0) (P : A → S → Type 0) (r : Run S A) → Returns P r → Ends U P r
  Returns-Ends U P (ok a s) h = h
  Returns-Ends U P (thrown s) h = h
  Returns-Ends U P fault h = absurd h
  Returns-Ends U P exited h = absurd h

  -- Code that returns, with what holds of it where it may also end the process.
  pub Ends-Returns :
      {A : Type 0} (U : Type 0) (P Q : A → S → Type 0) (r : Run S A)
      → Ends U P r
      → Returns Q r
      → Returns P r
  Ends-Returns U P Q (ok a s) h returns = h
  Ends-Returns U P Q (thrown s) h returns = h
  Ends-Returns U P Q fault h returns = absurd returns
  Ends-Returns U P Q exited h returns = absurd returns
