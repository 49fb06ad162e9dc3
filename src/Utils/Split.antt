-- ===== src/Utils/Split.antt =====
-- `split` of cpp/include/Utils.h against the joining of fields.
use codis_client.Prelude.{
  ℕ, ◌≡◌, ◌≢◌, refl, ◌∙◌, sym, ap, List, [], ◌∷◌, ◌++◌, Bytes, All, append_assoc, append-nil,
  ==-refl, ==_ne,
}
use codis_client.Utils.{split_rounds, split}

abbrev pub Lacks : ℕ → Bytes → Type 0
Lacks d = All (λ c. c ≢ d)

-- The fields with the delimiter between them.
unfoldable pub join : ℕ → List Bytes → Bytes
join d [] = []
join d (f ∷ []) = f
join d (f ∷ g ∷ fs) = f ++ d ∷ join d (g ∷ fs)

-- The last field is not empty.
abbrev pub EndsFull : List Bytes → Type 0
EndsFull [] = Unit {0}
EndsFull (f ∷ []) = f ≢ []
EndsFull (f ∷ g ∷ fs) = EndsFull (g ∷ fs)

-- A field that the delimiter ends is read whole.
split_rounds_field :
    (d : ℕ) (f s item : Bytes)
    → Lacks d f
    → split_rounds d (f ++ d ∷ s) item ≡ (item ++ f) ∷ split_rounds d s []
unfolding split_rounds
split_rounds_field d [] s item h = rw (==-refl d, append-nil)
split_rounds_field d (c ∷ f) s item h = rw (==_ne c d h.0) (
    split_rounds_field d f s (item ++ c ∷ []) h.1
    ∙ ap (λ x. x ∷ split_rounds d s []) (append_assoc item (c ∷ []) f))

split_rounds_last :
    (d : ℕ) (f item : Bytes) → Lacks d f → item ++ f ≢ [] → split_rounds d f item ≡ (item ++ f) ∷ []
unfolding split_rounds
split_rounds_last d [] [] h full = absurd (full refl)
split_rounds_last d [] (x ∷ xs) h full = rw append-nil
split_rounds_last d (c ∷ f) item h full = rw (==_ne c d h.0) (
    split_rounds_last d f (item ++ c ∷ []) h.1 (λ e. full (sym (append_assoc item (c ∷ []) f) ∙ e))
    ∙ ap (λ x. x ∷ []) (append_assoc item (c ∷ []) f))

-- Splitting what was joined from fields without the delimiter, the last of which is not empty, gives
-- the fields back.
pub split-join :
    (d : ℕ) (fs : List Bytes) → All (Lacks d) fs → EndsFull fs → split (join d fs) d ≡ fs
unfolding split split_rounds join
split-join d [] h full = refl
split-join d (f ∷ []) h full = split_rounds_last d f [] h.0 full
split-join d (f ∷ g ∷ fs) h full =
    split_rounds_field d f (join d (g ∷ fs)) [] h.0 ∙ ap (◌∷◌ f) (split-join d (g ∷ fs) h.1 full)
