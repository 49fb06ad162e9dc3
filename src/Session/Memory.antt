-- ===== src/Session/Memory.antt =====
-- The memory of the clients that a `RoundRobinCodisPool` (cpp/src/RoundRobinCodisPool.cpp) makes and
-- deletes: which connections their pools hold together.
use mathlib.Core.List.{Perm}
use mathlib.Core.List.Perm
use codis_client.Prelude.{
  length-set, swap_front, ℕ, zero, suc, ◌≡◌, ◌≢◌, ◌⊎◌, inl, inr, arith, refl, ap, subst, ◌∙◌, List,
  [], ◌∷◌, ◌++◌, Option, none, some, length, get_elem?, set, All, get_elem?-set_ne, set_self,
}
use codis_client.Hiredis.{Hiredis, Ptr, null}
use codis_client.ConnPool.{Pool}
use codis_client.ConnPool.Ownership.{Holds}
use codis_client.Client.{Client}

abbrev pub pool_idle : Option Pool → List Ptr
pool_idle none = []
pool_idle (some p) = p.unused

-- The connections in the pools of all clients.
unfoldable pub idle : List (Option Client) → List Ptr
idle [] = []
idle (none ∷ os) = idle os
idle (some o ∷ os) = pool_idle o.conn_pool ++ idle os

-- The client has a pool without a password, and nobody holds its lock.
abbrev pub Ready : Client → Type 0
Ready o = (p : Pool) × (o.conn_pool ≡ some p) × (p.password ≡ []) × (o.readers ≡ 0)

abbrev pub ReadyIf : Option Client → Type 0
ReadyIf none = Unit {0}
ReadyIf (some o) = Ready o

-- There is a client at that address, which is not null.
abbrev pub Exists : List (Option Client) → Ptr → Type 0
Exists os c = (o : Client) × (get_elem? os c ≡ some (some o)) × (c ≢ null)

pub idle-append_last :
    (os : List (Option Client)) (o : Client)
    → pool_idle o.conn_pool ≡ []
    → idle (os ++ some o ∷ []) ≡ idle os
unfolding idle
idle-append_last [] o e = ap (λ xs. xs ++ []) e
idle-append_last (none ∷ os) o e = idle-append_last os o e
idle-append_last (some x ∷ os) o e =
    ap (λ xs. pool_idle x.conn_pool ++ xs) (idle-append_last os o e)

-- A write of one client, seen from the connections.
pub idle-set :
    (os : List (Option Client)) (c : Ptr) (x : Option Client) (o : Client)
    → get_elem? os c ≡ some x
    → Perm (idle (set os c (some o))) (pool_idle o.conn_pool ++ idle (set os c none))
unfolding idle
idle-set [] c x o h = cc
idle-set (none ∷ os) zero x o h = Perm.refl _
idle-set (some y ∷ os) zero x o h = Perm.refl _
idle-set (none ∷ os) (suc c) x o h = idle-set os c x o h
idle-set (some y ∷ os) (suc c) x o h =
    Perm.trans (Perm.append_left (pool_idle y.conn_pool) (idle-set os c x o h))
      (swap_front (pool_idle y.conn_pool) (pool_idle o.conn_pool) (idle (set os c none)))

pub idle-take :
    (os : List (Option Client)) (c : Ptr) (o : Client)
    → get_elem? os c ≡ some (some o)
    → Perm (idle os) (pool_idle o.conn_pool ++ idle (set os c none))
idle-take os c o h =
    subst (λ l. Perm (idle l) (pool_idle o.conn_pool ++ idle (set os c none)))
      (set_self os c (some o) h) (idle-set os c (some o) o h)

-- The memory after the clients at those addresses are deleted.
unfoldable pub clear : List (Option Client) → List Ptr → List (Option Client)
clear os [] = os
clear os (c ∷ cs) = clear (set os c none) cs

pub clear-kept :
    (os : List (Option Client)) (cs : List Ptr) (q : Ptr)
    → All (λ c. q ≢ c) cs
    → get_elem? (clear os cs) q ≡ get_elem? os q
unfolding clear
clear-kept os [] q h = refl
clear-kept os (c ∷ cs) q h = clear-kept (set os c none) cs q h.1 ∙ get_elem?-set_ne os c q none h.0

module _ ⦃lib : Hiredis⦄ where
  -- All connections of the memory are live and different, and all of its clients are ready.
  abbrev pub Sound : List (Option Client) → lib.World → Type 0
  Sound os w = Holds w (idle os) × All ReadyIf os

pub get_elem?-set_cases :
    {A : Type 0} (xs : List A) (i j : ℕ) (x y : A)
    → get_elem? (set xs i x) j ≡ some y
    → ((j ≡ i) × (y ≡ x)) ⊎ ((j ≢ i) × (get_elem? xs j ≡ some y))
get_elem?-set_cases [] i j x y h = cc
get_elem?-set_cases (z ∷ xs) zero zero x y h = inl (refl, cc)
get_elem?-set_cases (z ∷ xs) zero (suc j) x y h = inr (λ e. omega arith, h)
get_elem?-set_cases (z ∷ xs) (suc i) zero x y h = inr (λ e. omega arith, h)
get_elem?-set_cases (z ∷ xs) (suc i) (suc j) x y h = elim (get_elem?-set_cases xs i j x y h) [
  | inl (e, f) ↦ inl (ap suc e, f)
  | inr (n, f) ↦ inr (λ e. n (omega arith), f)
]

pub clear-only :
    (os : List (Option Client)) (cs : List Ptr) (q : Ptr) (o : Client)
    → get_elem? (clear os cs) q ≡ some (some o)
    → (get_elem? os q ≡ some (some o)) × All (λ c. q ≢ c) cs
unfolding clear
clear-only os [] q o h = (h, tt)
clear-only os (c ∷ cs) q o h =
    let (there, rest) = clear-only (set os c none) cs q o h in
    elim (get_elem?-set_cases os c q none (some o) there) [
      | inl (e, f) ↦ cc
      | inr (n, f) ↦ (f, (n, rest))
    ]

pub length-clear : (os : List (Option Client)) (cs : List Ptr) → length (clear os cs) ≡ length os
unfolding clear
length-clear os [] = refl
length-clear os (c ∷ cs) = length-clear (set os c none) cs ∙ length-set os c none
