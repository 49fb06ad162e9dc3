-- ===== src/RoundRobin/Handing.antt =====
-- `GetProxy` of cpp/src/RoundRobinCodisPool.cpp, a step at a time, as several threads run it under the mutex of the
-- pool.
use codis_client.Prelude.{
  ℕ, suc, ◌+◌, ◌%◌, ◌^◌, ◌<◌, ◌≤◌, ◌≡◌, refl, sym, ap, subst, ◌∙◌, ◌⊎◌, inl, inr, Bool-cases, List,
  [], ◌∷◌, ◌++◌, append_assoc, append-nil, map, Option, none, some, length, get_elem?, ltb, ltb→lt,
  ltb→le, Option-cases, ◌==◌, own, program, program-map, in_history, Covers-Lifted, arith, ℤ, pos,
}
use codis_client.Run.{Run, M, ok, thrown, fault, exited, Returns, Returns-mono, and_then}
use codis_client.Hiredis.{State, Ptr}
use codis_client.RoundRobin.{RoundRobin, next_int, at_position, get_proxy, to_size}
use codis_client.RoundRobin.Turns.{index_at, get_proxy-turn}
use codis_client.ScopedLock.{Section, interleave, start}
use codis_client.ScopedLock.Whole.{whole, caught, one_by_one, finished, Left}
use codis_client.ScopedLock.Atomic.{interleave-one_by_one}

-- The pool, the index that the call in its section has made, and what the calls have returned, each under a
-- number that tells them apart.
pub record Handing : Type 0 where
  pub robin : RoundRobin
  pub index : ℤ
  pub given : List (ℕ × Ptr)

-- `++proxyIndex`
abbrev pub take_index : Option ℤ → M Handing (Unit {0})
take_index none s = fault
take_index (some i) s = ok tt (record s { robin = record s.robin { proxy_index = i }; index = i })

abbrev pub give : ℕ → Handing → Run (State RoundRobin (Unit {0})) Ptr → Run Handing (Unit {0})
give name s (ok c t) = ok tt (record s { given = s.given ++ (name, c) ∷ [] })
give name s (thrown t) = thrown s
give name s fault = fault
give name s exited = exited

-- The call with that number; its steps are the increment, and the access to `m_Proxys`.
unfoldable pub proxy_section : ℕ → Section Handing
proxy_section name =
    (λ s. take_index (next_int s.robin.proxy_index) s)
    ∷ (λ s.
        give name s (at_position s.robin.proxys s.index (record { object = s.robin; world = tt })))
    ∷ []

-- What a call leaves.
abbrev handed : ℕ → Handing → Run (State RoundRobin (Unit {0})) Ptr → Run Handing (Unit {0})
handed name s (ok c t) =
    ok tt
      (record { robin = t.object; index = t.object.proxy_index; given = s.given ++ (name, c) ∷ [] })
handed name s (thrown t) = thrown s
handed name s fault = fault
handed name s exited = exited

-- The section as a whole is the call.
whole-proxy_section :
    (name : ℕ) (s : Handing)
    → whole (proxy_section name) s
      ≡ handed name s (get_proxy (record { object = s.robin; world = tt }))
unfolding proxy_section get_proxy
whole-proxy_section name s = elim (Option-cases (next_int s.robin.proxy_index)) [
  | inl e ↦ rw e refl
  | inr (i, e) ↦
      let proxys = s.robin.proxys in
      elim (Bool-cases (length proxys == 0)) [
        | inl none_ ↦ rw (e, none_) refl
        | inr some_ ↦ elim (Option-cases (get_elem? proxys (to_size i % length proxys))) [
          | inl at ↦ rw (e, some_, at) refl
          | inr (c, at) ↦ rw (e, some_, at) refl
        ]
      ]
]

-- The results of these calls, the first of which is the call number `k` of `GetProxy` on a pool with these
-- proxies: each gets the proxy in turn.
abbrev pub HandedOut : List Ptr → ℕ → List (ℕ × ℕ) → List (ℕ × Ptr) → Type 0
HandedOut proxys k [] given = given ≡ []
HandedOut proxys k ((i, name) ∷ h) given =
    (c : Ptr) × (rest : List (ℕ × Ptr)) × (given ≡ (name, c) ∷ rest)
    × (get_elem? proxys (k % length proxys) ≡ some c)
    × HandedOut proxys (suc k) h rest

-- The same of the results in `t` that `s` has not.
abbrev pub Given : Handing → ℕ → List (ℕ × ℕ) → Handing → Type 0
Given s k h t =
    (new : List (ℕ × Ptr)) × HandedOut s.robin.proxys k h new × (t.given ≡ s.given ++ new)

one_by_one-HandedOut :
    (h : List (ℕ × ℕ)) (k : ℕ) (s : Handing)
    → s.robin.proxy_index ≡ index_at k
    → k + length h ≤ 2 ^ 31
    → 0 < length s.robin.proxys
    → Returns (λ _ t. Given s k h t) (one_by_one (map (in_history proxy_section) h) s)
unfolding one_by_one
one_by_one-HandedOut [] k s e small some_ = ([], refl, sym (append-nil _))
one_by_one-HandedOut ((i, name) ∷ h) k s e small some_ =
    let (c, at, step) = get_proxy-turn k s.robin tt e (omega arith) some_ in
    let t : Handing = record {
      robin = record s.robin { proxy_index = pos k };
      index = pos k;
      given = s.given ++ (name, c) ∷ [];
    } in
    let done : whole (proxy_section name) s ≡ ok tt t =
      whole-proxy_section name s ∙ ap (handed name s) step in
    subst
      (λ r.
        Returns (λ _ u. Given s k ((i, name) ∷ h) u)
          (and_then (caught r) (λ _. one_by_one (map (in_history proxy_section) h))))
      (sym done)
      (Returns-mono (λ _ u. Given t (suc k) h u) (λ _ u. Given s k ((i, name) ∷ h) u)
        (one_by_one (map (in_history proxy_section) h) t)
        (one_by_one-HandedOut h (suc k) t refl (omega arith) some_)
        (λ _ u (new, out, given).
          ((name, c) ∷ new, (c, new, refl, at, out), given ∙ append_assoc s.given _ new)))

-- Threads that call `GetProxy` on one pool, with the numbers in their lists, where the steps inside the calls come in
-- any order, and the pool has proxies and has had `k` calls: there is a list of the calls that have begun, in which
-- those of each thread stand in its order; and unless there are so many that the index leaves the `int`, no step has
-- undefined behaviour, and once the thread that is inside a call has ended it, each of these calls has
-- returned the proxy whose turn it was, one after the other: none is skipped, and none given twice.
pub interleave-HandedOut :
    (schedule : List ℕ) (calls : List (List ℕ)) (k : ℕ) (s : Handing)
    → s.robin.proxy_index ≡ index_at k
    → 0 < length s.robin.proxys
    → let run = interleave schedule (start (map (map proxy_section) calls) s) in
      (h : List (ℕ × ℕ)) × ((2 ^ 31 < k + length h) ⊎ Returns (λ _ t. Given s k h t) (finished run))
      × ((i : ℕ)
          → (rest : List ℕ) × (own i h ++ rest ≡ program calls i)
            × Left run i (map proxy_section rest))
interleave-HandedOut schedule calls k s e some_ =
    let run = interleave schedule (start (map (map proxy_section) calls) s) in
    let (sections, all, lists, held) =
      interleave-one_by_one schedule (map (map proxy_section) calls) s in
    let (h, image, programs) =
      Covers-Lifted proxy_section sections (program calls) (λ i. (lists i).0)
        (λ i. (lists i).1 ∙ program-map proxy_section calls i) in
    (
      h,
      elim (Bool-cases (ltb (2 ^ 31) (k + length h))) [
        | inl many ↦ inl (ltb→lt (2 ^ 31) (k + length h) many)
        | inr few ↦ inr (
            subst (Returns _) (ap (λ x. one_by_one x s) (sym image) ∙ all)
              (one_by_one-HandedOut h k s e (ltb→le (2 ^ 31) (k + length h) few) some_))
      ],
      λ i. let (rest, same, left) = programs i in (rest, same, subst (Left run i) left (lists i).2),
    )
