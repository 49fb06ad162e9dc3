-- ===== src/RoundRobin/Turns.antt =====
-- `GetProxy` of cpp/src/RoundRobinCodisPool.cpp over many calls.
use codis_client.Prelude.{
  get_elem?-some, ℕ, zero, suc, ◌+◌, ◌%◌, ◌^◌, ◌<◌, ◌≤◌, ◌≡◌, refl, sym, ap, ap₂, ◌∙◌, List, [],
  ◌∷◌, map, ==_ne, Option, some, length, get_elem?, arith, ℤ, pos, negsuc,
}
use codis_client.Run.{M, ok, pure, ◌>>=◌, Returns, Returns-bind}
use codis_client.Hiredis.{State, Ptr}
use codis_client.RoundRobin.{RoundRobin, next_int, get_proxy, pick}

-- The index that the constructor sets, and those that calls make of it.
abbrev pub index_at : ℕ → ℤ
index_at zero = negsuc 0
index_at (suc n) = pos n

next_index : (k : ℕ) → k < 2 ^ 31 → next_int (index_at k) ≡ some (pos k)
next_index zero h = refl
next_index (suc k) h = ground arith

-- The entries at the positions `k`, `k + 1`, … modulo the length, `n` of them.
unfoldable pub in_turn : List Ptr → ℕ → ℕ → List (Option Ptr)
in_turn proxys k zero = []
in_turn proxys k (suc n) = get_elem? proxys (k % length proxys) ∷ in_turn proxys (suc k) n

module _ {W : Type 0} where
  -- `n` calls of `GetProxy`, one after the other.
  unfoldable pub get_proxies : ℕ → M (State RoundRobin W) (List Ptr)
  get_proxies zero = pure []
  get_proxies (suc n) = do c ← get_proxy; cs ← get_proxies n; pure (c ∷ cs)

  -- After `k` calls the next one gives the proxy at position `k`.
  pub get_proxy-turn :
      (k : ℕ) (r : RoundRobin) (w : W)
      → r.proxy_index ≡ index_at k
      → k < 2 ^ 31
      → 0 < length r.proxys
      → (c : Ptr) × (get_elem? r.proxys (k % length r.proxys) ≡ some c)
        × (get_proxy (record { object = r; world = w })
            ≡ ok c (record { object = record r { proxy_index = pos k }; world = w }))
  unfolding get_proxy
  get_proxy-turn k r w e small some_ =
      let (c, at) = get_elem?-some r.proxys (k % length r.proxys) (omega arith) in
      (
        c,
        at,
        ap (λ x. pick x (record { object = r; world = w })) (ap next_int e ∙ next_index k small)
            ∙ rw (==_ne (length r.proxys) 0 (omega arith), at) refl,
      )

  -- Calls of `GetProxy` on a pool that has proxies give them in turn, from the position after the last
  -- one on and around the end, up to the call number 2 ^ 31 since the pool was made.
  pub get_proxies-in_turn :
      (n k : ℕ) (r : RoundRobin) (w : W)
      → r.proxy_index ≡ index_at k
      → k + n ≤ 2 ^ 31
      → 0 < length r.proxys
      → Returns
          (λ cs s.
            (map some cs ≡ in_turn r.proxys k n)
            × (s.object ≡ record r { proxy_index = index_at (k + n) })
            × (s.world ≡ w))
          (get_proxies n (record { object = r; world = w }))
  unfolding get_proxies in_turn
  get_proxies-in_turn zero k r w e small some_ = (refl, ground (arith, e), refl)
  get_proxies-in_turn (suc n) k r w e small some_ =
      let (c, at, step) = get_proxy-turn k r w e (omega arith) some_ in
      rw step (
        Returns-bind _ _
          (get_proxies n (record { object = record r { proxy_index = pos k }; world = w })) _
          (get_proxies-in_turn n (suc k) (record r { proxy_index = pos k }) w refl (omega arith)
            some_)
          λ cs s (turns, now, same). (
            ap₂ ◌∷◌ (sym at) turns,
            now ∙ ap (λ i. record r { proxy_index = index_at i }) (omega arith),
            same,
          ))
