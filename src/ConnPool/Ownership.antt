-- ===== src/ConnPool/Ownership.antt =====
-- Who owns which connection of a `RedisClientPool`: those of the pool and those that were borrowed are
-- live and pairwise different.
use mathlib.Core.Logic.Or
use mathlib.Core.List.{
  Mem, Nodup, Nodup-cons, Perm, mem-cons, mem-cons_self, mem-cons_of_mem, perm_middle,
}
use mathlib.Core.List.Perm
use codis_client.Prelude.{
  ◌≡◌, ◌≢◌, refl, subst, ◌∙◌, ◌⊎◌, inl, inr, Bool, true, List, [], ◌∷◌, ◌++◌, arith, ◌==◌, ==_ne,
  ==_iff, bytes_eq, bytes_eq_refl, ap, Bool-cases, ℤ, Bytes, append_assoc,
}
use codis_client.Run.{Returns, Returns-bind}
use codis_client.Hiredis.{Hiredis, Ptr, null, State}
use codis_client.Hiredis.Laws.{HiredisLaws}
use codis_client.ConnPool.{Pool, borrow_loop, create, borrow_new, borrow_item, return_item}

module _ ⦃lib : Hiredis⦄ where
  -- The contexts of the list are live and pairwise different.
  abbrev pub Holds : lib.World → List Ptr → Type 0
  Holds w cs = Nodup cs × ((c : Ptr) → Mem c cs → lib.live w c ≡ true)

  pub Holds-perm : (w : lib.World) {cs ds : List Ptr} → Perm cs ds → Holds w cs → Holds w ds
  Holds-perm w p h = (Perm.nodup p h.0, λ c m. h.1 c ((Perm.mem_iff p).1 m))

  -- `hs` is what has been borrowed from the pool, which has no password (`CodisClient` makes no other).
  abbrev pub Owns : List Ptr → State Pool lib.World → Type 0
  Owns hs s = Holds s.world (s.object.unused ++ hs) × (s.object.password ≡ [])

  -- A borrowed connection joins the borrowed ones, and its last operation did not fail; or there is none.
  abbrev pub Lent : List Ptr → Ptr → State Pool lib.World → Type 0
  Lent hs c s = ((c ≡ null) × Owns hs s) ⊎ ((c ≢ null) × Owns (c ∷ hs) s × (lib.err s.world c ≡ 0))

live_prop : IsSet Bool
live_prop = hlevel

module _ ⦃lib : Hiredis⦄ (laws : HiredisLaws lib) where
  Holds-ne : (w : lib.World) (c q : Ptr) (cs : List Ptr) → Holds w (c ∷ cs) → Mem q cs → q ≢ c
  Holds-ne w c q cs h m e = (Nodup-cons.0 h.0).0 (subst (λ x. Mem x cs) e m)

  pub Holds-tail : (w : lib.World) (c : Ptr) (cs : List Ptr) → Holds w (c ∷ cs) → Holds w cs
  Holds-tail w c cs h = ((Nodup-cons.0 h.0).1, λ q m. h.1 q (mem-cons_of_mem c m))

  pub Holds-free :
      (w : lib.World) (c : Ptr) (cs : List Ptr) → Holds w (c ∷ cs) → Holds (lib.free c w) cs
  Holds-free w c cs h = (
    (Nodup-cons.0 h.0).1,
    λ q m.
        laws.live-free c w q
        ∙ (rw (==_ne q c (Holds-ne w c q cs h m)) (h.1 q (mem-cons_of_mem c m))),
  )

  pub Holds-connect :
      (a : Bytes) (p : ℤ) (w : lib.World) (cs : List Ptr)
      → Holds w cs
      → Holds (lib.connect a p w).1 cs
  Holds-connect a p w cs h = (h.0, λ q m. ground (arith, laws.live-connect a p w q, h.1 q m))

  pub Holds-connected :
      (a : Bytes) (p : ℤ) (w : lib.World) (cs : List Ptr)
      → Holds w cs
      → (lib.connect a p w).0 ≢ null
      → Holds (lib.connect a p w).1 ((lib.connect a p w).0 ∷ cs)
  Holds-connected a p w cs h ne =
      let new = (lib.connect a p w).0 in
      let fresh : ¬ Mem new cs = λ m. cc (h.1 new m, laws.live-new a p w) in
      (
        Nodup-cons.1 (fresh, h.0),
        λ q m.
            Or.elim (live_prop (lib.live (lib.connect a p w).1 q) true) (mem-cons.0 m)
              (λ e. ground (arith, laws.live-connect a p w q)) ((Holds-connect a p w cs h).1 q),
      )

  pub not_null : (w : lib.World) (c : Ptr) → lib.live w c ≡ true → c ≢ null
  not_null w c h e = ground (arith, laws.live-null w)

  borrow_loop-Lent :
      (hs xs : List Ptr) (s : State Pool lib.World)
      → Holds s.world (xs ++ hs)
      → xs ≡ s.object.unused
      → s.object.password ≡ []
      → Returns (Lent hs) (borrow_loop xs s)
  unfolding borrow_loop
  borrow_loop-Lent hs [] s h e free = inl (refl, (rw (← e) h, free))
  borrow_loop-Lent hs (rt ∷ rest) s h e free =
      rw (h.1 rt mem-cons_self) (elim (Bool-cases (lib.err s.world rt == 0)) [
        | inl fine ↦ rw fine (
            inr (
              not_null s.world rt (h.1 rt mem-cons_self),
              (Holds-perm s.world (Perm.symm (perm_middle rest hs)) h, free),
              ground arith,
            ))
        | inr failed ↦
            rw (failed, h.1 rt mem-cons_self)
              (borrow_loop-Lent hs rest
                (record s {
                  object = record s.object { unused = rest };
                  world = lib.free rt s.world;
                })
                (Holds-free s.world rt (rest ++ hs) h) refl free)
      ])

  -- A new connection is one that nobody else has.
  create-Lent :
      (hs : List Ptr) (s : State Pool lib.World) → Owns hs s → Returns (Lent hs) (create s)
  unfolding create
  create-Lent hs s (h, free) =
      let new = (lib.connect s.object.address s.object.port s.world).0 in
      let w = (lib.connect s.object.address s.object.port s.world).1 in
      let open_pool : bytes_eq s.object.password [] ≡ true =
        ap (λ x. bytes_eq x []) free ∙ bytes_eq_refl [] in
      let kept : Holds w (s.object.unused ++ hs) = Holds-connect _ _ s.world _ h in
      elim (Bool-cases (new == null)) [
        | inl e ↦ rw (e, open_pool) (inl ((==_iff new null).0 e, (kept, free)))
        | inr ne ↦
            let more : Holds w (new ∷ (s.object.unused ++ hs)) =
              Holds-connected _ _ s.world _ h (ground arith) in
            rw (ne, more.1 new mem-cons_self)
              (elim (Bool-cases (lib.err w new == 0)) [
                | inl fine ↦
                    rw (fine, open_pool)
                      (inr (
                        ground arith,
                        (Holds-perm w (Perm.symm (perm_middle s.object.unused hs)) more, free),
                        (==_iff _ 0).0 fine,
                      ))
                | inr failed ↦
                    rw (failed, more.1 new mem-cons_self)
                      (inl (refl, (Holds-free w new (s.object.unused ++ hs) more, free)))
              ])
      ]

  nothing-Lent :
      (hs : List Ptr) (c : Ptr) (s : State Pool lib.World)
      → (c == null) ≡ true
      → Lent hs c s
      → Owns hs s
  nothing-Lent hs c s e (inl (_, h)) = h
  nothing-Lent hs c s e (inr (ne, _, _)) = absurd (ne ((==_iff c null).0 e))

  none-Lent :
      (hs : List Ptr) (c : Ptr) (s : State Pool lib.World)
      → (c == null) ≡ true
      → Lent hs c s
      → Lent hs null s
  none-Lent hs c s e lent = inl (refl, nothing-Lent hs c s e lent)

  borrow_new-Lent :
      (hs : List Ptr) (s : State Pool lib.World) → Owns hs s → Returns (Lent hs) (borrow_new s)
  unfolding borrow_new
  borrow_new-Lent hs s h =
      Returns-bind (Lent hs) (Lent hs) (create s) _ (create-Lent hs s h) λ rt s' lent.
        elim (Bool-cases (rt == null)) [
          | inl e ↦ rw e (none-Lent hs rt s' e lent)
          | inr ne ↦ rw ne lent
        ]

  -- For a pool without a password, whose connections and the borrowed ones are live and different,
  -- `borrowItem` returns on every branch: either `NULL`, or a live connection in order that neither the
  -- pool nor anybody who has borrowed one before holds.
  pub borrow_item-Lent :
      (hs : List Ptr) (s : State Pool lib.World) → Owns hs s → Returns (Lent hs) (borrow_item s)
  unfolding borrow_item
  borrow_item-Lent hs s h =
      Returns-bind _ (Lent hs) (borrow_loop s.object.unused s) _
        (borrow_loop-Lent hs s.object.unused s h.0 refl h.1)
        λ rt s' lent. elim (Bool-cases (rt == null)) [
          | inl e ↦ rw e (borrow_new-Lent hs s' (nothing-Lent hs rt s' e lent))
          | inr ne ↦ rw ne lent
        ]

  pub return_item-Owns :
      (hs : List Ptr) (c : Ptr) (s : State Pool lib.World)
      → Owns (c ∷ hs) s
      → Returns (λ _. Owns hs) (return_item c s)
  unfolding return_item
  return_item-Owns hs c s h = rw (append_assoc s.object.unused (c ∷ []) hs) (h.0, h.1)
