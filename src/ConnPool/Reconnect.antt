-- ===== src/ConnPool/Reconnect.antt =====
-- `RedisClientPool::Reconnect` of cpp/src/RedisClientPool.cpp: what becomes of the context that it is given.
use mathlib.Core.List.{mem-cons_self, perm_middle}
use mathlib.Core.List.Perm
use codis_client.Prelude.{
  ◌≡◌, ◌≢◌, refl, ◌∙◌, ◌⊎◌, inl, inr, Bool, true, false, List, ◌∷◌, ◌++◌, arith, ◌==◌, ==_iff,
  ==_ne, ==-refl, Bool-cases,
}
use codis_client.Run.{Returns, fault}
use codis_client.Hiredis.{Hiredis, Ptr, null, State}
use codis_client.Hiredis.Laws.{HiredisLaws}
use codis_client.ConnPool.{Pool, reconnect}
use codis_client.ConnPool.Ownership.{Holds, Holds-perm, Owns, not_null, Holds-free, Holds-connected}

module _ ⦃lib : Hiredis⦄ where
  -- The context `c` is gone, and so is the new one, `d`.
  abbrev pub Lost : List Ptr → Ptr → Ptr → State Pool lib.World → Type 0
  Lost hs c d s = Owns hs s × (lib.live s.world c ≡ false) × (lib.live s.world d ≡ false)

  -- There is a new context `d`, which neither the pool nor anybody else holds, and `c` is live only if
  -- `d` happens to have its address.
  abbrev pub Replaced : List Ptr → Ptr → Ptr → State Pool lib.World → Type 0
  Replaced hs c d s = Owns (d ∷ hs) s × (lib.err s.world d ≡ 0) × (lib.live s.world c ≡ (c == d))

  abbrev pub Reconnected : List Ptr → Ptr → Ptr → Bool → State Pool lib.World → Type 0
  Reconnected hs c d fine s = ((fine ≡ false) × Lost hs c d s) ⊎ ((fine ≡ true) × Replaced hs c d s)

module _ ⦃lib : Hiredis⦄ (laws : HiredisLaws lib) where
  -- What `redisConnect` gives to `Reconnect`, which has freed `c` before.
  abbrev pub reconnected : Ptr → State Pool lib.World → Ptr × lib.World
  reconnected c s = lib.connect s.object.address s.object.port (lib.free c s.world)

  live_after_free : (c : Ptr) (w : lib.World) → lib.live (lib.free c w) c ≡ false
  live_after_free c w = laws.live-free c w c ∙ (rw (==-refl c))

  live_after_reconnect :
      (c : Ptr) (s : State Pool lib.World)
      → c ≢ null
      → lib.live (reconnected c s).1 c ≡ (c == (reconnected c s).0)
  live_after_reconnect c s ne = ground (
    arith,
    laws.live-connect s.object.address s.object.port (lib.free c s.world) c,
    live_after_free c s.world,
  )

  pub Owns-owner :
      (hs : List Ptr) (c : Ptr) (s : State Pool lib.World)
      → Owns (c ∷ hs) s
      → Holds s.world (c ∷ (s.object.unused ++ hs))
  Owns-owner hs c s h = Holds-perm s.world (perm_middle s.object.unused hs) h.0

  pub live_of_Owns :
      (hs : List Ptr) (c : Ptr) (s : State Pool lib.World)
      → Owns (c ∷ hs) s
      → lib.live s.world c ≡ true
  live_of_Owns hs c s h = (Owns-owner hs c s h).1 c mem-cons_self

  -- For a context that was borrowed from a pool without a password, and where `redisConnect` does not
  -- run out of memory, `Reconnect` returns: either false, with the context freed, and the new one
  -- freed too; or true, with a new context in order that neither the pool nor anybody else holds, and
  -- the old one is live only if the new one has its address.
  pub reconnect-Reconnected :
      (hs : List Ptr) (c : Ptr) (s : State Pool lib.World)
      → Owns (c ∷ hs) s
      → (reconnected c s).0 ≢ null
      → Returns (Reconnected hs c (reconnected c s).0) (reconnect c s)
  unfolding reconnect
  reconnect-Reconnected hs c s h ne =
      let (d, w) = reconnected c s in
      let ne_c : c ≢ null = not_null laws s.world c (live_of_Owns hs c s h) in
      let more : Holds w (d ∷ (s.object.unused ++ hs)) =
        Holds-connected laws _ _ _ _ (Holds-free laws s.world c _ (Owns-owner hs c s h)) ne in
      rw (==_ne c null ne_c, live_of_Owns hs c s h, more.1 d mem-cons_self)
        (elim (Bool-cases (lib.err w d == 0)) [
          | inl fine ↦ rw fine (
              inr (
                refl,
                (
                  (Holds-perm w (Perm.symm (perm_middle s.object.unused hs)) more, h.1),
                  (==_iff _ 0).0 fine,
                  live_after_reconnect c s ne_c,
                ),
              ))
          | inr failed ↦
              rw (failed, more.1 d mem-cons_self)
                (inl (
                  refl,
                  (
                    (Holds-free laws w d (s.object.unused ++ hs) more, h.1),
                    ground (arith, laws.live-free d w c, live_after_reconnect c s ne_c),
                    laws.live-free d w d ∙ rw (==-refl d) refl,
                  ),
                ))
        ])

  -- Where the new connection fails, `Reconnect` returns false and leaves neither context behind.
  pub reconnect-Lost :
      (hs : List Ptr) (c : Ptr) (s : State Pool lib.World)
      → Owns (c ∷ hs) s
      → (reconnected c s).0 ≢ null
      → lib.err (reconnected c s).1 (reconnected c s).0 ≢ 0
      → Returns (λ fine t. (fine ≡ false) × Lost hs c (reconnected c s).0 t) (reconnect c s)
  unfolding reconnect
  reconnect-Lost hs c s h ne failed =
      let (d, w) = reconnected c s in
      let ne_c : c ≢ null = not_null laws s.world c (live_of_Owns hs c s h) in
      let more : Holds w (d ∷ (s.object.unused ++ hs)) =
        Holds-connected laws _ _ _ _ (Holds-free laws s.world c _ (Owns-owner hs c s h)) ne in
      rw
        (
          ==_ne c null ne_c,
          live_of_Owns hs c s h,
          more.1 d mem-cons_self,
          ==_ne (lib.err w d) 0 failed,
          more.1 d mem-cons_self,
        )
        (
          refl,
          (
            (Holds-free laws w d (s.object.unused ++ hs) more, h.1),
            ground (arith, laws.live-free d w c, live_after_reconnect c s ne_c),
            laws.live-free d w d ∙ rw (==-refl d) refl,
          ),
        )

  -- For a borrowed context, and where `redisConnect` runs out of memory, `Reconnect` reads through the null pointer that it gets.
  pub reconnect_no_memory :
      (hs : List Ptr) (c : Ptr) (s : State Pool lib.World)
      → Owns (c ∷ hs) s
      → (reconnected c s).0 ≡ null
      → reconnect c s ≡ fault
  unfolding reconnect
  reconnect_no_memory hs c s h e = rw (
    ==_ne c null (not_null laws s.world c (live_of_Owns hs c s h)),
    live_of_Owns hs c s h,
    e,
    laws.live-null,
  )
