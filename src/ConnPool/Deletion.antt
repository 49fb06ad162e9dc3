-- ===== src/ConnPool/Deletion.antt =====
-- The destructor of `RedisClientPool` (cpp/src/RedisClientPool.cpp).
use codis_client.Prelude.{
  ◌≡◌, refl, ◌∙◌, true, false, List, [], ◌∷◌, ◌++◌, arith, ==_ne, ==-refl, All,
}
use mathlib.Core.List.{mem-cons_self}
use codis_client.Run.{ok, Returns}
use codis_client.Hiredis.{Hiredis, Ptr, null, State}
use codis_client.Hiredis.Laws.{HiredisLaws}
use codis_client.ConnPool.{Pool, destroy_all, delete_pool}
use codis_client.ConnPool.Ownership.{Holds, Holds-free, Owns, not_null}
use codis_client.ConnPool.Reuse.{free_all}

module _ ⦃lib : Hiredis⦄ (laws : HiredisLaws lib) where
  pub dead_after_frees :
      (cs : List Ptr) (w : lib.World) (q : Ptr)
      → lib.live w q ≡ false
      → lib.live (free_all cs w) q ≡ false
  unfolding free_all
  dead_after_frees [] w q h = h
  dead_after_frees (c ∷ cs) w q h =
      dead_after_frees cs (lib.free c w) q (ground (arith, laws.live-free c w q))

  pub All-dead_after_frees :
      (cs : List Ptr) (w : lib.World) → All (λ q. lib.live (free_all cs w) q ≡ false) cs
  unfolding free_all
  All-dead_after_frees [] w = tt
  All-dead_after_frees (c ∷ cs) w = (
    dead_after_frees cs (lib.free c w) c (laws.live-free c w c ∙ rw (==-refl c)),
    All-dead_after_frees cs (lib.free c w),
  )

  pub Holds-free_all :
      (cs hs : List Ptr) (w : lib.World) → Holds w (cs ++ hs) → Holds (free_all cs w) hs
  unfolding free_all
  Holds-free_all [] hs w h = h
  Holds-free_all (c ∷ cs) hs w h =
      Holds-free_all cs hs (lib.free c w) (Holds-free laws w c (cs ++ hs) h)

  pub destroy_all-free_all :
      (cs hs : List Ptr) (s : State Pool lib.World)
      → Holds s.world (cs ++ hs)
      → destroy_all cs s ≡ ok tt (record s { world = free_all cs s.world })
  unfolding destroy_all free_all
  destroy_all-free_all [] hs s h = refl
  destroy_all-free_all (c ∷ cs) hs s h =
      let live : lib.live s.world c ≡ true = h.1 c mem-cons_self in
      rw (==_ne c null (not_null laws s.world c live), live)
        (destroy_all-free_all cs hs (record s { world = lib.free c s.world })
          (Holds-free laws s.world c (cs ++ hs) h))

  -- For a pool without a password, whose connections and the borrowed ones are live and different,
  -- the destructor returns; it has freed every connection of the pool, and the borrowed ones are
  -- still live and different.
  delete_pool-Freed :
      (hs : List Ptr) (s : State Pool lib.World)
      → Owns hs s
      → Returns
          (λ _ t. All (λ c. lib.live t.world c ≡ false) s.object.unused × Holds t.world hs)
          (delete_pool s)
  unfolding delete_pool
  delete_pool-Freed hs s h =
      rw (destroy_all-free_all s.object.unused hs s h.0) (
        All-dead_after_frees s.object.unused s.world,
        Holds-free_all s.object.unused hs s.world h.0,
      )
