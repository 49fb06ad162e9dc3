-- ===== src/ScopedLock/Pool.antt =====
-- `returnItem` of cpp/src/RedisClientPool.cpp as a section under its `ScopedLock`.
use codis_client.Prelude.{◌≡◌, refl, [], ◌∷◌, ◌++◌}
use codis_client.Hiredis.{Hiredis, Ptr, State, get, put}
use codis_client.Run.{◌>>=◌}
use codis_client.ConnPool.{Pool, PoolM, decrement, return_item}
use codis_client.ScopedLock.{Section}
use codis_client.ScopedLock.Whole.{whole}

module _ ⦃lib : Hiredis⦄ where
  abbrev pub push_back : Ptr → PoolM (Unit {0})
  push_back item = do p ← get; put (record p { unused = p.unused ++ item ∷ [] })

  abbrev pub count_down : PoolM (Unit {0})
  count_down = do p ← get; put (record p { used = decrement p.used })

  abbrev pub return_section : Ptr → Section (State Pool lib.World)
  return_section item = push_back item ∷ count_down ∷ []

  whole-return_section :
      (item : Ptr) (s : State Pool lib.World) → whole (return_section item) s ≡ return_item item s
  unfolding return_item
  whole-return_section item s = refl
