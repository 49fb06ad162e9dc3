-- ===== src/ConnPool/AsyncPool.antt =====
-- The asynchronous half of `RedisClientPool`, cpp/src/RedisClientPool.cpp. `loop` is the event loop.
use codis_client.Prelude.{ℕ, Bool, true, false, List, [], ◌∷◌, ◌++◌, ◌==◌, if◌then◌else◌}
use codis_client.Run.{pure, ◌>>=◌, ◌>>◌}
use codis_client.Hiredis.{
  Hiredis, Ptr, null, get, put, redis_async_connect, redis_async_err, redis_async_disconnect,
  redis_async_set_disconnect_callback, redis_ae_attach,
}
use codis_client.ConnPool.{PoolM, increment, decrement}

module _ ⦃lib : Hiredis⦄ where
  abbrev pub set_unused_async : List Ptr → PoolM (Unit {0})
  set_unused_async cs = do p ← get; put (record p { unused_async = cs })

  abbrev set_used_async : ℕ → PoolM (Unit {0})
  set_used_async n = do p ← get; put (record p { used_async = n })

  -- `ret != NULL && ret->err`: the field is read only where there is a context.
  abbrev async_failed : Ptr → PoolM ℕ
  async_failed ret = if ret == null then pure 0 else redis_async_err ret

  -- What `createAsync` and `ReconnectAsync` do with a new connection.
  abbrev attach : {A : Type 0} → ℕ → Ptr → A → PoolM A
  attach loop c a = do redis_async_set_disconnect_callback c; redis_ae_attach loop c; pure a

  -- A connection that failed is not freed.
  unfoldable pub create_async : ℕ → PoolM Ptr
  create_async loop = do
    p ← get
    ret ← redis_async_connect p.address p.port
    failed ← async_failed ret
    if failed == 0 then attach loop ret ret else pure null

  -- `while (!unUsedAsync_.empty())` of `borrowItemAsync`. A connection that failed is dropped.
  unfoldable pub borrow_loop_async : List Ptr → PoolM Ptr
  borrow_loop_async [] = pure null
  borrow_loop_async (rt ∷ rest) = do
    set_unused_async rest
    failed ← redis_async_err rt
    if failed == 0 then pure rt else borrow_loop_async rest

  unfoldable pub borrow_new_async : ℕ → PoolM Ptr
  unfolding create_async
  borrow_new_async loop = do
    rt ← create_async loop
    p ← get
    if rt == null then pure null else do set_used_async (increment p.used_async); pure rt

  unfoldable pub borrow_item_async : ℕ → PoolM Ptr
  unfolding borrow_loop_async borrow_new_async
  borrow_item_async loop = do
    p ← get
    rt ← borrow_loop_async p.unused_async
    if rt == null then borrow_new_async loop else pure rt

  unfoldable pub return_item_async : Ptr → PoolM (Unit {0})
  return_item_async item = do
    p ← get
    put (record p {
      unused_async = p.unused_async ++ item ∷ [];
      used_async = decrement p.used_async;
    })

  unfoldable pub destroy_async : Ptr → PoolM (Unit {0})
  destroy_async item = if item == null then pure tt else redis_async_disconnect item

  unfoldable pub reconnect_async : Ptr → ℕ → PoolM Bool
  unfolding destroy_async
  reconnect_async rc loop = do
    p ← get
    destroy_async rc
    rc' ← redis_async_connect p.address p.port
    failed ← async_failed rc'
    if failed == 0 then attach loop rc' true else pure false
