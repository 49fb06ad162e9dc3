-- ===== src/ConnPool/AsyncReuse.antt =====
-- The reuse of connections by `borrowItemAsync` and `returnItemAsync` of cpp/src/RedisClientPool.cpp.
use codis_client.Prelude.{ℕ, ◌≡◌, ◌≢◌, refl, ap, ◌∙◌, true, List, [], ◌∷◌, ◌++◌, ==_ne, All}
use codis_client.Run.{ok, ◌>>=◌}
use codis_client.Hiredis.{Hiredis, Ptr, null, State}
use codis_client.ConnPool.{Pool, decrement}
use codis_client.ConnPool.AsyncPool.{borrow_loop_async, borrow_item_async, return_item_async}

module _ ⦃lib : Hiredis⦄ where
  abbrev pub AsyncFailed : lib.World → Ptr → Type 0
  AsyncFailed w c = (lib.async_live w c ≡ true) × (lib.async_err w c ≢ 0)

  abbrev pub AsyncFine : lib.World → Ptr → Type 0
  AsyncFine w c = (c ≢ null) × (lib.async_live w c ≡ true) × (lib.async_err w c ≡ 0)

  borrow_loop_async_first :
      (bad : List Ptr) (c : Ptr) (rest : List Ptr) (s : State Pool lib.World)
      → All (AsyncFailed s.world) bad
      → AsyncFine s.world c
      → borrow_loop_async (bad ++ c ∷ rest) s
        ≡ ok c (record s { object = record s.object { unused_async = rest } })
  unfolding borrow_loop_async
  borrow_loop_async_first [] c rest s h (ne, live, fine) = rw (live, fine) refl
  borrow_loop_async_first (b ∷ bad) c rest s ((live, failed), h) fine =
      rw (live, ==_ne (lib.async_err s.world b) 0 failed)
        (borrow_loop_async_first bad c rest
          (record s { object = record s.object { unused_async = bad ++ c ∷ rest } }) h fine)

  -- Where the pool holds an asynchronous connection that has not failed, `borrowItemAsync` and then
  -- `returnItemAsync` drop the failed ones in front of it, move it behind all others and leave
  -- `usedAsync_` smaller by one. The world is as before: the pool frees none of those that it drops.
  borrow-return_async :
      (loop : ℕ) (bad : List Ptr) (c : Ptr) (rest : List Ptr) (s : State Pool lib.World)
      → s.object.unused_async ≡ bad ++ c ∷ rest
      → All (AsyncFailed s.world) bad
      → AsyncFine s.world c
      → (borrow_item_async loop >>= return_item_async) s
        ≡ ok tt (record s {
          object = record s.object {
            unused_async = rest ++ c ∷ [];
            used_async = decrement s.object.used_async;
          };
        })
  unfolding borrow_item_async return_item_async
  borrow-return_async loop bad c rest s e h fine = rw (
    ap (λ xs. borrow_loop_async xs s) e ∙ borrow_loop_async_first bad c rest s h fine,
    ==_ne c null fine.0,
  )
