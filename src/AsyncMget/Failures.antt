-- ===== src/AsyncMget/Failures.antt =====
-- `mget2` of cpp/src/CodisClient.cpp where no asynchronous connection can be made.
use codis_client.Prelude.{
  ℕ, ◌≡◌, ◌≢◌, refl, ap, true, false, List, [], ◌∷◌, ◌++◌, Option, none, some, length, set, ==_ne,
  Bytes,
}
use codis_client.Run.{ok, fault}
use codis_client.Hiredis.{Hiredis, Ptr, null, State}
use codis_client.ConnPool.{Pool, decrement}
use codis_client.ConnPool.AsyncPool.{
  borrow_loop_async, borrow_new_async, create_async, borrow_item_async, return_item_async,
}
use codis_client.AsyncMget.{AsyncClient, mget2, request}

module _ ⦃lib : Hiredis⦄ where
  -- The client with the pool `p`, whose asynchronous connections are `cs`.
  abbrev pub with_async : AsyncClient → Pool → List Ptr → lib.World → State AsyncClient lib.World
  with_async a p cs w = record {
    object = record a {
      client = record a.client { conn_pool = some (record p { unused_async = cs }) };
    };
    world = w;
  }

  set_last :
      (xs : List (Option Ptr)) (x y : Option Ptr) → set (xs ++ x ∷ []) (length xs) y ≡ xs ++ y ∷ []
  set_last [] x y = refl
  set_last (z ∷ xs) x y = ap (λ l. z ∷ l) (set_last xs x y)

  -- Where the pool has no asynchronous connection and the new one `c` fails at once, `mget2` returns `false`
  -- and leaves `NULL` in the pool, whose counter is one lower, modulo 2 ^ 64; the next `mget2` then reads
  -- through that `NULL`, which is no context.
  pub mget2_unconnected :
      (keys keys' : List Bytes) (callback callback' : ℕ) (a : AsyncClient) (p : Pool)
      (w w' : lib.World) (c : Ptr)
      → lib.async_connect p.address p.port w ≡ (c, w')
      → c ≢ null
      → lib.async_live w' c ≡ true
      → lib.async_err w' c ≢ 0
      → lib.async_live w' null ≡ false
      → let t =
          with_async
            (record a { locals = a.locals ++ none ∷ [] })
            (record p { used_async = decrement p.used_async })
            (null ∷ [])
            w' in
        (mget2 keys callback (with_async a p [] w) ≡ ok false t) × (mget2 keys' callback' t ≡ fault)
  unfolding mget2 request borrow_item_async borrow_loop_async borrow_new_async create_async
      return_item_async
  mget2_unconnected keys keys' callback callback' a p w w' c made ne live failed gone = (
    rw
        (
          made,
          ==_ne c null ne,
          live,
          ==_ne (lib.async_err w' c) 0 failed,
          set_last a.locals (some null) none,
        )
        refl,
    rw gone refl,
  )
