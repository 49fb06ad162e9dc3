-- ===== src/ConnPool.antt =====
-- `RedisClientPool` of cpp/include/RedisClientPool.h and cpp/src/RedisClientPool.cpp: the connections
-- to one server that nobody uses at the moment. Each method runs under the pool's mutex, so it is one
-- step; the log is left out, and so is C++'s own exhaustion of memory.
pub mod Ownership
pub mod Reuse
pub mod Reconnect
pub mod AsyncPool
pub mod Deletion
pub mod AsyncReuse
use codis_client.Prelude.{
  ℕ, ◌+◌, ◌-◌, ◌%◌, ◌^◌, Bool, true, false, List, [], ◌∷◌, ◌++◌, ◌==◌, if◌then◌else◌, ℤ, Bytes,
  codes, bytes_eq,
}
use codis_client.Utils.{int2string}
use codis_client.Run.{M, pure, ◌>>=◌, ◌>>◌}
use codis_client.Hiredis.{
  Hiredis, Ptr, null, State, get, put, redis_connect, redis_err, redis_free, redis_command_argv,
}

-- `used` and `used_async` are of type `size_t`.
pub record Pool : Type 0 where
  pub address : Bytes
  pub port : ℤ
  pub active : Bool
  pub async : Bool
  pub core_size : ℕ
  pub max_size : ℕ
  pub unused : List Ptr
  pub used : ℕ
  pub unused_async : List Ptr
  pub used_async : ℕ
  pub password : Bytes

-- The constructor. It does not initialise `usedAsync_`, which so begins as whatever the memory held.
abbrev pub new_pool : Bytes → ℤ → Bytes → Bool → Bool → ℕ → ℕ → (garbage : ℕ) → Pool
new_pool address port password active async core_size max_size garbage = record {
  address = address;
  port = port;
  active = active;
  async = async;
  core_size = core_size;
  max_size = max_size;
  unused = [];
  used = 0;
  unused_async = [];
  used_async = garbage;
  password = password;
}

-- `n++` and `n--` on a `size_t`.
abbrev pub increment : ℕ → ℕ
increment n = (n + 1) % 2 ^ 64

abbrev pub decrement : ℕ → ℕ
decrement n = (n + 2 ^ 64 - 1) % 2 ^ 64

unfoldable pub get_id : Pool → Bytes
get_id p = p.address ++ (codes ":" ++ int2string p.port)

module _ ⦃lib : Hiredis⦄ where
  abbrev pub PoolM : Type 0 → Type 0
  PoolM = M (State Pool lib.World)

  abbrev pub set_unused : List Ptr → PoolM (Unit {0})
  set_unused cs = do p ← get; put (record p { unused = cs })

  abbrev pub set_used : ℕ → PoolM (Unit {0})
  set_used n = do p ← get; put (record p { used = n })

  -- What follows the test of `ret->err` in `create`.
  abbrev pub authenticate : Bytes → Ptr → PoolM Ptr
  authenticate password ret =
      if bytes_eq password []
      then pure ret
      else do redis_command_argv ret (codes "AUTH" ∷ password ∷ []); pure ret

  unfoldable pub create : PoolM Ptr
  create = do
    p ← get
    ret ← redis_connect p.address p.port
    failed ← (if ret == null then pure 0 else redis_err ret)
    if failed == 0 then authenticate p.password ret else do redis_free ret; pure null

  -- `while (!unUsed_.empty())` of `borrowItem`, over the connections that are left.
  unfoldable pub borrow_loop : List Ptr → PoolM Ptr
  borrow_loop [] = pure null
  borrow_loop (rt ∷ rest) = do
    set_unused rest
    failed ← redis_err rt
    if failed == 0 then pure rt else do redis_free rt; borrow_loop rest

  -- `if (rt == NULL)` of `borrowItem`.
  unfoldable pub borrow_new : PoolM Ptr
  unfolding create
  borrow_new = do
    rt ← create
    p ← get
    if rt == null then pure null else do set_used (increment p.used); pure rt

  unfoldable pub borrow_item : PoolM Ptr
  unfolding borrow_loop borrow_new
  borrow_item = do p ← get; rt ← borrow_loop p.unused; if rt == null then borrow_new else pure rt

  unfoldable pub return_item : Ptr → PoolM (Unit {0})
  return_item item = do
    p ← get
    put (record p { unused = p.unused ++ item ∷ []; used = decrement p.used })

  unfoldable pub destroy : Ptr → PoolM (Unit {0})
  destroy item = if item == null then pure tt else redis_free item

  -- `Reconnect` takes the pointer by value: the caller's copy still names the context that it frees.
  -- It reads `rc->err` for the log before it compares `rc` with `NULL`.
  unfoldable pub reconnect : Ptr → PoolM Bool
  unfolding destroy
  reconnect rc = do
    p ← get
    destroy rc
    rc' ← redis_connect p.address p.port
    failed ← redis_err rc'
    if failed == 0 then pure true else do redis_free rc'; pure false

  -- The loop of the destructor, which leaves the asynchronous connections as they are.
  unfoldable pub destroy_all : List Ptr → PoolM (Unit {0})
  unfolding destroy
  destroy_all [] = pure tt
  destroy_all (c ∷ cs) = do destroy c; destroy_all cs

  unfoldable pub delete_pool : PoolM (Unit {0})
  unfolding destroy_all
  delete_pool = do p ← get; destroy_all p.unused
