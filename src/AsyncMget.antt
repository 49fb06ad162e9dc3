-- ===== src/AsyncMget.antt =====
-- `mget2` and `mget2Callback` of cpp/src/CodisClient.cpp: a request that hiredis answers later, in the
-- thread of the event loop. The state is the client with what the two functions share: the requests
-- that are allocated, and the local variable `async_context` of each call of `mget2`, whose
-- address the request holds. The log is left out.
pub mod Dangling
pub mod Failures
pub mod Answered
use codis_client.Prelude.{
  ℕ, Bool, true, false, ◌||◌, List, [], ◌∷◌, ◌++◌, map, Option, none, some, length, get_elem?, set,
  ◌==◌, if◌then◌else◌, Bytes, codes, bytes_eq,
}
use codis_client.Reply.{RedisReply, RedisReplies, redis_reply}
use codis_client.Run.{Run, M, ok, thrown, fault, exited, pure, undefined, ◌>>=◌, ◌>>◌}
use codis_client.Hiredis.{
  Hiredis, Ptr, null, State, get, put, redis_async_err, redis_async_command_argv,
}
use codis_client.ConnPool.{PoolM}
use codis_client.ConnPool.AsyncPool.{borrow_item_async, return_item_async, reconnect_async}
use codis_client.Client.{Client, ClientM, on_pool}

abbrev pub KvMap : Type 0
KvMap = List (Bytes × Bytes)

-- `MgetAsyncRequestContext`; its `client` is the one of the state, `callback` a number that stands for the
-- user's function, and `async_context` the position of a local variable.
pub record Request : Type 0 where
  pub user_keylist : List Bytes
  pub callback : ℕ
  pub async_context : ℕ

-- `none` stands for a request that was deleted, and for the variable of a call that has returned. `called`
-- lists the calls of the user's functions with what they were given.
pub record AsyncClient : Type 0 where
  pub client : Client
  pub requests : List (Option Request)
  pub locals : List (Option Ptr)
  pub called : List (ℕ × KvMap)

-- `kvmap.insert`: a key that is there keeps its value.
abbrev pub has_key : Bytes → KvMap → Bool
has_key key [] = false
has_key key ((k, v) ∷ kvs) = bytes_eq k key || has_key key kvs

abbrev pub insert : Bytes → Bytes → KvMap → KvMap
insert key value kvs = if has_key key kvs then kvs else kvs ++ (key, value) ∷ []

-- `string(element->str, element->len)`
abbrev pub text_of : RedisReply → Bytes
text_of (redis_reply type n str elements) = str

-- The loop of the callback; `none` where it reads beyond `user_keylist_`.
unfoldable pub collect : List Bytes → RedisReplies → KvMap → Option KvMap
collect keys RedisReplies.nil kvmap = some kvmap
collect [] (RedisReplies.cons r rs) kvmap = none
collect (key ∷ keys) (RedisReplies.cons r rs) kvmap = collect keys rs (insert key (text_of r) kvmap)

-- The arguments of the command.
abbrev pub mget2_key : Bytes → Bytes → Bytes
mget2_key bid key = if bytes_eq bid [] then key else bid ++ (codes "_" ++ key)

abbrev pub mget2_command : Bytes → List Bytes → List Bytes
mget2_command bid keys = codes "MGET" ∷ map (mget2_key bid) keys

module _ ⦃lib : Hiredis⦄ where
  abbrev pub AsyncM : Type 0 → Type 0
  AsyncM = M (State AsyncClient lib.World)

  abbrev pub with_client :
      {A : Type 0}
      → AsyncClient
      → Run (State Client lib.World) A
      → Run (State AsyncClient lib.World) A
  with_client a (ok x t) =
      ok x (record { object = record a { client = t.object }; world = t.world })
  with_client a (thrown t) =
      thrown (record { object = record a { client = t.object }; world = t.world })
  with_client a fault = fault
  with_client a exited = exited

  -- `m_ConnPool->…`
  abbrev pub on_conn_pool : {A : Type 0} → PoolM A → AsyncM A
  on_conn_pool m s =
      with_client s.object (on_pool m (record { object = s.object.client; world = s.world }))

  -- The beginning and the end of the life of `async_context`.
  abbrev pub new_local : Ptr → AsyncM ℕ
  new_local c = do
    a ← get
    put (record a { locals = a.locals ++ some c ∷ [] })
    pure (length a.locals)

  abbrev pub end_local : ℕ → AsyncM (Unit {0})
  end_local k = do a ← get; put (record a { locals = set a.locals k none })

  abbrev pub new_request : Request → AsyncM ℕ
  new_request rq = do
    a ← get
    put (record a { requests = a.requests ++ some rq ∷ [] })
    pure (length a.requests)

  -- `returnItemAsync`, and the end without a request on its way.
  abbrev pub give_back : Ptr → AsyncM Bool
  give_back c = do on_conn_pool (return_item_async c); pure false

  -- The second `redisAsyncCommandArgv`, after which the error text is read.
  abbrev pub second_request : Ptr → ℕ → List Bytes → Bool → AsyncM Bool
  second_request c id argv false = give_back c
  second_request c id argv true = do
    accepted ← redis_async_command_argv c id argv
    if accepted then pure true else do redis_async_err c; give_back c

  abbrev pub first_request : Ptr → ℕ → List Bytes → Bool → AsyncM Bool
  first_request c id argv true = pure true
  first_request c id argv false = do
    a ← get
    fine ← on_conn_pool (reconnect_async c a.client.loop)
    second_request c id argv fine

  -- From the test of `async_context` on, which is the local variable at `k`.
  unfoldable pub request : List Bytes → ℕ → List Bytes → Ptr → ℕ → AsyncM Bool
  request keys callback argv c k = if c == null then give_back c else do
    id ← new_request (record { user_keylist = keys; callback = callback; async_context = k })
    accepted ← redis_async_command_argv c id argv
    first_request c id argv accepted

  unfoldable pub mget2 : List Bytes → ℕ → AsyncM Bool
  unfolding request
  mget2 keys callback = do
    a ← get
    c ← on_conn_pool (borrow_item_async a.client.loop)
    k ← new_local c
    result ← request keys callback (mget2_command a.client.bid keys) c k
    end_local k
    pure result

  abbrev pub deref : Option (Option Ptr) → AsyncM Ptr
  deref none = undefined
  deref (some none) = undefined
  deref (some (some c)) = pure c

  abbrev pub call_back : ℕ → Option KvMap → AsyncM (Unit {0})
  call_back callback none = undefined
  call_back callback (some kvmap) = do
    a ← get
    put (record a { called = a.called ++ (callback, kvmap) ∷ [] })

  abbrev pub delete_request : ℕ → AsyncM (Unit {0})
  delete_request id = do a ← get; put (record a { requests = set a.requests id none })

  abbrev pub answered : ℕ → RedisReplies → Option (Option Request) → AsyncM (Unit {0})
  answered id rs none = undefined
  answered id rs (some none) = undefined
  answered id rs (some (some rq)) = do
    call_back rq.callback (collect rq.user_keylist rs [])
    a ← get
    c ← deref (get_elem? a.locals rq.async_context)
    on_conn_pool (return_item_async c)
    delete_request id

  -- `mget2Callback` for the reply `r`, which may be `NULL`, to the request at `id`.
  unfoldable pub mget2_callback : Option RedisReply → ℕ → AsyncM (Unit {0})
  unfolding collect
  mget2_callback none id = undefined
  mget2_callback (some (redis_reply type n str elements)) id = do
    a ← get
    answered id elements (get_elem? a.requests id)
