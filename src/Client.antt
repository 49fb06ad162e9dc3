-- ===== src/Client.antt =====
-- `CodisClient` of cpp/include/CodisClient.h and cpp/src/CodisClient.cpp: one proxy, the pool of the
-- connections to it, and how a command is sent. The methods for the single commands stand in the
-- children of `Methods`. Replies are freed once they have been copied; the log is left out.
pub mod Steps
pub mod Answers
pub mod Outcomes
use codis_client.Prelude.{
  ℕ, ◌+◌, ◌-◌, ◌%◌, ◌≡◌, Bool, true, false, List, [], ◌∷◌, ◌++◌, Option, none, some, length, ltb,
  ◌==◌, if◌then◌else◌, ℤ, pos, negsuc, quot, rem, times, Bytes, codes,
}
use codis_client.Reply.{RedisReply, Reply, empty_reply, set_error_message, of_redis}
use codis_client.Command.{Command}
use codis_client.KeyPrefix.{inner_command}
use codis_client.Run.{Run, M, ok, thrown, fault, exited, pure, ◌>>=◌, ◌>>◌}
use codis_client.Hiredis.{
  Hiredis, Ptr, null, TimeVal, State, get, put, redis_set_timeout, redis_command_argv,
}
use codis_client.ConnPool.{Pool, PoolM, new_pool, borrow_item, return_item, reconnect, delete_pool}

-- `readers` counts the holders of the read lock `p_rwlock`.
pub record Client : Type 0 where
  pub loop : ℕ
  pub conn_pool : Option Pool
  pub bid : Bytes
  pub readers : ℕ
  pub proxy_ip : Bytes
  pub proxy_port : Bytes

-- The low byte of an `int`.
abbrev pub to_char : ℤ → ℕ
to_char (pos n) = n % 256
to_char (negsuc n) = 255 - n % 256

-- The constructor; `none` where it ends the process because no thread could be made (`thread_made`).
-- The assignment of an `int` to the string `proxy_Port` leaves one character in it.
unfoldable pub new_client :
    Bytes → ℤ → Bytes → (loop garbage : ℕ) → (thread_made : Bool) → Option Client
new_client proxy_ip port business_id loop garbage thread_made =
    if thread_made
    then some (record {
      loop = loop;
      conn_pool = some (new_pool proxy_ip port [] true false 1 100 garbage);
      bid = business_id;
      readers = 0;
      proxy_ip = proxy_ip;
      proxy_port = to_char port ∷ [];
    })
    else none

-- `struct timeval tv = {tt / 1000, tt % 1000 * 1000}`
abbrev pub time_val : ℤ → TimeVal
time_val tt' = record { tv_sec = quot tt' 1000; tv_usec = times (rem tt' 1000) 1000 }

abbrev pub error_reply : Bytes → Reply
error_reply message = set_error_message message empty_reply

module _ ⦃lib : Hiredis⦄ where
  abbrev pub ClientM : Type 0 → Type 0
  ClientM = M (State Client lib.World)

  -- The state after a method of the client's pool.
  abbrev pub with_pool :
      {A : Type 0} → Client → Run (State Pool lib.World) A → Run (State Client lib.World) A
  with_pool c (ok a t) =
      ok a (record { object = record c { conn_pool = some t.object }; world = t.world })
  with_pool c (thrown t) =
      thrown (record { object = record c { conn_pool = some t.object }; world = t.world })
  with_pool c fault = fault
  with_pool c exited = exited

  abbrev pub on_pool_of : {A : Type 0} → Option Pool → PoolM A → ClientM A
  on_pool_of none m s = fault
  on_pool_of (some p) m s = with_pool s.object (m (record { object = p; world = s.world }))

  -- `m_ConnPool->…`
  abbrev pub on_pool : {A : Type 0} → PoolM A → ClientM A
  on_pool m s = on_pool_of s.object.conn_pool m s

  abbrev pub rdlock : ClientM (Unit {0})
  rdlock = do c ← get; put (record c { readers = c.readers + 1 })

  abbrev pub unlock : ClientM (Unit {0})
  unlock = do c ← get; put (record c { readers = c.readers - 1 })

  abbrev pub answer : Reply → ClientM Reply
  answer rep = do unlock; pure rep

  -- `returnItem`, the copy of the reply, and the end.
  unfoldable pub finish : Ptr → RedisReply → ClientM Reply
  finish redis r = do on_pool (return_item redis); answer (of_redis r)

  -- The reply to the second attempt.
  unfoldable pub second_reply : Ptr → Option RedisReply → ClientM Reply
  unfolding finish
  second_reply redis none = answer (error_reply (codes "Do Command faild."))
  second_reply redis (some r) = finish redis r

  -- After `Reconnect`: the second attempt goes through the same pointer.
  unfoldable pub retry : Ptr → List Bytes → TimeVal → Bool → ClientM Reply
  unfolding second_reply
  retry redis argv tv false = answer (error_reply (codes "reconnect faild!"))
  retry redis argv tv true = do
    redis_set_timeout redis tv
    r ← redis_command_argv redis argv
    second_reply redis r

  -- The reply to the first attempt.
  unfoldable pub first_reply : Ptr → List Bytes → TimeVal → Option RedisReply → ClientM Reply
  unfolding retry finish
  first_reply redis argv tv (some r) = finish redis r
  first_reply redis argv tv none = do fine ← on_pool (reconnect redis); retry redis argv tv fine

  -- With a connection from the pool.
  unfoldable pub attempt : List Bytes → TimeVal → Ptr → ClientM Reply
  unfolding first_reply
  attempt argv tv redis =
      if redis == null then answer (error_reply (codes "context is NULL !!")) else do
        redis_set_timeout redis tv
        r ← redis_command_argv redis argv
        first_reply redis argv tv r

  unfoldable pub send_to : Option Pool → List Bytes → TimeVal → ClientM Reply
  unfolding attempt
  send_to none argv tv = pure (error_reply (codes "Can not fetch client from pool!!!"))
  send_to (some _) argv tv = do rdlock; redis ← on_pool borrow_item; attempt argv tv redis

  -- What `RedisCommand` does with the arguments as they are sent.
  unfoldable pub send : List Bytes → ℤ → ClientM Reply
  unfolding send_to
  send argv tt' = do c ← get; send_to c.conn_pool argv (time_val tt')

  -- `RedisCommand(const vector<string>&, int)`
  unfoldable pub redis_command : List Bytes → ℤ → ClientM Reply
  unfolding send inner_command
  redis_command args tt' =
      if ltb (length args) 2
      then pure (error_reply (codes "Command length should gt 2"))
      else do c ← get; send (inner_command c.bid args) tt'

  -- `RedisCommand(Command&, int)`
  abbrev pub run_command : Command → ℤ → ClientM Reply
  run_command c tt' = redis_command c.args tt'

  unfoldable pub redis_commands : List Command → ClientM (List Reply)
  unfolding redis_command
  redis_commands [] = pure []
  redis_commands (c ∷ cs) = do
    rep ← run_command c (pos 0)
    rest ← redis_commands cs
    pure (rep ∷ rest)

  abbrev pub delete_pool_of : Option Pool → ClientM (Unit {0})
  delete_pool_of none = pure tt
  delete_pool_of (some _) = do on_pool delete_pool; c ← get; put (record c { conn_pool = none })

  -- The destructor, which no reader holds up.
  unfoldable pub delete_client : ClientM (Unit {0})
  delete_client = do c ← get; delete_pool_of c.conn_pool
