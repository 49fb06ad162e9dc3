-- ===== src/Session.antt =====
-- The life of a `RoundRobinCodisPool` (cpp/src/RoundRobinCodisPool.cpp): its session with ZooKeeper, the
-- clients that it makes and deletes, and what it does when ZooKeeper calls its watcher. The state is
-- that of the `BfdCodis` that owns it (cpp/src/BfdCodis.cpp), with the memory of all clients. `malloc`
-- and `new` never fail; the log is left out.
pub mod Memory
pub mod Deletion
pub mod Creation
pub mod Installation
pub mod Reading
pub mod Watching
pub mod Calls
pub mod Steps
pub mod Startup
use codis_client.Prelude.{
  ℕ, zero, suc, ◌+◌, Bool, true, false, ◌&&◌, List, [], ◌∷◌, ◌++◌, map, Option, none, some, length,
  set, ◌==◌, if◌then◌else◌, ℤ, pos, negsuc, int_eq, Bytes, codes,
}
use codis_client.Run.{Run, M, ok, thrown, fault, exited, pure, undefined, exit, ◌>>=◌, ◌>>◌}
use codis_client.Hiredis.{Hiredis, Ptr, null, State, get, put}
use codis_client.Environment.{Environment}
use codis_client.Client.{Client, new_client, delete_client}
use codis_client.RoundRobin.{RoundRobin, Json, node_info, push}
use codis_client.BfdCodis.{Bfd, BfdM, on_client}

-- `zoo_get` writes over the beginning of the buffer.
unfoldable pub overwrite : Bytes → Bytes → Bytes
overwrite [] buffer = buffer
overwrite (b ∷ bs) [] = []
overwrite (b ∷ bs) (x ∷ buffer) = b ∷ overwrite bs buffer

-- `string return_str = buffer`: the bytes up to the first zero, if there is one in the buffer.
abbrev prepend : ℕ → Option Bytes → Option Bytes
prepend b none = none
prepend b (some s) = some (b ∷ s)

unfoldable pub c_string : Bytes → Option Bytes
c_string [] = none
c_string (b ∷ bs) = if b == 0 then some [] else prepend b (c_string bs)

-- The object under construction.
abbrev pub blank : Bytes → Bytes → Bytes → RoundRobin
blank zookeeper_addr proxy_path business_id = record {
  proxys = [];
  proxy_index = negsuc 0;
  proxy_infos = [];
  zh = null;
  zookeeper_addr = zookeeper_addr;
  proxy_path = proxy_path;
  business_id = business_id;
}

module _ ⦃lib : Hiredis⦄ ⦃env : Environment⦄ where
  abbrev pub Outside : Type 0
  Outside = lib.World × env.World

  abbrev pub SessionM : Type 0 → Type 0
  SessionM = M (State Bfd Outside)

  abbrev pub beside :
      {A : Type 0} → env.World → Run (State Bfd lib.World) A → Run (State Bfd Outside) A
  beside v (ok a t) = ok a (record { object = t.object; world = (t.world, v) })
  beside v (thrown t) = thrown (record { object = t.object; world = (t.world, v) })
  beside v fault = fault
  beside v exited = exited

  -- Code that does not use the environment.
  abbrev pub inside : {A : Type 0} → BfdM A → SessionM A
  inside m s = beside s.world.1 (m (record { object = s.object; world = s.world.0 }))

  -- A call of the environment.
  abbrev pub call : {A : Type 0} → (env.World → A × env.World) → SessionM A
  call f s = let r = f s.world.1 in ok r.0 (record s { world = (s.world.0, r.1) })

  abbrev pub run : (env.World → env.World) → SessionM (Unit {0})
  run f s = ok tt (record s { world = (s.world.0, f s.world.1) })

  abbrev pub robin_of : Option RoundRobin → SessionM RoundRobin
  robin_of none = undefined
  robin_of (some r) = pure r

  abbrev pub robin : SessionM RoundRobin
  robin = do b ← get; robin_of b.pool

  abbrev pub put_robin : RoundRobin → SessionM (Unit {0})
  put_robin r = do b ← get; put (record b { pool = some r })

  abbrev pub set_client : Ptr → Option Client → SessionM (Unit {0})
  set_client c o = do b ← get; put (record b { clients = set b.clients c o })

  abbrev pub string_of : Option Bytes → SessionM Bytes
  string_of none = undefined
  string_of (some s) = pure s

  -- The second `zoo_get` of `ZkGet`, into a buffer with that content.
  abbrev pub read_node : Bytes → Option (Bytes × ℕ) → SessionM Bytes
  read_node buffer none = pure []
  read_node buffer (some (data', n)) = string_of (c_string (overwrite data' buffer))

  abbrev pub read_sized : Ptr → Bytes → Bool → Option (Bytes × ℕ) → SessionM Bytes
  read_sized zh path watch none = pure []
  read_sized zh path watch (some (_, n)) = do
    buffer ← call (env.malloc (n + 1))
    got ← call (env.get zh path watch (n + 1))
    read_node buffer got

  -- `ZkGet`
  unfoldable pub zk_get : Ptr → Bytes → Bool → SessionM Bytes
  unfolding overwrite c_string
  zk_get zh path watch = do stat ← call (env.get zh path false 0); read_sized zh path watch stat

  -- `new CodisClient(…)`, at the end of the memory.
  abbrev pub add_client : Option Client → SessionM Ptr
  add_client none = exit
  add_client (some o) = do
    b ← get
    put (record b { clients = b.clients ++ some o ∷ [] })
    pure (length b.clients)

  unfoldable pub new_proxy : Bytes → Bytes × ℤ → SessionM Ptr
  unfolding new_client
  new_proxy business_id (address, port) = do
    garbage ← call env.uninitialised
    loop ← call (env.create_event_loop 64)
    made ← call env.create_thread
    add_client (new_client address port business_id loop garbage made)

  -- The first loop of `InitProxyConns`.
  unfoldable pub new_proxies : Bytes → List (Bytes × ℤ) → SessionM (List Ptr)
  unfolding new_proxy
  new_proxies business_id [] = pure []
  new_proxies business_id (info ∷ infos) = do
    c ← new_proxy business_id info
    cs ← new_proxies business_id infos
    pure (c ∷ cs)

  -- `delete` of a client, and the end of its memory.
  unfoldable pub delete_proxy : Ptr → SessionM (Unit {0})
  unfolding delete_client
  delete_proxy c =
      if c == null then pure tt else do inside (on_client c delete_client); set_client c none

  -- The last loop of `InitProxyConns`, and that of the destructor.
  unfoldable pub delete_proxies : List Ptr → SessionM (Unit {0})
  unfolding delete_proxy
  delete_proxies [] = pure tt
  delete_proxies (c ∷ cs) = do delete_proxy c; delete_proxies cs

  unfoldable pub init_proxy_conns : List (Bytes × ℤ) → SessionM (Unit {0})
  unfolding new_proxies delete_proxies
  init_proxy_conns infos = do
    r ← robin
    proxys ← new_proxies r.business_id infos
    put_robin (record r { proxys = proxys; proxy_infos = infos })
    delete_proxies r.proxys

  -- The destructor.
  unfoldable pub delete_round_robin : SessionM (Unit {0})
  unfolding delete_proxies
  delete_round_robin = do
    r ← robin
    delete_proxies r.proxys
    put_robin (record r { proxys = map (λ _. null) r.proxys })

  -- `while (zoo_state(zh) != ZOO_CONNECTED_STATE && cnt < 10000)`: the rounds that are left at the end.
  unfoldable pub wait_connected : ℕ → Ptr → SessionM ℕ
  wait_connected zero zh = do call (env.state zh); pure zero
  wait_connected (suc n) zh = do
    st ← call (env.state zh)
    if int_eq st env.connected_state
        then pure (suc n)
        else do run (env.usleep 30000); wait_connected n zh

module _ ⦃lib : Hiredis⦄ ⦃env : Environment⦄ ⦃json : Json⦄ where
  -- The loop of `GetProxyInfos` over the children.
  unfoldable pub read_nodes :
      Ptr → Bytes → List Bytes → List (Bytes × ℤ) → SessionM (List (Bytes × ℤ))
  unfolding zk_get node_info
  read_nodes zh proxy_path [] proxys = pure proxys
  read_nodes zh proxy_path (name ∷ names) proxys = do
    node_data ← zk_get zh (proxy_path ++ (codes "/" ++ name)) true
    infos ← push (node_info node_data) proxys
    read_nodes zh proxy_path names infos

  abbrev pub read_children : Ptr → Bytes → Option (List Bytes) → SessionM (List (Bytes × ℤ))
  read_children zh proxy_path none = exit
  read_children zh proxy_path (some names) = read_nodes zh proxy_path names []

  unfoldable pub get_proxy_infos : Ptr → Bytes → SessionM (List (Bytes × ℤ))
  unfolding read_nodes
  get_proxy_infos zh proxy_path = do
    strings ← call (env.get_children zh proxy_path true)
    read_children zh proxy_path strings

  unfoldable pub init : SessionM (Unit {0})
  unfolding get_proxy_infos init_proxy_conns
  init = do
    r ← robin
    proxy_infos ← get_proxy_infos r.zh r.proxy_path
    if length proxy_infos == 0 then exit else init_proxy_conns proxy_infos

  -- What the constructor and the watcher do alike: a new session, and the proxies that it finds.
  unfoldable pub connect : SessionM (Unit {0})
  unfolding wait_connected init
  connect = do
    r ← robin
    zh ← call (env.init r.zookeeper_addr 10000)
    put_robin (record r { zh = zh })
    left ← wait_connected 10000 zh
    if left == 0 then exit else init

  -- The constructor, and that of `BfdCodis`.
  unfoldable pub new_round_robin : Bytes → Bytes → Bytes → SessionM (Unit {0})
  new_round_robin zookeeper_addr proxy_path business_id = do
    put_robin (blank zookeeper_addr proxy_path business_id)
    connect

  abbrev pub reconnect_session : SessionM (Unit {0})
  reconnect_session = do r ← robin; run (env.close r.zh); connect

  -- `proxy_watcher`, for an event of that type in that state of the session.
  unfoldable pub proxy_watcher : ℤ → ℤ → SessionM (Unit {0})
  proxy_watcher type state =
      if int_eq type env.session_event && int_eq state env.connecting_state
      then reconnect_session
      else if int_eq type env.session_event && int_eq state env.expired_session_state
      then reconnect_session
      else if int_eq type env.session_event && int_eq state env.connected_state
      then pure tt
      else if int_eq state env.connected_state && int_eq type env.child_event
      then (run (env.sleep 5) >> init)
      else pure tt
