-- ===== src/RoundRobin.antt =====
-- `RoundRobinCodisPool` of cpp/include/RoundRobinCodisPool.h and cpp/src/RoundRobinCodisPool.cpp: the
-- clients of the proxies that are online, used in turn. JsonCpp is a parameter, and so is what
-- ZooKeeper holds; Session.antt is about the session with ZooKeeper.
pub mod Turns
pub mod Handing
pub mod Addresses
use codis_client.Prelude.{
  ℕ, zero, suc, ◌+◌, ◌-◌, ◌%◌, ◌^◌, Bool, true, false, not, List, [], ◌∷◌, ◌++◌, map, Option, none,
  some, length, get_elem?, set, ltb, ◌==◌, if◌then◌else◌, ℤ, pos, negsuc, Bytes, codes, bytes_eq,
}
use codis_client.Utils.{split, string2int}
use codis_client.Run.{Run, M, ok, thrown, fault, pure, undefined, throw, ◌>>=◌, ◌>>◌}
use codis_client.Hiredis.{Hiredis, Ptr, State, get, put}
use codis_client.Client.{Client, new_client, delete_client}

-- `proxys` holds the addresses of clients; `proxy_index` is an `int`.
pub record RoundRobin : Type 0 where
  pub proxys : List Ptr
  pub proxy_index : ℤ
  pub proxy_infos : List (Bytes × ℤ)
  pub zh : Ptr
  pub zookeeper_addr : Bytes
  pub proxy_path : Bytes
  pub business_id : Bytes

-- `++i` on an `int`: undefined at the largest one.
abbrev pub next_int : ℤ → Option ℤ
next_int (pos n) = if ltb (suc n) (2 ^ 31) then some (pos (suc n)) else none
next_int (negsuc zero) = some (pos 0)
next_int (negsuc (suc n)) = some (negsuc n)

-- An `int` as a `size_t`.
abbrev pub to_size : ℤ → ℕ
to_size (pos n) = n
to_size (negsuc n) = 2 ^ 64 - 1 - n

abbrev pub at_index : {W : Type 0} → Option Ptr → M (State RoundRobin W) Ptr
at_index none = undefined
at_index (some c) = pure c

abbrev pub at_position : {W : Type 0} → List Ptr → ℤ → M (State RoundRobin W) Ptr
at_position proxys i =
    if length proxys == 0
    then undefined
    else at_index (get_elem? proxys (to_size i % length proxys))

abbrev pub pick : {W : Type 0} → Option ℤ → M (State RoundRobin W) Ptr
pick none = undefined
pick (some i) = do r ← get; put (record r { proxy_index = i }); at_position r.proxys i

-- `GetProxy`: `++proxyIndex % m_Proxys.size()`, undefined for no proxies.
unfoldable pub get_proxy : {W : Type 0} → M (State RoundRobin W) Ptr
get_proxy = do r ← get; pick (next_int r.proxy_index)

-- The host and the port of an address, where it has both.
abbrev pub host_port : List Bytes → Option (Bytes × ℤ)
host_port [] = none
host_port (ip ∷ []) = none
host_port (ip ∷ port ∷ rest) = some (ip, string2int port)

-- JsonCpp: the value that a text parses to, whether it is an object or null, and the member of such a value by that
-- name, if it is a string. On any other value `isMember` throws.
pub record Json : Type 1 where
  pub Value : Type 0
  pub parse : Bytes → Option Value
  pub has_members : Value → Bool
  pub string_member : Value → Bytes → Option Bytes

-- What one round of `GetProxyInfos` makes of the data of a node.
pub data NodeInfo : Type 0 where
  online : Bytes × ℤ → NodeInfo
  passed_over : NodeInfo
  no_object : NodeInfo

abbrev pub online_at : Option (Bytes × ℤ) → NodeInfo
online_at none = NodeInfo.passed_over
online_at (some info) = NodeInfo.online info

module _ ⦃json : Json⦄ where
  abbrev addr_info : Option Bytes → NodeInfo
  addr_info none = NodeInfo.passed_over
  addr_info (some ipport) = online_at (host_port (split ipport b':'))

  abbrev state_info : json.Value → Option Bytes → NodeInfo
  state_info v none = NodeInfo.passed_over
  state_info v (some state) =
      if bytes_eq state (codes "online")
      then addr_info (json.string_member v (codes "addr"))
      else NodeInfo.passed_over

  abbrev value_info : Option json.Value → NodeInfo
  value_info none = NodeInfo.passed_over
  value_info (some v) =
      if json.has_members v
      then state_info v (json.string_member v (codes "state"))
      else NodeInfo.no_object

  unfoldable pub node_info : Bytes → NodeInfo
  node_info node_data = value_info (json.parse node_data)

-- What the round does with it.
abbrev pub push : {S : Type 0} → NodeInfo → List (Bytes × ℤ) → M S (List (Bytes × ℤ))
push (NodeInfo.online info) proxys = pure (proxys ++ info ∷ [])
push NodeInfo.passed_over proxys = pure proxys
push NodeInfo.no_object proxys = throw
