-- ===== src/Examples/Data.antt =====
-- The theorems about texts, commands, replies and proxies at concrete inputs.
use codis_client.Prelude.{
  ◌++◌, ◌+◌, own, program, length, ◌<◌, ◌^◌, ℕ, ◌≡◌, ◌⊎◌, refl, inl, inr, true, false, not, List,
  [], ◌∷◌, map, Option, none, some, arith, if◌then◌else◌, pos, negsuc, Bytes, codes, bytes_eq,
}
use codis_client.Utils.{int2string, string2int, split}
use codis_client.Utils.Numbers.{string2int-int2string}
use codis_client.Reply.{
  RedisReply, RedisReplies, Reply, Replies, reply, redis_reply, string_type, array_type,
  integer_type, of_redis, error,
}
use codis_client.Reply.Copy.{encode, encode-of_redis}
use codis_client.KeyPrefix.{inner_command}
use codis_client.KeyPrefix.Wire.{with_bid, map_alternate, inner_command-map_keys}
use codis_client.KeyPrefix.Isolation.{with_bid-injective}
use codis_client.ConnPool.{new_pool, get_id}
use codis_client.Run.{thrown, pure, and_then, Returns}
use codis_client.Hiredis.{State}
use codis_client.RoundRobin.{RoundRobin, Json, host_port}
use codis_client.RoundRobin.Handing.{Handing, proxy_section, Given, interleave-HandedOut}
use codis_client.ScopedLock.{interleave, start}
use codis_client.ScopedLock.Whole.{finished, Left}
use codis_client.RoundRobin.Addresses.{host_port-get_id}
use codis_client.Methods.Strings.{mset}
use codis_client.Methods.Requests.{flat, any_too_big, values_of, on_keys, mset-cases}
use codis_client.Client.{Client, send}
use codis_client.BfdCodis.{Bfd, forward}
use codis_client.BfdCodis.Forwarding.{Forwarded, forward-Forwarded}
use codis_client.Methods.Strings
use codis_client.Examples.{ToyWorld, toy}

inner_command-map_keys_example :
    inner_command (codes "shop") (codes "MSET" ∷ codes "a" ∷ codes "1" ∷ codes "b" ∷ codes "2" ∷ [])
    ≡ codes "MSET" ∷ codes "shop_a" ∷ codes "1" ∷ codes "shop_b" ∷ codes "2" ∷ []
unfolding bytes_eq map_alternate
inner_command-map_keys_example =
    inner_command-map_keys (codes "shop") (codes "MSET")
      (codes "a" ∷ codes "1" ∷ codes "b" ∷ codes "2" ∷ [])

with_bid-injective_example : (codes "shop" ≡ codes "shop") × (codes "a_b" ≡ codes "a_b")
with_bid-injective_example =
    with_bid-injective (codes "shop") (codes "shop") (codes "a_b") (codes "a_b")
      (omega arith, (omega arith, (omega arith, (omega arith, tt))))
      (omega arith, (omega arith, (omega arith, (omega arith, tt)))) (λ e. cc) (λ e. cc) refl

string2int-int2string_example : string2int (int2string (negsuc 41)) ≡ negsuc 41
string2int-int2string_example = string2int-int2string (negsuc 41) (omega arith)

-- An array of a text and a number.
abbrev two_elements : RedisReply
two_elements = redis_reply array_type (pos 0) [] (
    RedisReplies.cons (redis_reply string_type (pos 0) (codes "x") RedisReplies.nil)
      (RedisReplies.cons (redis_reply integer_type (pos 7) [] RedisReplies.nil) RedisReplies.nil))

encode-of_redis_example : encode (of_redis two_elements) ≡ two_elements
encode-of_redis_example = encode-of_redis two_elements (
  inr (inr (inr (inr (inl (refl, refl, refl))))),
  ((inl (refl, refl, refl), tt), ((inr (inr (inr (inl (refl, refl, refl)))), tt), tt)),
)

host_port-get_id_example :
    host_port (split (get_id (new_pool (codes "db1") (pos 6379) [] true false 1 100 0)) b':')
    ≡ some (codes "db1", pos 6379)
host_port-get_id_example =
    host_port-get_id (new_pool (codes "db1") (pos 6379) [] true false 1 100 0)
      (omega arith, (omega arith, (omega arith, tt))) (omega arith)

-- Every text but the empty one stands for an object that is online at that address.
abbrev toy_parse : Bytes → Option Bytes
toy_parse [] = none
toy_parse (c ∷ s) = some (c ∷ s)

instance abbrev pub toy_json : Json
toy_json = record {
  Value = Bytes;
  parse = toy_parse;
  has_members = λ v. true;
  string_member = λ v name. if bytes_eq name (codes "state") then some (codes "online") else some v;
}

abbrev three_proxies : RoundRobin
three_proxies = record {
  proxys = 4 ∷ 5 ∷ 6 ∷ [];
  proxy_index = negsuc 0;
  proxy_infos = [];
  zh = 9;
  zookeeper_addr = codes "zk1:2181";
  proxy_path = codes "/zk/codis/db_test/proxy";
  business_id = codes "shop";
}

abbrev handing : Handing
handing = record { robin = three_proxies; index = pos 0; given = [] }

-- The calls 10 and 11 of one thread and 20 of another one, which tries to begin while the first one is in its call.
abbrev three_calls : List (List ℕ)
three_calls = (10 ∷ 11 ∷ []) ∷ (20 ∷ []) ∷ []

abbrev mixed : List ℕ
mixed = 0 ∷ 0 ∷ 1 ∷ 0 ∷ 0 ∷ 1 ∷ 1 ∷ 0 ∷ 1 ∷ 1 ∷ 0 ∷ []

interleave-HandedOut_example :
    let run = interleave mixed (start (map (map proxy_section) three_calls) handing) in
    (h : List (ℕ × ℕ)) × ((2 ^ 31 < 0 + length h)
      ⊎ Returns (λ _ t. Given handing 0 h t) (finished run))
    × ((i : ℕ)
        → (rest : List ℕ) × (own i h ++ rest ≡ program three_calls i)
          × Left run i (map proxy_section rest))
interleave-HandedOut_example = interleave-HandedOut mixed three_calls 0 handing refl (omega arith)

abbrev text : Bytes → Reply
text s = reply false string_type s (pos 0) Replies.nil

-- A client that has no connection yet, in a world where none can be made.
abbrev idle_client : State Client ToyWorld
idle_client = record {
  object = record {
    loop = 3;
    conn_pool = some (new_pool (codes "10.0.0.1") (pos 19000) [] true false 1 100 0);
    bid = codes "shop";
    readers = 0;
    proxy_ip = codes "10.0.0.1";
    proxy_port = codes "8";
  };
  world = record { alive = λ q. false; failing = λ q. 0; spare = 0; reuses = true; replies = [] };
}

mset-cases_example :
    let kvs : List (Bytes × Bytes) = (codes "a", codes "1") ∷ (codes "b", codes "2") ∷ [] in
    ((any_too_big (values_of kvs) ≡ true) × (mset kvs (pos 500) idle_client ≡ thrown idle_client))
    ⊎ ((any_too_big (values_of kvs) ≡ false)
        × (mset kvs (pos 500) idle_client
            ≡ and_then
                (send
                  (codes "MSET" ∷ flat (on_keys (with_bid (codes "shop")) kvs))
                  (pos 500)
                  idle_client)
                (λ rep. pure (not (error rep)))))
mset-cases_example =
    mset-cases (codes "a") (codes "1") ((codes "b", codes "2") ∷ []) (pos 500) idle_client

-- The memory with that client at address 5.
abbrev one_client : Bfd
one_client = record {
  clients = none ∷ none ∷ none ∷ none ∷ none ∷ some idle_client.object ∷ [];
  pool = some (record three_proxies { proxy_index = pos 0 });
}

forward-Forwarded_example :
    Forwarded one_client.clients
      (record three_proxies { proxy_index = pos 1 })
      5
      (Strings.get (codes "x") (pos 500) idle_client)
      (forward
        (Strings.get (codes "x") (pos 500))
        (record { object = one_client; world = idle_client.world }))
forward-Forwarded_example =
    forward-Forwarded (Strings.get (codes "x") (pos 500)) 1 one_client
      (record three_proxies { proxy_index = pos 0 }) idle_client.world 5 idle_client.object refl
      refl (omega arith) refl refl
