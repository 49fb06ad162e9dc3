-- ===== src/Examples/Requests.antt =====
-- The theorems about `mget2` at concrete states of a client.
use codis_client.Prelude.{
  ℕ, ◌≡◌, ◌≢◌, refl, ap, true, false, not, List, [], ◌∷◌, none, some, ◌==◌, pos, Bytes, codes,
  arith,
}
use codis_client.Reply.{RedisReply, RedisReplies, redis_reply, string_type, array_type}
use codis_client.Run.{ok, fault}
use codis_client.ConnPool.{Pool, new_pool}
use codis_client.ConnPool.AsyncPool.{borrow_item_async, borrow_loop_async}
use codis_client.AsyncMget.{Request, AsyncClient, mget2, request, mget2_callback}
use codis_client.AsyncMget.Dangling.{mget2_dangling}
use codis_client.AsyncMget.Failures.{with_async, mget2_unconnected}
use codis_client.AsyncMget.Answered.{mget2_callback_answered}
use codis_client.RoundRobin.{RoundRobin}
use codis_client.BfdCodis.Async.{AsyncBfd, async_client}
use codis_client.BfdCodis.Async
use codis_client.BfdCodis.Requests.{AsyncForwarded, mget2-AsyncForwarded}
use codis_client.Examples.{ToyWorld, toy}

abbrev a_pool : Pool
a_pool = record (new_pool (codes "db1") (pos 6379) [] true false 1 100 0) { used_async = 1 }

abbrev an_async_client : AsyncClient
an_async_client = record {
  client = record {
    loop = 5;
    conn_pool = some a_pool;
    bid = codes "shop";
    readers = 0;
    proxy_ip = codes "db1";
    proxy_port = 235 ∷ [];
  };
  requests = [];
  locals = [];
  called = [];
}

-- All contexts exist; `err` is `failed` in each of them.
abbrev all_live : ℕ → ToyWorld
all_live failed = record {
  alive = λ q. not (q == 4);
  failing = λ q. failed;
  spare = 4;
  reuses = false;
  replies = [];
}

abbrev x_and_y : List Bytes
x_and_y = codes "x" ∷ codes "y" ∷ []

abbrev a_request : Request
a_request = record { user_keylist = x_and_y; callback = 7; async_context = 0 }

a_request-sent :
    mget2 x_and_y 7 (with_async an_async_client a_pool (1 ∷ []) (all_live 0))
    ≡ ok true (
        with_async
          (record an_async_client { requests = some a_request ∷ []; locals = none ∷ [] })
          a_pool
          []
          (all_live 0))
unfolding mget2 request borrow_item_async borrow_loop_async
a_request-sent = refl

abbrev a_text : Bytes → RedisReply
a_text s = redis_reply string_type (pos 0) s RedisReplies.nil

mget2_dangling_example :
    mget2_callback (some (redis_reply array_type (pos 0) [] RedisReplies.nil)) 0 (
      with_async
        (record an_async_client { requests = some a_request ∷ []; locals = none ∷ [] })
        a_pool
        []
        (all_live 0))
    ≡ fault
mget2_dangling_example =
    mget2_dangling x_and_y 7 (with_async an_async_client a_pool (1 ∷ []) (all_live 0))
      (with_async (record an_async_client { requests = some a_request ∷ []; locals = none ∷ [] })
        a_pool [] (all_live 0))
      a_request-sent (some (redis_reply array_type (pos 0) [] RedisReplies.nil))

mget2_unconnected_example :
    let t =
      with_async
        (record an_async_client { locals = none ∷ [] })
        (record a_pool { used_async = 0 })
        (0 ∷ [])
        (toy.async_connect (codes "db1") (pos 6379) (all_live 1)).1 in
    (mget2 x_and_y 7 (with_async an_async_client a_pool [] (all_live 1)) ≡ ok false t)
    × (mget2 x_and_y 8 t ≡ fault)
mget2_unconnected_example =
    mget2_unconnected x_and_y x_and_y 7 8 an_async_client a_pool (all_live 1)
      (toy.async_connect (codes "db1") (pos 6379) (all_live 1)).1 4 refl (λ e. omega arith) refl
      (λ e. omega arith) refl

abbrev head_byte : Bytes → ℕ
head_byte [] = 0
head_byte (b ∷ bs) = b

y_ne_x : codes "y" ≢ codes "x"
y_ne_x e = let h : head_byte (121 ∷ []) ≡ head_byte (120 ∷ []) = ap head_byte e in omega arith

mget2_callback_answered_example :
    mget2_callback
      (some (
        redis_reply array_type (pos 0) [] (
          RedisReplies.cons
            (a_text (codes "1"))
            (RedisReplies.cons (a_text (codes "2")) RedisReplies.nil))))
      0
      (with_async
        (record an_async_client { requests = some a_request ∷ []; locals = some 1 ∷ [] })
        a_pool
        (2 ∷ [])
        (all_live 0))
    ≡ ok tt (
        with_async
          (record an_async_client {
            requests = none ∷ [];
            locals = some 1 ∷ [];
            called = (7, (codes "x", codes "1") ∷ (codes "y", codes "2") ∷ []) ∷ [];
          })
          (record a_pool { used_async = 0 })
          (2 ∷ 1 ∷ [])
          (all_live 0))
mget2_callback_answered_example =
    mget2_callback_answered 0 a_request 1
      ((codes "x", a_text (codes "1")) ∷ (codes "y", a_text (codes "2")) ∷ []) array_type (pos 0) []
      (record an_async_client { requests = some a_request ∷ []; locals = some 1 ∷ [] }) a_pool
      (2 ∷ []) (all_live 0) refl refl refl ((y_ne_x, tt), (tt, tt))

abbrev robin : RoundRobin
robin = record {
  proxys = 1 ∷ 2 ∷ [];
  proxy_index = pos 0;
  proxy_infos = [];
  zh = 9;
  zookeeper_addr = codes "zk1:2181";
  proxy_path = codes "/zk/codis/db_test/proxy";
  business_id = codes "shop";
}

-- Two clients in turn: the second one is the next.
abbrev two_clients : AsyncBfd
two_clients = record {
  bfd = record { clients = none ∷ none ∷ some an_async_client.client ∷ []; pool = some robin };
  requests = [];
  locals = [];
  called = [];
}

mget2-AsyncForwarded_example :
    AsyncForwarded two_clients.bfd.clients
      (record robin { proxy_index = pos 1 })
      2
      (mget2 x_and_y 7
        (record { object = async_client two_clients an_async_client.client; world = all_live 0 }))
      (Async.mget2 x_and_y 7 (record { object = two_clients; world = all_live 0 }))
mget2-AsyncForwarded_example =
    mget2-AsyncForwarded x_and_y 7 1 two_clients robin (all_live 0) 2 an_async_client.client refl
      refl (omega arith) refl refl
