-- ===== src/Examples/Witnesses.antt =====
-- The theorems about connections at concrete states of a client with one proxy.
use mathlib.Core.List.{Mem, Nodup-cons, Nodup-nil, not-mem-nil, mem-singleton, forall_mem-cons}
use codis_client.Prelude.{
  ℕ, ◌-◌, ◌^◌, ◌≡◌, ◌≢◌, refl, Bool, true, false, ◌||◌, List, [], ◌∷◌, Option, none, some, arith,
  ◌==◌, if◌then◌else◌, pos, Bytes, codes, bytes_eq,
}
use codis_client.Reply.{RedisReply, RedisReplies, redis_reply, status_type, of_redis}
use codis_client.Run.{ok, fault, Returns}
use codis_client.Hiredis.{Ptr, State}
use codis_client.ConnPool.{Pool, new_pool, borrow_item, reconnect}
use codis_client.ConnPool.Ownership.{Holds, Lent, borrow_item-Lent}
use codis_client.ConnPool.Reconnect.{Reconnected, reconnect-Reconnected}
use codis_client.ConnPool.Reuse.{free_all, use_repeatedly, use_repeatedly_counter}
use codis_client.Client.{Client, redis_command}
use codis_client.Client.Steps.{Settled}
use codis_client.Client.Outcomes.{ReturnsOr, Moves, redis_command-ReturnsOrMoves}
use codis_client.Client.Answers.{with_conn_pool, redis_command_answered, redis_command_dangling}
use codis_client.KeyPrefix.{inner_command}
use codis_client.Client.{time_val}
use codis_client.Utils.{int2string}
use codis_client.Reply.{integer}
use codis_client.Methods.{is_ok, is_one, is_nonzero, int_of, str_or_empty}
use codis_client.Methods.SizeLimit.{Limits, stores-Limits}
use codis_client.Methods.Strings
use codis_client.Methods.Lists
use codis_client.Methods.Hashes
use codis_client.Examples.{ToyWorld, toy, toy_laws}

-- The contexts 1 and 2 exist, and the last operation on the first one failed.
abbrev two_contexts : List (Option RedisReply) → ToyWorld
two_contexts replies = record {
  alive = λ q. (q == 1) || (q == 2);
  failing = λ q. if q == 1 then 1 else 0;
  spare = 7;
  reuses = false;
  replies = replies;
}

abbrev with_unused : List Ptr → Pool
with_unused cs = record (new_pool (codes "10.0.0.1") (pos 19000) [] true false 1 100 0) {
  unused = cs;
}

abbrev some_pool : List Ptr → List (Option RedisReply) → State Pool ToyWorld
some_pool cs replies = record { object = with_unused cs; world = two_contexts replies }

abbrev some_client : List Ptr → List (Option RedisReply) → State Client ToyWorld
some_client cs replies = record {
  object = record {
    loop = 3;
    conn_pool = some (with_unused cs);
    bid = codes "shop";
    readers = 0;
    proxy_ip = codes "10.0.0.1";
    proxy_port = codes "8";
  };
  world = two_contexts replies;
}

abbrev done : RedisReply
done = redis_reply status_type (pos 0) (codes "OK") RedisReplies.nil

abbrev set_x : List Bytes
set_x = codes "SET" ∷ codes "x" ∷ codes "1" ∷ []

bool_set : IsSet Bool
bool_set = hlevel

nat_set : IsSet ℕ
nat_set = hlevel

one_two-Holds : (replies : List (Option RedisReply)) → Holds (two_contexts replies) (1 ∷ 2 ∷ [])
one_two-Holds replies =
    let other : (q : Ptr) → Mem q (2 ∷ []) → q ≢ 1 =
      λ q m e. ground (arith, (mem-singleton nat_set).0 m) in
    (
      Nodup-cons.1 (λ m. other 1 m refl, Nodup-cons.1 (not-mem-nil, Nodup-nil)),
      (forall_mem-cons (λ q. bool_set _ _)).1 (refl, λ q m. rw ((mem-singleton nat_set).0 m) refl),
    )

some_client-Settled :
    (replies : List (Option RedisReply)) → Settled [] 0 (some_client (1 ∷ 2 ∷ []) replies)
some_client-Settled replies = (with_unused (1 ∷ 2 ∷ []), refl, (one_two-Holds replies, refl), refl)

redis_command-ReturnsOrMoves_example :
    ReturnsOr
      (Moves
        (codes "SET" ∷ codes "shop_x" ∷ codes "1" ∷ [])
        (time_val (pos 500))
        (some_client (1 ∷ 2 ∷ []) (none ∷ some done ∷ [])))
      (λ _. Settled [] 0)
      (redis_command set_x (pos 500) (some_client (1 ∷ 2 ∷ []) (none ∷ some done ∷ [])))
unfolding inner_command bytes_eq
redis_command-ReturnsOrMoves_example =
    redis_command-ReturnsOrMoves toy_laws [] 0 set_x (pos 500)
      (some_client (1 ∷ 2 ∷ []) (none ∷ some done ∷ []))
      (some_client-Settled (none ∷ some done ∷ []))

redis_command_answered_example :
    redis_command set_x (pos 500) (some_client (1 ∷ 2 ∷ []) (some done ∷ []))
    ≡ ok (of_redis done) (
        with_conn_pool
          (some_client [] [])
          (record (with_unused (2 ∷ [])) { used = 2 ^ 64 - 1 })
          (free_all (1 ∷ []) (two_contexts [])))
unfolding free_all
redis_command_answered_example =
    redis_command_answered toy_laws set_x (pos 500) (1 ∷ []) 2 [] (with_unused (1 ∷ 2 ∷ []))
      (some_client (1 ∷ 2 ∷ []) (some done ∷ [])) refl refl ((omega arith, tt), (tt, tt))
      ((refl, omega arith), tt) (refl, refl) (omega arith) done
      (free_all (1 ∷ []) (two_contexts [])) refl

redis_command_dangling_example :
    redis_command set_x (pos 500) (some_client (1 ∷ 2 ∷ []) (none ∷ some done ∷ [])) ≡ fault
unfolding free_all
redis_command_dangling_example =
    redis_command_dangling toy_laws set_x (pos 500) (1 ∷ []) 2 [] (with_unused (1 ∷ 2 ∷ []))
      (some_client (1 ∷ 2 ∷ []) (none ∷ some done ∷ [])) refl refl ((omega arith, tt), (tt, tt))
      ((refl, omega arith), tt) (refl, refl) (omega arith) refl (omega arith) (omega arith) refl

borrow_item-Lent_example : Returns (Lent (2 ∷ [])) (borrow_item (some_pool (1 ∷ []) []))
borrow_item-Lent_example =
    borrow_item-Lent toy_laws (2 ∷ []) (some_pool (1 ∷ []) []) (one_two-Holds [], refl)

reconnect-Reconnected_example : Returns (Reconnected (2 ∷ []) 1 7) (reconnect 1 (some_pool [] []))
reconnect-Reconnected_example =
    reconnect-Reconnected toy_laws (2 ∷ []) 1 (some_pool [] []) (one_two-Holds [], refl)
      (omega arith)

use_repeatedly_counter_example :
    use_repeatedly 3 (some_pool (2 ∷ []) [])
    ≡ ok tt (record {
      object = record (with_unused (2 ∷ [])) { used = 2 ^ 64 - 3 };
      world = two_contexts [];
    })
use_repeatedly_counter_example =
    use_repeatedly_counter toy_laws 3 2 (some_pool (2 ∷ []) []) refl (refl, refl) (omega arith)

stores-Limits_example :
    let s = some_client (1 ∷ 2 ∷ []) (some done ∷ []) in
    let x = codes "x" in
    let one = codes "1" in
    let tt' = pos 500 in
    Limits (codes "SET" ∷ x ∷ one ∷ []) one tt' is_ok s (Strings.set x one tt' s)
    × Limits (codes "SETNX" ∷ x ∷ one ∷ []) one tt' is_one s (Strings.setnx x one tt' s)
    × Limits
        (codes "SETEX" ∷ x ∷ codes "60" ∷ one ∷ [])
        one
        tt'
        is_ok
        s
        (Strings.setex x one (pos 60) tt' s)
    × Limits (codes "GETSET" ∷ x ∷ one ∷ []) one tt' str_or_empty s (Strings.getset x one tt' s)
    × Limits (codes "APPEND" ∷ x ∷ one ∷ []) one tt' integer s (Strings.append x one tt' s)
    × Limits (codes "LPUSH" ∷ x ∷ one ∷ []) one tt' int_of s (Lists.lpush x one tt' s)
    × Limits (codes "RPUSH" ∷ x ∷ one ∷ []) one tt' int_of s (Lists.rpush x one tt' s)
    × Limits
        (codes "LSET" ∷ x ∷ codes "60" ∷ one ∷ [])
        one
        tt'
        is_ok
        s
        (Lists.lset x (pos 60) one tt' s)
    × Limits
        (codes "HSET" ∷ x ∷ codes "f" ∷ one ∷ [])
        one
        tt'
        is_nonzero
        s
        (Hashes.hset x (codes "f") one tt' s)
unfolding int2string
stores-Limits_example =
    stores-Limits (codes "x") (codes "1") (codes "f") (pos 60) (pos 500)
      (some_client (1 ∷ 2 ∷ []) (some done ∷ []))
