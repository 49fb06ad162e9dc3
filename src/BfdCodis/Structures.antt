-- ===== src/BfdCodis/Structures.antt =====
-- The methods of `BfdCodis` (cpp/src/BfdCodis.cpp) on sorted sets and hashes.
use codis_client.Prelude.{Bool, List, ℤ, Bytes}
use codis_client.Hiredis.{Hiredis}
use codis_client.BfdCodis.{BfdM, forward}
use codis_client.Methods.SortedSets
use codis_client.Methods.Hashes
use codis_client.Reply.{Reply}
use codis_client.Command.{Command}
use codis_client.Client

module _ ⦃lib : Hiredis⦄ where
  unfoldable pub zadd : Bytes → ℤ → Bytes → ℤ → BfdM Bool
  zadd key score member tt' = forward (SortedSets.zadd key score member tt')

  unfoldable pub zrem : Bytes → Bytes → ℤ → BfdM Bool
  zrem key member tt' = forward (SortedSets.zrem key member tt')

  unfoldable pub zincrby : Bytes → ℤ → Bytes → ℤ → BfdM ℤ
  zincrby key incr member tt' = forward (SortedSets.zincrby key incr member tt')

  unfoldable pub zrank : Bytes → Bytes → ℤ → BfdM ℤ
  zrank key member tt' = forward (SortedSets.zrank key member tt')

  unfoldable pub zrevrank : Bytes → Bytes → ℤ → BfdM ℤ
  zrevrank key member tt' = forward (SortedSets.zrevrank key member tt')

  unfoldable pub zrange : Bytes → ℤ → ℤ → Bytes → ℤ → BfdM (List Bytes)
  zrange key start end withscores tt' = forward (SortedSets.zrange key start end withscores tt')

  unfoldable pub zrevrange : Bytes → ℤ → ℤ → Bytes → ℤ → BfdM (List Bytes)
  zrevrange key start end withscores tt' =
      forward (SortedSets.zrevrange key start end withscores tt')

  unfoldable pub zrangebyscore : Bytes → Bytes → Bytes → Bytes → ℤ → BfdM (List Bytes)
  zrangebyscore key min max withscores tt' =
      forward (SortedSets.zrangebyscore key min max withscores tt')

  unfoldable pub zrevrangebyscore : Bytes → Bytes → Bytes → Bytes → ℤ → BfdM (List Bytes)
  zrevrangebyscore key min max withscores tt' =
      forward (SortedSets.zrevrangebyscore key min max withscores tt')

  unfoldable pub zcount : Bytes → ℤ → ℤ → ℤ → BfdM ℤ
  zcount key min max tt' = forward (SortedSets.zcount key min max tt')

  unfoldable pub zcard : Bytes → ℤ → BfdM ℤ
  zcard key tt' = forward (SortedSets.zcard key tt')

  unfoldable pub zscore : Bytes → Bytes → ℤ → BfdM ℤ
  zscore key member tt' = forward (SortedSets.zscore key member tt')

  unfoldable pub zremrangebyrank : Bytes → ℤ → ℤ → ℤ → BfdM ℤ
  zremrangebyrank key min max tt' = forward (SortedSets.zremrangebyrank key min max tt')

  unfoldable pub zremrangebyscore : Bytes → ℤ → ℤ → ℤ → BfdM ℤ
  zremrangebyscore key min max tt' = forward (SortedSets.zremrangebyscore key min max tt')

  unfoldable pub hset : Bytes → Bytes → Bytes → ℤ → BfdM Bool
  hset key field value tt' = forward (Hashes.hset key field value tt')

  unfoldable pub hget : Bytes → Bytes → ℤ → BfdM Bytes
  hget key field tt' = forward (Hashes.hget key field tt')

  unfoldable pub hmget : Bytes → List Bytes → ℤ → BfdM (List Bytes)
  hmget key fields tt' = forward (Hashes.hmget key fields tt')

  unfoldable pub hmset : Bytes → List Bytes → List Bytes → ℤ → BfdM Bool
  hmset key fields values tt' = forward (Hashes.hmset key fields values tt')

  unfoldable pub hincrby : Bytes → Bytes → ℤ → ℤ → BfdM ℤ
  hincrby key field incr tt' = forward (Hashes.hincrby key field incr tt')

  unfoldable pub hexists : Bytes → Bytes → ℤ → BfdM Bool
  hexists key field tt' = forward (Hashes.hexists key field tt')

  unfoldable pub hdel : Bytes → Bytes → ℤ → BfdM Bool
  hdel key field tt' = forward (Hashes.hdel key field tt')

  unfoldable pub hlen : Bytes → ℤ → BfdM ℤ
  hlen key tt' = forward (Hashes.hlen key tt')

  unfoldable pub hkeys : Bytes → ℤ → BfdM (List Bytes)
  hkeys key tt' = forward (Hashes.hkeys key tt')

  unfoldable pub hvals : Bytes → ℤ → BfdM (List Bytes)
  hvals key tt' = forward (Hashes.hvals key tt')

  unfoldable pub hgetall :
      Bytes → List Bytes → List Bytes → ℤ → BfdM (Bool × List Bytes × List Bytes)
  hgetall key fields values tt' = forward (Hashes.hgetall key fields values tt')

  unfoldable pub redis_command : List Bytes → ℤ → BfdM Reply
  redis_command args tt' = forward (Client.redis_command args tt')

  -- `RedisCommand(Command&, int)`
  unfoldable pub run_command : Command → ℤ → BfdM Reply
  run_command c tt' = forward (Client.run_command c tt')

  unfoldable pub redis_commands : List Command → BfdM (List Reply)
  redis_commands cs = forward (Client.redis_commands cs)
