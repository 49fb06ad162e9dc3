-- ===== src/Methods/Interface.antt =====
-- All methods of `CodisClient` (cpp/include/CodisClient.h) but `mget2`, as data: a call with its arguments
-- and the type of its result.
use codis_client.Prelude.{Bool, List, ℤ, Bytes}
use codis_client.Command.{Command}
use codis_client.Reply.{Reply}
use codis_client.Hiredis.{Hiredis}
use codis_client.Client
use codis_client.Client.{ClientM}
use codis_client.Methods.Keys
use codis_client.Methods.Strings
use codis_client.Methods.Lists
use codis_client.Methods.Sets
use codis_client.Methods.SortedSets
use codis_client.Methods.Hashes

pub data Method : Type 0 → Type 1 where
  expire : Bytes → ℤ → ℤ → Method Bool
  exists : Bytes → ℤ → Method Bool
  del : Bytes → ℤ → Method ℤ
  del_all : List Bytes → ℤ → Method ℤ
  type_of : Bytes → ℤ → Method Bytes
  set : Bytes → Bytes → ℤ → Method Bool
  setnx : Bytes → Bytes → ℤ → Method Bool
  setex : Bytes → Bytes → ℤ → ℤ → Method Bool
  get : Bytes → ℤ → Method Bytes
  getset : Bytes → Bytes → ℤ → Method Bytes
  setbit : Bytes → ℤ → Bool → ℤ → Method ℤ
  getbit : Bytes → ℤ → ℤ → Method ℤ
  bitcount : Bytes → ℤ → Method ℤ
  mget : List Bytes → ℤ → Method (List Bytes)
  mset : List (Bytes × Bytes) → ℤ → Method Bool
  incr : Bytes → ℤ → Method ℤ
  decr : Bytes → ℤ → Method ℤ
  incrby : Bytes → ℤ → ℤ → Method ℤ
  decrby : Bytes → ℤ → ℤ → Method ℤ
  append : Bytes → Bytes → ℤ → Method ℤ
  lpush : Bytes → Bytes → ℤ → Method ℤ
  rpush : Bytes → Bytes → ℤ → Method ℤ
  lpush_all : Bytes → List Bytes → ℤ → Method ℤ
  rpush_all : Bytes → List Bytes → ℤ → Method ℤ
  llen : Bytes → ℤ → Method ℤ
  lrange : Bytes → ℤ → ℤ → ℤ → Method (List Bytes)
  ltrim : Bytes → ℤ → ℤ → ℤ → Method Bool
  lset : Bytes → ℤ → Bytes → ℤ → Method Bool
  lrem : Bytes → ℤ → Bytes → ℤ → Method Bool
  lpop : Bytes → ℤ → Method Bytes
  rpop : Bytes → ℤ → Method Bytes
  sadd : Bytes → Bytes → ℤ → Method Bool
  sadd_all : Bytes → List Bytes → ℤ → Method ℤ
  srem : Bytes → Bytes → ℤ → Method Bool
  spop : Bytes → ℤ → Method Bytes
  srandmember : Bytes → ℤ → Method Bytes
  scard : Bytes → ℤ → Method ℤ
  sismember : Bytes → Bytes → ℤ → Method Bool
  smembers : Bytes → ℤ → Method (List Bytes)
  zadd : Bytes → ℤ → Bytes → ℤ → Method Bool
  zrem : Bytes → Bytes → ℤ → Method Bool
  zincrby : Bytes → ℤ → Bytes → ℤ → Method ℤ
  zrank : Bytes → Bytes → ℤ → Method ℤ
  zrevrank : Bytes → Bytes → ℤ → Method ℤ
  zrange : Bytes → ℤ → ℤ → Bytes → ℤ → Method (List Bytes)
  zrevrange : Bytes → ℤ → ℤ → Bytes → ℤ → Method (List Bytes)
  zrangebyscore : Bytes → Bytes → Bytes → Bytes → ℤ → Method (List Bytes)
  zrevrangebyscore : Bytes → Bytes → Bytes → Bytes → ℤ → Method (List Bytes)
  zcount : Bytes → ℤ → ℤ → ℤ → Method ℤ
  zcard : Bytes → ℤ → Method ℤ
  zscore : Bytes → Bytes → ℤ → Method ℤ
  zremrangebyrank : Bytes → ℤ → ℤ → ℤ → Method ℤ
  zremrangebyscore : Bytes → ℤ → ℤ → ℤ → Method ℤ
  hset : Bytes → Bytes → Bytes → ℤ → Method Bool
  hget : Bytes → Bytes → ℤ → Method Bytes
  hmget : Bytes → List Bytes → ℤ → Method (List Bytes)
  hmset : Bytes → List Bytes → List Bytes → ℤ → Method Bool
  hincrby : Bytes → Bytes → ℤ → ℤ → Method ℤ
  hexists : Bytes → Bytes → ℤ → Method Bool
  hdel : Bytes → Bytes → ℤ → Method Bool
  hlen : Bytes → ℤ → Method ℤ
  hkeys : Bytes → ℤ → Method (List Bytes)
  hvals : Bytes → ℤ → Method (List Bytes)
  hgetall : Bytes → List Bytes → List Bytes → ℤ → Method (Bool × List Bytes × List Bytes)
  redis_command : List Bytes → ℤ → Method Reply
  run_command : Command → ℤ → Method Reply
  redis_commands : List Command → Method (List Reply)

module _ ⦃lib : Hiredis⦄ where
  -- The method of the client.
  unfoldable pub by_client : {A : Type 0} → Method A → ClientM A
  by_client (Method.expire key seconds tt') = Keys.expire key seconds tt'
  by_client (Method.exists key tt') = Keys.exists key tt'
  by_client (Method.del key tt') = Keys.del key tt'
  by_client (Method.del_all keys tt') = Keys.del_all keys tt'
  by_client (Method.type_of key tt') = Keys.type_of key tt'
  by_client (Method.set key value tt') = Strings.set key value tt'
  by_client (Method.setnx key value tt') = Strings.setnx key value tt'
  by_client (Method.setex key value seconds tt') = Strings.setex key value seconds tt'
  by_client (Method.get key tt') = Strings.get key tt'
  by_client (Method.getset key value tt') = Strings.getset key value tt'
  by_client (Method.setbit key index bit tt') = Strings.setbit key index bit tt'
  by_client (Method.getbit key index tt') = Strings.getbit key index tt'
  by_client (Method.bitcount key tt') = Strings.bitcount key tt'
  by_client (Method.mget keys tt') = Strings.mget keys tt'
  by_client (Method.mset keyvalues tt') = Strings.mset keyvalues tt'
  by_client (Method.incr key tt') = Strings.incr key tt'
  by_client (Method.decr key tt') = Strings.decr key tt'
  by_client (Method.incrby key amount tt') = Strings.incrby key amount tt'
  by_client (Method.decrby key amount tt') = Strings.decrby key amount tt'
  by_client (Method.append key value tt') = Strings.append key value tt'
  by_client (Method.lpush key value tt') = Lists.lpush key value tt'
  by_client (Method.rpush key value tt') = Lists.rpush key value tt'
  by_client (Method.lpush_all key values tt') = Lists.lpush_all key values tt'
  by_client (Method.rpush_all key values tt') = Lists.rpush_all key values tt'
  by_client (Method.llen key tt') = Lists.llen key tt'
  by_client (Method.lrange key start end tt') = Lists.lrange key start end tt'
  by_client (Method.ltrim key start end tt') = Lists.ltrim key start end tt'
  by_client (Method.lset key index value tt') = Lists.lset key index value tt'
  by_client (Method.lrem key count value tt') = Lists.lrem key count value tt'
  by_client (Method.lpop key tt') = Lists.lpop key tt'
  by_client (Method.rpop key tt') = Lists.rpop key tt'
  by_client (Method.sadd key member tt') = Sets.sadd key member tt'
  by_client (Method.sadd_all key members tt') = Sets.sadd_all key members tt'
  by_client (Method.srem key member tt') = Sets.srem key member tt'
  by_client (Method.spop key tt') = Sets.spop key tt'
  by_client (Method.srandmember key tt') = Sets.srandmember key tt'
  by_client (Method.scard key tt') = Sets.scard key tt'
  by_client (Method.sismember key member tt') = Sets.sismember key member tt'
  by_client (Method.smembers key tt') = Sets.smembers key tt'
  by_client (Method.zadd key score member tt') = SortedSets.zadd key score member tt'
  by_client (Method.zrem key member tt') = SortedSets.zrem key member tt'
  by_client (Method.zincrby key by member tt') = SortedSets.zincrby key by member tt'
  by_client (Method.zrank key member tt') = SortedSets.zrank key member tt'
  by_client (Method.zrevrank key member tt') = SortedSets.zrevrank key member tt'
  by_client (Method.zrange key start end withscores tt') =
      SortedSets.zrange key start end withscores tt'
  by_client (Method.zrevrange key start end withscores tt') =
      SortedSets.zrevrange key start end withscores tt'
  by_client (Method.zrangebyscore key min max withscores tt') =
      SortedSets.zrangebyscore key min max withscores tt'
  by_client (Method.zrevrangebyscore key min max withscores tt') =
      SortedSets.zrevrangebyscore key min max withscores tt'
  by_client (Method.zcount key min max tt') = SortedSets.zcount key min max tt'
  by_client (Method.zcard key tt') = SortedSets.zcard key tt'
  by_client (Method.zscore key member tt') = SortedSets.zscore key member tt'
  by_client (Method.zremrangebyrank key min max tt') = SortedSets.zremrangebyrank key min max tt'
  by_client (Method.zremrangebyscore key min max tt') = SortedSets.zremrangebyscore key min max tt'
  by_client (Method.hset key field value tt') = Hashes.hset key field value tt'
  by_client (Method.hget key field tt') = Hashes.hget key field tt'
  by_client (Method.hmget key fields tt') = Hashes.hmget key fields tt'
  by_client (Method.hmset key fields values tt') = Hashes.hmset key fields values tt'
  by_client (Method.hincrby key field by tt') = Hashes.hincrby key field by tt'
  by_client (Method.hexists key field tt') = Hashes.hexists key field tt'
  by_client (Method.hdel key field tt') = Hashes.hdel key field tt'
  by_client (Method.hlen key tt') = Hashes.hlen key tt'
  by_client (Method.hkeys key tt') = Hashes.hkeys key tt'
  by_client (Method.hvals key tt') = Hashes.hvals key tt'
  by_client (Method.hgetall key fields values tt') = Hashes.hgetall key fields values tt'
  by_client (Method.redis_command args tt') = Client.redis_command args tt'
  by_client (Method.run_command c tt') = Client.run_command c tt'
  by_client (Method.redis_commands cs) = Client.redis_commands cs
