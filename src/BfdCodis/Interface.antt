-- ===== src/BfdCodis/Interface.antt =====
-- The methods of `BfdCodis` (cpp/src/BfdCodis.cpp) against those of `CodisClient`.
use codis_client.Prelude.{◌≡◌, refl}
use codis_client.Hiredis.{Hiredis}
use codis_client.BfdCodis.{BfdM, forward}
use codis_client.BfdCodis.Values
use codis_client.BfdCodis.Collections
use codis_client.BfdCodis.Structures
use codis_client.Methods.Interface.{Method, by_client}

module _ ⦃lib : Hiredis⦄ where
  -- The method of `BfdCodis`.
  unfoldable pub by_bfd : {A : Type 0} → Method A → BfdM A
  by_bfd (Method.expire key seconds tt') = Values.expire key seconds tt'
  by_bfd (Method.exists key tt') = Values.exists key tt'
  by_bfd (Method.del key tt') = Values.del key tt'
  by_bfd (Method.del_all keys tt') = Values.del_all keys tt'
  by_bfd (Method.type_of key tt') = Values.type_of key tt'
  by_bfd (Method.set key value tt') = Values.set key value tt'
  by_bfd (Method.setnx key value tt') = Values.setnx key value tt'
  by_bfd (Method.setex key value seconds tt') = Values.setex key value seconds tt'
  by_bfd (Method.get key tt') = Values.get key tt'
  by_bfd (Method.getset key value tt') = Values.getset key value tt'
  by_bfd (Method.setbit key index bit tt') = Values.setbit key index bit tt'
  by_bfd (Method.getbit key index tt') = Values.getbit key index tt'
  by_bfd (Method.bitcount key tt') = Values.bitcount key tt'
  by_bfd (Method.mget keys tt') = Values.mget keys tt'
  by_bfd (Method.mset keyvalues tt') = Values.mset keyvalues tt'
  by_bfd (Method.incr key tt') = Values.incr key tt'
  by_bfd (Method.decr key tt') = Values.decr key tt'
  by_bfd (Method.incrby key amount tt') = Values.incrby key amount tt'
  by_bfd (Method.decrby key amount tt') = Values.decrby key amount tt'
  by_bfd (Method.append key value tt') = Values.append key value tt'
  by_bfd (Method.lpush key value tt') = Collections.lpush key value tt'
  by_bfd (Method.rpush key value tt') = Collections.rpush key value tt'
  by_bfd (Method.lpush_all key values tt') = Collections.lpush_all key values tt'
  by_bfd (Method.rpush_all key values tt') = Collections.rpush_all key values tt'
  by_bfd (Method.llen key tt') = Collections.llen key tt'
  by_bfd (Method.lrange key start end tt') = Collections.lrange key start end tt'
  by_bfd (Method.ltrim key start end tt') = Collections.ltrim key start end tt'
  by_bfd (Method.lset key index value tt') = Collections.lset key index value tt'
  by_bfd (Method.lrem key count value tt') = Collections.lrem key count value tt'
  by_bfd (Method.lpop key tt') = Collections.lpop key tt'
  by_bfd (Method.rpop key tt') = Collections.rpop key tt'
  by_bfd (Method.sadd key member tt') = Collections.sadd key member tt'
  by_bfd (Method.sadd_all key members tt') = Collections.sadd_all key members tt'
  by_bfd (Method.srem key member tt') = Collections.srem key member tt'
  by_bfd (Method.spop key tt') = Collections.spop key tt'
  by_bfd (Method.srandmember key tt') = Collections.srandmember key tt'
  by_bfd (Method.scard key tt') = Collections.scard key tt'
  by_bfd (Method.sismember key member tt') = Collections.sismember key member tt'
  by_bfd (Method.smembers key tt') = Collections.smembers key tt'
  by_bfd (Method.zadd key score member tt') = Structures.zadd key score member tt'
  by_bfd (Method.zrem key member tt') = Structures.zrem key member tt'
  by_bfd (Method.zincrby key by member tt') = Structures.zincrby key by member tt'
  by_bfd (Method.zrank key member tt') = Structures.zrank key member tt'
  by_bfd (Method.zrevrank key member tt') = Structures.zrevrank key member tt'
  by_bfd (Method.zrange key start end withscores tt') =
      Structures.zrange key start end withscores tt'
  by_bfd (Method.zrevrange key start end withscores tt') =
      Structures.zrevrange key start end withscores tt'
  by_bfd (Method.zrangebyscore key min max withscores tt') =
      Structures.zrangebyscore key min max withscores tt'
  by_bfd (Method.zrevrangebyscore key min max withscores tt') =
      Structures.zrevrangebyscore key min max withscores tt'
  by_bfd (Method.zcount key min max tt') = Structures.zcount key min max tt'
  by_bfd (Method.zcard key tt') = Structures.zcard key tt'
  by_bfd (Method.zscore key member tt') = Structures.zscore key member tt'
  by_bfd (Method.zremrangebyrank key min max tt') = Structures.zremrangebyrank key min max tt'
  by_bfd (Method.zremrangebyscore key min max tt') = Structures.zremrangebyscore key min max tt'
  by_bfd (Method.hset key field value tt') = Structures.hset key field value tt'
  by_bfd (Method.hget key field tt') = Structures.hget key field tt'
  by_bfd (Method.hmget key fields tt') = Structures.hmget key fields tt'
  by_bfd (Method.hmset key fields values tt') = Structures.hmset key fields values tt'
  by_bfd (Method.hincrby key field by tt') = Structures.hincrby key field by tt'
  by_bfd (Method.hexists key field tt') = Structures.hexists key field tt'
  by_bfd (Method.hdel key field tt') = Structures.hdel key field tt'
  by_bfd (Method.hlen key tt') = Structures.hlen key tt'
  by_bfd (Method.hkeys key tt') = Structures.hkeys key tt'
  by_bfd (Method.hvals key tt') = Structures.hvals key tt'
  by_bfd (Method.hgetall key fields values tt') = Structures.hgetall key fields values tt'
  by_bfd (Method.redis_command args tt') = Structures.redis_command args tt'
  by_bfd (Method.run_command c tt') = Structures.run_command c tt'
  by_bfd (Method.redis_commands cs) = Structures.redis_commands cs

  -- Every method of `BfdCodis` is the method of the client of that name, with the same arguments, of the
  -- proxy that is next in turn.
  pub by_bfd-forward : {A : Type 0} (m : Method A) → by_bfd m ≡ forward (by_client m)
  unfolding by_bfd by_client Values.expire Values.exists Values.del Values.del_all Values.type_of
      Values.set Values.setnx Values.setex Values.get Values.getset Values.setbit Values.getbit
      Values.bitcount Values.mget Values.mset Values.incr Values.decr Values.incrby Values.decrby
      Values.append Collections.lpush Collections.rpush Collections.lpush_all Collections.rpush_all
      Collections.llen Collections.lrange Collections.ltrim Collections.lset Collections.lrem
      Collections.lpop Collections.rpop Collections.sadd Collections.sadd_all Collections.srem
      Collections.spop Collections.srandmember Collections.scard Collections.sismember
      Collections.smembers Structures.zadd Structures.zrem Structures.zincrby Structures.zrank
      Structures.zrevrank Structures.zrange Structures.zrevrange Structures.zrangebyscore
      Structures.zrevrangebyscore Structures.zcount Structures.zcard Structures.zscore
      Structures.zremrangebyrank Structures.zremrangebyscore Structures.hset Structures.hget
      Structures.hmget Structures.hmset Structures.hincrby Structures.hexists Structures.hdel
      Structures.hlen Structures.hkeys Structures.hvals Structures.hgetall Structures.redis_command
      Structures.run_command Structures.redis_commands
  by_bfd-forward (Method.expire key seconds tt') = refl
  by_bfd-forward (Method.exists key tt') = refl
  by_bfd-forward (Method.del key tt') = refl
  by_bfd-forward (Method.del_all keys tt') = refl
  by_bfd-forward (Method.type_of key tt') = refl
  by_bfd-forward (Method.set key value tt') = refl
  by_bfd-forward (Method.setnx key value tt') = refl
  by_bfd-forward (Method.setex key value seconds tt') = refl
  by_bfd-forward (Method.get key tt') = refl
  by_bfd-forward (Method.getset key value tt') = refl
  by_bfd-forward (Method.setbit key index bit tt') = refl
  by_bfd-forward (Method.getbit key index tt') = refl
  by_bfd-forward (Method.bitcount key tt') = refl
  by_bfd-forward (Method.mget keys tt') = refl
  by_bfd-forward (Method.mset keyvalues tt') = refl
  by_bfd-forward (Method.incr key tt') = refl
  by_bfd-forward (Method.decr key tt') = refl
  by_bfd-forward (Method.incrby key amount tt') = refl
  by_bfd-forward (Method.decrby key amount tt') = refl
  by_bfd-forward (Method.append key value tt') = refl
  by_bfd-forward (Method.lpush key value tt') = refl
  by_bfd-forward (Method.rpush key value tt') = refl
  by_bfd-forward (Method.lpush_all key values tt') = refl
  by_bfd-forward (Method.rpush_all key values tt') = refl
  by_bfd-forward (Method.llen key tt') = refl
  by_bfd-forward (Method.lrange key start end tt') = refl
  by_bfd-forward (Method.ltrim key start end tt') = refl
  by_bfd-forward (Method.lset key index value tt') = refl
  by_bfd-forward (Method.lrem key count value tt') = refl
  by_bfd-forward (Method.lpop key tt') = refl
  by_bfd-forward (Method.rpop key tt') = refl
  by_bfd-forward (Method.sadd key member tt') = refl
  by_bfd-forward (Method.sadd_all key members tt') = refl
  by_bfd-forward (Method.srem key member tt') = refl
  by_bfd-forward (Method.spop key tt') = refl
  by_bfd-forward (Method.srandmember key tt') = refl
  by_bfd-forward (Method.scard key tt') = refl
  by_bfd-forward (Method.sismember key member tt') = refl
  by_bfd-forward (Method.smembers key tt') = refl
  by_bfd-forward (Method.zadd key score member tt') = refl
  by_bfd-forward (Method.zrem key member tt') = refl
  by_bfd-forward (Method.zincrby key by member tt') = refl
  by_bfd-forward (Method.zrank key member tt') = refl
  by_bfd-forward (Method.zrevrank key member tt') = refl
  by_bfd-forward (Method.zrange key start end withscores tt') = refl
  by_bfd-forward (Method.zrevrange key start end withscores tt') = refl
  by_bfd-forward (Method.zrangebyscore key min max withscores tt') = refl
  by_bfd-forward (Method.zrevrangebyscore key min max withscores tt') = refl
  by_bfd-forward (Method.zcount key min max tt') = refl
  by_bfd-forward (Method.zcard key tt') = refl
  by_bfd-forward (Method.zscore key member tt') = refl
  by_bfd-forward (Method.zremrangebyrank key min max tt') = refl
  by_bfd-forward (Method.zremrangebyscore key min max tt') = refl
  by_bfd-forward (Method.hset key field value tt') = refl
  by_bfd-forward (Method.hget key field tt') = refl
  by_bfd-forward (Method.hmget key fields tt') = refl
  by_bfd-forward (Method.hmset key fields values tt') = refl
  by_bfd-forward (Method.hincrby key field by tt') = refl
  by_bfd-forward (Method.hexists key field tt') = refl
  by_bfd-forward (Method.hdel key field tt') = refl
  by_bfd-forward (Method.hlen key tt') = refl
  by_bfd-forward (Method.hkeys key tt') = refl
  by_bfd-forward (Method.hvals key tt') = refl
  by_bfd-forward (Method.hgetall key fields values tt') = refl
  by_bfd-forward (Method.redis_command args tt') = refl
  by_bfd-forward (Method.run_command c tt') = refl
  by_bfd-forward (Method.redis_commands cs) = refl
