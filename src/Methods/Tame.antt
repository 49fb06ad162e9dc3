-- ===== src/Methods/Tame.antt =====
-- What every method of `CodisClient` (cpp/src/CodisClient.cpp) leaves behind, whether it returns or throws.
use codis_client.Prelude.{
  sym, subst, inl, inr, Bool, true, false, not, List, [], ◌∷◌, Bytes, ℤ, pos, if◌then◌else◌, length,
  ◌==◌, bytes_eq, codes,
}
use codis_client.Reply.{Reply, error}
use codis_client.Command.{Command, command, ◌◃◌}
use codis_client.Run.{Run, Safe, Safe-bind, Returns, ok, thrown, fault, exited, pure, throw, ◌>>=◌}
use codis_client.Hiredis.{Hiredis, Ptr, State}
use codis_client.Hiredis.Laws.{HiredisLaws}
use codis_client.Client.{Client, ClientM, redis_command, run_command, redis_commands}
use codis_client.Client.Steps.{Settled}
use codis_client.Client.Outcomes.{redis_command-ReturnsOrMoves}
use codis_client.Methods.{too_big, ask, when_fits, add_values}
use codis_client.Methods.Keys
use codis_client.Methods.Strings
use codis_client.Methods.Lists
use codis_client.Methods.Sets
use codis_client.Methods.SortedSets
use codis_client.Methods.Hashes
use codis_client.Methods.Interface.{Method, by_client}

module _ ⦃lib : Hiredis⦄ where
  -- The method leaves a client in order in order, whether it returns or throws.
  abbrev pub Tame : {A : Type 0} → ClientM A → Type 0
  Tame m = (hs : List Ptr) (s : State Client lib.World) → Settled hs 0 s → Safe (Settled hs 0) (m s)

  bind-Tame :
      {A B : Type 0} (m : ClientM A) (k : A → ClientM B)
      → Tame m
      → ((a : A) → Tame (k a))
      → Tame (m >>= k)
  bind-Tame m k hm hk hs s h =
      Safe-bind (Settled hs 0) (Settled hs 0) (m s) k (hm hs s h) (λ _ x. x) (λ a t x. hk a hs t x)

  if-Tame : {A : Type 0} (b : Bool) (m n : ClientM A) → Tame m → Tame n → Tame (if b then m else n)
  if-Tame true m n hm hn = hm
  if-Tame false m n hm hn = hn

  when_fits-Tame : {A : Type 0} (v : Bytes) (m : ClientM A) → Tame m → Tame (when_fits v m)
  when_fits-Tame v m hm = if-Tame (too_big v) throw m (λ hs s h. h) hm

  add_values-Tame : (c : Command) (vs : List Bytes) → Tame (add_values c vs)
  unfolding add_values
  add_values-Tame c [] = λ hs s h. h
  add_values-Tame c (v ∷ vs) = when_fits-Tame v (add_values (c ◃ v) vs) (add_values-Tame (c ◃ v) vs)

  add_pairs-Tame : (c : Command) (kvs : List (Bytes × Bytes)) → Tame (Strings.add_pairs c kvs)
  unfolding Strings.add_pairs
  add_pairs-Tame c [] = λ hs s h. h
  add_pairs-Tame c ((k, v) ∷ kvs) =
      when_fits-Tame v (Strings.add_pairs (c ◃ k ◃ v) kvs) (add_pairs-Tame (c ◃ k ◃ v) kvs)

  add_fields-Tame : (c : Command) (fs vs : List Bytes) → Tame (Hashes.add_fields c fs vs)
  unfolding Hashes.add_fields
  add_fields-Tame c [] vs = λ hs s h. h
  add_fields-Tame c (f ∷ fs) [] = λ hs s h. h
  add_fields-Tame c (f ∷ fs) (v ∷ vs) =
      when_fits-Tame v (Hashes.add_fields (c ◃ f ◃ v) fs vs) (add_fields-Tame (c ◃ f ◃ v) fs vs)

module _ ⦃lib : Hiredis⦄ (laws : HiredisLaws lib) where
  Safe-Returns :
      {A : Type 0} (P : State Client lib.World → Type 0) (r : Run (State Client lib.World) A)
      → Returns (λ _. P) r
      → Safe P r
  Safe-Returns P (ok a s) h = h
  Safe-Returns P (thrown s) h = absurd h
  Safe-Returns P fault h = tt
  Safe-Returns P exited h = tt

  redis_command-Tame : (args : List Bytes) (tt' : ℤ) → Tame (redis_command args tt')
  redis_command-Tame args tt' hs s h = elim (redis_command-ReturnsOrMoves laws hs 0 args tt' s h) [
    | inl fine ↦ Safe-Returns (Settled hs 0) (redis_command args tt' s) fine
    | inr (e, moves) ↦ subst (Safe (Settled hs 0)) (sym e) tt
  ]

  ask-Tame : {A : Type 0} (c : Command) (tt' : ℤ) (read : Reply → A) → Tame (ask c tt' read)
  ask-Tame c tt' read =
      bind-Tame (run_command c tt') (λ rep. pure (read rep)) (redis_command-Tame c.args tt')
        (λ rep hs s h. h)

  sent-Tame :
      {A : Type 0} (m : ClientM Command) (tt' : ℤ) (read : Reply → A)
      → Tame m
      → Tame (m >>= λ c. ask c tt' read)
  sent-Tame m tt' read hm = bind-Tame m (λ c. ask c tt' read) hm (λ c. ask-Tame c tt' read)

  redis_commands-Tame : (cs : List Command) → Tame (redis_commands cs)
  unfolding redis_commands
  redis_commands-Tame [] = λ hs s h. h
  redis_commands-Tame (c ∷ cs) =
      bind-Tame (run_command c (pos 0)) (λ rep. redis_commands cs >>= λ rest. pure (rep ∷ rest))
        (redis_command-Tame c.args (pos 0))
        λ rep.
          bind-Tame (redis_commands cs) (λ rest. pure (rep ∷ rest)) (redis_commands-Tame cs)
            (λ rest hs s h. h)

  pub by_client-Tame : {A : Type 0} (m : Method A) → Tame (by_client m)
  unfolding by_client Keys.expire Keys.exists Keys.del Keys.del_all Keys.type_of Strings.set
      Strings.setnx Strings.setex Strings.get Strings.getset Strings.setbit Strings.getbit
      Strings.bitcount Strings.mget Strings.mset Strings.incr Strings.decr Strings.incrby
      Strings.decrby Strings.append Lists.lpush Lists.rpush Lists.lpush_all Lists.rpush_all
      Lists.llen Lists.lrange Lists.ltrim Lists.lset Lists.lrem Lists.lpop Lists.rpop Sets.sadd
      Sets.sadd_all Sets.srem Sets.spop Sets.srandmember Sets.scard Sets.sismember Sets.smembers
      SortedSets.zadd SortedSets.zrem SortedSets.zincrby SortedSets.zrank SortedSets.zrevrank
      SortedSets.zrange SortedSets.zrevrange SortedSets.zrangebyscore SortedSets.zrevrangebyscore
      SortedSets.zcount SortedSets.zcard SortedSets.zscore SortedSets.zremrangebyrank
      SortedSets.zremrangebyscore Hashes.hset Hashes.hget Hashes.hmget Hashes.hmset Hashes.hincrby
      Hashes.hexists Hashes.hdel Hashes.hlen Hashes.hkeys Hashes.hvals Hashes.hgetall
  by_client-Tame (Method.expire key seconds tt') = ask-Tame _ tt' _
  by_client-Tame (Method.exists key tt') = ask-Tame _ tt' _
  by_client-Tame (Method.del key tt') = ask-Tame _ tt' _
  by_client-Tame (Method.del_all keys tt') = ask-Tame _ tt' _
  by_client-Tame (Method.type_of key tt') = ask-Tame _ tt' _
  by_client-Tame (Method.set key value tt') = when_fits-Tame value _ (ask-Tame _ tt' _)
  by_client-Tame (Method.setnx key value tt') = when_fits-Tame value _ (ask-Tame _ tt' _)
  by_client-Tame (Method.setex key value seconds tt') = when_fits-Tame value _ (ask-Tame _ tt' _)
  by_client-Tame (Method.get key tt') = ask-Tame _ tt' _
  by_client-Tame (Method.getset key value tt') = when_fits-Tame value _ (ask-Tame _ tt' _)
  by_client-Tame (Method.setbit key index bit tt') = ask-Tame _ tt' _
  by_client-Tame (Method.getbit key index tt') = ask-Tame _ tt' _
  by_client-Tame (Method.bitcount key tt') = ask-Tame _ tt' _
  by_client-Tame (Method.mget keys tt') = ask-Tame _ tt' _
  by_client-Tame (Method.mset keyvalues tt') =
      sent-Tame (Strings.add_pairs (command (codes "MSET")) keyvalues) tt' _
        (add_pairs-Tame _ keyvalues)
  by_client-Tame (Method.incr key tt') = ask-Tame _ tt' _
  by_client-Tame (Method.decr key tt') = ask-Tame _ tt' _
  by_client-Tame (Method.incrby key amount tt') = ask-Tame _ tt' _
  by_client-Tame (Method.decrby key amount tt') = ask-Tame _ tt' _
  by_client-Tame (Method.append key value tt') = when_fits-Tame value _ (ask-Tame _ tt' _)
  by_client-Tame (Method.lpush key value tt') = when_fits-Tame value _ (ask-Tame _ tt' _)
  by_client-Tame (Method.rpush key value tt') = when_fits-Tame value _ (ask-Tame _ tt' _)
  by_client-Tame (Method.lpush_all key values tt') =
      sent-Tame (add_values (command (codes "LPUSH") ◃ key) values) tt' _ (add_values-Tame _ values)
  by_client-Tame (Method.rpush_all key values tt') =
      sent-Tame (add_values (command (codes "RPUSH") ◃ key) values) tt' _ (add_values-Tame _ values)
  by_client-Tame (Method.llen key tt') = ask-Tame _ tt' _
  by_client-Tame (Method.lrange key start end tt') = ask-Tame _ tt' _
  by_client-Tame (Method.ltrim key start end tt') = ask-Tame _ tt' _
  by_client-Tame (Method.lset key index value tt') = when_fits-Tame value _ (ask-Tame _ tt' _)
  by_client-Tame (Method.lrem key count value tt') = ask-Tame _ tt' _
  by_client-Tame (Method.lpop key tt') = ask-Tame _ tt' _
  by_client-Tame (Method.rpop key tt') = ask-Tame _ tt' _
  by_client-Tame (Method.sadd key member tt') = ask-Tame _ tt' _
  by_client-Tame (Method.sadd_all key members tt') = ask-Tame _ tt' _
  by_client-Tame (Method.srem key member tt') = ask-Tame _ tt' _
  by_client-Tame (Method.spop key tt') = ask-Tame _ tt' _
  by_client-Tame (Method.srandmember key tt') = ask-Tame _ tt' _
  by_client-Tame (Method.scard key tt') = ask-Tame _ tt' _
  by_client-Tame (Method.sismember key member tt') = ask-Tame _ tt' _
  by_client-Tame (Method.smembers key tt') = ask-Tame _ tt' _
  by_client-Tame (Method.zadd key score member tt') = ask-Tame _ tt' _
  by_client-Tame (Method.zrem key member tt') = ask-Tame _ tt' _
  by_client-Tame (Method.zincrby key by member tt') = ask-Tame _ tt' _
  by_client-Tame (Method.zrank key member tt') = ask-Tame _ tt' _
  by_client-Tame (Method.zrevrank key member tt') = ask-Tame _ tt' _
  by_client-Tame (Method.zrange key start end withscores tt') =
      if-Tame (bytes_eq withscores (codes "True")) _ _ (ask-Tame _ tt' _) (ask-Tame _ tt' _)
  by_client-Tame (Method.zrevrange key start end withscores tt') =
      if-Tame (bytes_eq withscores (codes "True")) _ _ (ask-Tame _ tt' _) (ask-Tame _ tt' _)
  by_client-Tame (Method.zrangebyscore key min max withscores tt') =
      if-Tame (bytes_eq withscores (codes "True")) _ _ (ask-Tame _ tt' _) (ask-Tame _ tt' _)
  by_client-Tame (Method.zrevrangebyscore key min max withscores tt') =
      if-Tame (bytes_eq withscores (codes "True")) _ _ (ask-Tame _ tt' _) (ask-Tame _ tt' _)
  by_client-Tame (Method.zcount key min max tt') = ask-Tame _ tt' _
  by_client-Tame (Method.zcard key tt') = ask-Tame _ tt' _
  by_client-Tame (Method.zscore key member tt') = ask-Tame _ tt' _
  by_client-Tame (Method.zremrangebyrank key min max tt') = ask-Tame _ tt' _
  by_client-Tame (Method.zremrangebyscore key min max tt') = ask-Tame _ tt' _
  by_client-Tame (Method.hset key field value tt') = when_fits-Tame value _ (ask-Tame _ tt' _)
  by_client-Tame (Method.hget key field tt') = ask-Tame _ tt' _
  by_client-Tame (Method.hmget key fields tt') = ask-Tame _ tt' _
  by_client-Tame (Method.hmset key fields values tt') =
      if-Tame (not (length fields == length values)) _ _ (λ hs s h. h)
        (if-Tame (length fields == 0) _ _ (λ hs s h. h)
          (sent-Tame (Hashes.add_fields (command (codes "HMSET") ◃ key) fields values) tt' _
            (add_fields-Tame _ fields values)))
  by_client-Tame (Method.hincrby key field by tt') = ask-Tame _ tt' _
  by_client-Tame (Method.hexists key field tt') = ask-Tame _ tt' _
  by_client-Tame (Method.hdel key field tt') = ask-Tame _ tt' _
  by_client-Tame (Method.hlen key tt') = ask-Tame _ tt' _
  by_client-Tame (Method.hkeys key tt') = ask-Tame _ tt' _
  by_client-Tame (Method.hvals key tt') = ask-Tame _ tt' _
  by_client-Tame (Method.hgetall key fields values tt') =
      bind-Tame (run_command (command (codes "HGETALL") ◃ key) tt') _ (redis_command-Tame _ tt')
        (λ rep. if-Tame (error rep) _ _ (λ hs s h. h) (λ hs s h. h))
  by_client-Tame (Method.redis_command args tt') = redis_command-Tame args tt'
  by_client-Tame (Method.run_command c tt') = redis_command-Tame c.args tt'
  by_client-Tame (Method.redis_commands cs) = redis_commands-Tame cs

  -- Every method but `mget2`, whatever its arguments, on a client in order, with a pool that `hs` is
  -- borrowed from and nobody in its lock: if it returns or throws, the lock is free again, and the idle
  -- connections of the pool and those of `hs` are live and pairwise different as before.
  pub by_client-Settled :
      {A : Type 0} (m : Method A) (hs : List Ptr) (s : State Client lib.World)
      → Settled hs 0 s
      → Safe (Settled hs 0) (by_client m s)
  by_client-Settled m hs s h = by_client-Tame m hs s h
