-- ===== src/BfdCodis/Collections.antt =====
-- The methods of `BfdCodis` (cpp/src/BfdCodis.cpp) on lists and sets.
use codis_client.Prelude.{Bool, List, ℤ, Bytes}
use codis_client.Hiredis.{Hiredis}
use codis_client.BfdCodis.{BfdM, forward}
use codis_client.Methods.Lists
use codis_client.Methods.Sets

module _ ⦃lib : Hiredis⦄ where
  unfoldable pub sadd : Bytes → Bytes → ℤ → BfdM Bool
  sadd key member tt' = forward (Sets.sadd key member tt')

  unfoldable pub sadd_all : Bytes → List Bytes → ℤ → BfdM ℤ
  sadd_all key members tt' = forward (Sets.sadd_all key members tt')

  unfoldable pub srem : Bytes → Bytes → ℤ → BfdM Bool
  srem key member tt' = forward (Sets.srem key member tt')

  unfoldable pub spop : Bytes → ℤ → BfdM Bytes
  spop key tt' = forward (Sets.spop key tt')

  unfoldable pub srandmember : Bytes → ℤ → BfdM Bytes
  srandmember key tt' = forward (Sets.srandmember key tt')

  unfoldable pub scard : Bytes → ℤ → BfdM ℤ
  scard key tt' = forward (Sets.scard key tt')

  unfoldable pub sismember : Bytes → Bytes → ℤ → BfdM Bool
  sismember key member tt' = forward (Sets.sismember key member tt')

  unfoldable pub smembers : Bytes → ℤ → BfdM (List Bytes)
  smembers key tt' = forward (Sets.smembers key tt')

  unfoldable pub lpush : Bytes → Bytes → ℤ → BfdM ℤ
  lpush key value tt' = forward (Lists.lpush key value tt')

  unfoldable pub rpush : Bytes → Bytes → ℤ → BfdM ℤ
  rpush key value tt' = forward (Lists.rpush key value tt')

  unfoldable pub lpush_all : Bytes → List Bytes → ℤ → BfdM ℤ
  lpush_all key values tt' = forward (Lists.lpush_all key values tt')

  unfoldable pub rpush_all : Bytes → List Bytes → ℤ → BfdM ℤ
  rpush_all key values tt' = forward (Lists.rpush_all key values tt')

  unfoldable pub llen : Bytes → ℤ → BfdM ℤ
  llen key tt' = forward (Lists.llen key tt')

  unfoldable pub lrange : Bytes → ℤ → ℤ → ℤ → BfdM (List Bytes)
  lrange key start end tt' = forward (Lists.lrange key start end tt')

  unfoldable pub ltrim : Bytes → ℤ → ℤ → ℤ → BfdM Bool
  ltrim key start end tt' = forward (Lists.ltrim key start end tt')

  unfoldable pub lset : Bytes → ℤ → Bytes → ℤ → BfdM Bool
  lset key index value tt' = forward (Lists.lset key index value tt')

  unfoldable pub lrem : Bytes → ℤ → Bytes → ℤ → BfdM Bool
  lrem key count value tt' = forward (Lists.lrem key count value tt')

  unfoldable pub lpop : Bytes → ℤ → BfdM Bytes
  lpop key tt' = forward (Lists.lpop key tt')

  unfoldable pub rpop : Bytes → ℤ → BfdM Bytes
  rpop key tt' = forward (Lists.rpop key tt')
