-- ===== src/BfdCodis/Values.antt =====
-- The methods of `BfdCodis` (cpp/src/BfdCodis.cpp) on keys and strings.
use codis_client.Prelude.{Bool, List, ℤ, Bytes}
use codis_client.Hiredis.{Hiredis}
use codis_client.BfdCodis.{BfdM, forward}
use codis_client.Methods.Keys
use codis_client.Methods.Strings

module _ ⦃lib : Hiredis⦄ where
  unfoldable pub expire : Bytes → ℤ → ℤ → BfdM Bool
  expire key seconds tt' = forward (Keys.expire key seconds tt')

  unfoldable pub exists : Bytes → ℤ → BfdM Bool
  exists key tt' = forward (Keys.exists key tt')

  unfoldable pub del : Bytes → ℤ → BfdM ℤ
  del key tt' = forward (Keys.del key tt')

  unfoldable pub del_all : List Bytes → ℤ → BfdM ℤ
  del_all keys tt' = forward (Keys.del_all keys tt')

  unfoldable pub type_of : Bytes → ℤ → BfdM Bytes
  type_of key tt' = forward (Keys.type_of key tt')

  unfoldable pub set : Bytes → Bytes → ℤ → BfdM Bool
  set key value tt' = forward (Strings.set key value tt')

  unfoldable pub setnx : Bytes → Bytes → ℤ → BfdM Bool
  setnx key value tt' = forward (Strings.setnx key value tt')

  unfoldable pub setex : Bytes → Bytes → ℤ → ℤ → BfdM Bool
  setex key value seconds tt' = forward (Strings.setex key value seconds tt')

  unfoldable pub get : Bytes → ℤ → BfdM Bytes
  get key tt' = forward (Strings.get key tt')

  unfoldable pub getset : Bytes → Bytes → ℤ → BfdM Bytes
  getset key value tt' = forward (Strings.getset key value tt')

  unfoldable pub setbit : Bytes → ℤ → Bool → ℤ → BfdM ℤ
  setbit key index bit tt' = forward (Strings.setbit key index bit tt')

  unfoldable pub getbit : Bytes → ℤ → ℤ → BfdM ℤ
  getbit key index tt' = forward (Strings.getbit key index tt')

  unfoldable pub bitcount : Bytes → ℤ → BfdM ℤ
  bitcount key tt' = forward (Strings.bitcount key tt')

  unfoldable pub mget : List Bytes → ℤ → BfdM (List Bytes)
  mget keys tt' = forward (Strings.mget keys tt')

  unfoldable pub mset : List (Bytes × Bytes) → ℤ → BfdM Bool
  mset keyvalues tt' = forward (Strings.mset keyvalues tt')

  unfoldable pub incr : Bytes → ℤ → BfdM ℤ
  incr key tt' = forward (Strings.incr key tt')

  unfoldable pub decr : Bytes → ℤ → BfdM ℤ
  decr key tt' = forward (Strings.decr key tt')

  unfoldable pub incrby : Bytes → ℤ → ℤ → BfdM ℤ
  incrby key amount tt' = forward (Strings.incrby key amount tt')

  unfoldable pub decrby : Bytes → ℤ → ℤ → BfdM ℤ
  decrby key amount tt' = forward (Strings.decrby key amount tt')

  unfoldable pub append : Bytes → Bytes → ℤ → BfdM ℤ
  append key value tt' = forward (Strings.append key value tt')
