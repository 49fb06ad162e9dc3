-- ===== src/Methods/SizeLimit.antt =====
-- The methods of `CodisClient` (cpp/src/CodisClient.cpp) that send one value, and the limit on its length.
use codis_client.Prelude.{
  ◌≡◌, ◌<◌, ◌≤◌, ◌^◌, refl, ◌⊎◌, inl, inr, List, [], ◌∷◌, Bool-cases, length, ltb→lt, ltb→le, ℤ,
  Bytes, codes,
}
use codis_client.Reply.{Reply, integer}
use codis_client.Command.{Command}
use codis_client.Utils.{int2string}
use codis_client.Run.{Run, thrown, pure, and_then}
use codis_client.Hiredis.{Hiredis, State}
use codis_client.Client.{Client, redis_command}
use codis_client.Methods.{
  max_length, too_big, ask, when_fits, is_ok, is_one, is_nonzero, int_of, str_or_empty,
}
use codis_client.Methods.Strings
use codis_client.Methods.Lists
use codis_client.Methods.Hashes

module _ ⦃lib : Hiredis⦄ where
  -- The code throws, and has changed nothing, if the value is longer than 1 MiB; otherwise it does what
  -- `RedisCommand` does with these arguments, and reads the reply.
  abbrev pub Limits :
      {A : Type 0}
      → List Bytes
      → Bytes
      → ℤ
      → (Reply → A)
      → State Client lib.World
      → Run (State Client lib.World) A
      → Type 0
  Limits args value tt' read s r =
      ((2 ^ 20 < length value) × (r ≡ thrown s))
      ⊎ ((length value ≤ 2 ^ 20)
          × (r ≡ and_then (redis_command args tt' s) (λ rep. pure (read rep))))

  when_fits-Limits :
      {A : Type 0} (value : Bytes) (c : Command) (tt' : ℤ) (read : Reply → A)
      (s : State Client lib.World)
      → Limits c.args value tt' read s (when_fits value (ask c tt' read) s)
  when_fits-Limits value c tt' read s = elim (Bool-cases (too_big value)) [
    | inl big ↦ inl (ltb→lt max_length (length value) big, rw big refl)
    | inr fits ↦ inr (ltb→le max_length (length value) fits, rw fits refl)
  ]

  -- The nine methods that send one value throw, before anything is sent or changed, if it is longer than
  -- 1048576 bytes; with any other value they do what `RedisCommand` does with the command of that name and its
  -- arguments, in this order, and return what they read from the reply.
  pub stores-Limits :
      (key value field : Bytes) (i tt' : ℤ) (s : State Client lib.World)
      → Limits (codes "SET" ∷ key ∷ value ∷ []) value tt' is_ok s (Strings.set key value tt' s)
        × Limits
            (codes "SETNX" ∷ key ∷ value ∷ [])
            value
            tt'
            is_one
            s
            (Strings.setnx key value tt' s)
        × Limits
            (codes "SETEX" ∷ key ∷ int2string i ∷ value ∷ [])
            value
            tt'
            is_ok
            s
            (Strings.setex key value i tt' s)
        × Limits
            (codes "GETSET" ∷ key ∷ value ∷ [])
            value
            tt'
            str_or_empty
            s
            (Strings.getset key value tt' s)
        × Limits
            (codes "APPEND" ∷ key ∷ value ∷ [])
            value
            tt'
            integer
            s
            (Strings.append key value tt' s)
        × Limits (codes "LPUSH" ∷ key ∷ value ∷ []) value tt' int_of s (Lists.lpush key value tt' s)
        × Limits (codes "RPUSH" ∷ key ∷ value ∷ []) value tt' int_of s (Lists.rpush key value tt' s)
        × Limits
            (codes "LSET" ∷ key ∷ int2string i ∷ value ∷ [])
            value
            tt'
            is_ok
            s
            (Lists.lset key i value tt' s)
        × Limits
            (codes "HSET" ∷ key ∷ field ∷ value ∷ [])
            value
            tt'
            is_nonzero
            s
            (Hashes.hset key field value tt' s)
  unfolding Strings.set Strings.setnx Strings.setex Strings.getset Strings.append Lists.lpush
      Lists.rpush Lists.lset Hashes.hset
  stores-Limits key value field i tt' s = (
    when_fits-Limits value _ tt' _ s,
    when_fits-Limits value _ tt' _ s,
    when_fits-Limits value _ tt' _ s,
    when_fits-Limits value _ tt' _ s,
    when_fits-Limits value _ tt' _ s,
    when_fits-Limits value _ tt' _ s,
    when_fits-Limits value _ tt' _ s,
    when_fits-Limits value _ tt' _ s,
    when_fits-Limits value _ tt' _ s,
  )
