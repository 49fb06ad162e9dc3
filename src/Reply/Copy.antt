-- ===== src/Reply/Copy.antt =====
-- `Reply(redisReply*)` of cpp/src/Reply.cpp: what the copy keeps.
use codis_client.Prelude.{ℕ, ◌≡◌, ◌⊎◌, refl, ap₂, [], arith, ℤ, pos, Bytes}
use codis_client.Reply.{
  string_type, array_type, integer_type, nil_type, status_type, error_type, RedisReply,
  RedisReplies, redis_reply, Reply, Replies, reply, of_redis, of_redis_all, switch,
}

-- The `redisReply` with the fields of a `Reply`.
unfoldable mutual
  pub encode : Reply → RedisReply
  encode (reply e t s i es) = redis_reply t i s (encode_all es)

  pub encode_all : Replies → RedisReplies
  encode_all Replies.nil = RedisReplies.nil
  encode_all (Replies.cons r rs) = RedisReplies.cons (encode r) (encode_all rs)

-- The fields that a reply of a type does not use, as hiredis leaves them.
abbrev pub Fields : ℕ → ℤ → Bytes → RedisReplies → Type 0
Fields t i s es =
    ((t ≡ string_type) × (i ≡ pos 0) × (es ≡ RedisReplies.nil))
    ⊎ ((t ≡ status_type) × (i ≡ pos 0) × (es ≡ RedisReplies.nil))
    ⊎ ((t ≡ error_type) × (i ≡ pos 0) × (es ≡ RedisReplies.nil))
    ⊎ ((t ≡ integer_type) × (s ≡ []) × (es ≡ RedisReplies.nil))
    ⊎ ((t ≡ array_type) × (i ≡ pos 0) × (s ≡ []))
    ⊎ ((t ≡ nil_type) × (i ≡ pos 0) × (s ≡ []) × (es ≡ RedisReplies.nil))

abbrev mutual
  pub IsRedisReply : RedisReply → Type 0
  IsRedisReply (redis_reply t i s es) = Fields t i s es × AreRedisReplies es

  pub AreRedisReplies : RedisReplies → Type 0
  AreRedisReplies RedisReplies.nil = Unit {0}
  AreRedisReplies (RedisReplies.cons r rs) = IsRedisReply r × AreRedisReplies rs

encode-switch :
    (t : ℕ) (i : ℤ) (s : Bytes) (es : RedisReplies) (es' : Replies)
    → Fields t i s es
    → encode_all es' ≡ es
    → encode (switch t i s es') ≡ redis_reply t i s es
unfolding encode
encode-switch t i s es es' h e = ground arith

mutual
  unfolding of_redis encode

  encode-of_redis' : (r : RedisReply) → IsRedisReply r → encode (of_redis r) ≡ r
  encode-of_redis' (redis_reply t i s es) h =
      encode-switch t i s es (of_redis_all es) h.0 (encode_all-of_redis_all es h.1)

  encode_all-of_redis_all :
      (rs : RedisReplies) → AreRedisReplies rs → encode_all (of_redis_all rs) ≡ rs
  encode_all-of_redis_all RedisReplies.nil h = refl
  encode_all-of_redis_all (RedisReplies.cons r rs) h =
      ap₂ RedisReplies.cons (encode-of_redis' r h.0) (encode_all-of_redis_all rs h.1)

-- A `Reply` keeps the whole of the reply that it was made from, nested arrays included: for every
-- reply whose unused fields are empty, reading its fields back gives that reply.
pub encode-of_redis : (r : RedisReply) → IsRedisReply r → encode (of_redis r) ≡ r
encode-of_redis r h = encode-of_redis' r h
