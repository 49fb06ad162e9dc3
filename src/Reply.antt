-- ===== src/Reply.antt =====
-- cpp/include/Reply.h and cpp/src/Reply.cpp, with the `redisReply` of cpp/3party/include/hiredis/hiredis.h
-- that a `Reply` copies. A text carries its length, and every pointer of `element` leads to a reply.
pub mod Copy
use codis_client.Prelude.{
  ℕ, Bool, true, false, ◌||◌, List, [], ◌∷◌, ◌==◌, if◌then◌else◌, ℤ, pos, Bytes,
}

-- The values of `type`, the same in both types.
abbrev pub string_type : ℕ
string_type = 1

abbrev pub array_type : ℕ
array_type = 2

abbrev pub integer_type : ℕ
integer_type = 3

abbrev pub nil_type : ℕ
nil_type = 4

abbrev pub status_type : ℕ
status_type = 5

abbrev pub error_type : ℕ
error_type = 6

-- `redisReply`: type, integer, text and elements.
mutual
  pub data RedisReply : Type 0 where
    redis_reply : ℕ → ℤ → Bytes → RedisReplies → RedisReply

  pub data RedisReplies : Type 0 where
    nil : RedisReplies
    cons : RedisReply → RedisReplies → RedisReplies

-- `Reply`: error_, type_, str_, integer_ and elements_.
mutual
  pub data Reply : Type 0 where
    reply : Bool → ℕ → Bytes → ℤ → Replies → Reply

  pub data Replies : Type 0 where
    nil : Replies
    cons : Reply → Replies → Replies

abbrev pub error : Reply → Bool
error (reply e t s i es) = e

abbrev pub type : Reply → ℕ
type (reply e t s i es) = t

abbrev pub str : Reply → Bytes
str (reply e t s i es) = s

abbrev pub integer : Reply → ℤ
integer (reply e t s i es) = i

abbrev pub elements : Reply → Replies
elements (reply e t s i es) = es

-- `Reply()`.
abbrev pub empty_reply : Reply
empty_reply = reply true error_type [] (pos 0) Replies.nil

abbrev pub set_error_message : Bytes → Reply → Reply
set_error_message message (reply e t s i es) = reply true t message i es

-- What `Reply(redisReply*)` makes of the type, the integer, the text and the copied elements: `ERROR`
-- falls through to the copy of the text.
abbrev pub switch : ℕ → ℤ → Bytes → Replies → Reply
switch t i s es =
    if t == error_type
    then reply true t s (pos 0) Replies.nil
    else if (t == string_type) || (t == status_type)
    then reply false t s (pos 0) Replies.nil
    else if t == integer_type
    then reply false t [] i Replies.nil
    else if t == array_type
    then reply false t [] (pos 0) es
    else reply false t [] (pos 0) Replies.nil

-- `Reply(redisReply*)`.
unfoldable mutual
  pub of_redis : RedisReply → Reply
  of_redis (redis_reply t i s es) = switch t i s (of_redis_all es)

  pub of_redis_all : RedisReplies → Replies
  of_redis_all RedisReplies.nil = Replies.nil
  of_redis_all (RedisReplies.cons r rs) = Replies.cons (of_redis r) (of_redis_all rs)

-- `for (i …) values.push_back(elements()[i].str())`.
unfoldable pub strs : Replies → List Bytes
strs Replies.nil = []
strs (Replies.cons r rs) = str r ∷ strs rs
