-- ===== src/Methods/SortedSets.antt =====
-- The commands on sorted sets of cpp/src/CodisClient.cpp.
use codis_client.Prelude.{Bool, List, if◌then◌else◌, ℤ, Bytes, codes, bytes_eq}
use codis_client.Utils.{int2string, string2int}
use codis_client.Reply.{str}
use codis_client.Command.{Command, command, ◌◃◌}
use codis_client.Hiredis.{Hiredis}
use codis_client.Client.{ClientM}
use codis_client.Methods.{int_of, is_one, texts, ask}

module _ ⦃lib : Hiredis⦄ where
  unfoldable pub zadd : Bytes → ℤ → Bytes → ℤ → ClientM Bool
  zadd key score member tt' =
      ask (command (codes "ZADD") ◃ key ◃ (int2string score) ◃ member) tt' is_one

  unfoldable pub zrem : Bytes → Bytes → ℤ → ClientM Bool
  zrem key member tt' = ask (command (codes "ZREM") ◃ key ◃ member) tt' is_one

  unfoldable pub zincrby : Bytes → ℤ → Bytes → ℤ → ClientM ℤ
  zincrby key incr member tt' =
      ask (command (codes "ZINCRBY") ◃ key ◃ (int2string incr) ◃ member) tt'
        (λ rep. string2int (str rep))

  unfoldable pub zrank : Bytes → Bytes → ℤ → ClientM ℤ
  zrank key member tt' = ask (command (codes "ZRANK") ◃ key ◃ member) tt' int_of

  unfoldable pub zrevrank : Bytes → Bytes → ℤ → ClientM ℤ
  zrevrank key member tt' = ask (command (codes "ZREVRANK") ◃ key ◃ member) tt' int_of

  -- The four range commands: with the scores if `withscores` is "True".
  abbrev ask_range : Command → Bytes → ℤ → ClientM (List Bytes)
  ask_range c withscores tt' =
      if bytes_eq withscores (codes "True")
      then ask (c ◃ codes "withscores") tt' texts
      else ask c tt' texts

  unfoldable pub zrange : Bytes → ℤ → ℤ → Bytes → ℤ → ClientM (List Bytes)
  zrange key start end withscores tt' =
      ask_range (command (codes "ZRANGE") ◃ key ◃ int2string start ◃ int2string end) withscores tt'

  unfoldable pub zrevrange : Bytes → ℤ → ℤ → Bytes → ℤ → ClientM (List Bytes)
  zrevrange key start end withscores tt' =
      ask_range (command (codes "ZREVRANGE") ◃ key ◃ int2string start ◃ int2string end) withscores
        tt'

  unfoldable pub zrangebyscore : Bytes → Bytes → Bytes → Bytes → ℤ → ClientM (List Bytes)
  zrangebyscore key min max withscores tt' =
      ask_range (command (codes "ZRANGEBYSCORE") ◃ key ◃ min ◃ max) withscores tt'

  unfoldable pub zrevrangebyscore : Bytes → Bytes → Bytes → Bytes → ℤ → ClientM (List Bytes)
  zrevrangebyscore key min max withscores tt' =
      ask_range (command (codes "ZREVRANGEBYSCORE") ◃ key ◃ min ◃ max) withscores tt'

  unfoldable pub zcount : Bytes → ℤ → ℤ → ℤ → ClientM ℤ
  zcount key min max tt' =
      ask (command (codes "ZCOUNT") ◃ key ◃ (int2string min) ◃ (int2string max)) tt' int_of

  unfoldable pub zcard : Bytes → ℤ → ClientM ℤ
  zcard key tt' = ask (command (codes "ZCARD") ◃ key) tt' int_of

  unfoldable pub zscore : Bytes → Bytes → ℤ → ClientM ℤ
  zscore key member tt' =
      ask (command (codes "ZSCORE") ◃ key ◃ member) tt' (λ rep. string2int (str rep))

  unfoldable pub zremrangebyrank : Bytes → ℤ → ℤ → ℤ → ClientM ℤ
  zremrangebyrank key min max tt' =
      ask (command (codes "ZREMRANGEBYRANK") ◃ key ◃ (int2string min) ◃ (int2string max)) tt' int_of

  unfoldable pub zremrangebyscore : Bytes → ℤ → ℤ → ℤ → ClientM ℤ
  zremrangebyscore key min max tt' =
      ask (command (codes "ZREMRANGEBYSCORE") ◃ key ◃ (int2string min) ◃ (int2string max)) tt'
        int_of
