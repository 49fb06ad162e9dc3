-- ===== src/Methods/Lists.antt =====
-- The commands on lists of cpp/src/CodisClient.cpp.
use codis_client.Prelude.{Bool, List, ℤ, Bytes, codes}
use codis_client.Utils.{int2string}
use codis_client.Command.{command, ◌◃◌}
use codis_client.Run.{◌>>=◌}
use codis_client.Hiredis.{Hiredis}
use codis_client.Client.{ClientM}
use codis_client.Methods.{
  int_of, is_nonzero, is_ok, str_or_empty, texts, when_fits, ask, add_values,
}

module _ ⦃lib : Hiredis⦄ where
  unfoldable pub lpush : Bytes → Bytes → ℤ → ClientM ℤ
  lpush key value tt' = when_fits value (ask (command (codes "LPUSH") ◃ key ◃ value) tt' int_of)

  unfoldable pub rpush : Bytes → Bytes → ℤ → ClientM ℤ
  rpush key value tt' = when_fits value (ask (command (codes "RPUSH") ◃ key ◃ value) tt' int_of)

  -- `lpush(string, vector<string>, int)`
  unfoldable pub lpush_all : Bytes → List Bytes → ℤ → ClientM ℤ
  unfolding add_values
  lpush_all key values tt' = do
    c ← add_values (command (codes "LPUSH") ◃ key) values
    ask c tt' int_of

  -- `rpush(string, vector<string>, int)`
  unfoldable pub rpush_all : Bytes → List Bytes → ℤ → ClientM ℤ
  unfolding add_values
  rpush_all key values tt' = do
    c ← add_values (command (codes "RPUSH") ◃ key) values
    ask c tt' int_of

  unfoldable pub llen : Bytes → ℤ → ClientM ℤ
  llen key tt' = ask (command (codes "LLEN") ◃ key) tt' int_of

  unfoldable pub lrange : Bytes → ℤ → ℤ → ℤ → ClientM (List Bytes)
  lrange key start end tt' =
      ask (command (codes "LRANGE") ◃ key ◃ (int2string start) ◃ (int2string end)) tt' texts

  unfoldable pub ltrim : Bytes → ℤ → ℤ → ℤ → ClientM Bool
  ltrim key start end tt' =
      ask (command (codes "LTRIM") ◃ key ◃ (int2string start) ◃ (int2string end)) tt' is_ok

  unfoldable pub lset : Bytes → ℤ → Bytes → ℤ → ClientM Bool
  lset key index value tt' =
      when_fits value (ask (command (codes "LSET") ◃ key ◃ (int2string index) ◃ value) tt' is_ok)

  unfoldable pub lrem : Bytes → ℤ → Bytes → ℤ → ClientM Bool
  lrem key count value tt' =
      ask (command (codes "LREM") ◃ key ◃ (int2string count) ◃ value) tt' is_nonzero

  unfoldable pub lpop : Bytes → ℤ → ClientM Bytes
  lpop key tt' = ask (command (codes "LPOP") ◃ key) tt' str_or_empty

  unfoldable pub rpop : Bytes → ℤ → ClientM Bytes
  rpop key tt' = ask (command (codes "RPOP") ◃ key) tt' str_or_empty
