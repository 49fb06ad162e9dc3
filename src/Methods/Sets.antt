-- ===== src/Methods/Sets.antt =====
-- The commands on sets of cpp/src/CodisClient.cpp.
use codis_client.Prelude.{Bool, List, ℤ, Bytes, codes}
use codis_client.Command.{command, ◌◃◌, add_args}
use codis_client.Hiredis.{Hiredis}
use codis_client.Client.{ClientM}
use codis_client.Methods.{int_of, is_one, str_or_empty, texts, ask}

module _ ⦃lib : Hiredis⦄ where
  unfoldable pub sadd : Bytes → Bytes → ℤ → ClientM Bool
  sadd key member tt' = ask (command (codes "SADD") ◃ key ◃ member) tt' is_one

  -- `sadd(string, vector<string>, int)`
  unfoldable pub sadd_all : Bytes → List Bytes → ℤ → ClientM ℤ
  sadd_all key members tt' = ask (add_args (command (codes "SADD") ◃ key) members) tt' int_of

  unfoldable pub srem : Bytes → Bytes → ℤ → ClientM Bool
  srem key member tt' = ask (command (codes "SREM") ◃ key ◃ member) tt' is_one

  unfoldable pub spop : Bytes → ℤ → ClientM Bytes
  spop key tt' = ask (command (codes "SPOP") ◃ key) tt' str_or_empty

  unfoldable pub srandmember : Bytes → ℤ → ClientM Bytes
  srandmember key tt' = ask (command (codes "SRANDMEMBER") ◃ key) tt' str_or_empty

  unfoldable pub scard : Bytes → ℤ → ClientM ℤ
  scard key tt' = ask (command (codes "SCARD") ◃ key) tt' int_of

  unfoldable pub sismember : Bytes → Bytes → ℤ → ClientM Bool
  sismember key member tt' = ask (command (codes "SISMEMBER") ◃ key ◃ member) tt' is_one

  unfoldable pub smembers : Bytes → ℤ → ClientM (List Bytes)
  smembers key tt' = ask (command (codes "SMEMBERS") ◃ key) tt' texts
