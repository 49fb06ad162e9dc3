-- ===== src/Methods/Keys.antt =====
-- The commands on keys of cpp/src/CodisClient.cpp.
use codis_client.Prelude.{Bool, List, ℤ, Bytes, codes}
use codis_client.Utils.{int2string}
use codis_client.Reply.{str}
use codis_client.Command.{command, ◌◃◌, add_args}
use codis_client.Hiredis.{Hiredis}
use codis_client.Client.{ClientM}
use codis_client.Methods.{int_of, is_one, ask}

module _ ⦃lib : Hiredis⦄ where
  unfoldable pub expire : Bytes → ℤ → ℤ → ClientM Bool
  expire key seconds tt' = ask (command (codes "EXPIRE") ◃ key ◃ (int2string seconds)) tt' is_one

  unfoldable pub exists : Bytes → ℤ → ClientM Bool
  exists key tt' = ask (command (codes "EXISTS") ◃ key) tt' is_one

  unfoldable pub del : Bytes → ℤ → ClientM ℤ
  del key tt' = ask (command (codes "DEL") ◃ key) tt' int_of

  -- `del(vector<string>&, int)`
  unfoldable pub del_all : List Bytes → ℤ → ClientM ℤ
  del_all keys tt' = ask (add_args (command (codes "DEL")) keys) tt' int_of

  -- `type`
  unfoldable pub type_of : Bytes → ℤ → ClientM Bytes
  type_of key tt' = ask (command (codes "TYPE") ◃ key) tt' str
