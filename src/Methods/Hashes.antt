-- ===== src/Methods/Hashes.antt =====
-- The commands on hashes of cpp/src/CodisClient.cpp.
use codis_client.Prelude.{
  Bool, true, false, List, [], ◌∷◌, ◌++◌, not, ◌==◌, length, if◌then◌else◌, ℤ, Bytes, codes,
}
use codis_client.Utils.{int2string}
use codis_client.Reply.{Replies, error, str, elements}
use codis_client.Command.{Command, command, ◌◃◌, add_args}
use codis_client.Run.{pure, ◌>>=◌}
use codis_client.Hiredis.{Hiredis}
use codis_client.Client.{ClientM, run_command}
use codis_client.Methods.{int_of, is_one, is_nonzero, is_ok, str_or_empty, texts, when_fits, ask}

-- `for (i = 1; i < elements().size(); i += 2)`: what is pushed to the two vectors.
unfoldable pub read_pairs : Replies → List Bytes → List Bytes → List Bytes × List Bytes
read_pairs (Replies.cons f (Replies.cons v rest)) fields values =
    read_pairs rest (fields ++ str f ∷ []) (values ++ str v ∷ [])
read_pairs es fields values = (fields, values)

module _ ⦃lib : Hiredis⦄ where
  unfoldable pub hset : Bytes → Bytes → Bytes → ℤ → ClientM Bool
  hset key field value tt' =
      when_fits value (ask (command (codes "HSET") ◃ key ◃ field ◃ value) tt' is_nonzero)

  unfoldable pub hget : Bytes → Bytes → ℤ → ClientM Bytes
  hget key field tt' = ask (command (codes "HGET") ◃ key ◃ field) tt' str_or_empty

  unfoldable pub hmget : Bytes → List Bytes → ℤ → ClientM (List Bytes)
  hmget key fields tt' = ask (add_args (command (codes "HMGET") ◃ key) fields) tt' texts

  -- The loop of `hmset`, which runs over both lists at once.
  unfoldable pub add_fields : Command → List Bytes → List Bytes → ClientM Command
  add_fields c [] vs = pure c
  add_fields c (f ∷ fs) [] = pure c
  add_fields c (f ∷ fs) (v ∷ vs) = when_fits v (add_fields (c ◃ f ◃ v) fs vs)

  unfoldable pub hmset : Bytes → List Bytes → List Bytes → ℤ → ClientM Bool
  unfolding add_fields
  hmset key fields values tt' =
      if not (length fields == length values)
      then pure false
      else if length fields == 0
      then pure false
      else do c ← add_fields (command (codes "HMSET") ◃ key) fields values; ask c tt' is_ok

  unfoldable pub hincrby : Bytes → Bytes → ℤ → ℤ → ClientM ℤ
  hincrby key field incr tt' =
      ask (command (codes "HINCRBY") ◃ key ◃ field ◃ (int2string incr)) tt' int_of

  unfoldable pub hexists : Bytes → Bytes → ℤ → ClientM Bool
  hexists key field tt' = ask (command (codes "HEXISTS") ◃ key ◃ field) tt' is_one

  unfoldable pub hdel : Bytes → Bytes → ℤ → ClientM Bool
  hdel key field tt' = ask (command (codes "HDEL") ◃ key ◃ field) tt' is_one

  unfoldable pub hlen : Bytes → ℤ → ClientM ℤ
  hlen key tt' = ask (command (codes "HLEN") ◃ key) tt' int_of

  unfoldable pub hkeys : Bytes → ℤ → ClientM (List Bytes)
  hkeys key tt' = ask (command (codes "HKEYS") ◃ key) tt' texts

  unfoldable pub hvals : Bytes → ℤ → ClientM (List Bytes)
  hvals key tt' = ask (command (codes "HVALS") ◃ key) tt' texts

  -- `fields` and `values` are appended to.
  unfoldable pub hgetall :
      Bytes → List Bytes → List Bytes → ℤ → ClientM (Bool × List Bytes × List Bytes)
  unfolding read_pairs
  hgetall key fields values tt' = do
    rep ← run_command (command (codes "HGETALL") ◃ key) tt'
    if error rep
        then pure (false, fields, values)
        else let (fs, vs) = read_pairs (elements rep) fields values in pure (true, fs, vs)
