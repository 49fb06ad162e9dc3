-- ===== src/Methods/Strings.antt =====
-- The commands on strings of cpp/src/CodisClient.cpp.
use codis_client.Prelude.{Bool, List, [], ◌∷◌, not, if◌then◌else◌, ℤ, pos, Bytes, codes}
use codis_client.Utils.{int2string}
use codis_client.Reply.{error, integer}
use codis_client.Command.{Command, command, ◌◃◌, add_args}
use codis_client.Run.{pure, ◌>>=◌}
use codis_client.Hiredis.{Hiredis}
use codis_client.Client.{ClientM}
use codis_client.Methods.{int_of, is_one, is_ok, str_or_empty, int_or_zero, texts, when_fits, ask}

module _ ⦃lib : Hiredis⦄ where
  unfoldable pub set : Bytes → Bytes → ℤ → ClientM Bool
  set key value tt' = when_fits value (ask (command (codes "SET") ◃ key ◃ value) tt' is_ok)

  unfoldable pub setnx : Bytes → Bytes → ℤ → ClientM Bool
  setnx key value tt' = when_fits value (ask (command (codes "SETNX") ◃ key ◃ value) tt' is_one)

  unfoldable pub setex : Bytes → Bytes → ℤ → ℤ → ClientM Bool
  setex key value seconds tt' =
      when_fits value (ask (command (codes "SETEX") ◃ key ◃ (int2string seconds) ◃ value) tt' is_ok)

  unfoldable pub get : Bytes → ℤ → ClientM Bytes
  get key tt' = ask (command (codes "GET") ◃ key) tt' str_or_empty

  unfoldable pub getset : Bytes → Bytes → ℤ → ClientM Bytes
  getset key value tt' =
      when_fits value (ask (command (codes "GETSET") ◃ key ◃ value) tt' str_or_empty)

  unfoldable pub setbit : Bytes → ℤ → Bool → ℤ → ClientM ℤ
  setbit key index bit tt' =
      ask
        (command (codes "SETBIT")
          ◃ key
          ◃ (int2string index)
          ◃ (int2string (if bit then pos 1 else pos 0)))
        tt' int_of

  unfoldable pub getbit : Bytes → ℤ → ℤ → ClientM ℤ
  getbit key index tt' = ask (command (codes "GETBIT") ◃ key ◃ (int2string index)) tt' int_of

  unfoldable pub bitcount : Bytes → ℤ → ClientM ℤ
  bitcount key tt' = ask (command (codes "BITCOUNT") ◃ key) tt' int_of

  unfoldable pub mget : List Bytes → ℤ → ClientM (List Bytes)
  mget keys tt' =
      ask (add_args (command (codes "MGET")) keys) tt' λ rep. if error rep then [] else texts rep

  -- The loop of `mset` over the map, in the order of its keys.
  unfoldable pub add_pairs : Command → List (Bytes × Bytes) → ClientM Command
  add_pairs c [] = pure c
  add_pairs c ((k, v) ∷ kvs) = when_fits v (add_pairs (c ◃ k ◃ v) kvs)

  unfoldable pub mset : List (Bytes × Bytes) → ℤ → ClientM Bool
  unfolding add_pairs
  mset keyvalues tt' = do
    c ← add_pairs (command (codes "MSET")) keyvalues
    ask c tt' λ rep. not (error rep)

  unfoldable pub incr : Bytes → ℤ → ClientM ℤ
  incr key tt' = ask (command (codes "INCR") ◃ key) tt' int_or_zero

  unfoldable pub decr : Bytes → ℤ → ClientM ℤ
  decr key tt' = ask (command (codes "DECR") ◃ key) tt' int_or_zero

  unfoldable pub incrby : Bytes → ℤ → ℤ → ClientM ℤ
  incrby key amount tt' = ask (command (codes "INCRBY") ◃ key ◃ (int2string amount)) tt' int_or_zero

  unfoldable pub decrby : Bytes → ℤ → ℤ → ClientM ℤ
  decrby key amount tt' = ask (command (codes "DECRBY") ◃ key ◃ (int2string amount)) tt' int_or_zero

  unfoldable pub append : Bytes → Bytes → ℤ → ClientM ℤ
  append key value tt' = when_fits value (ask (command (codes "APPEND") ◃ key ◃ value) tt' integer)
