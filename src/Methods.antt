-- ===== src/Methods.antt =====
-- The methods of `CodisClient` (cpp/src/CodisClient.cpp) for the single commands, in the groups of
-- cpp/include/CodisClient.h: what they share. A method that stores a value refuses one of more than
-- 1 MiB, most of them before they send anything.
pub mod Keys
pub mod Strings
pub mod Lists
pub mod Sets
pub mod SortedSets
pub mod Hashes
pub mod Pairs
pub mod SizeLimit
pub mod Requests
pub mod Interface
pub mod Tame
pub mod Store
use codis_client.Prelude.{
  ℕ, Bool, true, false, not, List, [], ◌∷◌, length, ltb, if◌then◌else◌, ℤ, pos, int_eq, to_int,
  Bytes, codes, bytes_eq,
}
use codis_client.Reply.{Reply, error, str, integer, elements, strs}
use codis_client.Command.{Command, command, ◌◃◌}
use codis_client.Run.{M, pure, throw, ◌>>=◌, ◌>>◌}
use codis_client.Hiredis.{Hiredis}
use codis_client.Client.{ClientM, run_command}

-- `rep.integer()` as an `int`, and the tests `rep.integer() == 1` and `rep.integer()` as a `bool`.
abbrev pub int_of : Reply → ℤ
int_of rep = to_int (integer rep)

abbrev pub is_one : Reply → Bool
is_one rep = int_eq (integer rep) (pos 1)

abbrev pub is_nonzero : Reply → Bool
is_nonzero rep = not (int_eq (integer rep) (pos 0))

-- `rep.str() == "OK"`
abbrev pub is_ok : Reply → Bool
is_ok rep = bytes_eq (str rep) (codes "OK")

-- `rep.error() ? "" : rep.str()`
abbrev pub str_or_empty : Reply → Bytes
str_or_empty rep = if error rep then [] else str rep

-- `rep.error() ? 0 : rep.integer()`
abbrev pub int_or_zero : Reply → ℤ
int_or_zero rep = if error rep then pos 0 else int_of rep

-- The texts of the elements.
abbrev pub texts : Reply → List Bytes
texts rep = strs (elements rep)

abbrev pub max_length : ℕ
max_length = 1048576

-- `value.length() > 1048576`
abbrev pub too_big : Bytes → Bool
too_big value = ltb max_length (length value)

module _ ⦃lib : Hiredis⦄ where
  -- `if (value.length() > 1048576) throw myex;`
  abbrev pub when_fits : {A : Type 0} → Bytes → ClientM A → ClientM A
  when_fits value m = if too_big value then throw else m

  -- A command and what is read from the reply.
  abbrev pub ask : {A : Type 0} → Command → ℤ → (Reply → A) → ClientM A
  ask c tt' read = do rep ← run_command c tt'; pure (read rep)

  -- The loop that adds the values to a command, and throws at the first that is too long.
  unfoldable pub add_values : Command → List Bytes → ClientM Command
  add_values c [] = pure c
  add_values c (v ∷ vs) = when_fits v (add_values (c ◃ v) vs)
