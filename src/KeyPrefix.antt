-- ===== src/KeyPrefix.antt =====
-- The loop of `CodisClient::RedisCommand` (cpp/src/CodisClient.cpp) that puts the business ID in front
-- of the keys of a command.
pub mod Wire
pub mod Isolation
use codis_client.Prelude.{
  ℕ, suc, ◌%◌, Bool, not, ◌&&◌, ◌||◌, List, [], ◌∷◌, ◌++◌, ltb, ◌==◌, if◌then◌else◌, Bytes, codes,
  bytes_eq,
}

-- `m_BID + "_" + key`
abbrev pub prefixed : Bytes → Bytes → Bytes
prefixed bid key = bid ++ (codes "_" ++ key)

abbrev pub is_name : Bytes → Bytes → Bytes → Bool
is_name upper lower name = bytes_eq name upper || bytes_eq name lower

-- What the round `i` pushes for `command[i]`, `name` being `command[0]`.
unfoldable pub inner_arg : Bytes → Bytes → ℕ → Bytes → Bytes
inner_arg bid name i arg =
    if is_name (codes "MGET") (codes "mget") name
    then if not (bytes_eq bid []) && ltb 0 i then prefixed bid arg else arg
    else if is_name (codes "MSET") (codes "mset") name
    then if not (bytes_eq bid []) && (i % 2 == 1) then prefixed bid arg else arg
    else if is_name (codes "DEL") (codes "del") name
    then if not (bytes_eq bid []) && ltb 0 i then prefixed bid arg else arg
    else if (i == 1) && not (bytes_eq bid [])
    then prefixed bid arg
    else arg

-- The rounds from `i` on.
unfoldable pub inner_rounds : Bytes → Bytes → ℕ → List Bytes → List Bytes
unfolding inner_arg
inner_rounds bid name i [] = []
inner_rounds bid name i (arg ∷ rest) = inner_arg bid name i arg ∷ inner_rounds bid name (suc i) rest

unfoldable pub inner_command : Bytes → List Bytes → List Bytes
unfolding inner_rounds
inner_command bid [] = []
inner_command bid (name ∷ args) = inner_rounds bid name 0 (name ∷ args)
