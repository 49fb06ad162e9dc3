-- ===== src/KeyPrefix/Wire.antt =====
-- Which arguments of a command are keys, as `CodisClient::RedisCommand` has it: an independent
-- description, and the proof that the loop meets it.
use codis_client.Prelude.{
  ℕ, suc, ◌<◌, ◌%◌, ◌≡◌, refl, ap₂, List, [], ◌∷◌, map, arith, ◌==◌, if◌then◌else◌, Bytes, codes,
  bytes_eq,
}
use codis_client.KeyPrefix.{prefixed, is_name, inner_arg, inner_rounds, inner_command}

-- A key as it is sent: with no business ID it stays as it is.
abbrev pub with_bid : Bytes → Bytes → Bytes
with_bid [] key = key
with_bid (b ∷ bid) key = prefixed (b ∷ bid) key

-- Every argument is a key, every second one is, or the first.
pub data Keys : Type 0 where
  every alternate first : Keys

abbrev pub keys_of : Bytes → Keys
keys_of name =
    if is_name (codes "MGET") (codes "mget") name
    then every
    else if is_name (codes "MSET") (codes "mset") name
    then alternate
    else if is_name (codes "DEL") (codes "del") name
    then every
    else first

unfoldable pub map_alternate : (Bytes → Bytes) → List Bytes → List Bytes
map_alternate f [] = []
map_alternate f (k ∷ []) = f k ∷ []
map_alternate f (k ∷ v ∷ rest) = f k ∷ v ∷ map_alternate f rest

abbrev pub map_keys : Keys → (Bytes → Bytes) → List Bytes → List Bytes
map_keys every f args = map f args
map_keys alternate f args = map_alternate f args
map_keys first f [] = []
map_keys first f (k ∷ rest) = f k ∷ rest

inner_arg_head : (bid name arg : Bytes) → inner_arg bid name 0 arg ≡ arg
unfolding inner_arg
inner_arg_head bid name arg = ground arith

inner_arg_every :
    (bid name : Bytes) (i : ℕ) (arg : Bytes)
    → keys_of name ≡ every
    → inner_arg bid name (suc i) arg ≡ with_bid bid arg
unfolding inner_arg bytes_eq
inner_arg_every [] name i arg h = ground arith
inner_arg_every (b ∷ bid) name i arg h = ground arith

inner_arg_alternate :
    (bid name : Bytes) (i : ℕ) (arg : Bytes)
    → keys_of name ≡ alternate
    → inner_arg bid name i arg ≡ (if i % 2 == 1 then with_bid bid arg else arg)
unfolding inner_arg bytes_eq
inner_arg_alternate [] name i arg h = ground arith
inner_arg_alternate (b ∷ bid) name i arg h = ground arith

inner_arg_first :
    (bid name : Bytes) (i : ℕ) (arg : Bytes)
    → keys_of name ≡ first
    → inner_arg bid name i arg ≡ (if i == 1 then with_bid bid arg else arg)
unfolding inner_arg bytes_eq
inner_arg_first [] name i arg h = ground arith
inner_arg_first (b ∷ bid) name i arg h = ground arith

inner_rounds_every :
    (bid name : Bytes) (i : ℕ) (args : List Bytes)
    → keys_of name ≡ every
    → inner_rounds bid name (suc i) args ≡ map (with_bid bid) args
unfolding inner_rounds
inner_rounds_every bid name i [] h = refl
inner_rounds_every bid name i (a ∷ args) h =
    ap₂ ◌∷◌ (inner_arg_every bid name i a h) (inner_rounds_every bid name (suc i) args h)

inner_rounds_alternate :
    (bid name : Bytes) (i : ℕ) (args : List Bytes)
    → keys_of name ≡ alternate
    → i % 2 ≡ 1
    → inner_rounds bid name i args ≡ map_alternate (with_bid bid) args
unfolding inner_rounds map_alternate
inner_rounds_alternate bid name i [] h odd = refl
inner_rounds_alternate bid name i (k ∷ []) h odd =
    ground (arith, inner_arg_alternate bid name i k h)
inner_rounds_alternate bid name i (k ∷ v ∷ rest) h odd = ground (
  arith,
  inner_arg_alternate bid name i k h,
  inner_arg_alternate bid name (suc i) v h,
  inner_rounds_alternate bid name (suc (suc i)) rest h (omega arith),
)

inner_rounds_rest :
    (bid name : Bytes) (i : ℕ) (args : List Bytes)
    → keys_of name ≡ first
    → 1 < i
    → inner_rounds bid name i args ≡ args
unfolding inner_rounds
inner_rounds_rest bid name i [] h late = refl
inner_rounds_rest bid name i (a ∷ args) h late =
    ground (
      arith,
      inner_arg_first bid name i a h,
      inner_rounds_rest bid name (suc i) args h (omega arith),
    )

inner_rounds_keys :
    (bid name : Bytes) (args : List Bytes) (k : Keys)
    → keys_of name ≡ k
    → inner_rounds bid name 1 args ≡ map_keys k (with_bid bid) args
unfolding inner_rounds
inner_rounds_keys bid name args every h = inner_rounds_every bid name 0 args h
inner_rounds_keys bid name args alternate h = inner_rounds_alternate bid name 1 args h refl
inner_rounds_keys bid name [] first h = refl
inner_rounds_keys bid name (a ∷ args) first h =
    ap₂ ◌∷◌ (inner_arg_first bid name 1 a h) (inner_rounds_rest bid name 2 args h (omega arith))

-- For every command with a name, exactly its keys get the business ID: all arguments of `MGET` and
-- `DEL`, the first of each pair of `MSET`, and the first argument of any other command; the name,
-- and everything where the business ID is empty, stays as it is.
pub inner_command-map_keys :
    (bid name : Bytes) (args : List Bytes)
    → inner_command bid (name ∷ args) ≡ name ∷ map_keys (keys_of name) (with_bid bid) args
unfolding inner_command
inner_command-map_keys bid name args =
    ap₂ ◌∷◌ (inner_arg_head bid name name) (inner_rounds_keys bid name args (keys_of name) refl)
