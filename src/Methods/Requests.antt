-- ===== src/Methods/Requests.antt =====
-- What the methods of `CodisClient` (cpp/src/CodisClient.cpp) that take several keys or several fields
-- send: their loops and the prefixing of `RedisCommand` together.
use codis_client.Prelude.{
  ◌≡◌, ◌≢◌, refl, sym, ap, subst, ◌∙◌, ◌⊎◌, inl, inr, Bool, true, false, not, ◌||◌, List, [], ◌∷◌,
  ◌++◌, append_assoc, append-nil, arith, length, ltb, ◌==◌, ==_iff, ==_ne, Bool-cases, ℤ, Bytes,
  codes, bytes_eq,
}
use codis_client.Reply.{error}
use codis_client.Command.{Command, command, ◌◃◌}
use codis_client.KeyPrefix.Wire.{with_bid, map_keys, keys_of, map_alternate, inner_command-map_keys}
use codis_client.Run.{M, ok, thrown, pure, and_then}
use codis_client.Hiredis.{Hiredis, State}
use codis_client.Client.{Client, redis_command, send}
use codis_client.Methods.{too_big, is_ok}
use codis_client.Methods.Strings.{add_pairs, mset}
use codis_client.Methods.Hashes.{add_fields, hmset}

-- Keys and values in turn.
unfoldable pub flat : List (Bytes × Bytes) → List Bytes
flat [] = []
flat ((k, v) ∷ kvs) = k ∷ v ∷ flat kvs

unfoldable pub interleave : List Bytes → List Bytes → List Bytes
interleave [] vs = []
interleave (f ∷ fs) [] = []
interleave (f ∷ fs) (v ∷ vs) = f ∷ v ∷ interleave fs vs

-- Some value is too long.
unfoldable pub any_too_big : List Bytes → Bool
any_too_big [] = false
any_too_big (v ∷ vs) = too_big v || any_too_big vs

pub values_of : List (Bytes × Bytes) → List Bytes
values_of [] = []
values_of ((k, v) ∷ kvs) = v ∷ values_of kvs

-- The keys with the business ID.
unfoldable pub on_keys : (Bytes → Bytes) → List (Bytes × Bytes) → List (Bytes × Bytes)
on_keys f [] = []
on_keys f ((k, v) ∷ kvs) = (f k, v) ∷ on_keys f kvs

map_alternate-flat :
    (f : Bytes → Bytes) (kvs : List (Bytes × Bytes))
    → map_alternate f (flat kvs) ≡ flat (on_keys f kvs)
unfolding map_alternate flat on_keys
map_alternate-flat f [] = refl
map_alternate-flat f ((k, v) ∷ kvs) = ap (λ r. f k ∷ v ∷ r) (map_alternate-flat f kvs)

three :
    (xs : List Bytes) (a b : Bytes) (ys : List Bytes)
    → ((xs ++ a ∷ []) ++ b ∷ []) ++ ys ≡ xs ++ a ∷ b ∷ ys
three xs a b ys = simp append_assoc

module _ ⦃lib : Hiredis⦄ where
  redis_command-send :
      (name key : Bytes) (rest : List Bytes) (tt' : ℤ) (s : State Client lib.World)
      → redis_command (name ∷ key ∷ rest) tt' s
        ≡ send (name ∷ map_keys (keys_of name) (with_bid s.object.bid) (key ∷ rest)) tt' s
  unfolding redis_command
  redis_command-send name key rest tt' s =
      let long : ltb (length (name ∷ key ∷ rest)) 2 ≡ false = ground arith in
      rw long (ap (λ a. send a tt' s) (inner_command-map_keys s.object.bid name (key ∷ rest)))

  add_pairs-flat :
      (c : Command) (kvs : List (Bytes × Bytes)) (s : State Client lib.World)
      → ((any_too_big (values_of kvs) ≡ true) × (add_pairs c kvs s ≡ thrown s))
        ⊎ ((any_too_big (values_of kvs) ≡ false)
            × (add_pairs c kvs s ≡ ok (record { args = c.args ++ flat kvs }) s))
  unfolding add_pairs any_too_big values_of flat
  add_pairs-flat c [] s = inr (refl, ap (λ a. ok (record { args = a }) s) (sym (append-nil c.args)))
  add_pairs-flat c ((k, v) ∷ kvs) s = elim (Bool-cases (too_big v)) [
    | inl big ↦ rw big (inl (refl, refl))
    | inr fits ↦ rw fits (
        subst
          (λ xs.
            ((any_too_big (values_of kvs) ≡ true) × (add_pairs (c ◃ k ◃ v) kvs s ≡ thrown s))
            ⊎ ((any_too_big (values_of kvs) ≡ false)
                × (add_pairs (c ◃ k ◃ v) kvs s ≡ ok (record { args = xs }) s)))
          (three c.args k v (flat kvs)) (add_pairs-flat (c ◃ k ◃ v) kvs s))
  ]

  add_fields-interleave :
      (c : Command) (fs vs : List Bytes) (s : State Client lib.World)
      → length fs ≡ length vs
      → ((any_too_big vs ≡ true) × (add_fields c fs vs s ≡ thrown s))
        ⊎ ((any_too_big vs ≡ false)
            × (add_fields c fs vs s ≡ ok (record { args = c.args ++ interleave fs vs }) s))
  unfolding add_fields any_too_big interleave
  add_fields-interleave c [] [] s e =
      inr (refl, ap (λ a. ok (record { args = a }) s) (sym (append-nil c.args)))
  add_fields-interleave c [] (v ∷ vs) s e = absurd (omega arith)
  add_fields-interleave c (f ∷ fs) [] s e = absurd (omega arith)
  add_fields-interleave c (f ∷ fs) (v ∷ vs) s e = elim (Bool-cases (too_big v)) [
    | inl big ↦ rw big (inl (refl, refl))
    | inr fits ↦ rw fits (
        subst
          (λ xs.
            ((any_too_big vs ≡ true) × (add_fields (c ◃ f ◃ v) fs vs s ≡ thrown s))
            ⊎ ((any_too_big vs ≡ false)
                × (add_fields (c ◃ f ◃ v) fs vs s ≡ ok (record { args = xs }) s)))
          (three c.args f v (interleave fs vs))
          (add_fields-interleave (c ◃ f ◃ v) fs vs s (omega arith)))
  ]

  -- For a map with at least one entry, `mset` throws, with nothing sent and nothing changed, if some
  -- value is longer than 1 MiB; otherwise it sends one `MSET` of every key with the business ID, each
  -- before its value as it is, and says whether the reply is no error.
  pub mset-cases :
      (k v : Bytes) (rest : List (Bytes × Bytes)) (tt' : ℤ) (s : State Client lib.World)
      → let kvs = (k, v) ∷ rest in
        ((any_too_big (values_of kvs) ≡ true) × (mset kvs tt' s ≡ thrown s))
        ⊎ ((any_too_big (values_of kvs) ≡ false)
            × (mset kvs tt' s
                ≡ and_then
                    (send (codes "MSET" ∷ flat (on_keys (with_bid s.object.bid) kvs)) tt' s)
                    (λ rep. pure (not (error rep)))))
  unfolding mset flat bytes_eq
  mset-cases k v rest tt' s =
      let kvs : List (Bytes × Bytes) = (k, v) ∷ rest in
      elim (add_pairs-flat (command (codes "MSET")) kvs s) [
        | inl (big, e) ↦ inl (
          big,
          ap
              (λ r.
                and_then r
                  (λ c. λ t. and_then (redis_command c.args tt' t) (λ rep. pure (not (error rep)))))
              e,
        )
        | inr (fit, e) ↦ inr (
          fit,
          ap
                (λ r.
                  and_then r (λ c.
                    λ t. and_then (redis_command c.args tt' t) (λ rep. pure (not (error rep)))))
                e
              ∙ ap (λ r. and_then r (λ rep. pure (not (error rep))))
                  (redis_command-send (codes "MSET") k (v ∷ flat rest) tt' s
                    ∙ ap (λ a. send (codes "MSET" ∷ a) tt' s)
                        (map_alternate-flat (with_bid s.object.bid) kvs)),
        )
      ]

  -- `hmset` returns false at once where the lists differ in length or are empty; throws, with nothing
  -- sent and nothing changed, if some value is longer than 1 MiB; and otherwise sends one `HMSET` of the
  -- key with the business ID and of each field before its value, and says whether the reply is "OK".
  hmset-cases :
      (key : Bytes) (fs vs : List Bytes) (tt' : ℤ) (s : State Client lib.World)
      → (((length fs ≢ length vs) ⊎ (fs ≡ [])) × (hmset key fs vs tt' s ≡ ok false s))
        ⊎ ((length fs ≡ length vs) × (any_too_big vs ≡ true) × (hmset key fs vs tt' s ≡ thrown s))
        ⊎ ((length fs ≡ length vs)
            × (any_too_big vs ≡ false)
            × (hmset key fs vs tt' s
                ≡ and_then
                    (send (codes "HMSET" ∷ with_bid s.object.bid key ∷ interleave fs vs) tt' s)
                    (λ rep. pure (is_ok rep))))
  unfolding hmset bytes_eq
  hmset-cases key [] vs tt' s = elim (Bool-cases (0 == length vs)) [
    | inl e ↦ inl (inr refl, rw e)
    | inr e ↦ inl (inr refl, rw e)
  ]
  hmset-cases key (f ∷ fs) vs tt' s = elim (Bool-cases (length (f ∷ fs) == length vs)) [
    | inr ne ↦ inl (inl (λ e. cc ((==_iff (length (f ∷ fs)) (length vs)).1 e)), rw ne)
    | inl same ↦
        rw (same, ==_ne (length (f ∷ fs)) 0 (omega arith))
          (let e : length (f ∷ fs) ≡ length vs = (==_iff (length (f ∷ fs)) (length vs)).0 same in
            elim (add_fields-interleave (command (codes "HMSET") ◃ key) (f ∷ fs) vs s e) [
              | inl (big, out) ↦ inr (inl (e, big, ap (λ r. and_then r read) out))
              | inr (fit, out) ↦ inr (
                  inr (
                    e,
                    fit,
                    ap (λ r. and_then r read) out
                        ∙ ap (λ r. and_then r (λ rep. pure (is_ok rep)))
                            (redis_command-send (codes "HMSET") key (interleave (f ∷ fs) vs) tt' s),
                  ))
            ])
  ]
    where
      read : Command → M (State Client lib.World) Bool
      read c t = and_then (redis_command c.args tt' t) (λ rep. pure (is_ok rep))
