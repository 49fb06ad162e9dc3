-- ===== src/KeyPrefix/Isolation.antt =====
-- The business ID in front of a key (cpp/src/CodisClient.cpp, `RedisCommand`): which pairs of a business
-- ID and a key share a key on the server.
use codis_client.Prelude.{ℕ, ◌≡◌, ◌≢◌, refl, sym, [], ◌∷◌, ◌++◌, Bytes, codes, append_assoc, All}
use codis_client.KeyPrefix.{prefixed}
use codis_client.KeyPrefix.Wire.{with_bid}

abbrev pub NoUnderscore : Bytes → Type 0
NoUnderscore = All (λ c. c ≢ b'_')

-- The text in front of the first underscore, and the text behind it, are determined.
prefixed-injective :
    (a b k l : Bytes)
    → NoUnderscore a
    → NoUnderscore b
    → prefixed a k ≡ prefixed b l
    → (a ≡ b) × (k ≡ l)
prefixed-injective [] [] k l ha hb e = (refl, cc)
prefixed-injective [] (y ∷ b) k l ha hb e = let p : b'_' ≡ y = cc in absurd (hb.0 (sym p))
prefixed-injective (x ∷ a) [] k l ha hb e = let p : x ≡ b'_' = cc in absurd (ha.0 p)
prefixed-injective (x ∷ a) (y ∷ b) k l ha hb e =
    let (p, q) = prefixed-injective a b k l ha.1 hb.1 cc in (cc, q)

-- Two different pairs of a business ID and a key never share a key on the server, as long as the
-- business IDs are not empty and have no underscore in them.
pub with_bid-injective :
    (a b k l : Bytes)
    → NoUnderscore a
    → NoUnderscore b
    → a ≢ []
    → b ≢ []
    → with_bid a k ≡ with_bid b l
    → (a ≡ b) × (k ≡ l)
with_bid-injective [] b k l ha hb full_a full_b e = absurd (full_a refl)
with_bid-injective (x ∷ a) [] k l ha hb full_a full_b e = absurd (full_b refl)
with_bid-injective (x ∷ a) (y ∷ b) k l ha hb full_a full_b e =
    prefixed-injective (x ∷ a) (y ∷ b) k l ha hb e

append-ne : (a : Bytes) (x : ℕ) (b : Bytes) → a ++ x ∷ b ≢ a
append-ne [] x b e = cc
append-ne (y ∷ a) x b e = append-ne a x b cc

-- A business ID `a_b`, which continues another one `a` behind an underscore, differs from `a`, and its
-- key `k` is the same key on the server as the key `b_k` of `a`.
with_bid_overlap :
    (a b k : Bytes)
    → a ≢ []
    → (prefixed a b ≢ a) × (with_bid (prefixed a b) k ≡ with_bid a (prefixed b k))
with_bid_overlap [] b k full = absurd (full refl)
with_bid_overlap (x ∷ a) b k full =
    (append-ne (x ∷ a) b'_' b, append_assoc (x ∷ a) (codes "_" ++ b) (codes "_" ++ k))
