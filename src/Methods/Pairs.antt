-- ===== src/Methods/Pairs.antt =====
-- The loop of `CodisClient::hgetall` (cpp/src/CodisClient.cpp), which takes the elements of the reply in
-- pairs.
use codis_client.Prelude.{◌≡◌, sym, ap₂, ◌∙◌, List, [], ◌∷◌, ◌++◌, append_assoc, append-nil, Bytes}
use codis_client.Reply.{Reply, Replies, str}
use codis_client.Methods.Hashes.{read_pairs}

-- Fields and values as the server sends them.
abbrev pub pairs : List (Reply × Reply) → Replies
pairs [] = Replies.nil
pairs ((f, v) ∷ ps) = Replies.cons f (Replies.cons v (pairs ps))

abbrev pub lefts : List (Reply × Reply) → List Bytes
lefts [] = []
lefts ((f, v) ∷ ps) = str f ∷ lefts ps

abbrev pub rights : List (Reply × Reply) → List Bytes
rights [] = []
rights ((f, v) ∷ ps) = str v ∷ rights ps

-- For a reply of fields and values in turn, the loop of `hgetall` appends every field to the one
-- vector and every value to the other, in their order.
read_pairs_lem :
    (ps : List (Reply × Reply)) (fields values : List Bytes)
    → read_pairs (pairs ps) fields values ≡ (fields ++ lefts ps, values ++ rights ps)
unfolding read_pairs
read_pairs_lem [] fields values =
    ap₂ (λ x y. (x, y)) (sym (append-nil fields)) (sym (append-nil values))
read_pairs_lem ((f, v) ∷ ps) fields values =
    read_pairs_lem ps (fields ++ str f ∷ []) (values ++ str v ∷ [])
    ∙ ap₂ (λ x y. (x, y)) (append_assoc fields (str f ∷ []) (lefts ps))
        (append_assoc values (str v ∷ []) (rights ps))
