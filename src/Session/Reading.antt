-- ===== src/Session/Reading.antt =====
-- What `ZkGet` and `GetProxyInfos` of cpp/src/RoundRobinCodisPool.cpp read from ZooKeeper.
use codis_client.Prelude.{
  ℕ, ◌+◌, ◌≡◌, ◌≢◌, ◌⊎◌, inl, inr, arith, refl, ap, ◌∙◌, Bool, true, false, List, [], ◌∷◌, ◌++◌,
  Option, none, some, length, All, All-append, Bool-cases, ==_iff, ℤ, Bytes, codes, ◌==◌,
}
use codis_client.Run.{Yields, Yields-bind, ok, fault}
use codis_client.Hiredis.{Hiredis, Ptr, State}
use codis_client.Environment.{Environment}
use codis_client.BfdCodis.{Bfd}
use codis_client.RoundRobin.{Json, NodeInfo, node_info, push}
use codis_client.Session.{
  Outside, overwrite, c_string, string_of, read_node, read_sized, zk_get, read_nodes, read_children,
  get_proxy_infos,
}
use codis_client.Session.Deletion.{at_bfd}

-- Bytes with no zero among them.
abbrev pub NoZero : Bytes → Type 0
NoZero = All (λ b. b ≢ 0)

c_string-data : (data' rest : Bytes) → NoZero data' → c_string (data' ++ 0 ∷ rest) ≡ some data'
unfolding c_string
c_string-data [] rest h = refl
c_string-data (b ∷ bs) rest h = ground (arith, c_string-data bs rest h.1)

c_string_open : (bs : Bytes) → NoZero bs → c_string bs ≡ none
unfolding c_string
c_string_open [] h = refl
c_string_open (b ∷ bs) h = ground (arith, c_string_open bs h.1)

overwrite_whole :
    (data' first : Bytes) (last : ℕ)
    → length first ≡ length data'
    → overwrite data' (first ++ last ∷ []) ≡ data' ++ last ∷ []
unfolding overwrite
overwrite_whole [] [] last h = refl
overwrite_whole [] (x ∷ first) last h = absurd (omega arith)
overwrite_whole (b ∷ bs) [] last h = absurd (omega arith)
overwrite_whole (b ∷ bs) (x ∷ first) last h =
    ap (λ r. b ∷ r) (overwrite_whole bs first last (omega arith))

module _ ⦃lib : Hiredis⦄ ⦃env : Environment⦄ where
  -- The code leaves everything but the environment as it is.
  abbrev pub Reads : {A : Type 0} → Bfd → lib.World → A → State Bfd Outside → Type 0
  Reads b w a t = (v : env.World) × (t ≡ at_bfd b w v)

  string_of-Reads :
      (o : Option Bytes) (b : Bfd) (w : lib.World) (v : env.World)
      → Yields (Reads b w) (string_of o (at_bfd b w v))
  string_of-Reads none b w v = tt
  string_of-Reads (some s) b w v = (v, refl)

  read_node-Reads :
      (buffer : Bytes) (o : Option (Bytes × ℕ)) (b : Bfd) (w : lib.World) (v : env.World)
      → Yields (Reads b w) (read_node buffer o (at_bfd b w v))
  read_node-Reads buffer none b w v = (v, refl)
  read_node-Reads buffer (some (d, n)) b w v = string_of-Reads (c_string (overwrite d buffer)) b w v

  read_sized-Reads :
      (zh : Ptr) (path : Bytes) (watch : Bool) (o : Option (Bytes × ℕ)) (b : Bfd) (w : lib.World)
      (v : env.World)
      → Yields (Reads b w) (read_sized zh path watch o (at_bfd b w v))
  read_sized-Reads zh path watch none b w v = (v, refl)
  read_sized-Reads zh path watch (some (d, n)) b w v =
      let (buffer, v1) = env.malloc (n + 1) v in
      let (got, v2) = env.get zh path watch (n + 1) v1 in read_node-Reads buffer got b w v2

  zk_get-Reads :
      (zh : Ptr) (path : Bytes) (watch : Bool) (b : Bfd) (w : lib.World) (v : env.World)
      → Yields (Reads b w) (zk_get zh path watch (at_bfd b w v))
  unfolding zk_get
  zk_get-Reads zh path watch b w v =
      let (stat, v1) = env.get zh path false 0 v in read_sized-Reads zh path watch stat b w v1

  -- For a node whose data has no zero in it and does not change between the two calls: `ZkGet` returns
  -- that data where the byte behind it in the fresh buffer happens to be zero, and has
  -- undefined behaviour where it is not, since `zoo_get` ends no text.
  pub zk_get_terminator :
      (zh : Ptr) (path : Bytes) (watch : Bool) (b : Bfd) (w : lib.World) (v v1 v3 : env.World)
      (data' first : Bytes) (last : ℕ)
      → NoZero data'
      → env.get zh path false 0 v ≡ (some ([], length data'), v1)
      → (env.malloc (length data' + 1) v1).0 ≡ first ++ last ∷ []
      → length first ≡ length data'
      → env.get zh path watch (length data' + 1) (env.malloc (length data' + 1) v1).1
        ≡ (some (data', length data'), v3)
      → ((last ≡ 0) × (zk_get zh path watch (at_bfd b w v) ≡ ok data' (at_bfd b w v3)))
        ⊎ ((last ≢ 0) × (zk_get zh path watch (at_bfd b w v) ≡ fault))
  unfolding zk_get
  zk_get_terminator zh path watch b w v v1 v3 data' first last plain stat buffer long got =
      let n = length data' in
      let t = at_bfd b w v3 in
      let text : zk_get zh path watch (at_bfd b w v) ≡ string_of (c_string (data' ++ last ∷ [])) t =
        ap (λ x. read_sized zh path watch x.0 (at_bfd b w x.1)) stat
        ∙ ap (λ x. read_node (env.malloc (n + 1) v1).0 x.0 (at_bfd b w x.1)) got
        ∙ ap (λ z. read_node z (some (data', n)) t) buffer
        ∙ ap (λ x. string_of (c_string x) t) (overwrite_whole data' first last long) in
      elim (Bool-cases (last == 0)) [
        | inl zero_ ↦
            let e : last ≡ 0 = (==_iff last 0).0 zero_ in
            inl (
              e,
              text
                  ∙ ap (λ l. string_of (c_string (data' ++ l ∷ [])) t) e
                  ∙ ap (λ x. string_of x t) (c_string-data data' [] plain),
            )
        | inr other ↦
            let e : last ≢ 0 = λ z. cc ((==_iff last 0).1 z) in
            inr (
              e,
              text
                  ∙ ap (λ x. string_of x t)
                      (c_string_open (data' ++ last ∷ [])
                        (All-append _ data' (last ∷ []) plain (e, tt))),
            )
      ]

module _ ⦃lib : Hiredis⦄ ⦃env : Environment⦄ ⦃json : Json⦄ where
  push-Reads :
      (info : NodeInfo) (proxys : List (Bytes × ℤ)) (b : Bfd) (w : lib.World) (v : env.World)
      → Yields (Reads b w) (push info proxys (at_bfd b w v))
  push-Reads (NodeInfo.online info) proxys b w v = (v, refl)
  push-Reads NodeInfo.passed_over proxys b w v = (v, refl)
  push-Reads NodeInfo.no_object proxys b w v = tt

  read_nodes-Reads :
      (zh : Ptr) (proxy_path : Bytes) (names : List Bytes) (proxys : List (Bytes × ℤ)) (b : Bfd)
      (w : lib.World) (v : env.World)
      → Yields (Reads b w) (read_nodes zh proxy_path names proxys (at_bfd b w v))
  unfolding read_nodes
  read_nodes-Reads zh proxy_path [] proxys b w v = (v, refl)
  read_nodes-Reads zh proxy_path (name ∷ names) proxys b w v =
      Yields-bind (Reads b w) (Reads b w)
        (zk_get zh (proxy_path ++ (codes "/" ++ name)) true (at_bfd b w v)) _
        (zk_get-Reads zh (proxy_path ++ (codes "/" ++ name)) true b w v)
        λ d t (v1, e). rw e (
          Yields-bind (Reads b w) (Reads b w) (push (node_info d) proxys (at_bfd b w v1)) _
            (push-Reads (node_info d) proxys b w v1)
            λ infos u (v2, e'). rw e' (read_nodes-Reads zh proxy_path names infos b w v2))

  read_children-Reads :
      (zh : Ptr) (proxy_path : Bytes) (o : Option (List Bytes)) (b : Bfd) (w : lib.World)
      (v : env.World)
      → Yields (Reads b w) (read_children zh proxy_path o (at_bfd b w v))
  read_children-Reads zh proxy_path none b w v = tt
  read_children-Reads zh proxy_path (some names) b w v =
      read_nodes-Reads zh proxy_path names [] b w v

  pub get_proxy_infos-Reads :
      (zh : Ptr) (proxy_path : Bytes) (b : Bfd) (w : lib.World) (v : env.World)
      → Yields (Reads b w) (get_proxy_infos zh proxy_path (at_bfd b w v))
  unfolding get_proxy_infos
  get_proxy_infos-Reads zh proxy_path b w v =
      let (strings, v1) = env.get_children zh proxy_path true v in
      read_children-Reads zh proxy_path strings b w v1
