-- ===== src/AsyncMget/Dangling.antt =====
-- The address of a local variable that `mget2` of cpp/src/CodisClient.cpp gives its callback.
use codis_client.Prelude.{
  ℕ, ◌≡◌, refl, sym, subst, ◌∙◌, ap, Bool, true, false, Bool-cases, inl, inr, List, [], ◌∷◌, ◌++◌,
  Option, none, some, length, get_elem?, get_elem?-append_last, get_elem?-set, set, ◌==◌,
  if◌then◌else◌, Bytes,
}
use codis_client.Reply.{RedisReply, redis_reply}
use codis_client.Run.{
  Run, Yields, Yields-bind, Yields-mono, ok, thrown, fault, exited, and_then, pure, ◌>>=◌, ◌>>◌,
}
use codis_client.Hiredis.{
  Hiredis, Ptr, null, State, redis_async_command_argv, redis_async_err, async_at,
}
use codis_client.ConnPool.{PoolM}
use codis_client.ConnPool.AsyncPool.{borrow_item_async, return_item_async, reconnect_async}
use codis_client.Client.{Client, on_pool}
use codis_client.AsyncMget.{
  Request, AsyncClient, AsyncM, KvMap, with_client, on_conn_pool, give_back, first_request,
  second_request, request, mget2, mget2_command, collect, call_back, deref, delete_request,
  mget2_callback,
}

module _ ⦃lib : Hiredis⦄ where
  -- The requests and the local variables.
  abbrev Kept :
      List (Option Request)
      → List (Option Ptr)
      → {A : Type 0} → A
      → State AsyncClient lib.World
      → Type 0
  Kept rs ls a s = (s.object.requests ≡ rs) × (s.object.locals ≡ ls)

  with_client-Kept :
      {A : Type 0} (a : AsyncClient) (r : Run (State Client lib.World) A)
      → Yields (Kept a.requests a.locals) (with_client a r)
  with_client-Kept a (ok x t) = (refl, refl)
  with_client-Kept a (thrown t) = tt
  with_client-Kept a fault = tt
  with_client-Kept a exited = tt

  -- The code makes and ends neither requests nor local variables.
  abbrev Keeps : {A : Type 0} → AsyncM A → Type 0
  Keeps m =
      (rs : List (Option Request)) (ls : List (Option Ptr)) (s : State AsyncClient lib.World)
      → (s.object.requests ≡ rs) × (s.object.locals ≡ ls)
      → Yields (Kept rs ls) (m s)

  bind-Keeps :
      {A B : Type 0} (m : AsyncM A) (k : A → AsyncM B)
      → Keeps m
      → ((a : A) → Keeps (k a))
      → Keeps (m >>= k)
  bind-Keeps m k hm hk rs ls s h =
      Yields-bind (Kept rs ls) (Kept rs ls) (m s) k (hm rs ls s h) (λ a t x. hk a rs ls t x)

  if-Keeps :
      {A : Type 0} (b : Bool) (m n : AsyncM A) → Keeps m → Keeps n → Keeps (if b then m else n)
  if-Keeps true m n hm hn = hm
  if-Keeps false m n hm hn = hn

  on_conn_pool-Keeps : {A : Type 0} (m : PoolM A) → Keeps (on_conn_pool m)
  on_conn_pool-Keeps m rs ls s (e, e') =
      subst (λ x. Yields (Kept x ls) (on_conn_pool m s)) e
        (subst (λ x. Yields (Kept s.object.requests x) (on_conn_pool m s)) e'
          (with_client-Kept s.object
            (on_pool m (record { object = s.object.client; world = s.world }))))

  async_at-Keeps : {A : Type 0} (c : Ptr) (m : AsyncM A) → Keeps m → Keeps (async_at c m)
  async_at-Keeps c m hm rs ls s h = elim (Bool-cases (lib.async_live s.world c)) [
    | inl live ↦ rw live (hm rs ls s h)
    | inr gone ↦ rw gone tt
  ]

  give_back-Keeps : (c : Ptr) → Keeps (give_back c)
  give_back-Keeps c =
      bind-Keeps (on_conn_pool (return_item_async c)) (λ _. pure false)
        (on_conn_pool-Keeps (return_item_async c)) (λ _ rs ls t k. k)

  second_request-Keeps :
      (c : Ptr) (id : ℕ) (argv : List Bytes) (fine : Bool) → Keeps (second_request c id argv fine)
  second_request-Keeps c id argv false = give_back-Keeps c
  second_request-Keeps c id argv true =
      bind-Keeps (redis_async_command_argv c id argv) _ (async_at-Keeps c _ (λ rs ls s h. h))
        λ accepted.
          if-Keeps accepted (pure true) (redis_async_err c >> give_back c) (λ rs ls s h. h)
            (bind-Keeps (redis_async_err c) (λ _. give_back c) (async_at-Keeps c _ (λ rs ls s h. h))
              (λ _. give_back-Keeps c))

  first_request-Keeps :
      (c : Ptr) (id : ℕ) (argv : List Bytes) (accepted : Bool)
      → Keeps (first_request c id argv accepted)
  first_request-Keeps c id argv true = λ rs ls s h. h
  first_request-Keeps c id argv false = λ rs ls s h.
      bind-Keeps (on_conn_pool (reconnect_async c s.object.client.loop)) (second_request c id argv)
        (on_conn_pool-Keeps (reconnect_async c s.object.client.loop))
        (second_request-Keeps c id argv) rs ls s h

  -- What `request` leaves behind if it returns: the local variables, and the request that the
  -- result `true` says is on its way.
  abbrev Requested :
      List Bytes
      → ℕ
      → List (Option Request)
      → List (Option Ptr)
      → ℕ
      → Bool
      → State AsyncClient lib.World
      → Type 0
  Requested keys callback rs ls k b t =
      (t.object.locals ≡ ls)
      × (b ≡ true
          → get_elem? t.object.requests (length rs)
            ≡ some (some (record { user_keylist = keys; callback = callback; async_context = k })))

  request-Requested :
      (keys : List Bytes) (callback : ℕ) (argv : List Bytes) (c : Ptr) (k : ℕ)
      (s : State AsyncClient lib.World)
      → Yields
          (Requested keys callback s.object.requests s.object.locals k)
          (request keys callback argv c k s)
  unfolding request
  request-Requested keys callback argv c k s =
      let rs = s.object.requests in
      let ls = s.object.locals in
      let rq : Request = record { user_keylist = keys; callback = callback; async_context = k } in
      let goal = Requested keys callback rs ls k in
      let s1 : State AsyncClient lib.World = record {
        object = record s.object { requests = rs ++ some rq ∷ [] };
        world = s.world;
      } in
      let sent = redis_async_command_argv c (length rs) argv in
      elim (Bool-cases (c == null)) [
        | inl none_ ↦ rw none_ (
            Yields-bind (Kept rs ls) goal (on_conn_pool (return_item_async c) s) (λ _. pure false)
              (on_conn_pool-Keeps (return_item_async c) rs ls s (refl, refl))
              (λ _ t (e, e'). (e', λ x. cc)))
        | inr some_ ↦ rw some_ (
            Yields-mono (Kept (rs ++ some rq ∷ []) ls) goal
              ((sent >>= first_request c (length rs) argv) s1)
              (bind-Keeps sent (first_request c (length rs) argv)
                (async_at-Keeps c _ (λ rs ls s h. h)) (first_request-Keeps c (length rs) argv)
                (rs ++ some rq ∷ []) ls s1 (refl, refl))
              λ b t (e, e').
                (e', λ _. ap (λ x. get_elem? x (length rs)) e ∙ get_elem?-append_last rs (some rq)))
      ]

  -- If the result is `true`, the request at `id` holds the address of a variable whose life is over.
  abbrev Stale : ℕ → Bool → State AsyncClient lib.World → Type 0
  Stale id b t =
      b ≡ true
      → (rq : Request) × (get_elem? t.object.requests id ≡ some (some rq))
        × (get_elem? t.object.locals rq.async_context ≡ some none)

  mget2-Stale :
      (keys : List Bytes) (callback : ℕ) (s : State AsyncClient lib.World)
      → Yields (Stale (length s.object.requests)) (mget2 keys callback s)
  unfolding mget2
  mget2-Stale keys callback s =
      let rs = s.object.requests in
      let argv = mget2_command s.object.client.bid keys in
      Yields-bind (Kept rs s.object.locals) (Stale (length rs))
        (on_conn_pool (borrow_item_async s.object.client.loop) s) _
        (on_conn_pool-Keeps (borrow_item_async s.object.client.loop) rs s.object.locals s
          (refl, refl))
        λ c t (e, e').
          let ls = t.object.locals in
          let t1 : State AsyncClient lib.World = record {
            object = record t.object { locals = ls ++ some c ∷ [] };
            world = t.world;
          } in
          Yields-bind (Requested keys callback t.object.requests (ls ++ some c ∷ []) (length ls))
            (Stale (length rs)) (request keys callback argv c (length ls) t1) _
            (request-Requested keys callback argv c (length ls) t1)
            λ b u (kept, made) x. (
              record { user_keylist = keys; callback = callback; async_context = length ls },
              subst
                  (λ z.
                    get_elem? u.object.requests (length z)
                    ≡ some (
                        some (record {
                          user_keylist = keys;
                          callback = callback;
                          async_context = length ls;
                        })))
                  e (made x),
              subst (λ z. get_elem? (set z (length ls) none) (length ls) ≡ some none) (sym kept)
                  (get_elem?-set (ls ++ some c ∷ []) (length ls) none (some c)
                    (get_elem?-append_last ls (some c))),
            )

  callback_stale :
      (r : Option RedisReply) (id : ℕ) (t : State AsyncClient lib.World) (rq : Request)
      → get_elem? t.object.requests id ≡ some (some rq)
      → get_elem? t.object.locals rq.async_context ≡ some none
      → mget2_callback r id t ≡ fault
  unfolding mget2_callback
  callback_stale none id t rq at dead = refl
  callback_stale (some (redis_reply type n str elements)) id t rq at dead =
      rw at (go (collect rq.user_keylist elements []))
    where
      go :
          (o : Option KvMap)
          → and_then (call_back rq.callback o t) (λ _ u.
            and_then
              (deref (get_elem? u.object.locals rq.async_context) u)
              (λ c. on_conn_pool (return_item_async c) >> delete_request id))
            ≡ fault
      go none = refl
      go (some kvmap) = rw dead refl

  -- Once `mget2` has returned `true`, the callback of its request has undefined behaviour, whatever
  -- the reply is: the request holds the address of the local variable `async_context`.
  pub mget2_dangling :
      (keys : List Bytes) (callback : ℕ) (s t : State AsyncClient lib.World)
      → mget2 keys callback s ≡ ok true t
      → (r : Option RedisReply) → mget2_callback r (length s.object.requests) t ≡ fault
  mget2_dangling keys callback s t e r =
      let (rq, at, dead) =
        subst (Yields (Stale (length s.object.requests))) e (mget2-Stale keys callback s) refl in
      callback_stale r (length s.object.requests) t rq at dead
