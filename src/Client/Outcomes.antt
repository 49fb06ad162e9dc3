-- ===== src/Client/Outcomes.antt =====
-- All outcomes of `CodisClient::RedisCommand` (cpp/src/CodisClient.cpp) together: what it leaves behind,
-- and the one way in which its behaviour can be undefined.
use codis_client.Prelude.{
  ℕ, suc, ◌+◌, ◌≡◌, ◌≢◌, refl, ◌∙◌, ap, subst, sym, ◌⊎◌, inl, inr, Bool, true, false, List, ◌∷◌,
  ◌++◌, Option, none, some, arith, ◌==◌, ==_iff, ==_ne, Bool-cases, Bytes, ℤ, codes, length, ltb,
}
use codis_client.Reply.{RedisReply}
use codis_client.KeyPrefix.{inner_command}
use codis_client.Run.{Run, M, Returns, Returns-bind, ok, thrown, fault, exited, and_then}
use codis_client.Hiredis.{Hiredis, Ptr, null, TimeVal, State, redis_set_timeout, redis_command_argv}
use codis_client.Hiredis.Laws.{HiredisLaws}
use codis_client.ConnPool.{Pool, PoolM, reconnect, borrow_item}
use codis_client.ConnPool.Ownership.{Holds-tail, Owns, Lent, borrow_item-Lent, not_null}
use codis_client.ConnPool.Reconnect.{
  Reconnected, reconnected, reconnect-Reconnected, reconnect_no_memory, live_of_Owns, Owns-owner,
}
use codis_client.Client.Steps.{
  at_pool, Settled, Sent, After, on_pool-Returns, set_timeout-Settled, command_argv-Settled,
  answer-Settled, finish-Settled,
}
use codis_client.Client.{
  Client, error_reply, time_val, with_pool, on_pool, on_pool_of, second_reply, retry, first_reply,
  attempt, send_to, send, redis_command,
}

module _ ⦃lib : Hiredis⦄ where
  -- With the read lock held once more.
  abbrev pub locked : State Client lib.World → State Client lib.World
  locked s = record s { object = record s.object { readers = s.object.readers + 1 } }

  -- The call that sends `argv` from the state `s` borrows a connection and gets no reply over it, and when that is
  -- freed in the state that follows, `redisConnect` does not return its address.
  abbrev pub Moves : List Bytes → TimeVal → State Client lib.World → Type 0
  Moves argv tv s =
      (c : Ptr) × (s1 : State Client lib.World) × (s2 : State Client lib.World) × (s3 : State Client
        lib.World)
      × (p : Pool) × (on_pool borrow_item (locked s) ≡ ok c s1)
      × (c ≢ null)
      × (redis_set_timeout c tv s1 ≡ ok tt s2)
      × (redis_command_argv c argv s2 ≡ ok none s3)
      × (s3.object.conn_pool ≡ some p)
      × ((lib.connect p.address p.port (lib.free c s3.world)).0 ≢ c)

module _ {S A : Type 0} where
  -- The code returns with a result that satisfies `P`, or its behaviour is undefined, and `U` holds.
  abbrev pub ReturnsOr : Type 0 → (A → S → Type 0) → Run S A → Type 0
  ReturnsOr U P r = Returns P r ⊎ ((r ≡ fault) × U)

and_then-ReturnsOr :
    {S A B : Type 0} (U : Type 0) (P : A → S → Type 0) (Q : B → S → Type 0) (r : Run S A)
    (k : A → M S B)
    → Returns P r
    → ((a : A) (s : S) → r ≡ ok a s → P a s → ReturnsOr U Q (k a s))
    → ReturnsOr U Q (and_then r k)
and_then-ReturnsOr U P Q (ok a s) k h next = next a s refl h
and_then-ReturnsOr U P Q (thrown s) k h next = absurd h
and_then-ReturnsOr U P Q fault k h next = absurd h
and_then-ReturnsOr U P Q exited k h next = absurd h

module _ ⦃lib : Hiredis⦄ (laws : HiredisLaws lib) (hs : List Ptr) (n : ℕ) where
  -- A connection that is neither returned nor freed is nobody's.
  pub Settled-drop :
      (c : Ptr) (m : ℕ) (s : State Client lib.World) → Settled (c ∷ hs) m s → Settled hs m s
  Settled-drop c m s (p, e, owns, r) = (
    p,
    e,
    (
      Holds-tail laws s.world c (p.unused ++ hs) (Owns-owner laws hs c (at_pool p s.world) owns),
      owns.1,
    ),
    r,
  )

  second_reply-Settled :
      (c : Ptr) (r : Option RedisReply) (s : State Client lib.World)
      → Settled (c ∷ hs) (suc n) s
      → Returns (λ _. Settled hs n) (second_reply c r s)
  unfolding second_reply
  second_reply-Settled c none s h =
      answer-Settled laws hs n (error_reply (codes "Do Command faild.")) s
        (Settled-drop c (suc n) s h)
  second_reply-Settled c (some r) s h = finish-Settled laws hs n c r s h

  retry-Settled :
      (c : Ptr) (argv : List Bytes) (tv : TimeVal) (s : State Client lib.World)
      → Settled (c ∷ hs) (suc n) s
      → Returns (λ _. Settled hs n) (retry c argv tv true s)
  unfolding retry
  retry-Settled c argv tv s h =
      Returns-bind (λ _. Settled (c ∷ hs) (suc n)) (λ _. Settled hs n) (redis_set_timeout c tv s) _
        (set_timeout-Settled laws hs (suc n) c tv s h)
        λ _ t ht.
          Returns-bind (λ r v. Settled (c ∷ hs) (suc n) v × Sent c argv r v.world)
            (λ _. Settled hs n) (redis_command_argv c argv t) _
            (command_argv-Settled laws hs (suc n) c argv t ht)
            λ r u (hu, sent). second_reply-Settled c r u hu

  -- The second attempt, after `Reconnect` has made the connection `d`.
  retry-ReturnsOr :
      (U : Type 0) (c d : Ptr) (argv : List Bytes) (tv : TimeVal) (fine : Bool)
      (s : State Client lib.World)
      → (d ≡ c) ⊎ U
      → (p : Pool) → s.object.conn_pool ≡ some p
      → Reconnected hs c d fine (at_pool p s.world)
      → s.object.readers ≡ suc n
      → ReturnsOr U (λ _. Settled hs n) (retry c argv tv fine s)
  unfolding retry
  retry-ReturnsOr U c d argv tv true s moved p e (inl (no_, lost)) r = cc
  retry-ReturnsOr U c d argv tv false s moved p e (inl (no_, lost)) r =
      inl (answer-Settled laws hs n (error_reply (codes "reconnect faild!")) s (p, e, lost.0, r))
  retry-ReturnsOr U c d argv tv false s moved p e (inr (yes_, new)) r = cc
  retry-ReturnsOr U c d argv tv true s (inl same) p e (inr (yes_, new)) r = inl (
      retry-Settled c argv tv s
        (p, e, subst (λ x. Owns (x ∷ hs) (at_pool p s.world)) same new.0, r))
  retry-ReturnsOr U c d argv tv true s (inr moves) p e (inr (yes_, new)) r =
      elim (Bool-cases (c == d)) [
        | inl same ↦ inl (
            retry-Settled c argv tv s (
              p,
              e,
              subst (λ x. Owns (x ∷ hs) (at_pool p s.world)) (sym ((==_iff c d).0 same)) new.0,
              r,
            ))
        | inr other ↦ inr (rw (new.2 ∙ other) refl, moves)
      ]

  on_pool-fault :
      {A : Type 0} (m : PoolM A) (p : Pool) (s : State Client lib.World)
      → s.object.conn_pool ≡ some p
      → m (at_pool p s.world) ≡ fault
      → on_pool m s ≡ fault
  on_pool-fault m p s e h =
      subst (λ x. on_pool_of x m s ≡ fault) (sym e) (ap (with_pool s.object) h)

  -- `U` holds if the new connection is at another address.
  abbrev Away : Type 0 → Ptr → State Client lib.World → Type 0
  Away U c s =
      (p : Pool)
      → s.object.conn_pool ≡ some p
      → (lib.connect p.address p.port (lib.free c s.world)).0 ≢ c
      → U

  first_reply-ReturnsOr :
      (U : Type 0) (c : Ptr) (argv : List Bytes) (tv : TimeVal) (r : Option RedisReply)
      (s : State Client lib.World)
      → Settled (c ∷ hs) (suc n) s
      → (r ≡ none → Away U c s)
      → ReturnsOr U (λ _. Settled hs n) (first_reply c argv tv r s)
  unfolding first_reply
  first_reply-ReturnsOr U c argv tv (some r) s h away = inl (finish-Settled laws hs n c r s h)
  first_reply-ReturnsOr U c argv tv none s (p, e, owns, l) away =
      let t = at_pool p s.world in
      let d = (reconnected laws c t).0 in
      let live = live_of_Owns laws hs c t owns in
      let moved : (d ≡ c) ⊎ U = elim (Bool-cases (d == c)) [
        | inl same ↦ inl ((==_iff d c).0 same)
        | inr other ↦ inr (away refl p e (λ x. cc ((==_iff d c).1 x)))
      ] in
      elim (Bool-cases (d == null)) [
        | inl no_memory ↦ elim moved [
          | inl same ↦
              absurd (not_null laws s.world c live (sym same ∙ (==_iff d null).0 no_memory))
          | inr moves ↦
              let gone : reconnect c t ≡ fault =
                reconnect_no_memory laws hs c t owns ((==_iff d null).0 no_memory) in
              inr (
                ap (λ x. and_then x (λ fine. retry c argv tv fine))
                    (on_pool-fault (reconnect c) p s e gone),
                moves,
              )
        ]
        | inr memory ↦
            and_then-ReturnsOr U (After (Reconnected hs c d) s) (λ _. Settled hs n)
              (on_pool (reconnect c) s) (λ fine. retry c argv tv fine)
              (on_pool-Returns (Reconnected hs c d) (reconnect c) p s e
                (reconnect-Reconnected laws hs c t owns (λ x. cc ((==_iff d null).1 x))))
              λ fine u _ (q, e', outcome, l').
                retry-ReturnsOr U c d argv tv fine u moved q e' outcome (l' ∙ l)
      ]

  attempt-ReturnsOr :
      (U : Type 0) (argv : List Bytes) (tv : TimeVal) (c : Ptr) (s : State Client lib.World)
      (p : Pool)
      → s.object.conn_pool ≡ some p
      → Lent hs c (at_pool p s.world)
      → s.object.readers ≡ suc n
      → (c ≢ null
          → (s2 s3 : State Client lib.World) → redis_set_timeout c tv s ≡ ok tt s2
          → redis_command_argv c argv s2 ≡ ok none s3
          → Away U c s3)
      → ReturnsOr U (λ _. Settled hs n) (attempt argv tv c s)
  unfolding attempt
  attempt-ReturnsOr U argv tv c s p e (inl (no_, owns)) r away =
      rw ((==_iff c null).1 no_) (
        inl (answer-Settled laws hs n (error_reply (codes "context is NULL !!")) s (p, e, owns, r)))
  attempt-ReturnsOr U argv tv c s p e (inr (c_, owns, fine)) r away = rw (==_ne c null c_) (
      and_then-ReturnsOr U (λ _. Settled (c ∷ hs) (suc n)) (λ _. Settled hs n)
        (redis_set_timeout c tv s) _ (set_timeout-Settled laws hs (suc n) c tv s (p, e, owns, r))
        λ _ t timed ht.
          and_then-ReturnsOr U (λ r v. Settled (c ∷ hs) (suc n) v × Sent c argv r v.world)
            (λ _. Settled hs n) (redis_command_argv c argv t) _
            (command_argv-Settled laws hs (suc n) c argv t ht)
            λ rep u replied (hu, sent). first_reply-ReturnsOr U c argv tv rep u hu (λ no_.
              away c_ t u timed (subst (λ x. redis_command_argv c argv t ≡ ok x u) no_ replied)))

  send_to-ReturnsOr :
      (argv : List Bytes) (tv : TimeVal) (q : Pool) (s : State Client lib.World)
      → Settled hs n s
      → ReturnsOr (Moves argv tv s) (λ _. Settled hs n) (send_to (some q) argv tv s)
  unfolding send_to
  send_to-ReturnsOr argv tv q s (p, e, owns, r) =
      let s' = locked s in
      let U = Moves argv tv s in
      and_then-ReturnsOr U (After (Lent hs) s') (λ _. Settled hs n) (on_pool borrow_item s')
        (attempt argv tv)
        (on_pool-Returns (Lent hs) borrow_item p s' e
          (borrow_item-Lent laws hs (at_pool p s.world) owns))
        λ c t borrowed (p', e', lent, l).
          attempt-ReturnsOr U argv tv c t p' e' lent (omega arith)
            λ c_ s2 s3 timed replied p3 e3 moved.
              (c, t, s2, s3, p3, borrowed, c_, timed, replied, e3, moved)

  -- On a client in order, whatever the server and the network do, `RedisCommand` returns, keeps the
  -- connections of other threads and those of the pool live and apart, and has released its lock; or its
  -- behaviour is undefined, and then this is what the call has done: it has borrowed a connection, has sent the
  -- command with its business ID over it, within the time limit, and got no reply, and when the connection is freed
  -- after that, `redisConnect` to the server of the pool does not return its address.
  pub redis_command-ReturnsOrMoves :
      (args : List Bytes) (tt' : ℤ) (s : State Client lib.World)
      → Settled hs n s
      → ReturnsOr
          (Moves (inner_command s.object.bid args) (time_val tt') s)
          (λ _. Settled hs n)
          (redis_command args tt' s)
  unfolding redis_command send
  redis_command-ReturnsOrMoves args tt' s (p, e, owns, r) =
      let argv = inner_command s.object.bid args in
      let U = Moves argv (time_val tt') s in
      elim (Bool-cases (ltb (length args) 2)) [
        | inl short ↦ rw short (inl (p, e, owns, r))
        | inr long ↦ rw long (
            subst (λ x. ReturnsOr U (λ _. Settled hs n) (send_to x argv (time_val tt') s)) (sym e)
              (send_to-ReturnsOr argv (time_val tt') p s (p, e, owns, r)))
      ]
