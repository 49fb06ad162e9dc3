-- ===== src/Threads/Holding.antt =====
-- Which connections and locks the threads of `RedisCommand` (cpp/src/CodisClient.cpp) hold at their stages,
-- and what one step of one of them does to that.
use mathlib.Core.List.{Perm}
use mathlib.Core.List.Perm
use codis_client.Prelude.{
  ℕ, suc, ◌≡◌, ◌≢◌, sym, subst, ◌∙◌, ◌⊎◌, inl, inr, arith, Bool, true, false, Bool-cases, List, [],
  ◌∷◌, ◌++◌, Option, none, some, length, ltb, ==_iff, ==_ne, Bytes,
}
use codis_client.Reply.{RedisReply}
use codis_client.KeyPrefix.{inner_command}
use codis_client.Run.{Returns, Returns-bind}
use codis_client.Hiredis.{Hiredis, Ptr, null, TimeVal, State, redis_set_timeout, redis_command_argv}
use codis_client.Hiredis.Laws.{HiredisLaws}
use codis_client.ConnPool.{Pool, borrow_item, return_item, reconnect}
use codis_client.ConnPool.Ownership.{
  Holds-perm, Owns, Lent, borrow_item-Lent, return_item-Owns, not_null,
}
use codis_client.ConnPool.Reconnect.{
  reconnected, Reconnected, Lost, reconnect-Lost, reconnect-Reconnected, live_of_Owns,
}
use codis_client.Client.{Client, time_val, on_pool}
use codis_client.Client.Steps.{
  at_pool, Settled, Sent, After, on_pool-Returns, set_timeout-Settled, command_argv-Settled,
}
use codis_client.Client.Outcomes.{Settled-drop}
use codis_client.Threads.{Stage, step, with_a_pool, after_first, after_second}

-- The connection that a thread holds, if any.
abbrev pub holds : Stage → List Ptr
holds (Stage.borrowed argv tv c) = c ∷ []
holds (Stage.timed argv tv c) = c ∷ []
holds (Stage.lost argv tv c) = c ∷ []
holds (Stage.retrying argv tv c) = c ∷ []
holds (Stage.retimed argv tv c) = c ∷ []
holds (Stage.replied c r) = c ∷ []
holds st = []

-- Whether it holds the read lock.
abbrev pub locks : Stage → Bool
locks (Stage.called args tt') = false
locks (Stage.waiting argv tv) = false
locks (Stage.done rep) = false
locks st = true

abbrev pub one_more : Bool → ℕ → ℕ
one_more true n = suc n
one_more false n = n

-- The connections and the read locks of all threads.
abbrev pub held : List Stage → List Ptr
held [] = []
held (st ∷ sts) = holds st ++ held sts

abbrev pub locked_by : List Stage → ℕ
locked_by [] = 0
locked_by (st ∷ sts) = one_more (locks st) (locked_by sts)

module _ ⦃lib : Hiredis⦄ where
  -- What `redisConnect` gives to `Reconnect`, which has freed `c` before.
  abbrev pub renewed : Pool → Ptr → lib.World → Ptr × lib.World
  renewed p c w = lib.connect p.address p.port (lib.free c w)

  -- If the next step is `Reconnect`: `redisConnect` gives it a context with an error, or the address of the
  -- context that it has just freed.
  abbrev pub Steady : Stage → State Client lib.World → Type 0
  Steady (Stage.lost argv tv c) s =
      (p : Pool)
      → s.object.conn_pool ≡ some p
      → let (d, w) = renewed p c s.world in (d ≡ c) ⊎ ((d ≢ null) × (lib.err w d ≢ 0))
  Steady st s = Unit {0}

  -- `hs` and `n` are the connections and the number of locks of the other threads.
  abbrev pub Stands : List Ptr → ℕ → Stage → State Client lib.World → Type 0
  Stands hs n st s = Settled (holds st ++ hs) (one_more (locks st) n) s

  pub Settled-perm :
      {hs ks : List Ptr} (n : ℕ) (s : State Client lib.World)
      → Perm hs ks
      → Settled hs n s
      → Settled ks n s
  Settled-perm n s perm (p, e, owns, r) =
      (p, e, (Holds-perm s.world (Perm.append_left p.unused perm) owns.0, owns.1), r)

module _ ⦃lib : Hiredis⦄ (laws : HiredisLaws lib) (hs : List Ptr) (n : ℕ) where
  after_borrow-Stands :
      (argv : List Bytes) (tv : TimeVal) (s : State Client lib.World)
      → Stands hs n (Stage.locked argv tv) s
      → Returns (Stands hs n) (step (Stage.locked argv tv) s)
  unfolding step
  after_borrow-Stands argv tv s (p, e, owns, r) =
      Returns-bind (After (Lent hs) s) (Stands hs n) (on_pool borrow_item s) _
        (on_pool-Returns (Lent hs) borrow_item p s e
          (borrow_item-Lent laws hs (at_pool p s.world) owns))
        λ c t (q, e', lent, l). elim lent [
          | inl (no_, owns') ↦ rw ((==_iff c null).1 no_) (q, e', owns', l ∙ r)
          | inr (c_, owns', fine) ↦ rw (==_ne c null c_) (q, e', owns', l ∙ r)
        ]

  after_first-Stands :
      (argv : List Bytes) (tv : TimeVal) (c : Ptr) (r : Option RedisReply)
      (s : State Client lib.World)
      → Settled (c ∷ hs) (suc n) s
      → Stands hs n (after_first argv tv c r) s
  after_first-Stands argv tv c none s h = h
  after_first-Stands argv tv c (some r) s h = h

  after_second-Stands :
      (c : Ptr) (r : Option RedisReply) (s : State Client lib.World)
      → Settled (c ∷ hs) (suc n) s
      → Stands hs n (after_second c r) s
  after_second-Stands c none s h = Settled-drop laws hs n c (suc n) s h
  after_second-Stands c (some r) s h = h

  with_a_pool-Stands :
      (o : Option Pool) (argv : List Bytes) (tv : TimeVal) (s : State Client lib.World)
      → Settled hs n s
      → Stands hs n (with_a_pool o argv tv) s
  with_a_pool-Stands none argv tv s h = h
  with_a_pool-Stands (some p) argv tv s h = h

  reconnect-Stands :
      (argv : List Bytes) (tv : TimeVal) (c : Ptr) (s : State Client lib.World)
      → Settled (c ∷ hs) (suc n) s
      → Steady (Stage.lost argv tv c) s
      → Returns (Stands hs n) (step (Stage.lost argv tv c) s)
  unfolding step
  reconnect-Stands argv tv c s (p, e, owns, r) steady =
      let t = at_pool p s.world in
      let (d, w) = renewed p c s.world in
      elim (steady p e) [
        | inl same ↦
            let memory : d ≢ null =
              λ z. not_null laws s.world c (live_of_Owns laws hs c t owns) (sym same ∙ z) in
            Returns-bind (After (Reconnected hs c d) s) (Stands hs n) (on_pool (reconnect c) s) _
              (on_pool-Returns (Reconnected hs c d) (reconnect c) p s e
                (reconnect-Reconnected laws hs c t owns memory))
              λ fine u (q, e', outcome, l). elim outcome [
                | inl (no_, gone) ↦ rw no_ (q, e', gone.0, l ∙ r)
                | inr (yes_, new) ↦
                    rw yes_
                      (q, e', subst (λ x. Owns (x ∷ hs) (at_pool q u.world)) same new.0, l ∙ r)
              ]
        | inr (memory, failed) ↦
            Returns-bind
              (After
                (λ fine v. (fine ≡ false) × Lost hs c (reconnected laws c (at_pool p s.world)).0 v)
                s)
              (Stands hs n) (on_pool (reconnect c) s) _
              (on_pool-Returns
                (λ fine v. (fine ≡ false) × Lost hs c (reconnected laws c (at_pool p s.world)).0 v)
                (reconnect c) p s e (reconnect-Lost laws hs c t owns memory failed))
              λ fine u (q, e', (no_, gone), l). rw no_ (q, e', gone.0, l ∙ r)
      ]

  -- One step of one thread, where `Reconnect` is steady, leaves all connections live and apart and the
  -- lock counted.
  pub step-Stands :
      (st : Stage) (s : State Client lib.World)
      → Stands hs n st s
      → Steady st s
      → Returns (Stands hs n) (step st s)
  unfolding step
  step-Stands (Stage.called args tt') s h steady = elim (Bool-cases (ltb (length args) 2)) [
    | inl short ↦ rw short h
    | inr long ↦
        rw long (
          with_a_pool-Stands s.object.conn_pool (inner_command s.object.bid args) (time_val tt') s
            h)
  ]
  step-Stands (Stage.waiting argv tv) s (p, e, owns, r) steady = (p, e, owns, omega arith)
  step-Stands (Stage.locked argv tv) s h steady = after_borrow-Stands argv tv s h
  step-Stands (Stage.borrowed argv tv c) s h steady =
      Returns-bind (λ _. Settled (c ∷ hs) (suc n)) (Stands hs n) (redis_set_timeout c tv s) _
        (set_timeout-Settled laws hs (suc n) c tv s h) (λ _ t x. x)
  step-Stands (Stage.timed argv tv c) s h steady =
      Returns-bind (λ r t. Settled (c ∷ hs) (suc n) t × Sent c argv r t.world) (Stands hs n)
        (redis_command_argv c argv s) _ (command_argv-Settled laws hs (suc n) c argv s h)
        (λ r t (x, _). after_first-Stands argv tv c r t x)
  step-Stands (Stage.lost argv tv c) s h steady = reconnect-Stands argv tv c s h steady
  step-Stands (Stage.retrying argv tv c) s h steady =
      Returns-bind (λ _. Settled (c ∷ hs) (suc n)) (Stands hs n) (redis_set_timeout c tv s) _
        (set_timeout-Settled laws hs (suc n) c tv s h) (λ _ t x. x)
  step-Stands (Stage.retimed argv tv c) s h steady =
      Returns-bind (λ r t. Settled (c ∷ hs) (suc n) t × Sent c argv r t.world) (Stands hs n)
        (redis_command_argv c argv s) _ (command_argv-Settled laws hs (suc n) c argv s h)
        (λ r t (x, _). after_second-Stands c r t x)
  step-Stands (Stage.replied c r) s (p, e, owns, l) steady =
      Returns-bind (After (λ _. Owns hs) s) (Stands hs n) (on_pool (return_item c) s) _
        (on_pool-Returns (λ _. Owns hs) (return_item c) p s e
          (return_item-Owns laws hs c (at_pool p s.world) owns))
        (λ _ t (q, e', owns', l'). (q, e', owns', l' ∙ l))
  step-Stands (Stage.leaving rep) s (p, e, owns, r) steady = (p, e, owns, omega arith)
  step-Stands (Stage.done rep) s h steady = h
