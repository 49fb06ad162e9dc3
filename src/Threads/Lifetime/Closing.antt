-- ===== src/Threads/Lifetime/Closing.antt =====
-- The destructor of the client (cpp/src/CodisClient.cpp) among the steps of threads in `RedisCommand`.
use codis_client.Prelude.{
  ℕ, ◌≡◌, ◌≢◌, refl, sym, ap, subst, ◌∙◌, ◌⊎◌, inl, inr, arith, Bool, true, false, ◌&&◌, Bool-cases,
  List, [], ◌∷◌, Option, none, some, length, ltb, get_elem?, ◌==◌, ==_iff, All, All-set,
  All-get_elem?, Bytes,
}
use codis_client.Run.{Run, Returns, Returns-mono, Returns-result, ok, thrown, fault, exited}
use codis_client.Hiredis.{Hiredis, TimeVal, State}
use codis_client.Hiredis.Laws.{HiredisLaws}
use codis_client.ConnPool.{Pool}
use codis_client.ConnPool.Deletion.{All-dead_after_frees}
use codis_client.Client.{Client, delete_client}
use codis_client.Session.Deletion.{delete_client-free_all}
use codis_client.Threads.{Stage, Threads, step, step_from, moved, client_of, turn, with_a_pool}
use codis_client.Threads.Holding.{holds, locks, one_more, held, locked_by}
use codis_client.Threads.Safety.{InOrder, SteadyTurn, step_from-InOrder}
use codis_client.Threads.Lifetime.{
  Act, turn_of, destruct, release, act, acts, try_destruct, is_gone, all_done,
}

-- A thread that has not entered the critical part of `RedisCommand`, or has left it; it does not wait for the lock.
abbrev pub Outside : Stage → Type 0
Outside (Stage.called args tt') = Unit {0}
Outside (Stage.done rep) = Unit {0}
Outside st = ⊥

-- A thread has found a pool, and waits for the lock.
abbrev pub waits : Stage → Bool
waits (Stage.waiting argv tv) = true
waits st = false

Outside_of : (st : Stage) → locks st ≡ false → waits st ≡ false → Outside st × (holds st ≡ [])
Outside_of (Stage.called args tt') l w = (tt, refl)
Outside_of (Stage.waiting argv tv) l w = cc
Outside_of (Stage.locked argv tv) l w = cc
Outside_of (Stage.borrowed argv tv c) l w = cc
Outside_of (Stage.timed argv tv c) l w = cc
Outside_of (Stage.lost argv tv c) l w = cc
Outside_of (Stage.retrying argv tv c) l w = cc
Outside_of (Stage.retimed argv tv c) l w = cc
Outside_of (Stage.replied c r) l w = cc
Outside_of (Stage.leaving rep) l w = cc
Outside_of (Stage.done rep) l w = (tt, refl)

All-Outside :
    (sts : List Stage)
    → locked_by sts ≡ 0
    → All (λ st. waits st ≡ false) sts
    → All Outside sts × (held sts ≡ [])
All-Outside [] n w = (tt, refl)
All-Outside (st ∷ sts) n (w, ws) = elim (Bool-cases (locks st)) [
  | inl locked ↦
      let no : one_more true (locked_by sts) ≡ 0 =
        subst (λ b. one_more b (locked_by sts) ≡ 0) locked n in
      absurd (omega arith)
  | inr free ↦
      let n' : locked_by sts ≡ 0 = subst (λ b. one_more b (locked_by sts) ≡ 0) free n in
      let (out, nothing) = Outside_of st free w in
      let (outs, nothings) = All-Outside sts n' ws in ((out, outs), rw (nothing, nothings) refl)
]

module _ ⦃lib : Hiredis⦄ where
  -- The pool is deleted, nobody holds the lock, and no thread is about to use the pool.
  abbrev pub Closed : State Threads lib.World → Type 0
  Closed s =
      (s.object.client.conn_pool ≡ none)
      × (s.object.client.readers ≡ 0)
      × All Outside s.object.stages

  -- A step of a thread is steady; if the destructor gets the lock, no thread waits for it; and the object goes only after
  -- that, when every call has returned.
  abbrev pub Fair : Act → State Threads lib.World → Type 0
  Fair (turn_of i) s = SteadyTurn i s
  Fair destruct s = (s.object.client.readers ≢ 0) ⊎ All (λ st. waits st ≡ false) s.object.stages
  Fair release s = is_gone s.object.client.conn_pool && all_done s.object.stages ≡ true

  abbrev pub FairRun : List Act → State Threads lib.World → Type 0
  FairRun [] s = Unit {0}
  FairRun (a ∷ rest) s =
      Fair a s × ((t : State Threads lib.World) → act a s ≡ ok tt t → FairRun rest t)

  Outside-with_a_pool :
      (o : Option Pool) (argv : List Bytes) (tv : TimeVal)
      → o ≡ none
      → Outside (with_a_pool o argv tv)
  Outside-with_a_pool none argv tv e = tt
  Outside-with_a_pool (some p) argv tv e = cc

  step-Outside :
      (st : Stage) (s : State Client lib.World)
      → s.object.conn_pool ≡ none
      → Outside st
      → Returns (λ st' t. Outside st' × (t ≡ s)) (step st s)
  unfolding step
  step-Outside (Stage.called args tt') s e out = elim (Bool-cases (ltb (length args) 2)) [
    | inl short ↦ rw short (tt, refl)
    | inr long ↦ rw long (Outside-with_a_pool s.object.conn_pool _ _ e, refl)
  ]
  step-Outside (Stage.waiting argv tv) s e out = elim out [ ]
  step-Outside (Stage.locked argv tv) s e out = elim out [ ]
  step-Outside (Stage.borrowed argv tv c) s e out = elim out [ ]
  step-Outside (Stage.timed argv tv c) s e out = elim out [ ]
  step-Outside (Stage.lost argv tv c) s e out = elim out [ ]
  step-Outside (Stage.retrying argv tv c) s e out = elim out [ ]
  step-Outside (Stage.retimed argv tv c) s e out = elim out [ ]
  step-Outside (Stage.replied c r) s e out = elim out [ ]
  step-Outside (Stage.leaving rep) s e out = elim out [ ]
  step-Outside (Stage.done rep) s e out = (tt, refl)

  moved-Closed :
      (s : State Threads lib.World) (i : ℕ) (r : Run (State Client lib.World) Stage)
      → Closed s
      → Returns (λ st' t. Outside st' × (t ≡ client_of s)) r
      → Returns (λ _. Closed) (moved s.object.stages i r)
  moved-Closed s i (ok st' t) (gone, free, outs) (out, same) = (
    ap (λ x. x.object.conn_pool) same ∙ gone,
    ap (λ x. x.object.readers) same ∙ free,
    All-set Outside s.object.stages i st' out outs,
  )
  moved-Closed s i (thrown t) c h = h
  moved-Closed s i fault c h = h
  moved-Closed s i exited c h = h

  step_from-Closed :
      (o : Option Stage) (i : ℕ) (s : State Threads lib.World)
      → get_elem? s.object.stages i ≡ o
      → Closed s
      → Returns (λ _. Closed) (step_from o i s)
  step_from-Closed none i s e c = c
  step_from-Closed (some st) i s e c =
      moved-Closed s i (step st (client_of s)) c
        (step-Outside st (client_of s) c.0 (All-get_elem? Outside s.object.stages i st c.2 e))

  try_destruct-Closed :
      (s : State Threads lib.World) → Closed s → Returns (λ _. Closed) (try_destruct s)
  unfolding try_destruct delete_client
  try_destruct-Closed s c = rw (c.1, c.0) (refl, refl, c.2)

module _ ⦃lib : Hiredis⦄ (laws : HiredisLaws lib) where
  -- For a client in order: where no thread waits for the lock, the destructor either waits, and has changed nothing, or
  -- it deletes the pool with all its connections, and every thread is outside.
  pub try_destruct_lem :
      (s : State Threads lib.World)
      → InOrder s
      → Fair destruct s
      → Returns
          (λ _ t.
            ((s.object.client.readers ≢ 0) × (t ≡ s))
            ⊎ ((s.object.client.readers ≡ 0)
                × Closed t
                × ((p : Pool) × (s.object.client.conn_pool ≡ some p)
                    × All (λ c. lib.live t.world c ≡ false) p.unused)))
          (try_destruct s)
  unfolding try_destruct
  try_destruct_lem s (p, e, owns, r) fair = elim (Bool-cases (s.object.client.readers == 0)) [
    | inl free ↦
        let unlocked : s.object.client.readers ≡ 0 = (==_iff _ 0).0 free in
        let waiting : All (λ st. waits st ≡ false) s.object.stages = elim fair [
          | inl ne ↦ absurd (ne unlocked)
          | inr ws ↦ ws
        ] in
        let (outs, nothing) = All-Outside s.object.stages (sym r ∙ unlocked) waiting in
        rw
          (
            free,
            delete_client-free_all laws s.object.client p (held s.object.stages) s.world e owns.0,
          )
          (inr
            (unlocked, (refl, unlocked, outs), (p, e, All-dead_after_frees laws p.unused s.world)))
    | inr busy ↦ rw busy (inl ((λ u. cc ((==_iff s.object.client.readers 0).1 u)), refl))
  ]

  act-Kept :
      (a : Act) (s : State Threads lib.World)
      → InOrder s ⊎ Closed s
      → Fair a s
      → Returns (λ _ t. InOrder t ⊎ Closed t) (act a s)
  act-Kept (turn_of i) s (inl order) fair =
      Returns-mono (λ _. InOrder) (λ _ t. InOrder t ⊎ Closed t) (turn i s)
        (step_from-InOrder laws (get_elem? s.object.stages i) i s refl order fair) (λ _ t h. inl h)
  act-Kept (turn_of i) s (inr closed) fair =
      Returns-mono (λ _. Closed) (λ _ t. InOrder t ⊎ Closed t) (turn i s)
        (step_from-Closed (get_elem? s.object.stages i) i s refl closed) (λ _ t h. inr h)
  act-Kept destruct s (inl order) fair =
      Returns-mono _ (λ _ t. InOrder t ⊎ Closed t) (try_destruct s) (try_destruct_lem s order fair)
        λ _ t h. elim h [
          | inl (busy, same) ↦ inl (subst InOrder (sym same) order)
          | inr (free, closed, dead) ↦ inr closed
        ]
  act-Kept destruct s (inr closed) fair =
      Returns-mono (λ _. Closed) (λ _ t. InOrder t ⊎ Closed t) (try_destruct s)
        (try_destruct-Closed s closed) (λ _ t h. inr h)
  act-Kept release s h fair = rw fair h

  -- In whatever order threads take their steps in `RedisCommand` over one client, in order at first, and the
  -- destructor tries in between to take the lock: if every `Reconnect` gets a new context with an error or at the
  -- address that it has freed, no thread waits for the lock when the destructor gets it, and the object itself goes only
  -- when the body of the destructor has ended and every call has returned, no step has undefined behaviour. In the end
  -- the connections of the pool and those of all threads are live and pairwise different, and the read lock is held as
  -- often as threads hold it; or the pool is deleted, nobody holds the lock, and every thread has not begun its call, or
  -- has returned from it.
  pub acts-Kept :
      (todo : List Act) (s : State Threads lib.World)
      → InOrder s ⊎ Closed s
      → FairRun todo s
      → Returns (λ _ t. InOrder t ⊎ Closed t) (acts todo s)
  unfolding acts
  acts-Kept [] s h fair = h
  acts-Kept (a ∷ rest) s h (now, later) =
      let (x, t, e, h') =
        Returns-result (λ _ t. InOrder t ⊎ Closed t) (act a s) (act-Kept a s h now) in
      rw e (acts-Kept rest t h' (later t e))
