-- ===== src/Threads/Progress.antt =====
-- How many steps a thread in `RedisCommand` (cpp/src/CodisClient.cpp) takes, whatever the others do.
use codis_client.Prelude.{
  ℕ, ◌+◌, ◌-◌, ◌≤◌, ◌≡◌, ◌≢◌, refl, sym, ap, subst, ◌∙◌, inl, inr, arith, Bool, true, false,
  Bool-cases, List, [], ◌∷◌, Option, none, some, get_elem?, get_elem?-set, get_elem?-set_ne, length,
  ltb, ◌==◌, ==_iff, if◌then◌else◌, Bytes,
}
use codis_client.Reply.{RedisReply, Reply}
use codis_client.Run.{
  Run, Returns, Returns-result, Yields, Yields-bind, Yields-mono, ok, thrown, fault, exited, pure,
  and_then,
}
use codis_client.Hiredis.{Hiredis, Ptr, null, TimeVal, State, redis_set_timeout, redis_command_argv}
use codis_client.Hiredis.Laws.{HiredisLaws}
use codis_client.ConnPool.{Pool, borrow_item, return_item, reconnect}
use codis_client.Client.{Client, on_pool}
use codis_client.Threads.{
  Stage, Threads, step, step_from, moved, client_of, turn, run, with_a_pool, after_borrow,
  after_first, after_reconnect, after_second,
}
use codis_client.Threads.Safety.{InOrder, SteadyRun, run-InOrder}

-- The steps that are left at most.
abbrev pub left : Stage → ℕ
left (Stage.called args tt') = 10
left (Stage.waiting argv tv) = 9
left (Stage.locked argv tv) = 8
left (Stage.borrowed argv tv c) = 7
left (Stage.timed argv tv c) = 6
left (Stage.lost argv tv c) = 5
left (Stage.retrying argv tv c) = 4
left (Stage.retimed argv tv c) = 3
left (Stage.replied c r) = 2
left (Stage.leaving rep) = 1
left (Stage.done rep) = 0

pub ended_of_left : (st : Stage) → left st ≤ 0 → (rep : Reply) × (st ≡ Stage.done rep)
ended_of_left (Stage.done rep) h = (rep, refl)
ended_of_left (Stage.called args tt') h = absurd (omega arith)
ended_of_left (Stage.waiting argv tv) h = absurd (omega arith)
ended_of_left (Stage.locked argv tv) h = absurd (omega arith)
ended_of_left (Stage.borrowed argv tv c) h = absurd (omega arith)
ended_of_left (Stage.timed argv tv c) h = absurd (omega arith)
ended_of_left (Stage.lost argv tv c) h = absurd (omega arith)
ended_of_left (Stage.retrying argv tv c) h = absurd (omega arith)
ended_of_left (Stage.retimed argv tv c) h = absurd (omega arith)
ended_of_left (Stage.replied c r) h = absurd (omega arith)
ended_of_left (Stage.leaving rep) h = absurd (omega arith)

left-with_a_pool :
    (o : Option Pool) (argv : List Bytes) (tv : TimeVal) → left (with_a_pool o argv tv) ≤ 9
left-with_a_pool none argv tv = omega arith
left-with_a_pool (some p) argv tv = omega arith

left-after_borrow : (argv : List Bytes) (tv : TimeVal) (c : Ptr) → left (after_borrow argv tv c) ≤ 7
left-after_borrow argv tv c = elim (Bool-cases (c == null)) [
  | inl e ↦ rw e (omega arith)
  | inr e ↦ rw e (omega arith)
]

left-after_first :
    (argv : List Bytes) (tv : TimeVal) (c : Ptr) (r : Option RedisReply)
    → left (after_first argv tv c r) ≤ 5
left-after_first argv tv c none = omega arith
left-after_first argv tv c (some r) = omega arith

left-after_reconnect :
    (argv : List Bytes) (tv : TimeVal) (c : Ptr) (fine : Bool)
    → left (after_reconnect argv tv c fine) ≤ 4
left-after_reconnect argv tv c true = omega arith
left-after_reconnect argv tv c false = omega arith

left-after_second : (c : Ptr) (r : Option RedisReply) → left (after_second c r) ≤ 2
left-after_second c none = omega arith
left-after_second c (some r) = omega arith

-- How often the thread `i` is in turn.
abbrev pub turns : ℕ → List ℕ → ℕ
turns i [] = 0
turns i (j ∷ schedule) = (if i == j then 1 else 0) + turns i schedule

module _ ⦃lib : Hiredis⦄ where
  after-Yields :
      {A : Type 0} (n : ℕ) (r : Run (State Client lib.World) A) (next : A → Stage)
      → ((a : A) → left (next a) ≤ n)
      → Yields (λ st _. left st ≤ n) (and_then r (λ a. pure (next a)))
  after-Yields n (ok a s) next h = h a
  after-Yields n (thrown s) next h = tt
  after-Yields n fault next h = tt
  after-Yields n exited next h = tt

  step-left :
      (st : Stage) (s : State Client lib.World)
      → Yields (λ st' _. left st' ≤ left st - 1) (step st s)
  unfolding step
  step-left (Stage.called args tt') s = elim (Bool-cases (ltb (length args) 2)) [
    | inl short ↦ rw short (omega arith)
    | inr long ↦ rw long (left-with_a_pool s.object.conn_pool _ _)
  ]
  step-left (Stage.waiting argv tv) s = omega arith
  step-left (Stage.locked argv tv) s =
      after-Yields 7 (on_pool borrow_item s) _ (left-after_borrow argv tv)
  step-left (Stage.borrowed argv tv c) s =
      after-Yields 6 (redis_set_timeout c tv s) _ (λ _. omega arith)
  step-left (Stage.timed argv tv c) s =
      after-Yields 5 (redis_command_argv c argv s) _ (left-after_first argv tv c)
  step-left (Stage.lost argv tv c) s =
      after-Yields 4 (on_pool (reconnect c) s) _ (left-after_reconnect argv tv c)
  step-left (Stage.retrying argv tv c) s =
      after-Yields 3 (redis_set_timeout c tv s) _ (λ _. omega arith)
  step-left (Stage.retimed argv tv c) s =
      after-Yields 2 (redis_command_argv c argv s) _ (left-after_second c)
  step-left (Stage.replied c r) s = after-Yields 1 (on_pool (return_item c) s) _ (λ _. omega arith)
  step-left (Stage.leaving rep) s = omega arith
  step-left (Stage.done rep) s = omega arith

  -- The thread `i` has at most `n` steps left.
  abbrev pub Within : ℕ → ℕ → State Threads lib.World → Type 0
  Within i n t = (st : Stage) × (get_elem? t.object.stages i ≡ some st) × (left st ≤ n)

  moved-own :
      (stages : List Stage) (i : ℕ) (st : Stage) (n : ℕ) (r : Run (State Client lib.World) Stage)
      → get_elem? stages i ≡ some st
      → Yields (λ st' _. left st' ≤ n) r
      → Yields (λ _. Within i n) (moved stages i r)
  moved-own stages i st n (ok st' t) e h = (st', get_elem?-set stages i st' st e, h)
  moved-own stages i st n (thrown t) e h = tt
  moved-own stages i st n fault e h = tt
  moved-own stages i st n exited e h = tt

  moved-other :
      (stages : List Stage) (i j : ℕ) (st : Stage) (r : Run (State Client lib.World) Stage)
      → get_elem? stages i ≡ some st
      → i ≢ j
      → Yields (λ _. Within i (left st)) (moved stages j r)
  moved-other stages i j st (ok st' t) e ne =
      (st, get_elem?-set_ne stages j i st' ne ∙ e, omega arith)
  moved-other stages i j st (thrown t) e ne = tt
  moved-other stages i j st fault e ne = tt
  moved-other stages i j st exited e ne = tt

  turn-own :
      (i : ℕ) (st : Stage) (s : State Threads lib.World)
      → get_elem? s.object.stages i ≡ some st
      → Yields (λ _. Within i (left st - 1)) (turn i s)
  turn-own i st s e =
      subst (λ o. Yields (λ _. Within i (left st - 1)) (step_from o i s)) (sym e)
        (moved-own s.object.stages i st (left st - 1) (step st (client_of s)) e
          (step-left st (client_of s)))

  step_from-other :
      (o : Option Stage) (i j : ℕ) (st : Stage) (s : State Threads lib.World)
      → get_elem? s.object.stages i ≡ some st
      → i ≢ j
      → Yields (λ _. Within i (left st)) (step_from o j s)
  step_from-other none i j st s e ne = (st, e, omega arith)
  step_from-other (some st') i j st s e ne =
      moved-other s.object.stages i j st (step st' (client_of s)) e ne

  turn-left :
      (i j n : ℕ) (s : State Threads lib.World)
      → Within i n s
      → Yields (λ _. Within i (n - (if i == j then 1 else 0))) (turn j s)
  turn-left i j n s (st, e, h) = elim (Bool-cases (i == j)) [
    | inl own ↦ rw own (
        subst (λ k. Yields (λ _. Within i (n - 1)) (turn k s)) ((==_iff i j).0 own)
          (Yields-mono (λ _. Within i (left st - 1)) (λ _. Within i (n - 1)) (turn i s)
            (turn-own i st s e) (λ _ t (st', e', h'). (st', e', omega arith))))
    | inr other ↦ rw other (
        Yields-mono (λ _. Within i (left st)) (λ _. Within i (n - 0)) (turn j s)
          (step_from-other (get_elem? s.object.stages j) i j st s e (λ x. cc ((==_iff i j).1 x)))
          (λ _ t (st', e', h'). (st', e', omega arith)))
  ]

  pub run-left :
      (schedule : List ℕ) (i n : ℕ) (s : State Threads lib.World)
      → Within i n s
      → Yields (λ _. Within i (n - turns i schedule)) (run schedule s)
  unfolding run
  run-left [] i n s (st, e, h) = (st, e, omega arith)
  run-left (j ∷ schedule) i n s within =
      let k : ℕ = if i == j then 1 else 0 in
      let sum : n - k - turns i schedule ≡ n - (k + turns i schedule) = omega arith in
      Yields-bind (λ _. Within i (n - k)) (λ _. Within i (n - (k + turns i schedule))) (turn j s)
        (λ _. run schedule) (turn-left i j n s within)
        λ _ t w.
          subst (λ m. Yields (λ _. Within i m) (run schedule t)) sum
            (run-left schedule i (n - k) t w)

module _ ⦃lib : Hiredis⦄ (laws : HiredisLaws lib) where
  -- For threads over a client in order, where every `Reconnect` of the run gets a new context
  -- with an error or at the address that it has freed: a thread that takes as many steps of
  -- the run as it has left at most, which is ten for a new call, has returned from
  -- `RedisCommand` at the end, whatever the others do between its steps.
  pub run-ended :
      (schedule : List ℕ) (i : ℕ) (st : Stage) (s : State Threads lib.World)
      → InOrder s
      → SteadyRun schedule s
      → get_elem? s.object.stages i ≡ some st
      → left st ≤ turns i schedule
      → Returns
          (λ _ t. (rep : Reply) × (get_elem? t.object.stages i ≡ some (Stage.done rep)))
          (run schedule s)
  run-ended schedule i st s h steady there enough =
      let (x, t, e, _) =
        Returns-result (λ _. InOrder) (run schedule s) (run-InOrder laws schedule s h steady) in
      let (st', there', few) =
        subst (Yields (λ _. Within i (left st - turns i schedule))) e
          (run-left schedule i (left st) s (st, there, omega arith)) in
      let (rep, last) = ended_of_left st' (omega arith) in rw e (rep, there' ∙ ap some last)
