-- ===== src/Threads/Safety.antt =====
-- `RedisCommand` (cpp/src/CodisClient.cpp) in several threads, in any order of their steps.
use mathlib.Core.List.{Perm}
use mathlib.Core.List.Perm
use codis_client.Prelude.{
  ℕ, zero, suc, ◌≡◌, refl, sym, ap, subst, ◌∙◌, Bool, true, false, List, [], ◌∷◌, ◌++◌, Option,
  none, some, get_elem?, set, swap_front,
}
use codis_client.Run.{Run, Returns, Returns-result, ok, thrown, fault, exited}
use codis_client.Hiredis.{Hiredis, State}
use codis_client.Hiredis.Laws.{HiredisLaws}
use codis_client.Client.{Client}
use codis_client.Client.Steps.{Settled}
use codis_client.Threads.{Stage, Threads, step, step_from, moved, client_of, turn, run}
use codis_client.Threads.Holding.{
  holds, locks, one_more, held, locked_by, Steady, Stands, Settled-perm, step-Stands,
}

-- The stage `st` at the position `i`.
record Split (stages : List Stage) (i : ℕ) (st : Stage) : Type 0 where
  before : List Stage
  behind : List Stage
  parts : stages ≡ before ++ st ∷ behind
  changed : (st' : Stage) → set stages i st' ≡ before ++ st' ∷ behind

get_elem?-Split :
    (stages : List Stage) (i : ℕ) (st : Stage) → get_elem? stages i ≡ some st → Split stages i st
get_elem?-Split [] i st h = cc
get_elem?-Split (x ∷ xs) zero st h = record {
  before = [];
  behind = xs;
  parts = cc;
  changed = λ st'. refl;
}
get_elem?-Split (x ∷ xs) (suc i) st h =
    let s = get_elem?-Split xs i st h in
    record {
      before = x ∷ s.before;
      behind = s.behind;
      parts = ap (λ l. x ∷ l) s.parts;
      changed = λ st'. ap (λ l. x ∷ l) (s.changed st');
    }

held-middle :
    (xs : List Stage) (st : Stage) (ys : List Stage)
    → Perm (held (xs ++ st ∷ ys)) (holds st ++ held (xs ++ ys))
held-middle [] st ys = Perm.refl _
held-middle (x ∷ xs) st ys =
    Perm.trans (Perm.append_left (holds x) (held-middle xs st ys))
      (swap_front (holds x) (holds st) (held (xs ++ ys)))

one_more_comm : (a b : Bool) (n : ℕ) → one_more a (one_more b n) ≡ one_more b (one_more a n)
one_more_comm true true n = refl
one_more_comm true false n = refl
one_more_comm false true n = refl
one_more_comm false false n = refl

locked_by-middle :
    (xs : List Stage) (st : Stage) (ys : List Stage)
    → locked_by (xs ++ st ∷ ys) ≡ one_more (locks st) (locked_by (xs ++ ys))
locked_by-middle [] st ys = refl
locked_by-middle (x ∷ xs) st ys =
    ap (one_more (locks x)) (locked_by-middle xs st ys)
    ∙ one_more_comm (locks x) (locks st) (locked_by (xs ++ ys))

module _ ⦃lib : Hiredis⦄ where
  -- The pool has no password, its connections and those of all threads are live and different, and the read lock is held as
  -- often as threads hold it.
  abbrev pub InOrder : State Threads lib.World → Type 0
  InOrder s = Settled (held s.object.stages) (locked_by s.object.stages) (client_of s)

  abbrev pub SteadyTurn : ℕ → State Threads lib.World → Type 0
  SteadyTurn i s = (st : Stage) → get_elem? s.object.stages i ≡ some st → Steady st (client_of s)

  -- Every `Reconnect` of the run is steady.
  abbrev pub SteadyRun : List ℕ → State Threads lib.World → Type 0
  SteadyRun [] s = Unit {0}
  SteadyRun (i ∷ schedule) s =
      SteadyTurn i s × ((t : State Threads lib.World) → turn i s ≡ ok tt t → SteadyRun schedule t)

  Settled-middle :
      (xs : List Stage) (st : Stage) (ys : List Stage) (s : State Client lib.World)
      → Settled (held (xs ++ st ∷ ys)) (locked_by (xs ++ st ∷ ys)) s
      → Stands (held (xs ++ ys)) (locked_by (xs ++ ys)) st s
  Settled-middle xs st ys s h =
      subst (λ n. Settled (holds st ++ held (xs ++ ys)) n s) (locked_by-middle xs st ys)
        (Settled-perm (locked_by (xs ++ st ∷ ys)) s (held-middle xs st ys) h)

  Stands-middle :
      (xs : List Stage) (st : Stage) (ys : List Stage) (s : State Client lib.World)
      → Stands (held (xs ++ ys)) (locked_by (xs ++ ys)) st s
      → Settled (held (xs ++ st ∷ ys)) (locked_by (xs ++ st ∷ ys)) s
  Stands-middle xs st ys s h =
      subst (λ n. Settled (held (xs ++ st ∷ ys)) n s) (sym (locked_by-middle xs st ys))
        (Settled-perm (one_more (locks st) (locked_by (xs ++ ys))) s
          (Perm.symm (held-middle xs st ys)) h)

  moved-InOrder :
      (stages : List Stage) (i : ℕ) (st : Stage) (sp : Split stages i st)
      (r : Run (State Client lib.World) Stage)
      → Returns (Stands (held (sp.before ++ sp.behind)) (locked_by (sp.before ++ sp.behind))) r
      → Returns (λ _. InOrder) (moved stages i r)
  moved-InOrder stages i st sp (ok st' t) h =
      subst (λ l. Settled (held l) (locked_by l) t) (sym (sp.changed st'))
        (Stands-middle sp.before st' sp.behind t h)
  moved-InOrder stages i st sp (thrown t) h = h
  moved-InOrder stages i st sp fault h = h
  moved-InOrder stages i st sp exited h = h

module _ ⦃lib : Hiredis⦄ (laws : HiredisLaws lib) where
  pub step_from-InOrder :
      (o : Option Stage) (i : ℕ) (s : State Threads lib.World)
      → get_elem? s.object.stages i ≡ o
      → InOrder s
      → SteadyTurn i s
      → Returns (λ _. InOrder) (step_from o i s)
  step_from-InOrder none i s e h steady = h
  step_from-InOrder (some st) i s e h steady =
      let sp = get_elem?-Split s.object.stages i st e in
      let others = sp.before ++ sp.behind in
      moved-InOrder s.object.stages i st sp (step st (client_of s)) (
        step-Stands laws (held others) (locked_by others) st (client_of s)
          (Settled-middle sp.before st sp.behind (client_of s)
            (subst (λ l. Settled (held l) (locked_by l) (client_of s)) sp.parts h))
          (steady st e))

  -- In whatever order threads that stand anywhere in `RedisCommand` take their steps over one
  -- client, in order at first: if every `Reconnect` of the run gets a new context with an
  -- error or at the address that it has freed, no step has undefined behaviour, the
  -- connections of the pool and those of all threads stay live and pairwise different, and the
  -- read lock is held as often as there are threads between its two calls.
  pub run-InOrder :
      (schedule : List ℕ) (s : State Threads lib.World)
      → InOrder s
      → SteadyRun schedule s
      → Returns (λ _. InOrder) (run schedule s)
  unfolding run
  run-InOrder [] s h steady = h
  run-InOrder (i ∷ schedule) s h (now, later) =
      let (x, t, e, h') =
        Returns-result (λ _. InOrder) (turn i s)
          (step_from-InOrder (get_elem? s.object.stages i) i s refl h now) in
      rw e (run-InOrder schedule t h' (later t e))
