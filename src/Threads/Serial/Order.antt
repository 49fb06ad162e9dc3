-- ===== src/Threads/Serial/Order.antt =====
-- The order in which a run of threads in `RedisCommand` (cpp/src/CodisClient.cpp) has its commands executed.
use codis_client.Prelude.{
  own, zero, suc, ◌<◌, ◌≤◌, ◌∙◌, ==_ne, arith, length-set, get_elem?-lt, inl, inr, Bool, false, ℕ,
  ◌≡◌, refl, sym, ap, subst, List, [], ◌∷◌, ◌++◌, Option, none, some, length, get_elem?, Bytes, map,
}
use codis_client.Reply.{Reply}
use codis_client.KeyPrefix.{inner_command}
use codis_client.Run.{
  Run, Returns, Returns-result, Yields, Yields-bind, Yields-mono, ok, thrown, fault, exited,
}
use codis_client.Hiredis.{Hiredis, State}
use codis_client.Hiredis.Laws.{HiredisLaws}
use codis_client.Client.{Client}
use codis_client.Threads.{Stage, Threads, step, step_from, moved, client_of, turn, run}
use codis_client.Threads.Safety.{InOrder, SteadyRun, run-InOrder}
use codis_client.Threads.Shutdown.{AsMany, run-AsMany}
use codis_client.Threads.Server.{Server, Plain}
use codis_client.Threads.Serial.{
  Event, History, tag, Attempts, Answers, Once, Served, AllServed, Replay,
}
use codis_client.Threads.Serial.Step.{Traced, step-Traced}
use codis_client.Threads.Serial.Each.{
  own-other, AllServed-mono, EachServed, EachServed-self, EachServed-step, AllServed-EachServed,
}

-- The events without their threads.
abbrev pub events : History → List Event
events h = map (λ e. e.1) h

-- All entries are of the first `n` threads.
abbrev pub NoOthers : ℕ → History → Type 0
NoOthers n h = (i : ℕ) → n ≤ i → own i h ≡ []

NoOthers-tag :
    (n j : ℕ) (es : List Event) (h : History) → j < n → NoOthers n h → NoOthers n (tag j es ++ h)
NoOthers-tag n j es h lt no_ i le = own-other i j es h (==_ne i j (λ e. omega arith)) ∙ no_ i le

events-tag : (i : ℕ) (es : List Event) (h : History) → events (tag i es ++ h) ≡ es ++ events h
events-tag i [] h = refl
events-tag i (e ∷ es) h = ap (λ l. e ∷ l) (events-tag i es h)

Once-Attempts :
    (loses : Bool) (argv : List Bytes) (n : ℕ) (es : List Event) (rep : Reply)
    → loses ≡ false
    → Attempts loses argv n es rep
    → Once argv es rep
Once-Attempts loses argv zero es rep e h = inl h
Once-Attempts loses argv (suc n) es rep e (inl h) = Once-Attempts loses argv n es rep e h
Once-Attempts loses argv (suc n) es rep e (inr (inl h)) = inr h
Once-Attempts loses argv (suc n) es rep e (inr (inr (l, h))) = cc

Served-Answers :
    (loses : Bool) (bid : Bytes)
    → loses ≡ false
    → (st : Stage) (es : List Event) (rep : Reply) → Answers loses bid st es rep
    → Served bid st es rep
Served-Answers loses bid e (Stage.called args tt') es rep h =
    Once-Attempts loses (inner_command bid args) 2 es rep e h
Served-Answers loses bid e (Stage.waiting argv tv) es rep h = Once-Attempts loses argv 2 es rep e h
Served-Answers loses bid e (Stage.locked argv tv) es rep h = Once-Attempts loses argv 2 es rep e h
Served-Answers loses bid e (Stage.borrowed argv tv c) es rep h =
    Once-Attempts loses argv 2 es rep e h
Served-Answers loses bid e (Stage.timed argv tv c) es rep h = Once-Attempts loses argv 2 es rep e h
Served-Answers loses bid e (Stage.lost argv tv c) es rep h = Once-Attempts loses argv 1 es rep e h
Served-Answers loses bid e (Stage.retrying argv tv c) es rep h =
    Once-Attempts loses argv 1 es rep e h
Served-Answers loses bid e (Stage.retimed argv tv c) es rep h =
    Once-Attempts loses argv 1 es rep e h
Served-Answers loses bid e (Stage.replied c r) es rep h = h
Served-Answers loses bid e (Stage.leaving rep') es rep h = h
Served-Answers loses bid e (Stage.done rep') es rep h = h

module _ ⦃lib : Hiredis⦄ (server : Server lib) where
  Replay-append :
      (es es' : List Event) (d d1 d2 : server.Content)
      → Replay server es d d1
      → Replay server es' d1 d2
      → Replay server (es ++ es') d d2
  Replay-append [] es' d d1 d2 h h' = subst (λ x. Replay server es' x d2) h h'
  Replay-append ((argv, r) ∷ es) es' d d1 d2 (e, h) h' =
      (e, Replay-append es es' (server.execute argv d).1 d1 d2 h h')

module _ ⦃lib : Hiredis⦄ (server : Server lib) (bid : Bytes) where
  -- What a turn of the thread `j` leaves in the state `u`, where the server held `d`.
  abbrev Turned : ℕ → server.Content → List Stage → State Threads lib.World → Type 0
  Turned j d sts u =
      Plain bid (client_of u)
      × (length u.object.stages ≡ length sts)
      × ((es : List Event) × Replay server es d (server.content u.world)
          × ((h : History) (sts'' : List Stage)
              → EachServed server.loses bid u.object.stages h sts''
              → EachServed server.loses bid sts (tag j es ++ h) sts'')
          × ((h : History) → NoOthers (length sts) h → NoOthers (length sts) (tag j es ++ h)))

  moved-Turned :
      (sts : List Stage) (j : ℕ) (st : Stage) (d : server.Content)
      (r : Run (State Client lib.World) Stage)
      → get_elem? sts j ≡ some st
      → Yields (Traced server d bid st) r
      → Yields (λ _. Turned j d sts) (moved sts j r)
  moved-Turned sts j st d (ok st' t) there (plain, (es, replay, passes)) = (
    plain,
    length-set sts j st',
    (
      es,
      replay,
      (λ h sts''. EachServed-step server.loses bid sts sts'' j st st' es h there passes),
      (λ h. NoOthers-tag (length sts) j es h (get_elem?-lt sts j st there)),
    ),
  )
  moved-Turned sts j st d (thrown t) there h = tt
  moved-Turned sts j st d fault there h = tt
  moved-Turned sts j st d exited there h = tt

  step_from-Turned :
      (o : Option Stage) (j : ℕ) (s : State Threads lib.World)
      → get_elem? s.object.stages j ≡ o
      → Plain bid (client_of s)
      → Yields (λ _. Turned j (server.content s.world) s.object.stages) (step_from o j s)
  step_from-Turned none j s e plain =
      (plain, refl, ([], refl, (λ h sts'' each. each), (λ h no_. no_)))
  step_from-Turned (some st) j s e plain =
      moved-Turned s.object.stages j st (server.content s.world) (step st (client_of s)) e
        (step-Traced server (server.content s.world) bid st (client_of s) (refl, plain))

  -- A history of a run.
  abbrev Ordered : server.Content → List Stage → State Threads lib.World → Type 0
  Ordered d sts t =
      (h : History) × Replay server (events h) d (server.content t.world)
      × EachServed server.loses bid sts h t.object.stages
      × NoOthers (length sts) h

  run-Ordered :
      (schedule : List ℕ) (s : State Threads lib.World)
      → Plain bid (client_of s)
      → Yields (λ _. Ordered (server.content s.world) s.object.stages) (run schedule s)
  unfolding run own
  run-Ordered [] s plain =
      ([], refl, EachServed-self server.loses bid s.object.stages, (λ i le. refl))
  run-Ordered (j ∷ schedule) s plain =
      let d = server.content s.world in
      Yields-bind (λ _. Turned j d s.object.stages) (λ _. Ordered d s.object.stages) (turn j s)
        (λ _. run schedule) (step_from-Turned (get_elem? s.object.stages j) j s refl plain)
        λ _ u (plain', same, (es, replay, back, others)).
          Yields-mono (λ _. Ordered (server.content u.world) u.object.stages)
            (λ _. Ordered d s.object.stages) (run schedule u) (run-Ordered schedule u plain')
            λ _ t (h, replay', each, no_). (
              tag j es ++ h,
              subst (λ l. Replay server l d (server.content t.world)) (sym (events-tag j es h))
                  (Replay-append server es (events h) d (server.content u.world)
                    (server.content t.world) replay replay'),
              back h t.object.stages each,
              others h (subst (λ n. NoOthers n h) same no_),
            )

module _ ⦃lib : Hiredis⦄ (laws : HiredisLaws lib) (server : Server lib) where
  -- For threads that stand anywhere in `RedisCommand` over one client in order, where every
  -- `Reconnect` of the run gets a new context with an error or at the address that it has
  -- freed, and a server that answers each command that it executes, but may lose replies: in
  -- whatever order they take their steps, no step has undefined behaviour, and there is a list
  -- of commands with their replies that the server gives when it executes them one after the
  -- other, and holds then what it holds at the end of the run. Nothing is in the list but what
  -- these threads have sent. A call that was new and has returned has nothing in the list but its own command with the business ID in front of the
  -- keys, twice at most. It has returned the copy of the last reply there, or an error
  -- message; the command is there twice, or once with an error message, only if the server
  -- loses replies, and an error message is returned wherever it is not there. What a call that
  -- was on its way has in the list follows in the same way from where it stood.
  pub run-Answers :
      (schedule : List ℕ) (s : State Threads lib.World)
      → InOrder s
      → SteadyRun schedule s
      → Returns
          (λ _ t.
            (h : History) × Replay server
              (events h)
              (server.content s.world)
              (server.content t.world)
            × AllServed
                (Answers server.loses s.object.client.bid)
                (λ i. own i h)
                s.object.stages
                t.object.stages
            × NoOthers (length s.object.stages) h)
          (run schedule s)
  run-Answers schedule s order steady =
      let (x, t, e, _) =
        Returns-result (λ _. InOrder) (run schedule s) (run-InOrder laws schedule s order steady) in
      let (p, some_pool, owns, _) = order in
      let bid = s.object.client.bid in
      let same : AsMany (length s.object.stages) t =
        subst (Yields (λ _. AsMany (length s.object.stages))) e
          (run-AsMany schedule (length s.object.stages) s refl) in
      let (h, replay, each, no_) =
        subst (Yields (λ _. Ordered server bid (server.content s.world) s.object.stages)) e
          (run-Ordered server bid schedule s (refl, (p, some_pool, owns.1))) in
      rw e (
        h,
        replay,
        AllServed-EachServed (Answers server.loses bid) (λ i. own i h) s.object.stages
            t.object.stages same each,
        no_,
      )

  -- For threads that stand anywhere in `RedisCommand` over one client in order, where every
  -- `Reconnect` of the run gets a new context with an error or at the address that it has
  -- freed, and a server that executes a command exactly if it answers it: in whatever order
  -- they take their steps, no step has undefined behaviour, and there is a list of commands
  -- with their replies that the server gives when it executes them one after the other, and
  -- holds then what it holds at the end of the run. A call that was new and has returned has
  -- either one command in the list, its own with the business ID in front of the keys, and has
  -- returned the copy of that reply, or none, and has returned an error message; what a call
  -- that was on its way has in the list follows in the same way from where it stood.
  run-AllServed :
      (schedule : List ℕ) (s : State Threads lib.World)
      → server.loses ≡ false
      → InOrder s
      → SteadyRun schedule s
      → Returns
          (λ _ t.
            (h : History) × Replay server
              (events h)
              (server.content s.world)
              (server.content t.world)
            × AllServed (Served s.object.client.bid) (λ i. own i h) s.object.stages t.object.stages)
          (run schedule s)
  run-AllServed schedule s none_lost order steady =
      let bid = s.object.client.bid in
      let (x, t, e, (h, replay, all, no_)) =
        Returns-result _ (run schedule s) (run-Answers schedule s order steady) in
      rw e (
        h,
        replay,
        AllServed-mono (Answers server.loses bid) (Served bid) (λ i. own i h) s.object.stages
            t.object.stages (Served-Answers server.loses bid none_lost) all,
      )
