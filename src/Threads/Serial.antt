-- ===== src/Threads/Serial.antt =====
-- `RedisCommand` (cpp/src/CodisClient.cpp) in several threads against one after the other: which commands a
-- server has executed in a run, in which order, and what the calls return.
pub mod Step
pub mod Each
pub mod Order
pub mod Twice
use codis_client.Prelude.{
  ℕ, zero, suc, ◌≡◌, ◌⊎◌, Bool, true, List, [], ◌∷◌, ◌++◌, ◌==◌, if◌then◌else◌, Bytes, map,
}
use codis_client.Reply.{RedisReply, Reply, of_redis}
use codis_client.KeyPrefix.{inner_command}
use codis_client.Hiredis.{Hiredis}
use codis_client.Client.{error_reply}
use codis_client.Threads.{Stage}
use codis_client.Threads.Server.{Server}

-- A command that was executed, with the reply of the server.
abbrev pub Event : Type 0
Event = List Bytes × RedisReply

-- The events of a run in their order, with the thread of each.
abbrev pub History : Type 0
History = List (ℕ × Event)

abbrev pub tag : ℕ → List Event → History
tag i = map (λ e. (i, e))

-- Nothing was executed, and the reply is an error message.
abbrev pub Failed : List Event → Reply → Type 0
Failed es rep = (es ≡ []) × ((text : Bytes) × (rep ≡ error_reply text))

-- The command was executed once, and `rep` is the copy of its reply.
abbrev pub Replied : List Bytes → List Event → Reply → Type 0
Replied argv es rep = (r : RedisReply) × (es ≡ (argv, r) ∷ []) × (rep ≡ of_redis r)

-- What a call executes with `n` attempts at most, and the reply `rep` that it gives then. In an attempt that gets no
-- reply the command is not executed, or, if the server loses replies, it is.
abbrev pub Attempts : Bool → List Bytes → ℕ → List Event → Reply → Type 0
Attempts loses argv zero es rep = Failed es rep
Attempts loses argv (suc n) es rep =
    Attempts loses argv n es rep
    ⊎ Replied argv es rep
    ⊎ ((loses ≡ true)
        × ((r : RedisReply) × (es' : List Event) × (es ≡ (argv, r) ∷ es')
            × Attempts loses argv n es' rep))

-- What has been executed for a call that was at this stage, and has now returned `rep`, on a client with
-- the business ID `bid`.
abbrev pub Answers : Bool → Bytes → Stage → List Event → Reply → Type 0
Answers loses bid (Stage.called args tt') es rep = Attempts loses (inner_command bid args) 2 es rep
Answers loses bid (Stage.waiting argv tv) es rep = Attempts loses argv 2 es rep
Answers loses bid (Stage.locked argv tv) es rep = Attempts loses argv 2 es rep
Answers loses bid (Stage.borrowed argv tv c) es rep = Attempts loses argv 2 es rep
Answers loses bid (Stage.timed argv tv c) es rep = Attempts loses argv 2 es rep
Answers loses bid (Stage.lost argv tv c) es rep = Attempts loses argv 1 es rep
Answers loses bid (Stage.retrying argv tv c) es rep = Attempts loses argv 1 es rep
Answers loses bid (Stage.retimed argv tv c) es rep = Attempts loses argv 1 es rep
Answers loses bid (Stage.replied c r) es rep = (es ≡ []) × (rep ≡ of_redis r)
Answers loses bid (Stage.leaving rep') es rep = (es ≡ []) × (rep ≡ rep')
Answers loses bid (Stage.done rep') es rep = (es ≡ []) × (rep ≡ rep')

-- The same for a server that loses no reply: the command was not executed, and the reply is an error message, or it
-- was executed once.
abbrev pub Once : List Bytes → List Event → Reply → Type 0
Once argv es rep = Failed es rep ⊎ Replied argv es rep

abbrev pub Served : Bytes → Stage → List Event → Reply → Type 0
Served bid (Stage.called args tt') es rep = Once (inner_command bid args) es rep
Served bid (Stage.waiting argv tv) es rep = Once argv es rep
Served bid (Stage.locked argv tv) es rep = Once argv es rep
Served bid (Stage.borrowed argv tv c) es rep = Once argv es rep
Served bid (Stage.timed argv tv c) es rep = Once argv es rep
Served bid (Stage.lost argv tv c) es rep = Once argv es rep
Served bid (Stage.retrying argv tv c) es rep = Once argv es rep
Served bid (Stage.retimed argv tv c) es rep = Once argv es rep
Served bid (Stage.replied c r) es rep = (es ≡ []) × (rep ≡ of_redis r)
Served bid (Stage.leaving rep') es rep = (es ≡ []) × (rep ≡ rep')
Served bid (Stage.done rep') es rep = (es ≡ []) × (rep ≡ rep')

-- A call that was at the first stage and is now at the second one, as far as it has returned.
abbrev pub ServedBy : (Stage → List Event → Reply → Type 0) → Stage → List Event → Stage → Type 0
ServedBy S st es (Stage.done rep) = S st es rep
ServedBy S st es st' = Unit {0}

-- The same of all threads; `f` gives the events of each.
abbrev pub AllServed :
    (Stage → List Event → Reply → Type 0) → (ℕ → List Event) → List Stage → List Stage → Type 0
AllServed S f [] [] = Unit {0}
AllServed S f [] (st' ∷ sts') = ⊥
AllServed S f (st ∷ sts) [] = ⊥
AllServed S f (st ∷ sts) (st' ∷ sts') =
    ServedBy S st (f 0) st' × AllServed S (λ i. f (suc i)) sts sts'

-- A step from `st` to `st'` with the events `es` serves the call as what follows does.
abbrev pub Passes : Bool → Bytes → Stage → List Event → Stage → Type 0
Passes loses bid st es st' =
    (es' : List Event) (rep : Reply)
    → Answers loses bid st' es' rep
    → Answers loses bid st (es ++ es') rep

module _ ⦃lib : Hiredis⦄ (server : Server lib) where
  -- The server executes the events one after the other, with these replies.
  abbrev pub Replay : List Event → server.Content → server.Content → Type 0
  Replay [] d d' = d' ≡ d
  Replay ((argv, r) ∷ es) d d' =
      (r ≡ (server.execute argv d).0) × Replay es (server.execute argv d).1 d'
