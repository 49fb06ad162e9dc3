-- ===== src/Examples/Serial.antt =====
-- Three threads in `RedisCommand` over a server whose replies are written down.
use codis_client.Prelude.{
  own, ◌⊎◌, ◌≡◌, refl, inl, inr, true, false, List, [], ◌∷◌, Option, none, some, pos, Bytes, codes,
}
use codis_client.Reply.{RedisReply, RedisReplies, redis_reply, string_type}
use codis_client.Run.{Returns, ok}
use codis_client.Hiredis.{State, TimeVal}
use codis_client.ConnPool.{Pool, new_pool}
use codis_client.Threads.{Stage, Threads, run}
use codis_client.Threads.Serial.Twice.{one_thread, run_twice}
use codis_client.Threads.Server.{Server}
use codis_client.Threads.Serial.{History, Answers, AllServed, Replay}
use codis_client.Threads.Serial.Order.{NoOthers, events, run-Answers}
use codis_client.Examples.{ToyWorld, toy_reply}
use codis_client.Examples.Threads.{
  reusing, reusing_laws, reusing-SteadyRun, three_threads, three_threads-InOrder, ten_rounds,
}

abbrev text : Bytes → RedisReply
text s = redis_reply string_type (pos 0) s RedisReplies.nil

-- The first command gets no reply, the next two get one.
abbrev answered_threads : State Threads ToyWorld
answered_threads = record three_threads {
  world = record three_threads.world {
    replies = none ∷ some (text (codes "1")) ∷ some (text (codes "2")) ∷ [];
  };
}

-- Of these replies, those that are missing get lost.
abbrev to_lose : Option RedisReply → RedisReply
to_lose none = text (codes "lost")
to_lose (some r) = r

abbrev lose : List Bytes → List (Option RedisReply) → RedisReply × List (Option RedisReply)
lose argv [] = (text [], [])
lose argv (o ∷ rs) = (to_lose o, rs)

toy_reply-lose :
    (argv : List Bytes) (rs : List (Option RedisReply)) (w : ToyWorld)
    → let r = toy_reply rs (record w { replies = rs }) in
      ((r.0 ≡ none) × (r.1.replies ≡ rs))
      ⊎ ((r.0 ≡ some (lose argv rs).0) × (r.1.replies ≡ (lose argv rs).1))
      ⊎ ((true ≡ true) × (r.0 ≡ none) × (r.1.replies ≡ (lose argv rs).1))
toy_reply-lose argv [] w = inl (refl, refl)
toy_reply-lose argv (none ∷ rs) w = inr (inr (refl, refl, refl))
toy_reply-lose argv (some r ∷ rs) w = inr (inl (refl, refl))

abbrev losing : Server reusing
losing = record {
  Content = List (Option RedisReply);
  content = λ w. w.replies;
  execute = lose;
  loses = true;
  content-connect = λ a n w. refl;
  content-free = λ c w. refl;
  content-set_timeout = λ c tv w. refl;
  content-command_argv = λ c argv w live. toy_reply-lose argv w.replies w;
}

run-Answers_example :
    Returns
      (λ _ t.
        (h : History) × Replay losing
          (events h)
          (none ∷ some (text (codes "1")) ∷ some (text (codes "2")) ∷ [])
          t.world.replies
        × AllServed
            (Answers true (codes "shop"))
            (λ i. own i h)
            three_threads.object.stages
            t.object.stages
        × NoOthers 3 h)
      (run ten_rounds answered_threads)
run-Answers_example =
    run-Answers reusing_laws losing ten_rounds answered_threads three_threads-InOrder
      (reusing-SteadyRun ten_rounds answered_threads)

abbrev now_waiting : TimeVal
now_waiting = record { tv_sec = pos 0; tv_usec = pos 500000 }

abbrev incr : List Bytes
incr = codes "INCR" ∷ codes "shop_n" ∷ []

abbrev some_pool : Pool
some_pool = new_pool (codes "db1") (pos 6379) [] true false 1 100 0

-- The reply to the first command gets lost.
abbrev one_lost : ToyWorld
one_lost = record three_threads.world { replies = none ∷ some (text (codes "2")) ∷ [] }

abbrev after_lost : ToyWorld
after_lost = record one_lost { replies = some (text (codes "2")) ∷ [] }

abbrev again : ToyWorld
again = (reusing.connect (codes "db1") (pos 6379) (reusing.free 1 after_lost)).1

run_twice_example :
    (run
        (0 ∷ 0 ∷ 0 ∷ 0 ∷ [])
        (one_thread three_threads.object.client some_pool (Stage.timed incr now_waiting 1) one_lost)
      ≡ ok tt (
          one_thread three_threads.object.client some_pool
            (Stage.replied 1 (text (codes "2")))
            (record again { replies = [] })))
    × (losing.content (record again { replies = [] })
        ≡ (losing.execute incr (losing.execute incr (losing.content one_lost)).1).1)
run_twice_example =
    run_twice reusing_laws losing three_threads.object.client some_pool incr now_waiting 1
      (text (codes "2")) one_lost after_lost again (record again { replies = [] }) refl refl refl
      refl refl refl
