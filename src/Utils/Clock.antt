-- ===== src/Utils/Clock.antt =====
-- `TimeUtil` of cpp/include/Utils.h.
use codis_client.Prelude.{
  ℕ, ◌-◌, ◌/◌, ◌%◌, ◌≤◌, ◌<◌, ◌^◌, ◌≡◌, refl, arith, Bool, true, false, ◌++◌, Option, none, some,
  if◌then◌else◌, ℤ, pos, times, quot, ◌+ℤ◌, ◌-ℤ◌, Bytes, codes,
}
use codis_client.Run.{M, ok, pure, undefined, ◌>>=◌, ◌>>◌}
use codis_client.Hiredis.{TimeVal, State, get, put}
use codis_client.System.{System, Tm}
use codis_client.Utils.{int2string}

pub record TimeUtil : Type 0 where
  pub start : TimeVal
  pub end : TimeVal

abbrev pub zero_time : TimeVal
zero_time = record { tv_sec = pos 0; tv_usec = pos 0 }

-- The constructor.
abbrev pub new_time_util : TimeUtil
new_time_util = record { start = zero_time; end = zero_time }

-- The difference of the two times in microseconds.
abbrev pub micros : TimeUtil → ℤ
micros t = times (t.end.tv_sec -ℤ t.start.tv_sec) 1000000 +ℤ (t.end.tv_usec -ℤ t.start.tv_usec)

-- `getUseTime`, for times whose microseconds fit in a `long`, which is 64 bits wide; beyond, it overflows.
unfoldable pub get_use_time : TimeUtil → Bool → ℤ
get_use_time t bflag = if bflag then quot (micros t) 1000 else micros t

abbrev pub time_text : Tm → Bytes
time_text tm =
    int2string (tm.tm_year +ℤ pos 1900)
    ++ (codes "-"
        ++ (int2string (tm.tm_mon +ℤ pos 1)
            ++ (codes "-"
                ++ (int2string tm.tm_mday
                    ++ (codes " "
                        ++ (int2string (tm.tm_hour +ℤ pos 1)
                            ++ (codes ":"
                                ++ (int2string tm.tm_min
                                    ++ (codes ":" ++ int2string tm.tm_sec)))))))))

module _ ⦃sys : System⦄ where
  abbrev pub TimeM : Type 0 → Type 0
  TimeM = M (State TimeUtil sys.World)

  abbrev pub gettimeofday : TimeM TimeVal
  gettimeofday s = let r = sys.gettimeofday s.world in ok r.0 (record s { world = r.1 })

  unfoldable pub start_timer : TimeM (Unit {0})
  start_timer = do now ← gettimeofday; t ← get; put (record t { start = now })

  unfoldable pub end_timer : Bool → TimeM ℤ
  unfolding get_use_time
  end_timer bflag = do
    now ← gettimeofday
    t ← get
    put (record t { end = now })
    pure (get_use_time (record t { end = now }) bflag)

  abbrev pub text_of_time : Option Tm → M sys.World Bytes
  text_of_time none = undefined
  text_of_time (some tm) = pure (time_text tm)

  unfoldable pub get_current_time : M sys.World Bytes
  get_current_time w =
      let (now, w1) = sys.time w in let (tm, w2) = sys.localtime now w1 in text_of_time tm w2

-- The reading of a clock `t` microseconds after its beginning.
abbrev pub reading : ℕ → TimeVal
reading t = record { tv_sec = pos (t / 1000000); tv_usec = pos (t % 1000000) }

micros-reading :
    (t1 t2 : ℕ) → t1 ≤ t2 → micros (record { start = reading t1; end = reading t2 }) ≡ pos (t2 - t1)
micros-reading t1 t2 h = ground arith

module _ ⦃sys : System⦄ where
  -- Where a clock that counts microseconds reads `t1` at `Start` and `t2`, not less, at `End`, and both fit in a
  -- `long`: `End(false)` gives the microseconds between them, and `End(true)` the whole milliseconds, where the comments
  -- say the opposite.
  pub end_timer-start_timer :
      (bflag : Bool) (t1 t2 : ℕ) (o : TimeUtil) (w w1 v v2 : sys.World)
      → sys.gettimeofday w ≡ (reading t1, w1)
      → sys.gettimeofday v ≡ (reading t2, v2)
      → t1 ≤ t2
      → t2 < 2 ^ 63
      → let o1 : TimeUtil = record o { start = reading t1 } in
        (start_timer (record { object = o; world = w })
          ≡ ok tt (record { object = o1; world = w1 }))
        × (end_timer bflag (record { object = o1; world = v })
            ≡ ok
                (pos (if bflag then (t2 - t1) / 1000 else t2 - t1))
                (record { object = record o1 { end = reading t2 }; world = v2 }))
  unfolding start_timer end_timer
  end_timer-start_timer true t1 t2 o w w1 v v2 e e' h fits =
      (rw e refl, rw (e', micros-reading t1 t2 h) refl)
  end_timer-start_timer false t1 t2 o w w1 v v2 e e' h fits =
      (rw e refl, rw (e', micros-reading t1 t2 h) refl)
