-- ===== src/Examples/Machine.antt =====
-- `TimeUtil` and `Log` on a machine whose clock counts every reading.
use codis_client.Prelude.{
  List, [], ◌∷◌, map, own, program, ℕ, ◌+◌, ◌/◌, ◌≡◌, refl, true, false, ◌++◌, arith, some,
  if◌then◌else◌, pos, Bytes, codes, bytes_eq, bytes_eq_refl,
}
use codis_client.Run.{Returns, ok}
use codis_client.System.{System, SystemLaws, Tm}
use codis_client.Utils.Clock.{new_time_util, start_timer, end_timer, reading, end_timer-start_timer}
use codis_client.Log.{Level, file_name}
use codis_client.Log.Section.{Message, Logging, log_section}
use codis_client.Log.Together.{AddedInOrder, interleave-AddedInOrder}
use codis_client.ScopedLock.{interleave, start}
use codis_client.ScopedLock.Whole.{finished, Left}

record Machine : Type 0 where
  now : ℕ
  files : Bytes → Bytes

abbrev new_year : Tm
new_year = record {
  tm_year = pos 116;
  tm_mon = pos 0;
  tm_mday = pos 1;
  tm_hour = pos 9;
  tm_min = pos 30;
  tm_sec = pos 0;
}

instance abbrev machine : System
machine = record {
  World = Machine;
  gettimeofday = λ w. (reading w.now, record w { now = w.now + 1500000 });
  time = λ w. (pos (w.now / 1000000), w);
  localtime = λ t w. (some new_year, w);
  getpid = λ w. pos 42;
  open_append = λ name w. (true, w);
  write = λ name text w. record w {
    files = λ f. if bytes_eq f name then w.files f ++ text else w.files f;
  };
}

abbrev machine_laws : SystemLaws machine
machine_laws = record {
  content = λ w. w.files;
  content-time = λ w f. refl;
  content-localtime = λ now w f. refl;
  content-open_append = λ name w f. refl;
  content-write = λ name text w. rw (bytes_eq_refl name) refl;
}

abbrev booted : Machine
booted = record { now = 999999; files = λ f. codes "old" }

end_timer-start_timer_example :
    (start_timer (record { object = new_time_util; world = booted })
      ≡ ok tt (record {
        object = record new_time_util { start = reading 999999 };
        world = record booted { now = 2499999 };
      }))
    × (end_timer true (record {
      object = record new_time_util { start = reading 999999 };
      world = record booted { now = 2499999 };
    })
        ≡ ok (pos 1500) (record {
          object = record { start = reading 999999; end = reading 2499999 };
          world = record booted { now = 3999999 };
        }))
end_timer-start_timer_example =
    end_timer-start_timer true 999999 2499999 new_time_util booted (record booted { now = 2499999 })
      (record booted { now = 2499999 }) (record booted { now = 3999999 }) refl refl (ground arith)
      (omega arith)

abbrev slow : Message
slow = record { level = Level.warn; msg = codes "slow"; file = codes "Client.cpp"; line = pos 7 }

abbrev lost : Message
lost = record { level = Level.error; msg = codes "lost"; file = codes "Pool.cpp"; line = pos 40 }

-- Two threads; the second one tries to begin while the first one is in its section.
abbrev messages : List (List Message)
messages = (slow ∷ lost ∷ []) ∷ (lost ∷ []) ∷ []

abbrev in_turn : List ℕ
in_turn = 0 ∷ 0 ∷ 1 ∷ 0 ∷ 0 ∷ 1 ∷ 0 ∷ 0 ∷ 0 ∷ 0 ∷ 0 ∷ 1 ∷ 1 ∷ 0 ∷ 1 ∷ []

abbrev no_stream : Logging Machine
no_stream = record { world = booted; name = []; opened = false }

interleave-AddedInOrder_example :
    let run = interleave in_turn (start (map (map log_section) messages) no_stream) in
    Returns
      (λ _ t.
        (h : List (ℕ × Message)) × (new : Bytes) × AddedInOrder h new
        × (t.world.files (file_name booted) ≡ codes "old" ++ new)
        × ((i : ℕ)
            → (rest : List Message) × (own i h ++ rest ≡ program messages i)
              × Left run i (map log_section rest)))
      (finished run)
interleave-AddedInOrder_example =
    interleave-AddedInOrder machine_laws (λ now w. (new_year, refl)) (λ v w. refl) (λ w. refl)
      in_turn messages no_stream
