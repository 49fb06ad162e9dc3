-- ===== src/Log/Section.antt =====
-- `Log` of cpp/include/Log.h, a step at a time: the section between `pthread_mutex_lock` and
-- `pthread_mutex_unlock`, as several threads run it under one mutex, like the sections of a `ScopedLock`. The
-- function and its mutex are `static` in a header: each source file has its own.
use codis_client.Prelude.{
  ◌≡◌, refl, inl, inr, Bool, true, false, Bool-cases, [], ◌∷◌, ◌++◌, Option-cases, if◌then◌else◌, ℤ,
  Bytes, codes,
}
use codis_client.Run.{Run, M, ok, thrown, fault, exited, ◌>>=◌}
use codis_client.System.{System}
use codis_client.Utils.{int2string}
use codis_client.Utils.Clock.{get_current_time}
use codis_client.Log.{Level, level_name, SystemM, file_name, put_text, write_entry, log}
use codis_client.ScopedLock.{Section}
use codis_client.ScopedLock.Whole.{whole}

-- The arguments of a call of `Log`.
pub record Message : Type 0 where
  pub level : Level
  pub msg : Bytes
  pub file : Bytes
  pub line : ℤ

-- The world, and the file stream `ofs` of the call that is in its section: its name and whether it is open.
pub record Logging (World : Type 0) : Type 0 where
  pub world : World
  pub name : Bytes
  pub opened : Bool

module _ ⦃sys : System⦄ where
  abbrev pub LoggingM : Type 0
  LoggingM = M (Logging sys.World) (Unit {0})

  abbrev pub with_stream :
      Bytes → Bool → Run sys.World (Unit {0}) → Run (Logging sys.World) (Unit {0})
  with_stream name opened (ok x w) = ok tt (record { world = w; name = name; opened = opened })
  with_stream name opened (thrown w) = thrown (record { world = w; name = name; opened = opened })
  with_stream name opened fault = fault
  with_stream name opened exited = exited

  abbrev pub open_stream : LoggingM
  open_stream s =
      let name = file_name s.world in
      let (opened, w) = sys.open_append name s.world in
      ok tt (record { world = w; name = name; opened = opened })

  -- After `if (!ofs)` the call has nothing left but the end of its section.
  abbrev pub if_opened : (Bytes → SystemM (Unit {0})) → LoggingM
  if_opened m s = if s.opened then with_stream s.name s.opened (m s.name s.world) else ok tt s

  abbrev pub put_time : Bytes → SystemM (Unit {0})
  put_time name = do now ← get_current_time; put_text name (now ++ codes "]")

  -- The output operations of the section, each a step.
  unfoldable pub entry_steps : Message → Section (Logging sys.World)
  entry_steps m =
      if_opened (λ name. put_text name (codes "["))
      ∷ if_opened (λ name. put_text name (level_name m.level ++ codes "]"))
      ∷ if_opened (λ name. put_text name (codes "["))
      ∷ if_opened put_time
      ∷ if_opened (λ name.
        put_text name (codes "[" ++ (m.file ++ (codes ":" ++ (int2string m.line ++ codes "]")))))
      ∷ if_opened (λ name. put_text name (codes "[" ++ (m.msg ++ (codes "]" ++ 10 ∷ []))))
      ∷ []

  unfoldable pub log_section : Message → Section (Logging sys.World)
  log_section m = open_stream ∷ entry_steps m

  abbrev pub log_message : Message → SystemM (Unit {0})
  log_message m = log m.level m.msg m.file m.line

  -- What a call leaves, with its stream.
  abbrev pub logged : Message → sys.World → Run (Logging sys.World) (Unit {0})
  logged m w = with_stream (file_name w) (sys.open_append (file_name w) w).0 (log_message m w)

  whole-entry_steps :
      (m : Message) (name : Bytes) (w : sys.World)
      → whole (entry_steps m) (record { world = w; name = name; opened = true })
        ≡ with_stream name true (write_entry name m.level m.msg m.file m.line w)
  unfolding entry_steps write_entry get_current_time
  whole-entry_steps m name w =
      let w1 = sys.write name (codes "[") w in
      let w2 = sys.write name (level_name m.level ++ codes "]") w1 in
      let (now, w3) = sys.time (sys.write name (codes "[") w2) in
      elim (Option-cases (sys.localtime now w3).0) [ inl e ↦ rw e refl | inr (tm, e) ↦ rw e refl ]

  no_entry :
      (m : Message) (name : Bytes) (w : sys.World)
      → whole (entry_steps m) (record { world = w; name = name; opened = false })
        ≡ with_stream name false (ok tt w)
  unfolding entry_steps
  no_entry m name w = refl

  -- The section as a whole is the call.
  pub whole-log_section :
      (m : Message) (s : Logging sys.World) → whole (log_section m) s ≡ logged m s.world
  unfolding log_section log
  whole-log_section m s =
      let name = file_name s.world in
      let (opened, w) = sys.open_append name s.world in
      elim (Bool-cases opened) [
        | inl e ↦ rw e (whole-entry_steps m name w)
        | inr e ↦ rw e (no_entry m name w)
      ]
