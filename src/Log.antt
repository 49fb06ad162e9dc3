-- ===== src/Log.antt =====
-- `Log` of cpp/include/Log.h, whose body is one critical section, here a single step. The other modules leave its
-- calls out: it writes to a file of its own only.
pub mod Entries
pub mod Section
pub mod Together
use codis_client.Prelude.{
  ◌≡◌, refl, sym, ap, ◌∙◌, Bool, true, false, List, [], ◌∷◌, ◌++◌, append_assoc, Option, none, some,
  ℤ, Bytes, codes,
}
use codis_client.Run.{Run, M, ok, thrown, fault, exited, pure, and_then, ◌>>=◌, ◌>>◌}
use codis_client.System.{System, SystemLaws, Tm}
use codis_client.Utils.{int2string}
use codis_client.Utils.Clock.{get_current_time, time_text, text_of_time}

pub data Level : Type 0 where
  info : Level
  warn : Level
  error : Level

abbrev pub level_name : Level → Bytes
level_name Level.info = codes "INFO"
level_name Level.warn = codes "WARN"
level_name Level.error = codes "ERROR"

-- The text of an entry, with the time `tm`.
abbrev pub entry : Level → Tm → Bytes → Bytes → ℤ → Bytes
entry level tm msg file line =
    codes "["
    ++ (level_name level
        ++ (codes "]["
            ++ (time_text tm
                ++ (codes "]["
                    ++ (file
                        ++ (codes ":"
                            ++ (int2string line
                                ++ (codes "][" ++ (msg ++ (codes "]" ++ 10 ∷ []))))))))))

module _ ⦃sys : System⦄ where
  abbrev pub SystemM : Type 0 → Type 0
  SystemM = M sys.World

  abbrev pub file_name : sys.World → Bytes
  file_name w = codes "codis_client_log_" ++ (int2string (sys.getpid w) ++ codes ".txt")

  -- `ofs << text`
  abbrev pub put_text : Bytes → Bytes → SystemM (Unit {0})
  put_text name text w = ok tt (sys.write name text w)

  -- What `Log` writes to the open file `name`; `endl` is a line feed.
  unfoldable pub write_entry : Bytes → Level → Bytes → Bytes → ℤ → SystemM (Unit {0})
  write_entry name level msg file line = do
    put_text name (codes "[")
    put_text name (level_name level ++ codes "]")
    put_text name (codes "[")
    now ← get_current_time
    put_text name (now ++ codes "]")
    put_text name (codes "[" ++ (file ++ (codes ":" ++ (int2string line ++ codes "]"))))
    put_text name (codes "[" ++ (msg ++ (codes "]" ++ 10 ∷ [])))

  abbrev pub write_if : Bool → Bytes → Level → Bytes → Bytes → ℤ → SystemM (Unit {0})
  write_if false name level msg file line = pure tt
  write_if true name level msg file line = write_entry name level msg file line

  unfoldable pub log : Level → Bytes → Bytes → ℤ → SystemM (Unit {0})
  unfolding write_entry
  log level msg file line w =
      let name = file_name w in
      let (opened, w1) = sys.open_append name w in write_if opened name level msg file line w1
