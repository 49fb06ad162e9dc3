-- ===== src/System.antt =====
-- What cpp/include/Utils.h and cpp/include/Log.h use of the operating system: a parameter, like hiredis.
use codis_client.Prelude.{Bool, Option, ℤ, Bytes, ◌≡◌, ◌++◌}
use codis_client.Hiredis.{TimeVal}

-- The fields of `struct tm` that are used.
pub record Tm : Type 0 where
  pub tm_year : ℤ
  pub tm_mon : ℤ
  pub tm_mday : ℤ
  pub tm_hour : ℤ
  pub tm_min : ℤ
  pub tm_sec : ℤ

-- `localtime` may give `NULL`. `open` is that of a file to append to, and says whether it is open; `write` puts
-- a text behind what is in the file.
pub record System : Type 1 where
  pub World : Type 0
  pub gettimeofday : World → TimeVal × World
  pub time : World → ℤ × World
  pub localtime : ℤ → World → Option Tm × World
  pub getpid : World → ℤ
  pub open_append : Bytes → World → Bool × World
  pub write : Bytes → Bytes → World → World

-- `content` is what is in a file: only `write` changes it, and it adds its text at the end.
pub record SystemLaws (sys : System) : Type 0 where
  pub content : sys.World → Bytes → Bytes
  pub content-time : (w : sys.World) (f : Bytes) → content (sys.time w).1 f ≡ content w f
  pub content-localtime :
      (now : ℤ) (w : sys.World) (f : Bytes) → content (sys.localtime now w).1 f ≡ content w f
  pub content-open_append :
      (name : Bytes) (w : sys.World) (f : Bytes)
      → content (sys.open_append name w).1 f ≡ content w f
  pub content-write :
      (name text : Bytes) (w : sys.World)
      → content (sys.write name text w) name ≡ content w name ++ text
