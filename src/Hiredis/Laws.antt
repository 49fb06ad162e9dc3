-- ===== src/Hiredis/Laws.antt =====
-- What hiredis documents of its contexts: which of them exist after each call, and that a call on one
-- does not change the `err` of another.
use codis_client.Prelude.{◌≡◌, true, false, List, if◌then◌else◌, ℤ, Bytes, ◌==◌, ◌&&◌, not}
use codis_client.Hiredis.{Hiredis, Ptr, null, TimeVal}

-- `redisConnect` returns `NULL` or a context that did not exist before; `redisFree` ends the one that
-- it is given; nothing else makes or ends a context, and no call on a context touches
-- the `err` of another.
pub record HiredisLaws (lib : Hiredis) : Type 0 where
  pub live-null : (w : lib.World) → lib.live w null ≡ false
  pub live-new : (a : Bytes) (p : ℤ) (w : lib.World) → lib.live w (lib.connect a p w).0 ≡ false
  pub live-connect :
      (a : Bytes) (p : ℤ) (w : lib.World) (q : Ptr)
      → lib.live (lib.connect a p w).1 q
        ≡ (if (q == (lib.connect a p w).0) && not (q == null) then true else lib.live w q)
  pub live-free :
      (c : Ptr) (w : lib.World) (q : Ptr)
      → lib.live (lib.free c w) q ≡ (if q == c then false else lib.live w q)
  pub live-set_timeout :
      (c : Ptr) (t : TimeVal) (w : lib.World) (q : Ptr)
      → lib.live (lib.set_timeout c t w) q ≡ lib.live w q
  pub live-command_argv :
      (c : Ptr) (argv : List Bytes) (w : lib.World) (q : Ptr)
      → lib.live (lib.command_argv c argv w).1 q ≡ lib.live w q
  pub err-free :
      (c : Ptr) (w : lib.World) (q : Ptr)
      → (q == c) ≡ false
      → lib.err (lib.free c w) q ≡ lib.err w q
