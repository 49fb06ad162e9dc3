-- ===== src/Examples.antt =====
-- A small hiredis, with which the theorems about connections are applied to concrete states: contexts
-- are numbers that are given out one after the other, and the replies are written down in advance.
pub mod Witnesses
pub mod Data
pub mod Sessions
pub mod Startup
pub mod Requests
pub mod Store
pub mod Threads
pub mod Race
pub mod Machine
pub mod Serial
pub mod Lifetime
pub mod Locks
use codis_client.Prelude.{
  ℕ, suc, ◌≡◌, refl, Bool, true, false, not, ◌&&◌, List, [], ◌∷◌, Option, none, some, arith, ◌==◌,
  Bool-cases, inl, inr, if◌then◌else◌, ℤ, Bytes,
}
use codis_client.Reply.{RedisReply}
use codis_client.Hiredis.{Hiredis, Ptr, null, TimeVal}
use codis_client.Hiredis.Laws.{HiredisLaws}

-- `spare` is the next address to be given out; `reuses` says whether a freed address is given out
-- next.
pub record ToyWorld : Type 0 where
  pub alive : Ptr → Bool
  pub failing : Ptr → ℕ
  pub spare : Ptr
  pub reuses : Bool
  pub replies : List (Option RedisReply)

abbrev pub toy_live : ToyWorld → Ptr → Bool
toy_live w q = not (q == null) && w.alive q

abbrev pub toy_new : ToyWorld → Ptr
toy_new w = if w.alive w.spare then null else w.spare

abbrev pub toy_connect : Bytes → ℤ → ToyWorld → Ptr × ToyWorld
toy_connect a p w = (
  toy_new w,
  record w { alive = λ q. if q == toy_new w then true else w.alive q; spare = suc w.spare },
)

abbrev toy_free : Ptr → ToyWorld → ToyWorld
toy_free c w = record w {
  alive = λ q. if q == c then false else w.alive q;
  spare = if w.reuses then c else w.spare;
}

abbrev pub toy_reply : List (Option RedisReply) → ToyWorld → Option RedisReply × ToyWorld
toy_reply [] w = (none, w)
toy_reply (r ∷ rs) w = (r, record w { replies = rs })

-- Its asynchronous contexts are made like the others, and accept every command.
instance abbrev pub toy : Hiredis
toy = record {
  World = ToyWorld;
  live = toy_live;
  err = λ w. w.failing;
  connect = toy_connect;
  free = toy_free;
  set_timeout = λ c t w. w;
  command_argv = λ c argv w. toy_reply w.replies w;
  async_live = toy_live;
  async_err = λ w. w.failing;
  async_connect = toy_connect;
  async_set_disconnect_callback = λ c w. w;
  async_disconnect = λ c w. w;
  async_command_argv = λ c d argv w. (true, w);
  ae_attach = λ l c w. w;
}

pub toy_new-live : (w : ToyWorld) → toy_live w (toy_new w) ≡ false
toy_new-live w = elim (Bool-cases (w.alive w.spare)) [
  | inl used ↦ rw used refl
  | inr spare ↦ rw (spare, spare) (ground arith)
]

pub toy_reply-alive :
    (rs : List (Option RedisReply)) (w : ToyWorld) (q : Ptr)
    → toy_live (toy_reply rs w).1 q ≡ toy_live w q
toy_reply-alive [] w q = refl
toy_reply-alive (r ∷ rs) w q = refl

pub toy_connect-live :
    (n : Ptr) (f : Ptr → Bool) (q : Ptr)
    → (not (q == null) && (if q == n then true else f q))
      ≡ (if (q == n) && not (q == null) then true else not (q == null) && f q)
toy_connect-live n f q = elim (Bool-cases (q == n)) [
  | inl e ↦ rw e (elim (Bool-cases (q == null)) [ inl z ↦ rw z refl | inr z ↦ rw z refl ])
  | inr e ↦ rw e refl
]

pub toy_free-live :
    (c : Ptr) (f : Ptr → Bool) (q : Ptr)
    → (not (q == null) && (if q == c then false else f q))
      ≡ (if q == c then false else not (q == null) && f q)
toy_free-live c f q = elim (Bool-cases (q == c)) [
  | inl e ↦ rw e (elim (Bool-cases (q == null)) [ inl z ↦ rw z refl | inr z ↦ rw z refl ])
  | inr e ↦ rw e refl
]

pub toy_laws : HiredisLaws toy
toy_laws = record {
  live-null = λ w. refl;
  live-new = λ a p w. toy_new-live w;
  live-connect = λ a p w q. toy_connect-live (toy_new w) w.alive q;
  live-free = λ c w q. toy_free-live c w.alive q;
  live-set_timeout = λ c t w q. refl;
  live-command_argv = λ c argv w q. toy_reply-alive w.replies w q;
  err-free = λ c w q ne. refl;
}
