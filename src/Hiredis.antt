-- ===== src/Hiredis.antt =====
-- What the client uses of hiredis (cpp/3party/include/hiredis/hiredis.h), which is not part of the
-- repository's own code: the library and all that stands behind it, its contexts, the sockets and the
-- servers, are a parameter. A pointer is a number, and `null` is `NULL`.
pub mod Laws
use codis_client.Prelude.{
  ℕ, Bool, true, false, List, Option, none, some, if◌then◌else◌, ℤ, Bytes, ◌==◌,
}
use codis_client.Reply.{RedisReply}
use codis_client.Run.{Run, ok, fault, M}

abbrev pub Ptr : Type 0
Ptr = ℕ

abbrev pub null : Ptr
null = 0

-- `struct timeval`.
pub record TimeVal : Type 0 where
  pub tv_sec : ℤ
  pub tv_usec : ℤ

-- `live` says which contexts are allocated and not freed, and `err` is the field of that name; so do
-- `async_live` and `async_err` for the asynchronous contexts. An event loop is a number too, and so is
-- the `privdata` that a command's callback is given.
pub record Hiredis : Type 1 where
  pub World : Type 0
  pub live : World → Ptr → Bool
  pub err : World → Ptr → ℕ
  pub connect : Bytes → ℤ → World → Ptr × World
  pub free : Ptr → World → World
  pub set_timeout : Ptr → TimeVal → World → World
  pub command_argv : Ptr → List Bytes → World → Option RedisReply × World
  pub async_live : World → Ptr → Bool
  pub async_err : World → Ptr → ℕ
  pub async_connect : Bytes → ℤ → World → Ptr × World
  pub async_set_disconnect_callback : Ptr → World → World
  pub async_disconnect : Ptr → World → World
  pub async_command_argv : Ptr → ℕ → List Bytes → World → Bool × World
  pub ae_attach : ℕ → Ptr → World → World

-- An object of the client's, and the world outside.
pub record State (O W : Type 0) : Type 0 where
  pub object : O
  pub world : W

module _ {O W : Type 0} where
  abbrev pub get : M (State O W) O
  get s = ok s.object s

  abbrev pub put : O → M (State O W) (Unit {0})
  put o s = ok tt (record s { object = o })

module _ ⦃lib : Hiredis⦄ {O : Type 0} where
  -- A use of the context at `c`: undefined unless one is there.
  abbrev pub at : {A : Type 0} → Ptr → M (State O lib.World) A → M (State O lib.World) A
  at c m s = if lib.live s.world c then m s else fault

  abbrev pub redis_connect : Bytes → ℤ → M (State O lib.World) Ptr
  redis_connect address port s =
      let r = lib.connect address port s.world in ok r.0 (record s { world = r.1 })

  -- `c->err`
  abbrev pub redis_err : Ptr → M (State O lib.World) ℕ
  redis_err c = at c λ s. ok (lib.err s.world c) s

  abbrev pub redis_free : Ptr → M (State O lib.World) (Unit {0})
  redis_free c = at c λ s. ok tt (record s { world = lib.free c s.world })

  abbrev pub redis_set_timeout : Ptr → TimeVal → M (State O lib.World) (Unit {0})
  redis_set_timeout c tv = at c λ s. ok tt (record s { world = lib.set_timeout c tv s.world })

  abbrev pub redis_command_argv : Ptr → List Bytes → M (State O lib.World) (Option RedisReply)
  redis_command_argv c argv =
      at c λ s. let r = lib.command_argv c argv s.world in ok r.0 (record s { world = r.1 })

  abbrev pub async_at : {A : Type 0} → Ptr → M (State O lib.World) A → M (State O lib.World) A
  async_at c m s = if lib.async_live s.world c then m s else fault

  abbrev pub redis_async_connect : Bytes → ℤ → M (State O lib.World) Ptr
  redis_async_connect address port s =
      let r = lib.async_connect address port s.world in ok r.0 (record s { world = r.1 })

  abbrev pub redis_async_err : Ptr → M (State O lib.World) ℕ
  redis_async_err c = async_at c λ s. ok (lib.async_err s.world c) s

  abbrev pub redis_async_set_disconnect_callback : Ptr → M (State O lib.World) (Unit {0})
  redis_async_set_disconnect_callback c =
      async_at c λ s. ok tt (record s { world = lib.async_set_disconnect_callback c s.world })

  abbrev pub redis_async_disconnect : Ptr → M (State O lib.World) (Unit {0})
  redis_async_disconnect c =
      async_at c λ s. ok tt (record s { world = lib.async_disconnect c s.world })

  abbrev pub redis_ae_attach : ℕ → Ptr → M (State O lib.World) (Unit {0})
  redis_ae_attach loop c = async_at c λ s. ok tt (record s { world = lib.ae_attach loop c s.world })

  -- Whether the command was accepted, `rc != REDIS_ERR`.
  abbrev pub redis_async_command_argv : Ptr → ℕ → List Bytes → M (State O lib.World) Bool
  redis_async_command_argv c privdata argv = async_at c λ s.
      let r = lib.async_command_argv c privdata argv s.world in ok r.0 (record s { world = r.1 })
