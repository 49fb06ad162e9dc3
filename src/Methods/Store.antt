-- ===== src/Methods/Store.antt =====
-- `set` and `get` of `CodisClient` (cpp/src/CodisClient.cpp) against a Redis server that stores values.
use codis_client.Prelude.{
  ◌≡◌, refl, ap, ◌∙◌, Bool, true, false, [], ◌∷◌, Option, some, arith, ℤ, pos, Bytes, codes,
  bytes_eq, bytes_eq_refl, if◌then◌else◌,
}
use codis_client.Reply.{RedisReply, RedisReplies, redis_reply, of_redis, status_type, string_type}
use codis_client.Run.{Returns, ok, and_then, pure}
use codis_client.KeyPrefix.{inner_command}
use codis_client.KeyPrefix.Wire.{with_bid, inner_command-map_keys}
use codis_client.Hiredis.{Hiredis, Ptr, TimeVal, State}
use codis_client.Hiredis.Laws.{HiredisLaws}
use codis_client.ConnPool.{Pool, decrement}
use codis_client.ConnPool.Reuse.{Fine, free_all}
use codis_client.Client.{Client, time_val}
use codis_client.Client.Answers.{with_conn_pool, redis_command_answered}
use codis_client.Methods.{too_big, is_ok, str_or_empty}
use codis_client.Methods.Strings

abbrev pub ok_reply : RedisReply
ok_reply = redis_reply status_type (pos 0) (codes "OK") RedisReplies.nil

abbrev pub text_reply : Bytes → RedisReply
text_reply value = redis_reply string_type (pos 0) value RedisReplies.nil

-- What Redis documents of `SET` and `GET`, seen over a connection in order, which stays in order:
-- `store` is what the server holds.
pub record Server (lib : Hiredis) : Type 0 where
  pub store : lib.World → Bytes → Option Bytes
  pub store-set_timeout :
      (c : Ptr) (tv : TimeVal) (w : lib.World) (q : Bytes)
      → store (lib.set_timeout c tv w) q ≡ store w q
  pub err-set_timeout :
      (c : Ptr) (tv : TimeVal) (w : lib.World)
      → lib.err w c ≡ 0
      → lib.err (lib.set_timeout c tv w) c ≡ 0
  pub set_reply :
      (c : Ptr) (k v : Bytes) (w : lib.World)
      → lib.live w c ≡ true
      → lib.err w c ≡ 0
      → (lib.command_argv c (codes "SET" ∷ k ∷ v ∷ []) w).0 ≡ some ok_reply
  pub err-set :
      (c : Ptr) (k v : Bytes) (w : lib.World)
      → lib.live w c ≡ true
      → lib.err w c ≡ 0
      → lib.err (lib.command_argv c (codes "SET" ∷ k ∷ v ∷ []) w).1 c ≡ 0
  pub store-set :
      (c : Ptr) (k v : Bytes) (w : lib.World) (q : Bytes)
      → lib.live w c ≡ true
      → lib.err w c ≡ 0
      → store (lib.command_argv c (codes "SET" ∷ k ∷ v ∷ []) w).1 q
        ≡ (if bytes_eq q k then some v else store w q)
  pub get_reply :
      (c : Ptr) (k v : Bytes) (w : lib.World)
      → lib.live w c ≡ true
      → lib.err w c ≡ 0
      → store w k ≡ some v
      → (lib.command_argv c (codes "GET" ∷ k ∷ []) w).0 ≡ some (text_reply v)

if-some : (b : Bool) (x y : Bytes) → (if b then some x else some y) ≡ some (if b then x else y)
if-some true x y = refl
if-some false x y = refl

inner_command-set :
    (bid key value : Bytes)
    → inner_command bid (codes "SET" ∷ key ∷ value ∷ [])
      ≡ codes "SET" ∷ with_bid bid key ∷ value ∷ []
unfolding bytes_eq
inner_command-set bid key value = inner_command-map_keys bid (codes "SET") (key ∷ value ∷ [])

inner_command-get :
    (bid key : Bytes)
    → inner_command bid (codes "GET" ∷ key ∷ []) ≡ codes "GET" ∷ with_bid bid key ∷ []
unfolding bytes_eq
inner_command-get bid key = inner_command-map_keys bid (codes "GET") (key ∷ [])

module _ ⦃lib : Hiredis⦄ (laws : HiredisLaws lib) (server : Server lib) (key : Bytes) (tt' : ℤ)
    (c : Ptr) (p : Pool) (s : State Client lib.World) (connected : s.object.conn_pool ≡ some p)
    (alone : p.unused ≡ c ∷ []) (fine : Fine s.world c) where
  abbrev limited : lib.World
  limited = lib.set_timeout c (time_val tt') s.world

  limited-Fine : Fine limited c
  limited-Fine = (
    laws.live-set_timeout c (time_val tt') s.world c ∙ fine.0,
    server.err-set_timeout c (time_val tt') s.world fine.1,
  )

  -- The connection goes out and back.
  abbrev around : lib.World → State Client lib.World
  around w = with_conn_pool s (record p { unused = c ∷ []; used = decrement p.used }) w

  abbrev stored : Bytes → lib.World
  stored value =
      (lib.command_argv c (codes "SET" ∷ with_bid s.object.bid key ∷ value ∷ []) limited).1

  set_sent :
      (value : Bytes)
      → lib.command_argv c
          (inner_command s.object.bid (codes "SET" ∷ key ∷ value ∷ []))
          (lib.set_timeout c (time_val tt') (free_all [] s.world))
        ≡ (some ok_reply, stored value)
  unfolding free_all
  set_sent value =
      ap (λ argv. lib.command_argv c argv limited) (inner_command-set s.object.bid key value)
      ∙ ap (λ r. (r, stored value))
          (server.set_reply c (with_bid s.object.bid key) value limited limited-Fine.0
            limited-Fine.1)

  set-stored :
      (value : Bytes)
      → too_big value ≡ false
      → Strings.set key value tt' s ≡ ok true (around (stored value))
  unfolding Strings.set of_redis bytes_eq
  set-stored value fits = rw fits (
      ap (λ r. and_then r (λ rep. pure (is_ok rep)))
        (redis_command_answered laws (codes "SET" ∷ key ∷ value ∷ []) tt' [] c [] p s connected
          alone (tt, tt) tt fine (omega arith) ok_reply (stored value) (set_sent value)))

  stored-Fine : (value : Bytes) → Fine (stored value) c
  stored-Fine value = (
    laws.live-command_argv c (codes "SET" ∷ with_bid s.object.bid key ∷ value ∷ []) limited c
        ∙ limited-Fine.0,
    server.err-set c (with_bid s.object.bid key) value limited limited-Fine.0 limited-Fine.1,
  )

  store-stored :
      (value q : Bytes)
      → server.store (stored value) q
        ≡ (if bytes_eq q (with_bid s.object.bid key) then some value else server.store s.world q)
  store-stored value q =
      server.store-set c (with_bid s.object.bid key) value limited q limited-Fine.0 limited-Fine.1
      ∙ ap (λ x. if bytes_eq q (with_bid s.object.bid key) then some value else x)
          (server.store-set_timeout c (time_val tt') s.world q)

  -- The world after a `GET`.
  abbrev got : lib.World
  got = (lib.command_argv c (codes "GET" ∷ with_bid s.object.bid key ∷ []) limited).1

  get_sent :
      (value : Bytes)
      → server.store s.world (with_bid s.object.bid key) ≡ some value
      → lib.command_argv c
          (inner_command s.object.bid (codes "GET" ∷ key ∷ []))
          (lib.set_timeout c (time_val tt') (free_all [] s.world))
        ≡ (some (text_reply value), got)
  unfolding free_all
  get_sent value there =
      ap (λ argv. lib.command_argv c argv limited) (inner_command-get s.object.bid key)
      ∙ ap (λ r. (r, got))
          (server.get_reply c (with_bid s.object.bid key) value limited limited-Fine.0
            limited-Fine.1
            (server.store-set_timeout c (time_val tt') s.world (with_bid s.object.bid key) ∙ there))

  get_found :
      (value : Bytes)
      → server.store s.world (with_bid s.object.bid key) ≡ some value
      → Strings.get key tt' s ≡ ok value (around got)
  unfolding Strings.get of_redis
  get_found value there =
      ap (λ r. and_then r (λ rep. pure (str_or_empty rep)))
        (redis_command_answered laws (codes "GET" ∷ key ∷ []) tt' [] c [] p s connected alone
          (tt, tt) tt fine (omega arith) (text_reply value) got (get_sent value there))

module _ ⦃lib : Hiredis⦄ (laws : HiredisLaws lib) (server : Server lib) where
  -- On a client whose pool holds one connection, in order, and over a server that stores what `SET` says
  -- and answers: where the value is not too long, `set` returns `true`, a `get` of the same key after it
  -- returns the value, and a `get` of another key, if the server holds one, what it held before.
  pub get-set :
      (key value other held : Bytes) (t1 t2 : ℤ) (c : Ptr) (p : Pool) (s : State Client lib.World)
      → s.object.conn_pool ≡ some p
      → p.unused ≡ c ∷ []
      → Fine s.world c
      → too_big value ≡ false
      → server.store s.world (with_bid s.object.bid other) ≡ some held
      → Returns
          (λ done t.
            (done ≡ true)
            × Returns (λ v _. v ≡ value) (Strings.get key t2 t)
            × Returns
                (λ v _. v ≡ (
                  if bytes_eq (with_bid s.object.bid other) (with_bid s.object.bid key)
                  then value
                  else held))
                (Strings.get other t2 t))
          (Strings.set key value t1 s)
  get-set key value other held t1 t2 c p s connected alone fine fits there =
      let k = with_bid s.object.bid key in
      let q = with_bid s.object.bid other in
      let p1 : Pool = record p { unused = c ∷ []; used = decrement p.used } in
      let w1 = stored laws server key t1 c p s connected alone fine value in
      let s1 : State Client lib.World = with_conn_pool s p1 w1 in
      let fine1 = stored-Fine laws server key t1 c p s connected alone fine value in
      let same : server.store w1 k ≡ some value =
        store-stored laws server key t1 c p s connected alone fine value k
        ∙ rw (bytes_eq_refl k) refl in
      let kept : server.store w1 q ≡ some (if bytes_eq q k then value else held) =
        store-stored laws server key t1 c p s connected alone fine value q
        ∙ rw there (if-some (bytes_eq q k) value held) in
      rw (set-stored laws server key t1 c p s connected alone fine value fits) (
        refl,
        rw (get_found laws server key t2 c p1 s1 refl refl fine1 value same) refl,
        rw
            (get_found laws server other t2 c p1 s1 refl refl fine1
              (if bytes_eq q k then value else held) kept)
            refl,
      )
