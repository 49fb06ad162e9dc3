-- ===== src/Examples/Store.antt =====
-- A hiredis with a server that stores values, and `set` and `get` over it.
use codis_client.Prelude.{
  ◌≡◌, refl, Bool, true, false, not, ◌&&◌, List, [], ◌∷◌, Option, none, some, ◌==◌, Bool-cases, inl,
  inr, if◌then◌else◌, pos, Bytes, codes, bytes_eq,
}
use codis_client.Reply.{RedisReply}
use codis_client.Run.{Returns}
use codis_client.Hiredis.{Hiredis, Ptr, null, State}
use codis_client.Hiredis.Laws.{HiredisLaws}
use codis_client.ConnPool.{Pool, new_pool}
use codis_client.Client.{Client}
use codis_client.Methods.Store.{Server, ok_reply, text_reply, get-set}
use codis_client.Methods.Strings
use codis_client.Examples.{toy_free-live}

-- Which contexts exist, and what the server holds.
abbrev StoreWorld : Type 0
StoreWorld = (Ptr → Bool) × (Bytes → Option Bytes)

abbrev stored_text : Option Bytes → Option RedisReply
stored_text none = none
stored_text (some v) = some (text_reply v)

abbrev execute : List Bytes → StoreWorld → Option RedisReply × StoreWorld
execute (name ∷ k ∷ []) w = (stored_text (w.1 k), w)
execute (name ∷ k ∷ v ∷ []) w = (some ok_reply, (w.0, λ q. if bytes_eq q k then some v else w.1 q))
execute argv w = (none, w)

instance abbrev storing : Hiredis
storing = record {
  World = StoreWorld;
  live = λ w q. not (q == null) && w.0 q;
  err = λ w q. 0;
  connect = λ a p w. (null, w);
  free = λ c w. (λ q. if q == c then false else w.0 q, w.1);
  set_timeout = λ c t w. w;
  command_argv = λ c argv w. execute argv w;
  async_live = λ w q. false;
  async_err = λ w q. 0;
  async_connect = λ a p w. (null, w);
  async_set_disconnect_callback = λ c w. w;
  async_disconnect = λ c w. w;
  async_command_argv = λ c d argv w. (false, w);
  ae_attach = λ l c w. w;
}

storing_live-connect :
    (f : Ptr → Bool) (q : Ptr)
    → (not (q == null) && f q)
      ≡ (if (q == null) && not (q == null) then true else not (q == null) && f q)
storing_live-connect f q = elim (Bool-cases (q == null)) [ inl z ↦ rw z refl | inr z ↦ rw z refl ]

execute-contexts : (argv : List Bytes) (w : StoreWorld) → (execute argv w).1.0 ≡ w.0
execute-contexts [] w = refl
execute-contexts (name ∷ []) w = refl
execute-contexts (name ∷ k ∷ []) w = refl
execute-contexts (name ∷ k ∷ v ∷ []) w = refl
execute-contexts (name ∷ k ∷ v ∷ x ∷ xs) w = refl

storing_laws : HiredisLaws storing
storing_laws = record {
  live-null = λ w. refl;
  live-new = λ a p w. refl;
  live-connect = λ a p w q. storing_live-connect w.0 q;
  live-free = λ c w q. toy_free-live c w.0 q;
  live-set_timeout = λ c t w q. refl;
  live-command_argv = λ c argv w q. rw (execute-contexts argv w) refl;
  err-free = λ c w q ne. refl;
}

abbrev storing_server : Server storing
storing_server = record {
  store = λ w. w.1;
  store-set_timeout = λ c tv w q. refl;
  err-set_timeout = λ c tv w e. e;
  set_reply = λ c k v w live fine. refl;
  err-set = λ c k v w live fine. fine;
  store-set = λ c k v w q live fine. refl;
  get_reply = λ c k v w live fine there. rw there refl;
}

abbrev one_pool : Pool
one_pool = record (new_pool (codes "db1") (pos 6379) [] true false 1 100 0) { unused = 1 ∷ [] }

-- The server holds `1` at every key.
abbrev connected_client : State Client StoreWorld
connected_client = record {
  object = record {
    loop = 5;
    conn_pool = some one_pool;
    bid = codes "shop";
    readers = 0;
    proxy_ip = codes "db1";
    proxy_port = 235 ∷ [];
  };
  world = (λ q. q == 1, λ k. some (codes "1"));
}

get-set_example :
    Returns
      (λ done t.
        (done ≡ true)
        × Returns (λ v _. v ≡ codes "2") (Strings.get (codes "x") (pos 500) t)
        × Returns (λ v _. v ≡ codes "1") (Strings.get (codes "y") (pos 500) t))
      (Strings.set (codes "x") (codes "2") (pos 500) connected_client)
unfolding bytes_eq
get-set_example =
    get-set storing_laws storing_server (codes "x") (codes "2") (codes "y") (codes "1") (pos 500)
      (pos 500) 1 one_pool connected_client refl refl (refl, refl) refl refl
