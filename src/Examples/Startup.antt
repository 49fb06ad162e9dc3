-- ===== src/Examples/Startup.antt =====
-- The pool of proxies from its construction on, with the ZooKeeper of Examples/Sessions.
use codis_client.Prelude.{
  ◌≡◌, refl, [], ◌∷◌, none, some, length, arith, pos, Bytes, codes, bytes_eq, to_int,
}
use codis_client.Run.{Run, Returns, ok, thrown, fault, exited}
use codis_client.Hiredis.{State}
use codis_client.ConnPool.{borrow_item, return_item, reconnect}
use codis_client.RoundRobin.{RoundRobin, node_info, get_proxy}
use codis_client.Utils.{split, split_rounds, string2int}
use codis_client.Client.{
  redis_command, send, send_to, attempt, first_reply, retry, second_reply, finish, new_client,
}
use codis_client.KeyPrefix.{inner_command}
use codis_client.Methods.Strings
use codis_client.BfdCodis.Values
use codis_client.BfdCodis.{forward}
use codis_client.BfdCodis.{Bfd}
use codis_client.Methods.Interface.{Method}
use codis_client.Session.{
  Outside, inside, init_proxy_conns, wait_connected, zk_get, overwrite, c_string, init, connect,
  get_proxy_infos, read_nodes, new_proxies, new_proxy, delete_proxies, new_round_robin,
}
use codis_client.BfdCodis.Interface.{by_bfd}
use codis_client.Session.Deletion.{at_bfd}
use codis_client.Session.Installation.{Managed}
use codis_client.Session.Startup.{new_round_robin-Returns}
use codis_client.Session.Steps.{Step, Reach, Reach-Managed}
use codis_client.Examples.{toy, toy_laws}
use codis_client.Examples.Data.{toy_json}
use codis_client.Examples.Sessions.{toy_env, quiet, a_robin, a_bfd}

-- The state after a call.
abbrev after : {A : Type 0} → State Bfd Outside → Run (State Bfd Outside) A → State Bfd Outside
after s (ok a t) = t
after s (thrown t) = t
after s fault = s
after s exited = s

abbrev void : State Bfd Outside
void = at_bfd (record { clients = none ∷ []; pool = none }) quiet 2

void-built :
    new_round_robin (codes "zk1:2181") (codes "/zk/codis/db_test/proxy") (codes "shop") void
    ≡ ok tt (at_bfd a_bfd quiet 0)
unfolding new_round_robin connect wait_connected init get_proxy_infos read_nodes zk_get overwrite
    c_string init_proxy_conns new_proxies new_proxy new_client delete_proxies node_info split
    split_rounds string2int bytes_eq to_int
void-built = refl

-- A `get` whose reply does not come, after the construction.
abbrev get_x : Run (State Bfd Outside) Bytes
get_x = inside (by_bfd (Method.get (codes "x") (pos 500))) (at_bfd a_bfd quiet 0)

abbrev after_get : State Bfd Outside
after_get = after void get_x

get_x-returns : get_x ≡ ok [] after_get
unfolding by_bfd Values.get forward get_proxy Strings.get redis_command inner_command send send_to
    attempt first_reply retry second_reply finish borrow_item return_item reconnect bytes_eq
get_x-returns = refl

Reach-Managed_example : Managed after_get.object after_get.world.0
Reach-Managed_example = Reach-Managed toy_laws after_get (
    Reach.stepped
      (Reach.constructed (codes "zk1:2181") (codes "/zk/codis/db_test/proxy") (codes "shop") quiet 2
        void-built)
      (Step.returns (Method.get (codes "x") (pos 500)) [] get_x-returns))

abbrev found_robin : RoundRobin
found_robin = record a_robin { proxys = []; proxy_infos = [] }

abbrev found_bfd : Bfd
found_bfd = record { clients = none ∷ []; pool = some found_robin }

infos-found :
    get_proxy_infos 9 (codes "/zk/codis/db_test/proxy") (at_bfd found_bfd quiet 0)
    ≡ ok ((codes "db1", pos 6379) ∷ []) (at_bfd found_bfd quiet 0)
unfolding get_proxy_infos read_nodes zk_get overwrite c_string node_info split split_rounds
    string2int bytes_eq to_int
infos-found = refl

new_round_robin-Returns_example :
    Returns
      (λ _ t.
        (r : RoundRobin) × (t.object.pool ≡ some r)
        × (r.proxy_infos ≡ (codes "db1", pos 6379) ∷ [])
        × (length r.proxys ≡ 1))
      (new_round_robin
        (codes "zk1:2181")
        (codes "/zk/codis/db_test/proxy")
        (codes "shop")
        (at_bfd (record { clients = none ∷ []; pool = none }) quiet 2))
new_round_robin-Returns_example =
    new_round_robin-Returns (λ v. refl) (codes "zk1:2181") (codes "/zk/codis/db_test/proxy")
      (codes "shop") (none ∷ []) quiet 2 0 2 (codes "db1", pos 6379) [] (refl, (refl, refl))
      (omega arith) infos-found
