-- ===== src/Session/Startup.antt =====
-- When the constructor of `RoundRobinCodisPool` (cpp/src/RoundRobinCodisPool.cpp) returns.
use codis_client.Prelude.{
  ℕ, suc, ◌<◌, ◌≡◌, refl, ap, arith, true, List, [], ◌∷◌, Option, none, some, length, ==_ne, ℤ,
  Bytes,
}
use codis_client.Run.{Returns, Returns-bind, ok}
use codis_client.Hiredis.{Hiredis}
use codis_client.Environment.{Environment}
use codis_client.Client.{Client, new_client}
use codis_client.RoundRobin.{RoundRobin, Json}
use codis_client.BfdCodis.{Bfd}
use codis_client.Session.{
  blank, new_proxy, new_proxies, delete_proxies, init_proxy_conns, get_proxy_infos, init, connect,
  new_round_robin,
}
use codis_client.Session.Deletion.{at_bfd}
use codis_client.Session.Watching.{ConnectsAfter, after_polls, wait_connected_ends}

module _ ⦃lib : Hiredis⦄ ⦃env : Environment⦄
    (threads : (v : env.World) → (env.create_thread v).0 ≡ true) where
  -- One address for each of the proxies.
  new_proxies-Returns :
      (business_id : Bytes) (infos : List (Bytes × ℤ)) (b : Bfd) (w : lib.World) (v : env.World)
      → Returns (λ cs _. length cs ≡ length infos) (new_proxies business_id infos (at_bfd b w v))
  unfolding new_proxies new_proxy new_client
  new_proxies-Returns business_id [] b w v = refl
  new_proxies-Returns business_id ((address, port) ∷ infos) b w v = rw (threads _) (
      Returns-bind (λ cs _. length cs ≡ length infos) (λ cs _. length cs ≡ suc (length infos))
        (new_proxies business_id infos _) _ (new_proxies-Returns business_id infos _ w _)
        (λ cs t. ap suc))

module _ ⦃lib : Hiredis⦄ ⦃env : Environment⦄ ⦃json : Json⦄
    (threads : (v : env.World) → (env.create_thread v).0 ≡ true) where
  -- Where every thread can be made, the session is found connected at one of the first 10000 polls, and then
  -- some proxies are found, at least one: the constructor returns, and the pool has these
  -- proxies and as many clients.
  pub new_round_robin-Returns :
      (zookeeper_addr proxy_path business_id : Bytes) (os : List (Option Client)) (w : lib.World)
      (v v' : env.World) (k : ℕ) (info : Bytes × ℤ) (infos : List (Bytes × ℤ))
      → let (zh, v1) = env.init zookeeper_addr 10000 v in
        let b : Bfd = record {
          clients = os;
          pool = some (record (blank zookeeper_addr proxy_path business_id) { zh = zh });
        } in
        ConnectsAfter k zh v1
        → k < 10000
        → get_proxy_infos zh proxy_path (at_bfd b w (after_polls k zh v1))
          ≡ ok (info ∷ infos) (at_bfd b w v')
        → Returns
            (λ _ t.
              (r : RoundRobin) × (t.object.pool ≡ some r)
              × (r.proxy_infos ≡ info ∷ infos)
              × (length r.proxys ≡ length (info ∷ infos)))
            (new_round_robin zookeeper_addr proxy_path business_id
              (at_bfd (record { clients = os; pool = none }) w v))
  unfolding new_round_robin connect init init_proxy_conns delete_proxies
  new_round_robin-Returns zookeeper_addr proxy_path business_id os w v v' k info infos connects
        early found =
      let (zh, v1) = env.init zookeeper_addr 10000 v in
      let r : RoundRobin = record (blank zookeeper_addr proxy_path business_id) { zh = zh } in
      let b : Bfd = record { clients = os; pool = some r } in
      let (left, sum, waited) = wait_connected_ends 10000 k zh b w v1 connects early in
      rw
        (
          waited,
          ==_ne left 0 (λ e. omega arith),
          found,
          ==_ne (length (info ∷ infos)) 0 (λ e. omega arith),
        )
        (Returns-bind (λ cs _. length cs ≡ length (info ∷ infos)) _
          (new_proxies business_id (info ∷ infos) (at_bfd b w v')) _
          (new_proxies-Returns threads business_id (info ∷ infos) b w v')
          (λ cs t long. (record r { proxys = cs; proxy_infos = info ∷ infos }, refl, refl, long)))
