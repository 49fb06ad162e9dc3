-- ===== src/Threads/Lifetime/Late.antt =====
-- A call of `RedisCommand` (cpp/src/CodisClient.cpp) that the destructor overtakes.
use codis_client.Prelude.{
  ℕ, ◌≡◌, refl, List, [], ◌∷◌, some, get_elem?, get_elem?-set, ◌==◌, ==_iff, true, Bytes,
}
use codis_client.Run.{fault}
use codis_client.Hiredis.{Hiredis, TimeVal, State}
use codis_client.Hiredis.Laws.{HiredisLaws}
use codis_client.Session.Deletion.{delete_client-free_all}
use codis_client.Threads.{Stage, Threads, step}
use codis_client.Threads.Holding.{held}
use codis_client.Threads.Safety.{InOrder}
use codis_client.Threads.Lifetime.{turn_of, destruct, acts, try_destruct}

module _ ⦃lib : Hiredis⦄ (laws : HiredisLaws lib) where
  -- For threads over a client in order, where nobody holds the read lock: a call that has found a pool, and waits for the
  -- lock, has undefined behaviour if the destructor gets the lock first, since it borrows its connection from the pool that
  -- is then `NULL`.
  pub acts_late :
      (i : ℕ) (argv : List Bytes) (tv : TimeVal) (s : State Threads lib.World)
      → InOrder s
      → s.object.client.readers ≡ 0
      → get_elem? s.object.stages i ≡ some (Stage.waiting argv tv)
      → acts (destruct ∷ turn_of i ∷ turn_of i ∷ []) s ≡ fault
  unfolding acts try_destruct step
  acts_late i argv tv s (p, e, owns, r) free there =
      let test : s.object.client.readers == 0 ≡ true = (==_iff s.object.client.readers 0).1 free in
      rw
        (
          test,
          delete_client-free_all laws s.object.client p (held s.object.stages) s.world e owns.0,
          there,
          get_elem?-set s.object.stages i (Stage.locked argv tv) (Stage.waiting argv tv) there,
        )
        refl
