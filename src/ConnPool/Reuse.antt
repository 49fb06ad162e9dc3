-- ===== src/ConnPool/Reuse.antt =====
-- The reuse of connections by `borrowItem` and `returnItem` of cpp/src/RedisClientPool.cpp, and what
-- becomes of the counter `used_`.
use codis_client.Prelude.{
  Distinct, ℕ, zero, suc, ◌+◌, ◌-◌, ◌*◌, ◌%◌, ◌^◌, ◌<◌, ◌≡◌, ◌≢◌, refl, ap, ◌∙◌, true, List, [],
  ◌∷◌, ◌++◌, arith, ==_ne, All,
}
use codis_client.Run.{Run, ok, pure, ◌>>=◌, ◌>>◌}
use codis_client.Hiredis.{Hiredis, Ptr, null, State}
use codis_client.Hiredis.Laws.{HiredisLaws}
use codis_client.ConnPool.Ownership.{not_null}
use codis_client.ConnPool.{Pool, PoolM, borrow_item, borrow_loop, return_item, decrement}

module _ ⦃lib : Hiredis⦄ where
  -- `redisFree` of each.
  unfoldable pub free_all : List Ptr → lib.World → lib.World
  free_all [] w = w
  free_all (c ∷ cs) w = free_all cs (lib.free c w)

  abbrev pub Failed : lib.World → Ptr → Type 0
  Failed w c = (lib.live w c ≡ true) × (lib.err w c ≢ 0)

  abbrev pub Fine : lib.World → Ptr → Type 0
  Fine w c = (lib.live w c ≡ true) × (lib.err w c ≡ 0)

-- `n` times a connection is borrowed and returned.
module _ ⦃lib : Hiredis⦄ where
  unfoldable pub use_repeatedly : ℕ → PoolM (Unit {0})
  use_repeatedly zero = pure tt
  use_repeatedly (suc n) = (borrow_item >>= return_item) >> use_repeatedly n

-- The last of a list and those before it.
All-last {ℓ κ} :
    {A : Type ℓ} (P : A → Type κ) (xs : List A) (y : A) → All P (xs ++ y ∷ []) → All P xs × P y
All-last P [] y h = (tt, h.0)
All-last P (x ∷ xs) y h = let (hx, hy) = All-last P xs y h.1 in ((h.0, hx), hy)

module _ ⦃lib : Hiredis⦄ (laws : HiredisLaws lib) where
  Failed-free : (c : Ptr) (w : lib.World) (q : Ptr) → q ≢ c → Failed w q → Failed (lib.free c w) q
  Failed-free c w q ne (l, e) = ground (arith, laws.live-free c w q, laws.err-free c w q)

  Fine-free : (c : Ptr) (w : lib.World) (q : Ptr) → q ≢ c → Fine w q → Fine (lib.free c w) q
  Fine-free c w q ne (l, e) = ground (arith, laws.live-free c w q, laws.err-free c w q)

  All-Failed-free :
      (c : Ptr) (w : lib.World) (qs : List Ptr)
      → All (λ q. q ≢ c) qs
      → All (Failed w) qs
      → All (Failed (lib.free c w)) qs
  All-Failed-free c w [] ne h = tt
  All-Failed-free c w (q ∷ qs) ne h = (Failed-free c w q ne.0 h.0, All-Failed-free c w qs ne.1 h.1)

  -- The connections in front are freed up to the first that has not failed, and that one is taken.
  borrow_loop_first :
      (bad : List Ptr) (c : Ptr) (rest : List Ptr) (s : State Pool lib.World)
      → Distinct (bad ++ c ∷ [])
      → All (Failed s.world) bad
      → Fine s.world c
      → borrow_loop (bad ++ c ∷ rest) s
        ≡ ok c (record { object = record s.object { unused = rest }; world = free_all bad s.world })
  unfolding borrow_loop free_all
  borrow_loop_first [] c rest s d h fine = rw (fine.0, fine.1)
  borrow_loop_first (b ∷ bad) c rest s d h fine =
      let (others, this) = All-last (λ q. q ≢ b) bad c d.0 in
      rw (h.0.0, ==_ne _ 0 h.0.1, h.0.0)
        (borrow_loop_first bad c rest
          (record s {
            object = record s.object { unused = bad ++ c ∷ rest };
            world = lib.free b s.world;
          })
          d.1 (All-Failed-free b s.world bad others h.1) (Fine-free b s.world c this fine))

  Fine-free_all :
      (bad : List Ptr) (c : Ptr) (w : lib.World)
      → Distinct (bad ++ c ∷ [])
      → Fine w c
      → Fine (free_all bad w) c
  unfolding free_all
  Fine-free_all [] c w d fine = fine
  Fine-free_all (b ∷ bad) c w d fine =
      Fine-free_all bad c (lib.free b w) d.1
        (Fine-free b w c (All-last (λ q. q ≢ b) bad c d.0).1 fine)

  pub live_after_frees :
      (bad : List Ptr) (c : Ptr) (w : lib.World)
      → Distinct (bad ++ c ∷ [])
      → Fine w c
      → lib.live (free_all bad w) c ≡ true
  live_after_frees bad c w d fine = (Fine-free_all bad c w d fine).0

  pub borrow_item_first :
      (bad : List Ptr) (c : Ptr) (rest : List Ptr) (s : State Pool lib.World)
      → s.object.unused ≡ bad ++ c ∷ rest
      → Distinct (bad ++ c ∷ [])
      → All (Failed s.world) bad
      → Fine s.world c
      → borrow_item s
        ≡ ok c (record { object = record s.object { unused = rest }; world = free_all bad s.world })
  unfolding borrow_item
  borrow_item_first bad c rest s e d h fine = rw (
    ap (λ xs. borrow_loop xs s) e ∙ borrow_loop_first bad c rest s d h fine,
    ==_ne c null (not_null laws s.world c fine.0),
  )

  -- Where the pool holds a connection that has not failed, `borrowItem` and then `returnItem` free the
  -- failed ones in front of it, which are different from it and from each other, and move it behind
  -- all others. They leave `used_` smaller by one.
  borrow-return :
      (bad : List Ptr) (c : Ptr) (rest : List Ptr) (s : State Pool lib.World)
      → s.object.unused ≡ bad ++ c ∷ rest
      → Distinct (bad ++ c ∷ [])
      → All (Failed s.world) bad
      → Fine s.world c
      → (borrow_item >>= return_item) s
        ≡ ok tt (record {
          object = record s.object { unused = rest ++ c ∷ []; used = decrement s.object.used };
          world = free_all bad s.world;
        })
  unfolding return_item
  borrow-return bad c rest s e d h fine = rw (borrow_item_first bad c rest s e d h fine)

  used_up : Ptr → State Pool lib.World → ℕ → Run (State Pool lib.World) (Unit {0})
  used_up c s k = ok tt (record s { object = record s.object { unused = c ∷ []; used = k } })

  -- Over a pool of one connection that has not failed, borrowing and returning it `n` times leaves
  -- everything as it is but `used_`, which falls by one each time and wraps around.
  pub use_repeatedly_counter :
      (n : ℕ) (c : Ptr) (s : State Pool lib.World)
      → s.object.unused ≡ c ∷ []
      → Fine s.world c
      → s.object.used < 2 ^ 64
      → use_repeatedly n s
        ≡ ok tt (record s {
          object = record s.object {
            unused = c ∷ [];
            used = (s.object.used + n * (2 ^ 64 - 1)) % 2 ^ 64;
          };
        })
  unfolding use_repeatedly free_all used_up
  use_repeatedly_counter zero c s e fine h = ground arith
  use_repeatedly_counter (suc n) c s e fine h = rw (borrow-return [] c [] s e (tt, tt) tt fine) (
      use_repeatedly_counter n c
        (record s { object = record s.object { unused = c ∷ []; used = decrement s.object.used } })
        refl fine (omega arith)
      ∙ ap (used_up c s) (omega arith))
