-- ===== src/RoundRobin/Addresses.antt =====
-- `GetProxyInfos` of cpp/src/RoundRobinCodisPool.cpp: which proxies it finds.
use codis_client.Prelude.{
  ℕ, zero, suc, ◌+◌, ◌/◌, ◌%◌, ◌<◌, ◌≡◌, ◌≢◌, ap, ◌∙◌, [], ◌∷◌, some, arith, ℤ, pos, negsuc, IsInt,
  Bytes,
}
use codis_client.Utils.{decimal_loop, decimal, int2string, split}
use codis_client.Utils.Numbers.{string2int-int2string}
use codis_client.Utils.Split.{Lacks, join, split-join}
use codis_client.ConnPool.{Pool, get_id}
use codis_client.RoundRobin.{host_port}

decimal_loop-Lacks : (f n : ℕ) (acc : Bytes) → Lacks b':' acc → Lacks b':' (decimal_loop f n acc)
unfolding decimal_loop
decimal_loop-Lacks zero n acc h = h
decimal_loop-Lacks (suc f) n acc h =
    ground (arith, decimal_loop-Lacks f (n / 10) ((b'0' + n % 10) ∷ acc))

int2string-Lacks : (i : ℤ) → Lacks b':' (int2string i)
unfolding int2string decimal
int2string-Lacks (pos n) = decimal_loop-Lacks (suc n) n [] tt
int2string-Lacks (negsuc n) = (omega arith, decimal_loop-Lacks (suc (suc n)) (suc n) [] tt)

decimal_loop-ne : (f n : ℕ) (acc : Bytes) → n < f → decimal_loop f n acc ≢ []
unfolding decimal_loop
decimal_loop-ne zero n acc h = elim h [ ]
decimal_loop-ne (suc f) n acc h = ground (arith, decimal_loop-ne f (n / 10) ((b'0' + n % 10) ∷ acc))

int2string-ne : (i : ℤ) → int2string i ≢ []
unfolding int2string decimal
int2string-ne (pos n) e = decimal_loop-ne (suc n) n [] (omega arith) e
int2string-ne (negsuc n) e = cc

-- The address and the port that `getId` writes are those that `GetProxyInfos` reads, for every address
-- without a colon.
pub host_port-get_id :
    (p : Pool)
    → Lacks b':' p.address
    → IsInt p.port
    → host_port (split (get_id p) b':') ≡ some (p.address, p.port)
unfolding get_id join
host_port-get_id p plain small =
    ap host_port (
      split-join b':' (p.address ∷ int2string p.port ∷ []) (plain, (int2string-Lacks p.port, tt))
        (int2string-ne p.port))
    ∙ ap (λ i. some (p.address, i)) (string2int-int2string p.port small)
