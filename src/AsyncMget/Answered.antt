-- ===== src/AsyncMget/Answered.antt =====
-- `mget2Callback` of cpp/src/CodisClient.cpp while the call of `mget2` still runs.
use codis_client.Prelude.{
  ℕ, ◌≡◌, ◌≢◌, refl, sym, ap, subst, ◌∙◌, inl, inr, Bool-cases, false, ◌||◌, List, [], ◌∷◌, ◌++◌,
  append-nil, append_assoc, map, none, some, get_elem?, set, All, Distinct, ℤ, Bytes, bytes_eq,
  bytes_eq_ne,
}
use codis_client.Reply.{RedisReply, RedisReplies, redis_reply}
use codis_client.Run.{ok}
use codis_client.Hiredis.{Hiredis, Ptr}
use codis_client.ConnPool.{Pool, decrement}
use codis_client.ConnPool.AsyncPool.{return_item_async}
use codis_client.AsyncMget.{Request, AsyncClient, KvMap, has_key, text_of, collect, mget2_callback}
use codis_client.AsyncMget.Failures.{with_async}

-- The elements of a reply to `MGET`, in the order of the keys.
abbrev pub replies_of : List (Bytes × RedisReply) → RedisReplies
replies_of [] = RedisReplies.nil
replies_of ((k, r) ∷ krs) = RedisReplies.cons r (replies_of krs)

abbrev pub keys_of : List (Bytes × RedisReply) → List Bytes
keys_of krs = map (λ kr. kr.0) krs

abbrev pub texts_of : List (Bytes × RedisReply) → KvMap
texts_of krs = map (λ kr. (kr.0, text_of kr.1)) krs

has_key-append :
    (kvs : KvMap) (k v key : Bytes)
    → has_key key kvs ≡ false
    → bytes_eq k key ≡ false
    → has_key key (kvs ++ (k, v) ∷ []) ≡ false
has_key-append [] k v key h ne = rw ne refl
has_key-append ((k', v') ∷ kvs) k v key h ne = elim (Bool-cases (bytes_eq k' key)) [
  | inl e ↦ cc
  | inr e ↦ rw e (has_key-append kvs k v key (subst (λ b. (b || has_key key kvs) ≡ false) e h) ne)
]

-- The loop of the callback keeps the text of every key, where the keys are different and new.
collect-texts :
    (krs : List (Bytes × RedisReply)) (kvs : KvMap)
    → Distinct (keys_of krs)
    → All (λ key. has_key key kvs ≡ false) (keys_of krs)
    → collect (keys_of krs) (replies_of krs) kvs ≡ some (kvs ++ texts_of krs)
unfolding collect
collect-texts [] kvs apart new = ap some (sym (append-nil kvs))
collect-texts ((k, r) ∷ krs) kvs (other, apart) (fresh, new) = rw fresh (
    collect-texts krs (kvs ++ (k, text_of r) ∷ []) apart (later (keys_of krs) other new)
    ∙ ap some (append_assoc kvs ((k, text_of r) ∷ []) (texts_of krs)))
  where
    later :
        (keys : List Bytes)
        → All (λ y. y ≢ k) keys
        → All (λ key. has_key key kvs ≡ false) keys
        → All (λ key. has_key key (kvs ++ (k, text_of r) ∷ []) ≡ false) keys
    later [] o n = tt
    later (key ∷ keys) (ne, o) (n, ns) = (
      has_key-append kvs k (text_of r) key n (bytes_eq_ne k key (λ e. ne (sym e))),
      later keys o ns,
    )

module _ ⦃lib : Hiredis⦄ where
  -- Where the reply comes before the call of `mget2` has returned, with one element for each of its keys,
  -- which are different: the user's function is called once, with every key, without the business ID, and the
  -- text of its element; the connection goes back to the pool, behind the others, and the request is deleted.
  pub mget2_callback_answered :
      (id : ℕ) (rq : Request) (c : Ptr) (krs : List (Bytes × RedisReply)) (type : ℕ) (n : ℤ)
      (str : Bytes) (a : AsyncClient) (p : Pool) (cs : List Ptr) (w : lib.World)
      → get_elem? a.requests id ≡ some (some rq)
      → get_elem? a.locals rq.async_context ≡ some (some c)
      → rq.user_keylist ≡ keys_of krs
      → Distinct (keys_of krs)
      → mget2_callback (some (redis_reply type n str (replies_of krs))) id (with_async a p cs w)
        ≡ ok tt (
            with_async
              (record a {
                requests = set a.requests id none;
                called = a.called ++ (rq.callback, texts_of krs) ∷ [];
              })
              (record p { used_async = decrement p.used_async })
              (cs ++ c ∷ [])
              w)
  unfolding mget2_callback return_item_async
  mget2_callback_answered id rq c krs type n str a p cs w there alive keys apart =
      rw (there, keys, collect-texts krs [] apart (all_new (keys_of krs)), alive) refl
    where
      all_new : (keys : List Bytes) → All (λ key. has_key key [] ≡ false) keys
      all_new [] = tt
      all_new (k ∷ ks) = (refl, all_new ks)
