-- ===== src/Environment.antt =====
-- What cpp/src/RoundRobinCodisPool.cpp uses of ZooKeeper's client library
-- (cpp/3party/include/zookeeper/zookeeper.h), and it and cpp/src/CodisClient.cpp of the operating system:
-- a parameter, like hiredis. A `zhandle_t *` is a number, and so is an event loop.
use codis_client.Prelude.{ℕ, Bool, List, Option, ℤ, Bytes}
use codis_client.Hiredis.{Ptr}

-- `state` is `zoo_state`. `get_children` and `get` are `zoo_get_children` and `zoo_get`: `none` is a
-- result other than `ZOK`. `get` is given the size of the buffer, and gives the bytes that it writes
-- there, with the `dataLength` of the node. `malloc` gives what is in the memory that it allocates,
-- `uninitialised` the value of a member that a constructor leaves out, and `create_thread` whether a
-- thread was made.
pub record Environment : Type 1 where
  pub World : Type 0
  pub init : Bytes → ℕ → World → Ptr × World
  pub close : Ptr → World → World
  pub state : Ptr → World → ℤ × World
  pub get_children : Ptr → Bytes → Bool → World → Option (List Bytes) × World
  pub get : Ptr → Bytes → Bool → ℕ → World → Option (Bytes × ℕ) × World
  pub malloc : ℕ → World → Bytes × World
  pub usleep : ℕ → World → World
  pub sleep : ℕ → World → World
  pub create_event_loop : ℕ → World → ℕ × World
  pub uninitialised : World → ℕ × World
  pub create_thread : World → Bool × World
  pub expired_session_state : ℤ
  pub connecting_state : ℤ
  pub connected_state : ℤ
  pub child_event : ℤ
  pub session_event : ℤ
