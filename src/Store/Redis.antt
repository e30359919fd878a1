-- ===== src/Store/Redis.antt =====
-- The commands that internal/storage/redis.go sends, and the server that runs them as a parameter:
-- its documented effect on integer hash fields, sorted sets and string keys.
-- A key is used with one kind of value only, as in the source.
use tos_pool.Prelude.{ℕ, ◌≡◌, Bool, true, false, not, ◌&&◌, ◌||◌, List, [], ◌∷◌}
use tos_pool.Prelude.Int.{ℤ, ◌+ℤ◌, IsInt64}
use tos_pool.Prelude.Maps.{Bytes, bytes_eq, bytes_Eq, member}

-- A command as the source writes it; the score of a sorted-set member is the whole number whose
-- float64 is sent.
pub data Command : Type 0 where
  hincr_by : Bytes → Bytes → ℤ → Command
  hset : Bytes → Bytes → Bytes → Command
  zadd : Bytes → ℕ → Bytes → Command
  zrem : Bytes → Bytes → Command
  zincr_by : Bytes → ℕ → Bytes → Command
  incr_by : Bytes → ℤ → Command
  lpush : Bytes → Bytes → Command
  ltrim : Bytes → ℤ → ℤ → Command
  expire : Bytes → ℕ → Command
  del : Bytes → Command

-- Whether a command may change a field of a hash, a sorted set, or a number under a key.
unfoldable pub changes_field : Command → Bytes → Bytes → Bool
changes_field (hincr_by k f n) key field = bytes_eq k key && bytes_eq f field
changes_field (hset k f v) key field = bytes_eq k key && bytes_eq f field
changes_field (expire k t) key field = bytes_eq k key
changes_field (del k) key field = bytes_eq k key
changes_field _ key field = false

unfoldable pub changes_set : Command → Bytes → Bool
changes_set (zadd k n m) key = bytes_eq k key
changes_set (zrem k m) key = bytes_eq k key
changes_set (zincr_by k n m) key = bytes_eq k key
changes_set (expire k t) key = bytes_eq k key
changes_set (del k) key = bytes_eq k key
changes_set _ key = false

unfoldable pub changes_number : Command → Bytes → Bool
changes_number (incr_by k n) key = bytes_eq k key
changes_number (expire k t) key = bytes_eq k key
changes_number (del k) key = bytes_eq k key
changes_number _ key = false

-- `S` is the state of the server. `field` and `number` read an integer, which is 0 where there is
-- none; `zrange` lists a whole sorted set, `hgetall` a whole hash.
pub record Redis (S : Type 0) : Type 0 where
  pub exec : S → Command → S
  pub field : S → Bytes → Bytes → ℤ
  pub number : S → Bytes → ℤ
  pub zrange : S → Bytes → List Bytes
  pub hgetall : S → Bytes → List (Bytes × Bytes)

-- What the documentation of the commands promises; an increment beyond 64 bits is an error.
pub record IsRedis {S : Type 0} (r : Redis S) : Type 0 where
  pub field_added :
      (s : S) (k f : Bytes) (n : ℤ)
      → IsInt64 (r.field s k f +ℤ n)
      → r.field (r.exec s (hincr_by k f n)) k f ≡ r.field s k f +ℤ n
  pub field_kept :
      (s : S) (c : Command) (k f : Bytes)
      → changes_field c k f ≡ false
      → r.field (r.exec s c) k f ≡ r.field s k f
  pub number_added :
      (s : S) (k : Bytes) (n : ℤ)
      → IsInt64 (r.number s k +ℤ n)
      → r.number (r.exec s (incr_by k n)) k ≡ r.number s k +ℤ n
  pub number_kept :
      (s : S) (c : Command) (k : Bytes)
      → changes_number c k ≡ false
      → r.number (r.exec s c) k ≡ r.number s k
  pub set_added :
      (s : S) (k : Bytes) (n : ℕ) (m x : Bytes)
      → (member x (r.zrange (r.exec s (zadd k n m)) k) ≡ (bytes_eq x m || member x (r.zrange s k)))
  pub set_removed :
      (s : S) (k m x : Bytes)
      → (member x (r.zrange (r.exec s (zrem k m)) k)
          ≡ (not (bytes_eq x m) && member x (r.zrange s k)))
  pub set_kept :
      (s : S) (c : Command) (k : Bytes)
      → changes_set c k ≡ false
      → r.zrange (r.exec s c) k ≡ r.zrange s k

module _ {S : Type 0} (r : Redis S) where
  -- A pipeline that reaches the server: its commands in order.
  unfoldable pub run : S → List Command → S
  run s [] = s
  run s (c ∷ cs) = run (r.exec s c) cs

  -- `pipe.Exec`: `sent` tells whether the pipeline reached the server. The result is the store and
  -- whether there was no error.
  unfoldable pub pipeline : Bool → S → List Command → S × Bool
  unfolding run
  pipeline true s cs = (run s cs, true)
  pipeline false s cs = (s, false)
