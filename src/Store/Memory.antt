-- ===== src/Store/Memory.antt =====
-- A store in memory that keeps the promises of the commands, for runs.
use tos_pool.Prelude.{◌≡◌, refl, false, not, ◌&&◌, List, [], ◌∷◌, arith, if◌then◌else◌}
use tos_pool.Prelude.Int.{ℤ, pos, ◌+ℤ◌}
use tos_pool.Prelude.Maps.{Bytes, bytes_eq, bytes_eq_iff, bytes_Eq, beq_self, member}
use tos_pool.Store.Redis.{
  Command, hincr_by, hset, zadd, zrem, zincr_by, incr_by, lpush, ltrim, expire, del, Redis, IsRedis,
  changes_field, changes_set, changes_number,
}

pub record Memory : Type 0 where
  pub fields : Bytes → Bytes → ℤ
  pub numbers : Bytes → ℤ
  pub sets : Bytes → List Bytes

abbrev pub without : Bytes → List Bytes → List Bytes
without m [] = []
without m (x ∷ xs) = if bytes_eq x m then without m xs else x ∷ without m xs

-- Strings, lists and expirations are not kept.
abbrev pub apply : Memory → Command → Memory
apply s (hincr_by k f n) = record s {
  fields = λ k' f'. if bytes_eq k k' && bytes_eq f f' then s.fields k f +ℤ n else s.fields k' f';
}
apply s (hset k f v) = s
apply s (zadd k n m) = record s { sets = λ k'. if bytes_eq k k' then m ∷ s.sets k else s.sets k' }
apply s (zrem k m) = record s {
  sets = λ k'. if bytes_eq k k' then without m (s.sets k) else s.sets k';
}
apply s (zincr_by k n m) = s
apply s (incr_by k n) = record s {
  numbers = λ k'. if bytes_eq k k' then s.numbers k +ℤ n else s.numbers k';
}
apply s (lpush k v) = s
apply s (ltrim k i j) = s
apply s (expire k t) = s
apply s (del k) = record {
  fields = λ k' f'. if bytes_eq k k' then pos 0 else s.fields k' f';
  numbers = λ k'. if bytes_eq k k' then pos 0 else s.numbers k';
  sets = λ k'. if bytes_eq k k' then [] else s.sets k';
}

abbrev pub memory : Redis Memory
memory = record {
  exec = apply;
  field = λ s. s.fields;
  number = λ s. s.numbers;
  zrange = λ s. s.sets;
  hgetall = λ s k. [];
}

member-without :
    (x m : Bytes) (xs : List Bytes)
    → (member x (without m xs) ≡ (not (bytes_eq x m) && member x xs))
member-without x m [] = ground arith
member-without x m (y ∷ xs) =
    ground (arith, member-without x m xs, bytes_eq_iff y m, bytes_eq_iff x m, bytes_eq_iff x y)

fields_kept :
    (s : Memory) (c : Command) (k f : Bytes)
    → changes_field c k f ≡ false
    → (apply s c).fields k f ≡ s.fields k f
unfolding changes_field
fields_kept s (hincr_by k' f' n) k f h = rw h refl
fields_kept s (hset k' f' v) k f h = refl
fields_kept s (zadd k' n m) k f h = refl
fields_kept s (zrem k' m) k f h = refl
fields_kept s (zincr_by k' n m) k f h = refl
fields_kept s (incr_by k' n) k f h = refl
fields_kept s (lpush k' v) k f h = refl
fields_kept s (ltrim k' i j) k f h = refl
fields_kept s (expire k' t) k f h = refl
fields_kept s (del k') k f h = rw h refl

numbers_kept :
    (s : Memory) (c : Command) (k : Bytes)
    → changes_number c k ≡ false
    → (apply s c).numbers k ≡ s.numbers k
unfolding changes_number
numbers_kept s (hincr_by k' f' n) k h = refl
numbers_kept s (hset k' f' v) k h = refl
numbers_kept s (zadd k' n m) k h = refl
numbers_kept s (zrem k' m) k h = refl
numbers_kept s (zincr_by k' n m) k h = refl
numbers_kept s (incr_by k' n) k h = rw h refl
numbers_kept s (lpush k' v) k h = refl
numbers_kept s (ltrim k' i j) k h = refl
numbers_kept s (expire k' t) k h = refl
numbers_kept s (del k') k h = rw h refl

sets_kept :
    (s : Memory) (c : Command) (k : Bytes) → changes_set c k ≡ false → (apply s c).sets k ≡ s.sets k
unfolding changes_set
sets_kept s (hincr_by k' f' n) k h = refl
sets_kept s (hset k' f' v) k h = refl
sets_kept s (zadd k' n m) k h = rw h refl
sets_kept s (zrem k' m) k h = rw h refl
sets_kept s (zincr_by k' n m) k h = refl
sets_kept s (incr_by k' n) k h = refl
sets_kept s (lpush k' v) k h = refl
sets_kept s (ltrim k' i j) k h = refl
sets_kept s (expire k' t) k h = refl
sets_kept s (del k') k h = rw h refl

pub memory-IsRedis : IsRedis memory
memory-IsRedis = record {
  field_added = λ s k f n i. rw (beq_self k, beq_self f) refl;
  field_kept = fields_kept;
  number_added = λ s k n i. rw (beq_self k) refl;
  number_kept = numbers_kept;
  set_added = λ s k n m x. rw (beq_self k) refl;
  set_removed = λ s k m x. rw (beq_self k) (member-without x m (s.sets k));
  set_kept = sets_kept;
}
