-- ===== src/Store/Transfers.antt =====
-- Transfers between two fields of a miner (MoveToPending, RollbackPayment,
-- internal/storage/redis.go).
use tos_pool.Prelude.{ℕ, ◌≡◌, ◌≢◌, sym, ap, ◌∙◌, false, arith, ◌<◌, ◌^◌}
use tos_pool.Prelude.Int.{ℤ, pos, neg, ◌+ℤ◌, IsInt64, +ℤ_parts, eq_of_parts}
use tos_pool.Prelude.Maps.{Bytes, bytes_eq, bytes_eq_iff, bytes_Eq}
use tos_pool.Store.Redis.{hincr_by, Redis, IsRedis, run}
use tos_pool.Store.Data.{key_miner, signed, minus}
use tos_pool.Store.Payments.{transfer}
use tos_pool.Store.Fields.{run-KeepsField, other_miner, other_field, signed-pos, minus-neg}

pub cancel : (a : ℤ) (n : ℕ) → (a +ℤ neg (pos n)) +ℤ pos n ≡ a
cancel a n = grind (arith, +ℤ_parts, eq_of_parts)

pub restore : (a : ℤ) (n : ℕ) → (a +ℤ pos n) +ℤ neg (pos n) ≡ a
restore a n = grind (arith, +ℤ_parts, eq_of_parts)

module _ {S : Type 0} (r : Redis S) (law : IsRedis r) (s : S) (a f g : Bytes) (n : ℕ)
    (small : n < 2 ^ 63) (apart : bytes_eq f g ≡ false) where
  pub transfer-source :
      IsInt64 (r.field s (key_miner a) f +ℤ neg (pos n))
      → r.field (run r s (transfer a f g n)) (key_miner a) f
        ≡ r.field s (key_miner a) f +ℤ neg (pos n)
  unfolding run
  transfer-source h =
      let c = hincr_by (key_miner a) f (minus n) in
      let e = minus-neg n small in
      law.field_kept (r.exec s c) (hincr_by (key_miner a) g (signed n)) (key_miner a) f
        (other_field a a f g (signed n) (flip apart))
      ∙ law.field_added s (key_miner a) f (minus n) (rw e h)
      ∙ ap (λ z. r.field s (key_miner a) f +ℤ z) e
    where
      flip : bytes_eq f g ≡ false → bytes_eq g f ≡ false
      flip h = ground (arith, h, bytes_eq_iff f g, bytes_eq_iff g f)

  pub transfer-target :
      IsInt64 (r.field s (key_miner a) g +ℤ pos n)
      → r.field (run r s (transfer a f g n)) (key_miner a) g ≡ r.field s (key_miner a) g +ℤ pos n
  unfolding run
  transfer-target h =
      let c = hincr_by (key_miner a) f (minus n) in
      let e = signed-pos n small in
      let kept = law.field_kept s c (key_miner a) g (other_field a a g f (minus n) apart) in
      law.field_added (r.exec s c) (key_miner a) g (signed n) (rw (kept, e) h)
      ∙ ap (λ z. z +ℤ signed n) kept
      ∙ ap (λ z. r.field s (key_miner a) g +ℤ z) e

pub transfer-other :
    {S : Type 0} (r : Redis S) (law : IsRedis r) (s : S) (a b f g h : Bytes) (n : ℕ)
    → a ≢ b
    → r.field (run r s (transfer a f g n)) (key_miner b) h ≡ r.field s (key_miner b) h
transfer-other r law s a b f g h n ne = run-KeepsField r law s (transfer a f g n) (key_miner b) h (
  other_miner b a h f (minus n) (λ e. ne (sym e)),
  (other_miner b a h g (signed n) (λ e. ne (sym e)), tt),
)

transfer-third :
    {S : Type 0} (r : Redis S) (law : IsRedis r) (s : S) (a f g h : Bytes) (n : ℕ)
    → bytes_eq f h ≡ false
    → bytes_eq g h ≡ false
    → r.field (run r s (transfer a f g n)) (key_miner a) h ≡ r.field s (key_miner a) h
transfer-third r law s a f g h n p q =
    run-KeepsField r law s (transfer a f g n) (key_miner a) h
      (other_field a a h f (minus n) p, (other_field a a h g (signed n) q, tt))
