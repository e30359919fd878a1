-- ===== src/Store/Batches.antt =====
-- Transfers for each address of a list, as the loops over miners and shares make them.
use mathlib.Core.Path.{subst}
use tos_pool.Prelude.{
  ℕ, ◌≡◌, ◌≢◌, refl, sym, ap, ◌∙◌, Option, none, some, List, [], ◌∷◌, arith, inl, inr,
}
use tos_pool.Prelude.Int.{ℤ, ◌+ℤ◌, IsInt64}
use tos_pool.Prelude.Maps.{Bytes, bytes_Eq, beq-cases, beq_self, beq_ne, lookup}
use tos_pool.Store.Redis.{Command, Redis, run}
use tos_pool.Store.Data.{key_miner}

-- No address has two entries, as in a Go map.
abbrev pub Distinct : List (Bytes × ℕ) → Type 0
Distinct [] = Unit {0}
Distinct ((a, n) ∷ m) = (lookup a m ≡ none) × Distinct m

lookup-head : (a : Bytes) (k n : ℕ) (m : List (Bytes × ℕ)) → lookup a ((a, k) ∷ m) ≡ some n → k ≡ n
lookup-head a k n m e = ground (arith, beq_self a, e)

lookup-tail :
    (a b : Bytes) (k : ℕ) (o : Option ℕ) (m : List (Bytes × ℕ))
    → a ≢ b
    → lookup a ((b, k) ∷ m) ≡ o
    → lookup a m ≡ o
lookup-tail a b k o m h e = ground (arith, beq_ne a b h, e)

lookup-head_ne : (a b : Bytes) (k : ℕ) (m : List (Bytes × ℕ)) → lookup a ((b, k) ∷ m) ≡ none → a ≢ b
lookup-head_ne a b k m e p = ground (arith, beq_self a, e, p)

module _ {S : Type 0} (r : Redis S) (commands : Bytes → ℕ → List Command) where
  unfoldable pub run_each : S → List (Bytes × ℕ) → S
  run_each s [] = s
  run_each s ((b, k) ∷ m) = run_each (run r s (commands b k)) m

  pub run_each-kept :
      (s : S) (m : List (Bytes × ℕ)) (k f : Bytes)
      → ((t : S) (b : Bytes) (n : ℕ) → r.field (run r t (commands b n)) k f ≡ r.field t k f)
      → r.field (run_each s m) k f ≡ r.field s k f
  unfolding run_each
  run_each-kept s [] k f h = refl
  run_each-kept s ((b, n) ∷ m) k f h = run_each-kept (run r s (commands b n)) m k f h ∙ h s b n

-- `commands` are those for one address and its number; they leave the other miners alone.
module _ {S : Type 0} (r : Redis S) (commands : Bytes → ℕ → List Command)
    (local : (s : S) (a b h : Bytes) (k : ℕ)
      → a ≢ b
      → r.field (run r s (commands b k)) (key_miner a) h ≡ r.field s (key_miner a) h) where
  pub run_each-absent :
      (s : S) (m : List (Bytes × ℕ)) (a h : Bytes)
      → lookup a m ≡ none
      → r.field (run_each r commands s m) (key_miner a) h ≡ r.field s (key_miner a) h
  unfolding run_each
  run_each-absent s [] a h e = refl
  run_each-absent s ((b, k) ∷ m) a h e =
      let ne = lookup-head_ne a b k m e in
      run_each-absent (run r s (commands b k)) m a h (lookup-tail a b k none m ne e)
      ∙ local s a b h k ne

  -- What the commands add to a field of the address itself, the loop adds.
  pub run_each-present :
      (s : S) (m : List (Bytes × ℕ)) (a h : Bytes) (n : ℕ) (z : ℤ)
      → ((t : S)
          → IsInt64 (r.field t (key_miner a) h +ℤ z)
          → r.field (run r t (commands a n)) (key_miner a) h ≡ r.field t (key_miner a) h +ℤ z)
      → Distinct m
      → lookup a m ≡ some n
      → IsInt64 (r.field s (key_miner a) h +ℤ z)
      → r.field (run_each r commands s m) (key_miner a) h ≡ r.field s (key_miner a) h +ℤ z
  unfolding run_each
  run_each-present s [] a h n z own d e i = cc
  run_each-present s ((b, k) ∷ m) a h n z own d e i = elim (beq-cases a b) [
    | inl p ↦
        let same = lookup-head a k n m (subst (λ x. lookup a ((x, k) ∷ m) ≡ some n) (sym p) e) in
        run_each-absent (run r s (commands b k)) m a h (rw p d.0)
        ∙ ap (λ x. r.field (run r s (commands x k)) (key_miner a) h) (sym p)
        ∙ ap (λ j. r.field (run r s (commands a j)) (key_miner a) h) same
        ∙ own s i
    | inr ne ↦
        let kept = local s a b h k ne in
        run_each-present (run r s (commands b k)) m a h n z own d.1
          (lookup-tail a b k (some n) m ne e) (rw kept i)
        ∙ ap (λ x. x +ℤ z) kept
  ]
