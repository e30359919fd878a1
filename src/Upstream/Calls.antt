-- ===== src/Upstream/Calls.antt =====
-- What a call with failover tries, and what it returns.
use tos_pool.Prelude.{
  ℕ, zero, suc, ◌+◌, ◌≡◌, ◌≢◌, inl, inr, refl, ap, true, false, Option, none, some, List, [], ◌∷◌,
  arith, ◌==◌, get_elem?, Bool-cases, Option-cases,
}
use tos_pool.Prelude.Int.{pos, ◌≤ℤ◌}
use tos_pool.Upstream.Manager.{
  Upstream, UpstreamManager, NodeConfig, record_failure, select_best_upstream, Best, activate,
  active_upstream, should_failover, fail, scan, no_best,
}
use tos_pool.Upstream.Failover.{try_others, fail_over, finish, call_with_failover}

module _ {E : Type 0} (answer : ℕ → Option E) (active : ℕ) where
  -- Where the loop from index `i` stopped.
  abbrev pub Answered : ℕ → List Upstream → ℕ → Type 0
  Answered i us k =
      (j : ℕ) × (u : Upstream) × (k ≡ i + j)
      × (get_elem? us j ≡ some u)
      × (u.healthy ≡ true)
      × (k ≢ active)
      × (answer k ≡ none)

  later :
      (i : ℕ) (v : Upstream) (us : List Upstream) (k : ℕ)
      → Answered (suc i) us k
      → Answered i (v ∷ us) k
  later i v us k (j, u, e, at, ok, ne, done) = (suc j, u, omega arith, at, ok, ne, done)

  pub try_others-Answered :
      (i : ℕ) (us : List Upstream) (k : ℕ)
      → (try_others active answer i us).1 ≡ some k
      → Answered i us k
  unfolding try_others
  try_others-Answered i [] k e = cc
  try_others-Answered i (u ∷ us) k e = elim (Bool-cases (i == active)) [
    | inl here ↦ later i u us k (try_others-Answered (suc i) us k (rw here at e))
    | inr away ↦ elim (Bool-cases u.healthy) [
      | inr sick ↦ later i u us k (try_others-Answered (suc i) us k (ground arith))
      | inl well ↦ elim (Option-cases (answer i)) [
        | inl good ↦ (zero, u, ground arith, refl, well, ground arith, ground arith)
        | inr (x, bad) ↦ later i u us k (try_others-Answered (suc i) us k (ground arith))
      ]
    ]
  ]

  -- Every healthy upstream but the active one was tried and failed.
  abbrev pub AllRefused : ℕ → List Upstream → Type 0
  AllRefused i [] = Unit {0}
  AllRefused i (u ∷ us) =
      ((u.healthy ≡ true) → i ≢ active → answer i ≢ none) × AllRefused (suc i) us

  try_others-AllRefused :
      (i : ℕ) (us : List Upstream) → (try_others active answer i us).1 ≡ none → AllRefused i us
  unfolding try_others
  try_others-AllRefused i [] e = tt
  try_others-AllRefused i (u ∷ us) e =
      (λ well ne good. ground arith, try_others-AllRefused (suc i) us (ground arith))

module _ {E : Type 0} where
  -- How a call ended whose first attempt failed with `e`; `m` is the manager after that failure was
  -- recorded.
  abbrev pub Settled : UpstreamManager → E → (ℕ → Option E) → UpstreamManager × Option E → Type 0
  Settled m e answer (q, none) =
      (u : Upstream) × (get_elem? m.upstreams q.active_idx ≡ some u)
      × (u.healthy ≡ true)
      × (q.active_idx ≢ m.active_idx)
      × (answer q.active_idx ≡ none)
  Settled m e answer (q, some e') = (e' ≡ e) × AllRefused answer m.active_idx 0 m.upstreams

  finish-Settled :
      (m : UpstreamManager) (e : E) (answer : ℕ → Option E) (r : List Upstream × Option ℕ)
      → ((k : ℕ) → r.1 ≡ some k → Answered answer m.active_idx 0 m.upstreams k)
      → (r.1 ≡ none → AllRefused answer m.active_idx 0 m.upstreams)
      → Settled m e answer (finish e m r)
  finish-Settled m e answer (us, none) good bad = (refl, bad refl)
  finish-Settled m e answer (us, some k) good bad =
      let (j, u, same, at, ok, ne, done) = good k refl in
      let j' : j ≡ k = omega arith in (u, rw j' at at, ok, ne, done)

  -- If the first attempt of a call fails, the call succeeds exactly on another healthy upstream
  -- that answers, which becomes the active one; otherwise it returns the first error, and every
  -- healthy upstream but the one that is active after the failure has been tried and has failed.
  pub call_with_failover-Settled :
      (m : UpstreamManager) (u : Upstream) (e : E) (answer : ℕ → Option E)
      → active_upstream m ≡ some u
      → Settled (record_failure m) e answer (call_with_failover m (some e) answer)
  unfolding call_with_failover fail_over
  call_with_failover-Settled m u e answer on =
      let m' = record_failure m in
      let r = try_others m'.active_idx answer 0 m'.upstreams in
      rw (on, call_with_failover)
        (finish-Settled m' e answer r (try_others-Answered answer m'.active_idx 0 m'.upstreams)
          (try_others-AllRefused answer m'.active_idx 0 m'.upstreams))

-- Two upstreams, the one at `active` in use.
abbrev pub pair : NodeConfig → Upstream → Upstream → ℕ → UpstreamManager
pair cfg a b active = record { upstreams = a ∷ b ∷ []; cfg = cfg; active_idx = active }

fail-unhealthy :
    (cfg : NodeConfig) (a : Upstream) → should_failover cfg a ≡ true → (fail cfg a).healthy ≡ false
fail-unhealthy cfg a trip = ground arith

scan-second :
    (a b : Upstream)
    → a.healthy ≡ false
    → b.healthy ≡ true
    → pos 0 ≤ℤ b.weight
    → scan 0 no_best (a ∷ b ∷ []) ≡ record { idx = some 1; weight = b.weight; height = b.height }
unfolding scan
scan-second a b sick ok w = ground arith

select-second :
    (cfg : NodeConfig) (a b : Upstream)
    → a.healthy ≡ false
    → b.healthy ≡ true
    → pos 0 ≤ℤ b.weight
    → select_best_upstream (pair cfg a b 0) ≡ pair cfg a b 1
unfolding select_best_upstream
select-second cfg a b sick ok w =
    ap (λ (c : Best). activate (pair cfg a b 0) c.idx) (scan-second a b sick ok w)

record_failure-pair :
    (cfg : NodeConfig) (a b : Upstream)
    → should_failover cfg a ≡ true
    → b.healthy ≡ true
    → pos 0 ≤ℤ b.weight
    → record_failure (pair cfg a b 0) ≡ pair cfg (fail cfg a) b 1
unfolding record_failure
record_failure-pair cfg a b trip ok w =
    simp trip (select-second cfg (fail cfg a) b (fail-unhealthy cfg a trip) ok w)

module _ {E : Type 0} where
  try_others-pair :
      (a b : Upstream) (answer : ℕ → Option E)
      → a.healthy ≡ false
      → (try_others 1 answer 0 (a ∷ b ∷ [])).1 ≡ none
  unfolding try_others
  try_others-pair a b answer sick = simp sick

  active-finish :
      (e : E) (m : UpstreamManager) (r : List Upstream × Option ℕ)
      → r.1 ≡ none
      → ((finish e m r).0.active_idx ≡ m.active_idx) × ((finish e m r).1 ≡ some e)
  active-finish e m (us, none) h = (refl, refl)
  active-finish e m (us, some k) h = cc

  -- With two upstreams, the first active and one failure short of its threshold, the second healthy
  -- and of a weight that is not negative: a failing call makes the second one active and returns
  -- the error of the first without trying the second, whatever that would answer.
  pub call_with_failover-untried :
      (cfg : NodeConfig) (a b : Upstream) (e : E) (answer : ℕ → Option E)
      → should_failover cfg a ≡ true
      → b.healthy ≡ true
      → pos 0 ≤ℤ b.weight
      → let r = call_with_failover (pair cfg a b 0) (some e) answer in
        (r.0.active_idx ≡ 1) × (r.1 ≡ some e)
  unfolding call_with_failover fail_over active_upstream
  call_with_failover-untried cfg a b e answer trip ok w =
      rw (record_failure-pair cfg a b trip ok w) (
        active-finish e (pair cfg (fail cfg a) b 1) _
          (try_others-pair (fail cfg a) b answer (fail-unhealthy cfg a trip)))
