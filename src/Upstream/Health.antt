-- ===== src/Upstream/Health.antt =====
-- How many checks in a row mark an upstream unhealthy or healthy again.
use mathlib.Core.Path.{subst}
use tos_pool.Prelude.{
  ℕ, suc, ◌+◌, ◌^◌, ◌<◌, ◌≡◌, sym, ap, ◌∙◌, true, false, none, some, arith, ltb, leb, if◌then◌else◌,
  List, [], ◌∷◌, length,
}
use tos_pool.Prelude.Int.{pos, ◌+ℤ◌, int32, int32-id}
use tos_pool.Upstream.Manager.{
  NodeConfig, Upstream, Reply, check_upstream, max_failures, recovery_threshold, fail, recover,
  observe,
}

count_up : (k : ℕ) → suc k < 2 ^ 31 → int32 (pos k +ℤ pos 1) ≡ pos (suc k)
unfolding ◌+ℤ◌
count_up k small = int32-id _ (ground arith) ∙ ground arith

-- The upstream after a row of checks, oldest first.
abbrev pub checked : NodeConfig → Upstream → List Reply → Upstream
checked cfg u [] = u
checked cfg u (r ∷ rs) = checked cfg (check_upstream cfg u r) rs

abbrev pub AllFail : List Reply → Type 0
AllFail [] = Unit {0}
AllFail (r ∷ rs) = (r.block ≡ none) × AllFail rs

abbrev pub AllAnswer : List Reply → Type 0
AllAnswer [] = Unit {0}
AllAnswer (r ∷ rs) = ((h : ℕ) × (r.block ≡ some h)) × AllAnswer rs

check-fails :
    (cfg : NodeConfig) (u : Upstream) (r : Reply) (max k : ℕ)
    → r.block ≡ none
    → max_failures cfg ≡ pos max
    → u.fail_count ≡ pos k
    → suc k < 2 ^ 31
    → let u' = check_upstream cfg u r in
      (u'.fail_count ≡ pos (suc k))
      × (u'.success_count ≡ pos 0)
      × (u'.healthy ≡ (if leb max (suc k) then false else u.healthy))
unfolding check_upstream
check-fails cfg u r max k e m f small =
    let c : int32 (u.fail_count +ℤ pos 1) ≡ pos (suc k) =
      ap (λ z. int32 (z +ℤ pos 1)) f ∙ count_up k small in
    let failed : check_upstream cfg u r
        ≡ fail cfg (record u { last_check = r.at; response_time = r.took }) =
      ap (λ o. observe cfg o (record u { last_check = r.at; response_time = r.took })) e in
    (
      ap (λ v. v.fail_count) failed ∙ c,
      ap (λ v. v.success_count) failed,
      ap (λ v. v.healthy) failed ∙ simp (c, m) (ground arith),
    )

-- Failed checks in a row mark an upstream unhealthy exactly when the threshold is reached, counted
-- with the failures before them.
pub checked-fails :
    (rs : List Reply) (cfg : NodeConfig) (u : Upstream) (max k : ℕ)
    → AllFail rs
    → max_failures cfg ≡ pos max
    → u.fail_count ≡ pos k
    → u.healthy ≡ ltb k max
    → k + length rs < 2 ^ 31
    → (checked cfg u rs).healthy ≡ ltb (k + length rs) max
checked-fails [] cfg u max k f m e h small = h ∙ ground arith
checked-fails (r ∷ rs) cfg u max k f m e h small =
    let (e', s, h') = check-fails cfg u r max k f.0 m e (omega arith) in
    checked-fails rs cfg (check_upstream cfg u r) max (suc k) f.1 m e' (h' ∙ ground arith)
      (omega arith)
    ∙ ap (λ n. ltb n max) (omega arith)

check-answers :
    (cfg : NodeConfig) (u : Upstream) (r : Reply) (h threshold k : ℕ)
    → r.block ≡ some h
    → recovery_threshold cfg ≡ pos threshold
    → u.success_count ≡ pos k
    → suc k < 2 ^ 31
    → let u' = check_upstream cfg u r in
      (u'.success_count ≡ pos (suc k))
      × (u'.height ≡ h)
      × (u'.healthy ≡ (if u.healthy then true else leb threshold (suc k)))
      × (u'.fail_count ≡ (if u'.healthy then pos 0 else u.fail_count))
unfolding check_upstream
check-answers cfg u r h threshold k e m f small =
    let c : int32 (u.success_count +ℤ pos 1) ≡ pos (suc k) =
      ap (λ z. int32 (z +ℤ pos 1)) f ∙ count_up k small in
    let u' : Upstream = record u { last_check = r.at; response_time = r.took } in
    let answered : check_upstream cfg u r ≡ recover cfg h u' = ap (λ o. observe cfg o u') e in
    subst
      (λ v.
        (v.success_count ≡ pos (suc k))
        × (v.height ≡ h)
        × (v.healthy ≡ (if u.healthy then true else leb threshold (suc k)))
        × (v.fail_count ≡ (if v.healthy then pos 0 else u.fail_count)))
      (sym answered) (simp (c, m) (ground arith))

-- An unhealthy upstream is healthy again exactly when it has answered as often in a row as the
-- threshold asks, counted with the answers before.
checked-answers :
    (rs : List Reply) (cfg : NodeConfig) (u : Upstream) (threshold k : ℕ)
    → AllAnswer rs
    → recovery_threshold cfg ≡ pos threshold
    → u.success_count ≡ pos k
    → u.healthy ≡ leb threshold k
    → k + length rs < 2 ^ 31
    → (checked cfg u rs).healthy ≡ leb threshold (k + length rs)
checked-answers [] cfg u threshold k f m e h small = h ∙ ground arith
checked-answers (r ∷ rs) cfg u threshold k f m e h small =
    let (e', s, h', c) = check-answers cfg u r f.0.0 threshold k f.0.1 m e (omega arith) in
    checked-answers rs cfg (check_upstream cfg u r) threshold (suc k) f.1 m e' (h' ∙ ground arith)
      (omega arith)
    ∙ ap (λ n. leb threshold n) (omega arith)
