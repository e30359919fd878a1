-- ===== src/Upstream/Selection.antt =====
-- Which upstream `selectBestUpstream` takes.
use tos_pool.Prelude.{
  ℕ, zero, suc, ◌+◌, ◌≤◌, ◌≡◌, refl, ap, ◌∙◌, ◌⊎◌, inl, inr, true, false, ◌&&◌, some, List, [], ◌∷◌,
  arith, get_elem?,
}
use tos_pool.Prelude.Int.{pos, ltb_ℤ, ◌≤ℤ◌}
use tos_pool.Upstream.Manager.{
  Upstream, UpstreamManager, Best, beats, consider, scan, no_best, select_best_upstream,
}
use tos_pool.Upstream.Failover.{any_healthy, has_healthy_upstream}

-- No healthy upstream of the list has a greater weight, or the same weight and a greater height.
abbrev pub Unbeaten : Best → List Upstream → Type 0
Unbeaten b [] = Unit {0}
Unbeaten b (u ∷ us) = ((u.healthy && beats b u) ≡ false) × Unbeaten b us

-- `c` is at least as good as `b`.
abbrev AtLeast : Best → Best → Type 0
AtLeast b c = (ltb_ℤ b.weight c.weight ≡ true) ⊎ ((b.weight ≡ c.weight) × (b.height ≤ c.height))

AtLeast-trans : (a b c : Best) → AtLeast a b → AtLeast b c → AtLeast a c
AtLeast-trans a b c p q = ground arith

consider-AtLeast : (i : ℕ) (b : Best) (u : Upstream) → AtLeast b (consider i b u)
consider-AtLeast i b u = ground arith

scan-AtLeast : (i : ℕ) (b : Best) (us : List Upstream) → AtLeast b (scan i b us)
unfolding scan
scan-AtLeast i b [] = inr (refl, omega arith)
scan-AtLeast i b (u ∷ us) =
    AtLeast-trans b (consider i b u) (scan (suc i) (consider i b u) us) (consider-AtLeast i b u)
      (scan-AtLeast (suc i) (consider i b u) us)

unbeaten_self :
    (i : ℕ) (b c : Best) (u : Upstream)
    → AtLeast (consider i b u) c
    → (u.healthy && beats c u) ≡ false
unbeaten_self i b c u p = ground arith

scan-Unbeaten : (i : ℕ) (b : Best) (us : List Upstream) → Unbeaten (scan i b us) us
unfolding scan
scan-Unbeaten i b [] = tt
scan-Unbeaten i b (u ∷ us) =
    let c = consider i b u in
    (
      unbeaten_self i b (scan (suc i) c us) u (scan-AtLeast (suc i) c us),
      scan-Unbeaten (suc i) c us,
    )

-- The best of a scan is what it began with, or it stands in the list with its weight and height.
abbrev pub Chosen : ℕ → Best → List Upstream → Best → Type 0
Chosen i b us c =
    (c ≡ b)
    ⊎ ((k : ℕ) × (u : Upstream) × (c
          ≡ record { idx = some (i + k); weight = u.weight; height = u.height })
        × (get_elem? us k ≡ some u)
        × (u.healthy ≡ true))

consider-cases :
    (i : ℕ) (b : Best) (u : Upstream)
    → (consider i b u ≡ b)
      ⊎ ((consider i b u ≡ record { idx = some i; weight = u.weight; height = u.height })
          × (u.healthy ≡ true))
consider-cases i b u = ground arith

pub scan-Chosen : (i : ℕ) (b : Best) (us : List Upstream) → Chosen i b us (scan i b us)
unfolding scan
scan-Chosen i b [] = inl refl
scan-Chosen i b (u ∷ us) = elim (scan-Chosen (suc i) (consider i b u) us) [
  | inr (k, v, e, at, ok) ↦ inr (
    suc k,
    v,
    e ∙ ap (λ n. record { idx = some n; weight = v.weight; height = v.height }) (omega arith),
    at,
    ok,
  )
  | inl e ↦ elim (consider-cases i b u) [
    | inl old ↦ inl (e ∙ old)
    | inr (new, ok) ↦ inr (
      zero,
      u,
      e
          ∙ new
          ∙ ap (λ n. record { idx = some n; weight = u.weight; height = u.height }) (omega arith),
      refl,
      ok,
    )
  ]
]

-- Weights are not negative, as in a configuration that sets them.
abbrev pub Weighted : List Upstream → Type 0
Weighted [] = Unit {0}
Weighted (u ∷ us) = (pos 0 ≤ℤ u.weight) × Weighted us

Unbeaten-none : (us : List Upstream) → Weighted us → Unbeaten no_best us → any_healthy us ≡ false
unfolding any_healthy
Unbeaten-none [] w h = refl
Unbeaten-none (u ∷ us) w h = ground (arith, Unbeaten-none us w.1 h.1)

healthy_at :
    (us : List Upstream) (k : ℕ) (u : Upstream)
    → get_elem? us k ≡ some u
    → u.healthy ≡ true
    → any_healthy us ≡ true
unfolding any_healthy
healthy_at [] k u e h = cc
healthy_at (v ∷ us) zero u e h = ground arith
healthy_at (v ∷ us) (suc k) u e h = ground (arith, healthy_at us k u e h)

-- The upstream at `k` is healthy, and no healthy one is better by weight, then by height.
abbrev pub IsBestAt : List Upstream → ℕ → Type 0
IsBestAt us k =
    (u : Upstream) × (get_elem? us k ≡ some u)
    × (u.healthy ≡ true)
    × Unbeaten (record { idx = some k; weight = u.weight; height = u.height }) us

-- With weights that are not negative: if any upstream is healthy, the active one becomes a healthy
-- upstream of the greatest weight and, among those, of the greatest height; if none is, nothing
-- changes.
pub select_best_upstream-IsBestAt :
    (m : UpstreamManager)
    → Weighted m.upstreams
    → let m' = select_best_upstream m in
      ((has_healthy_upstream m ≡ true) × IsBestAt m.upstreams m'.active_idx)
      ⊎ ((has_healthy_upstream m ≡ false) × (m' ≡ m))
unfolding select_best_upstream has_healthy_upstream
select_best_upstream-IsBestAt m w =
    let all = scan-Unbeaten 0 no_best m.upstreams in
    elim (scan-Chosen 0 no_best m.upstreams) [
      | inl e ↦ inr (Unbeaten-none m.upstreams w (rw e at all), rw (e, select_best_upstream) refl)
      | inr (k, u, e, at, ok) ↦
          let e' : scan 0 no_best m.upstreams
              ≡ record { idx = some k; weight = u.weight; height = u.height } =
            e
            ∙ ap (λ n. record { idx = some n; weight = u.weight; height = u.height })
                (omega arith) in
          inl (
            healthy_at m.upstreams k u at ok,
            rw (e', select_best_upstream) (u, at, ok, rw e' at all),
          )
    ]
