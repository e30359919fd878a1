-- ===== src/Upstream/Sorting.antt =====
-- The order of the upstreams that the manager is made with.
use mathlib.Core.List.{Perm}
use mathlib.Core.List.Perm
use tos_pool.Prelude.{List, [], ◌∷◌, arith, Bool-cases, inl, inr}
use tos_pool.Prelude.Int.{ℤ, ◌≤ℤ◌, leb_ℤ}
use tos_pool.Upstream.Manager.{
  Upstream, NodeConfig, insert_by_weight, sort_by_weight, new_upstream_manager, configured,
}

insert_by_weight-perm : (u : Upstream) (us : List Upstream) → Perm (insert_by_weight u us) (u ∷ us)
unfolding insert_by_weight
insert_by_weight-perm u [] = Perm.refl (u ∷ [])
insert_by_weight-perm u (v ∷ vs) = elim (Bool-cases (leb_ℤ v.weight u.weight)) [
  | inl here ↦ rw here (Perm.refl (u ∷ v ∷ vs))
  | inr later ↦ rw later (Perm.trans (Perm.cons v (insert_by_weight-perm u vs)) (Perm.swap u v vs))
]

sort_by_weight-perm : (us : List Upstream) → Perm (sort_by_weight us) us
unfolding sort_by_weight
sort_by_weight-perm [] = Perm.refl []
sort_by_weight-perm (u ∷ us) =
    Perm.trans (insert_by_weight-perm u (sort_by_weight us)) (Perm.cons u (sort_by_weight-perm us))

-- Weights fall along the list and stay under the bound.
abbrev pub Falls : ℤ → List Upstream → Type 0
Falls w [] = Unit {0}
Falls w (u ∷ us) = (u.weight ≤ℤ w) × Falls u.weight us

abbrev pub IsSorted : List Upstream → Type 0
IsSorted [] = Unit {0}
IsSorted (u ∷ us) = Falls u.weight us

insert_by_weight-Falls :
    (u : Upstream) (w : ℤ) (us : List Upstream)
    → u.weight ≤ℤ w
    → Falls w us
    → Falls w (insert_by_weight u us)
unfolding insert_by_weight
insert_by_weight-Falls u w [] h f = (h, tt)
insert_by_weight-Falls u w (v ∷ vs) h f = ground (arith, insert_by_weight-Falls u v.weight vs)

insert_by_weight-IsSorted :
    (u : Upstream) (us : List Upstream) → IsSorted us → IsSorted (insert_by_weight u us)
unfolding insert_by_weight
insert_by_weight-IsSorted u [] s = tt
insert_by_weight-IsSorted u (v ∷ vs) s = ground (arith, insert_by_weight-Falls u v.weight vs)

sort_by_weight-IsSorted : (us : List Upstream) → IsSorted (sort_by_weight us)
unfolding sort_by_weight
sort_by_weight-IsSorted [] = tt
sort_by_weight-IsSorted (u ∷ us) =
    insert_by_weight-IsSorted u (sort_by_weight us) (sort_by_weight-IsSorted us)

-- A new manager holds the configured upstreams, each as often, by falling weight.
new_upstream_manager-IsSorted :
    (cfg : NodeConfig)
    → let us = (new_upstream_manager cfg).upstreams in
      IsSorted us × Perm us (configured cfg cfg.upstreams)
unfolding new_upstream_manager
new_upstream_manager-IsSorted cfg = (
  sort_by_weight-IsSorted (configured cfg cfg.upstreams),
  sort_by_weight-perm (configured cfg cfg.upstreams),
)
