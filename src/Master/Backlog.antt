-- ===== src/Master/Backlog.antt =====
-- The jobs for which shares are still taken after a new one (refreshJob and pruneJobBacklog,
-- internal/master/master.go).
use tos_pool.Prelude.{
  ℕ, ◌≤◌, ◌≡◌, ◌≢◌, refl, ap, ◌∙◌, false, Option, none, some, List, [], ◌∷◌, ltb, leb, length,
  arith, if-elim, inl, inr,
}
use tos_pool.Prelude.Maps.{
  Bytes, bytes_Eq, beq-cases, beq_self, beq_ne, lookup, lookup-insert_self, lookup-insert_ne,
}
use tos_pool.Master.Jobs.{
  Job, Master, min_height, max_job_backlog, keep_from, prune_job_backlog, retire, install,
}
use tos_pool.Master.Shares.{found, from_backlog, find_in, find_job}

lookup-keep_from :
    (low : ℕ) (m : List (Bytes × Job)) (id : Bytes) (j : Job)
    → lookup id m ≡ some j
    → low ≤ j.height
    → lookup id (keep_from low m) ≡ some j
lookup-keep_from low [] id j e h = cc
lookup-keep_from low ((i, k) ∷ m) id j e h = elim (beq-cases id i) [
  | inl p ↦
      let same : k ≡ j = ground (arith, beq_self i, p, e) in
      let high : ltb k.height low ≡ false = rw same (ground arith) in
      rw high (ground (arith, beq_self i, p, e))
  | inr ne ↦
      let deeper = lookup-keep_from low m id j (ground (arith, beq_ne id i ne, e)) h in
      if-elim (λ (x : List (Bytes × Job)). lookup id x ≡ some j) (ltb k.height low) (λ t. deeper)
        (λ t. ground (arith, beq_ne id i ne, deeper))
]

lookup-prune_job_backlog :
    (m : Master) (id : Bytes) (j : Job)
    → lookup id m.job_backlog ≡ some j
    → min_height m.current_height ≤ j.height
    → lookup id (prune_job_backlog m).job_backlog ≡ some j
unfolding prune_job_backlog
lookup-prune_job_backlog m id j e h =
    if-elim (λ (x : Master). lookup id x.job_backlog ≡ some j)
      (leb (length m.job_backlog) max_job_backlog) (λ t. e)
      (λ t. lookup-keep_from (min_height m.current_height) m.job_backlog id j e h)

prune_job_backlog-current : (m : Master) → (prune_job_backlog m).current_job ≡ m.current_job
unfolding prune_job_backlog
prune_job_backlog-current m =
    if-elim (λ (x : Master). x.current_job ≡ m.current_job)
      (leb (length m.job_backlog) max_job_backlog) (λ t. refl) (λ t. refl)

from_backlog-found : (o : Option Job) (j : Job) → from_backlog o ≡ found j → o ≡ some j
from_backlog-found none j e = cc
from_backlog-found (some k) j e = cc

lookup-retire :
    (o : Option Job) (b : List (Bytes × Job)) (id : Bytes) (j : Job)
    → find_in o b id ≡ found j
    → lookup id (retire o b) ≡ some j
lookup-retire none b id j f = cc
lookup-retire (some k) b id j f = elim (beq-cases id k.id) [
  | inl p ↦
      let same : k ≡ j = ground (arith, beq_self k.id, p, f) in
      rw p (lookup-insert_self k.id k b) ∙ ap some same
  | inr ne ↦
      lookup-insert_ne id k.id k b ne
      ∙ from_backlog-found (lookup id b) j (ground (arith, beq_ne id k.id ne, f))
]

-- A job for which shares are taken is still taken after a new job with another identifier, if it is
-- at most three heights under the new one (or the new one is at most at height three).
pub install-find_job :
    (m : Master) (job j : Job) (id : Bytes)
    → find_job m id ≡ found j
    → id ≢ job.id
    → min_height job.height ≤ j.height
    → find_job (install m job) id ≡ found j
unfolding find_job install
install-find_job m job j id f ne h =
    let next : Master = record m {
      current_job = some job;
      current_height = job.height;
      current_diff = job.difficulty;
      job_backlog = retire m.current_job m.job_backlog;
    } in
    ap (λ o. find_in o (prune_job_backlog next).job_backlog id) (prune_job_backlog-current next)
    ∙ (rw
        (
          beq_ne id job.id ne,
          lookup-prune_job_backlog next id j (lookup-retire m.current_job m.job_backlog id j f) h,
        )
        refl)
