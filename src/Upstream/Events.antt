-- ===== src/Upstream/Events.antt =====
-- The manager over any history of checks and calls: the active index stays in range.
use tos_pool.Prelude.{
  ℕ, zero, suc, ◌+◌, ◌<◌, ◌≡◌, inl, inr, refl, ap, Option, none, some, List, [], ◌∷◌, arith, length,
  length-map, get_elem?,
}
use tos_pool.Prelude.Maps.{Bytes}
use tos_pool.Upstream.Manager.{
  Upstream, UpstreamManager, NodeConfig, Reply, check_each, check_all_upstreams, record_failure,
  record_success, select_best_upstream, activate, active_upstream, get_client, fail, succeed,
  update_at, scan, no_best,
}
use tos_pool.Upstream.Failover.{
  try_others, fail_over, finish, call_with_failover, set_miner_address,
}
use tos_pool.Upstream.Selection.{Chosen, scan-Chosen}
use tos_pool.Upstream.Calls.{try_others-Answered, Answered}

-- What happens to the manager; `E` stands for Go's errors.
pub data Event (E : Type 0) : Type 0 where
  checks : (ℕ → Reply) → Event E
  success failure : Event E
  call : Option E → (ℕ → Option E) → Event E
  address : Bytes → Event E

module _ {E : Type 0} where
  unfoldable pub handle : UpstreamManager → Event E → UpstreamManager
  handle m (checks replies) = check_all_upstreams m replies
  handle m success = record_success m
  handle m failure = record_failure m
  handle m (call first answer) = (call_with_failover m first answer).0
  handle m (address a) = set_miner_address m a

  unfoldable pub handle_all : UpstreamManager → List (Event E) → UpstreamManager
  unfolding handle
  handle_all m [] = m
  handle_all m (ev ∷ evs) = handle_all (handle m ev) evs

abbrev pub InRange : UpstreamManager → Type 0
InRange m = m.active_idx < length m.upstreams

get_elem?-lt : (us : List Upstream) (k : ℕ) (u : Upstream) → get_elem? us k ≡ some u → k < length us
get_elem?-lt [] k u e = cc
get_elem?-lt (v ∷ us) zero u e = omega arith
get_elem?-lt (v ∷ us) (suc k) u e = omega (arith, get_elem?-lt us k u e)

length-check_each :
    (cfg : NodeConfig) (replies : ℕ → Reply) (i : ℕ) (us : List Upstream)
    → length (check_each cfg replies i us) ≡ length us
unfolding check_each
length-check_each cfg replies i [] = refl
length-check_each cfg replies i (u ∷ us) = ap suc (length-check_each cfg replies (suc i) us)

length-update_at :
    (f : Upstream → Upstream) (i : ℕ) (us : List Upstream) → length (update_at f i us) ≡ length us
length-update_at f i [] = refl
length-update_at f zero (u ∷ us) = refl
length-update_at f (suc i) (u ∷ us) = ap suc (length-update_at f i us)

length-try_others :
    {E : Type 0} (a : ℕ) (answer : ℕ → Option E) (i : ℕ) (us : List Upstream)
    → length (try_others a answer i us).0 ≡ length us
unfolding try_others
length-try_others a answer i [] = refl
length-try_others a answer i (u ∷ us) = ground (arith, length-try_others a answer (suc i) us)

activate-InRange :
    (m : UpstreamManager) (o : Option ℕ)
    → InRange m
    → ((k : ℕ) → o ≡ some k → k < length m.upstreams)
    → InRange (activate m o)
activate-InRange m none h b = h
activate-InRange m (some k) h b = b k refl

select-InRange : (m : UpstreamManager) → InRange m → InRange (select_best_upstream m)
unfolding select_best_upstream
select-InRange m h = activate-InRange m _ h (bound (scan-Chosen 0 no_best m.upstreams))
  where
    bound :
        Chosen 0 no_best m.upstreams (scan 0 no_best m.upstreams)
        → (k : ℕ) → (scan 0 no_best m.upstreams).idx ≡ some k
        → k < length m.upstreams
    bound (inl e) k p = cc
    bound (inr (j, u, e, at, ok)) k p =
        let q : some (0 + j) ≡ some k = cc in
        let l = get_elem?-lt m.upstreams j u at in ground arith

success-InRange : (m : UpstreamManager) → InRange m → InRange (record_success m)
unfolding record_success
success-InRange m h = omega (arith, length-update_at succeed m.active_idx m.upstreams)

failure-InRange : (m : UpstreamManager) → InRange m → InRange (record_failure m)
unfolding record_failure
failure-InRange m h =
    let m' : UpstreamManager = record m {
      upstreams = update_at (fail m.cfg) m.active_idx m.upstreams;
    } in
    let kept : InRange m' = omega (arith, length-update_at (fail m.cfg) m.active_idx m.upstreams) in
    ground (arith, kept, select-InRange m' kept)

finish-InRange :
    {E : Type 0} (e : E) (m : UpstreamManager) (r : List Upstream × Option ℕ)
    → length r.0 ≡ length m.upstreams
    → InRange m
    → ((k : ℕ) → r.1 ≡ some k → k < length m.upstreams)
    → InRange (finish e m r).0
finish-InRange e m (us, none) same h b = omega arith
finish-InRange e m (us, some k) same h b = omega (arith, b k refl)

fail_over-InRange :
    {E : Type 0} (m : UpstreamManager) (e : E) (answer : ℕ → Option E)
    → InRange m
    → InRange (fail_over m e answer).0
unfolding fail_over
fail_over-InRange m e answer h =
    let m' = record_failure m in
    finish-InRange e m' _ (length-try_others m'.active_idx answer 0 m'.upstreams)
      (failure-InRange m h)
      λ k p. bound m' k (try_others-Answered answer m'.active_idx 0 m'.upstreams k p)
  where
    bound :
        (m' : UpstreamManager) (k : ℕ)
        → Answered answer m'.active_idx 0 m'.upstreams k
        → k < length m'.upstreams
    bound m' k (j, u, same, at, ok, ne, done) = omega (arith, get_elem?-lt m'.upstreams j u at)

call-InRange :
    {E : Type 0} (m : UpstreamManager) (first : Option E) (answer : ℕ → Option E)
    → InRange m
    → InRange (call_with_failover m first answer).0
unfolding call_with_failover
call-InRange m none answer h = ground (arith, success-InRange m h)
call-InRange m (some e) answer h = ground (arith, fail_over-InRange m e answer h)

get_elem?-some :
    (us : List Upstream) (k : ℕ) → k < length us → (u : Upstream) × (get_elem? us k ≡ some u)
get_elem?-some [] k h = elim h [ ]
get_elem?-some (u ∷ us) zero h = (u, refl)
get_elem?-some (u ∷ us) (suc k) h = get_elem?-some us k (omega arith)

module _ {E : Type 0} where
  handle-InRange : (m : UpstreamManager) (ev : Event E) → InRange m → InRange (handle m ev)
  unfolding handle check_all_upstreams set_miner_address
  handle-InRange m (checks replies) h =
      select-InRange _ (omega (arith, length-check_each m.cfg replies 0 m.upstreams))
  handle-InRange m success h = success-InRange m h
  handle-InRange m failure h = failure-InRange m h
  handle-InRange m (call first answer) h = call-InRange m first answer h
  handle-InRange m (address a) h = omega (
    arith,
    length-map m.upstreams
        λ (u : Upstream). record u { client = record u.client { miner_address = a } },
  )

  handle_all-InRange :
      (evs : List (Event E)) (m : UpstreamManager) → InRange m → InRange (handle_all m evs)
  unfolding handle_all
  handle_all-InRange [] m h = h
  handle_all-InRange (ev ∷ evs) m h = handle_all-InRange evs (handle m ev) (handle-InRange m ev h)

  -- From an active index in range, no history of checks, calls and reports takes it out of range:
  -- `GetClient` always returns the client at that very index, never its fallback to the first.
  pub handle_all-client :
      (evs : List (Event E)) (m : UpstreamManager)
      → InRange m
      → let m' = handle_all m evs in
        (u : Upstream) × (get_elem? m'.upstreams m'.active_idx ≡ some u)
        × (get_client m' ≡ some u.client)
  unfolding get_client active_upstream
  handle_all-client evs m h =
      let m' = handle_all m evs in
      let valid = handle_all-InRange evs m h in
      let (u, at) = get_elem?-some m'.upstreams m'.active_idx valid in (u, at, ground arith)
