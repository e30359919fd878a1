-- ===== src/Policy/Scores.antt =====
-- The score of an address and its temporary ban (AddScore, internal/policy/policy.go).
use mathlib.Core.Path.{subst}
use tos_pool.Prelude.{
  ℕ, ◌+◌, ◌^◌, ◌≤◌, ◌<◌, ◌≡◌, refl, sym, ap, ◌∙◌, Bool, true, false, not, List, [], ◌∷◌, arith,
  Bool-cases, inl, inr, leb, lt→ltb, if◌then◌else◌,
}
use tos_pool.Prelude.Int.{pos, ◌+ℤ◌, int32}
use tos_pool.Prelude.Maps.{Bytes, bytes_Eq}
use tos_pool.Policy.State.{
  Config, IpStats, PolicyServer, put, get_stats, add_score, settle_score, fresh_score, seconds,
  get_score,
}
use tos_pool.Policy.Window.{int32-sum}
use tos_pool.Policy.Bans.{ban_flag, banned-get_stats, ban_flag-put, get_stats-put}

-- One call of `AddScore` for an address: the readings of the clock and the cost.
pub record Charge : Type 0 where
  pub beat : ℕ
  pub now : ℕ
  pub at : ℕ
  pub cost : ℕ

abbrev pub costs : List Charge → ℕ
costs [] = 0
costs (c ∷ cs) = c.cost + costs cs

module _ {F : Type 0} (ip : Bytes) where
  abbrev pub charge : PolicyServer F → Charge → PolicyServer F × Bool
  charge p c = add_score p c.beat c.now c.at ip (pos c.cost)

  abbrev pub charged : PolicyServer F → List Charge → PolicyServer F
  charged p [] = p
  charged p (c ∷ cs) = charged (charge p c).0 cs

  -- The charges come before the score that was reset at `reset` starts again.
  abbrev pub AllBefore : ℕ → Config F → List Charge → Type 0
  AllBefore reset cfg [] = Unit {0}
  AllBefore reset cfg (c ∷ cs) =
      (c.now < reset + seconds cfg.score_reset_time) × AllBefore reset cfg cs

  -- Scores are on, with a ban time and the maximum `max`.
  abbrev pub Scoring : ℕ → Config F → Type 0
  Scoring max cfg =
      (cfg.score_enabled ≡ true)
      × (0 < cfg.score_temp_ban_time)
      × (cfg.max_score ≡ pos max)
      × (max < 2 ^ 31)

  -- The score of the entry is `a`, since the reset at `reset`.
  abbrev Scored : ℕ → ℕ → PolicyServer F → Type 0
  Scored a reset p =
      ((get_stats p 0 ip).score ≡ pos a) × ((get_stats p 0 ip).last_score_reset ≡ reset)

  -- When the score of the entry was last reset.
  abbrev pub last_reset : PolicyServer F → ℕ
  last_reset p = (get_stats p 0 ip).last_score_reset

  -- What a charge does that brings the score to `total`, from the entry `st`.
  abbrev outcome : ℕ → PolicyServer F → ℕ → IpStats → ℕ → PolicyServer F × Bool
  outcome max p at st total =
      if leb max total
      then (put p ip (record st { score = pos 0; banned_at = at; banned = 1 }), false)
      else (put p ip (record st { score = pos total }), true)

  settle_score-outcome :
      (p : PolicyServer F) (at : ℕ) (st : IpStats) (max total : ℕ)
      → Scoring max p.config
      → settle_score p at ip st (pos total) ≡ outcome max p at st total
  unfolding settle_score
  settle_score-outcome p at st max total (on, timed, top, low) =
      simp (top, lt→ltb 0 p.config.score_temp_ban_time timed) (ground arith)

  charge-outcome :
      (p : PolicyServer F) (c : Charge) (max a : ℕ)
      → Scoring max p.config
      → let st = fresh_score p.config c.now (get_stats p c.beat ip) in
        st.score ≡ pos a → a + c.cost < 2 ^ 31 → charge p c ≡ outcome max p c.at st (a + c.cost)
  unfolding add_score
  charge-outcome p c max a scoring e small =
      let st = fresh_score p.config c.now (get_stats p c.beat ip) in
      let total : int32 (st.score +ℤ pos c.cost) ≡ pos (a + c.cost) =
        ap (λ z. int32 (z +ℤ pos c.cost)) e ∙ int32-sum a c.cost small in
      simp scoring.0 (
        ap (settle_score p c.at ip st) total
        ∙ settle_score-outcome p c.at st max (a + c.cost) scoring)

  -- Inside the interval the entry keeps its score, and from its end on it starts again.
  within :
      (p : PolicyServer F) (c : Charge) (a reset : ℕ)
      → Scored a reset p
      → c.now < reset + seconds p.config.score_reset_time
      → let st = fresh_score p.config c.now (get_stats p c.beat ip) in
        (st.score ≡ pos a) × (st.last_score_reset ≡ reset)
  unfolding fresh_score get_stats
  within p c a reset (e, f) h = ground (arith, e, f, h)

  afresh :
      (p : PolicyServer F) (c : Charge)
      → last_reset p + seconds p.config.score_reset_time ≤ c.now
      → let st = fresh_score p.config c.now (get_stats p c.beat ip) in
        (st.score ≡ pos 0) × (st.last_score_reset ≡ c.now)
  unfolding fresh_score get_stats
  afresh p c h = ground (arith, h)

  Scored-put :
      (p : PolicyServer F) (st : IpStats) (a reset : ℕ)
      → st.score ≡ pos a
      → st.last_score_reset ≡ reset
      → Scored a reset (put p ip st)
  Scored-put p st a reset e f =
      let again = get_stats-put p 0 ip st in
      (ap (λ x. x.score) again ∙ e, ap (λ x. x.last_score_reset) again ∙ f)

  banned-entry :
      (p : PolicyServer F) (c : Charge)
      → (fresh_score p.config c.now (get_stats p c.beat ip)).banned ≡ ban_flag p ip
  unfolding fresh_score
  banned-entry p c = ground (arith, banned-get_stats p c.beat ip)

  -- A charge that stays below the maximum.
  charge-passes :
      (p : PolicyServer F) (c : Charge) (max a reset : ℕ)
      → Scoring max p.config
      → let st = fresh_score p.config c.now (get_stats p c.beat ip) in
        (st.score ≡ pos a) × (st.last_score_reset ≡ reset)
        → a + c.cost < max
        → let q = (charge p c).0 in
          Scored (a + c.cost) reset q × (q.config ≡ p.config) × (ban_flag q ip ≡ ban_flag p ip)
  charge-passes p c max a reset scoring (e, f) below =
      let st = fresh_score p.config c.now (get_stats p c.beat ip) in
      let kept : IpStats = record st { score = pos (a + c.cost) } in
      let (on, timed, top, low) = scoring in
      let under : leb max (a + c.cost) ≡ false = ground (arith, below) in
      let runs : charge p c ≡ (put p ip kept, true) =
        charge-outcome p c max a scoring e (omega (arith, low, below)) ∙ (rw under refl) in
      subst
        (λ (r : PolicyServer F × Bool).
          Scored (a + c.cost) reset r.0
          × (r.0.config ≡ p.config)
          × (ban_flag r.0 ip ≡ ban_flag p ip))
        (sym runs)
        (
          Scored-put p kept (a + c.cost) reset refl f,
          refl,
          ban_flag-put p ip kept ∙ banned-entry p c,
        )

  charged-Scored :
      (cs : List Charge) (p : PolicyServer F) (max a reset : ℕ)
      → Scoring max p.config
      → Scored a reset p
      → AllBefore reset p.config cs
      → a + costs cs < max
      → let q = charged p cs in
        Scored (a + costs cs) reset q × (q.config ≡ p.config) × (ban_flag q ip ≡ ban_flag p ip)
  charged-Scored [] p max a reset scoring s before below =
      let e : a + 0 ≡ a = omega arith in (rw e s, refl, refl)
  charged-Scored (c ∷ cs) p max a reset scoring s before below =
      let (s', same, flag) =
        charge-passes p c max a reset scoring (within p c a reset s before.0)
          (omega (arith, below)) in
      let (s'', same', flag') =
        charged-Scored cs (charge p c).0 max (a + c.cost) reset (rw same scoring) s'
          (rw same before.1) (omega (arith, below)) in
      let e : a + c.cost + costs cs ≡ a + (c.cost + costs cs) = omega arith in
      (rw e at s'', same' ∙ same, flag' ∙ flag)

  -- The state and the verdict after a charge that brings the score to `total`.
  abbrev pub Settled : ℕ → ℕ → PolicyServer F → ℕ → PolicyServer F × Bool → Type 0
  Settled beat max p total (q, allowed) =
      (allowed ≡ not (leb max total))
      × ((get_score q beat ip).1 ≡ (if leb max total then pos 0 else pos total))
      × (ban_flag q ip ≡ (if leb max total then 1 else ban_flag p ip))

  score-put :
      (p : PolicyServer F) (beat : ℕ) (st : IpStats)
      → (get_score (put p ip st) beat ip).1 ≡ st.score
  unfolding get_score
  score-put p beat st = ap (λ x. x.score) (get_stats-put p beat ip st)

  outcome-Settled :
      (beat max : ℕ) (p : PolicyServer F) (c : Charge) (total : ℕ)
      → let st = fresh_score p.config c.now (get_stats p c.beat ip) in
        Settled beat max p total (outcome max p c.at st total)
  outcome-Settled beat max p c total =
      let st = fresh_score p.config c.now (get_stats p c.beat ip) in
      let banned : IpStats = record st { score = pos 0; banned_at = c.at; banned = 1 } in
      let kept : IpStats = record st { score = pos total } in
      elim (Bool-cases (leb max total)) [
        | inl e ↦ simp e (refl, score-put p beat banned, ban_flag-put p ip banned)
        | inr e ↦ simp e (refl, score-put p beat kept, ban_flag-put p ip kept ∙ banned-entry p c)
      ]

  get_score-same :
      (p : PolicyServer F) (beat : ℕ) → (get_score p beat ip).1 ≡ (get_stats p 0 ip).score
  unfolding get_score get_stats
  get_score-same p beat = ground arith

  -- With scores on and a ban time set: from the charge `c` that comes when the score is to start
  -- again, and for charges that come before it is to start again once more, the score is the sum of
  -- the costs while that is below the maximum, and the ban flag is as it was. The next charge `d`
  -- within that time is allowed exactly if the sum with its cost is below the maximum, and the
  -- score is then that sum; otherwise the score is 0 and the address is banned, whether or not it
  -- is whitelisted and whether or not banning is on. The sum with `d` is below 2^31.
  pub add_score-costs :
      (p : PolicyServer F) (c : Charge) (cs : List Charge) (d : Charge) (beat max : ℕ)
      → Scoring max p.config
      → last_reset p + seconds p.config.score_reset_time ≤ c.now
      → AllBefore c.now p.config cs
      → d.now < c.now + seconds p.config.score_reset_time
      → costs (c ∷ cs) < max
      → costs (c ∷ cs) + d.cost < 2 ^ 31
      → let q = charged p (c ∷ cs) in
        ((get_score q beat ip).1 ≡ pos (costs (c ∷ cs)))
        × (ban_flag q ip ≡ ban_flag p ip)
        × Settled beat max q (costs (c ∷ cs) + d.cost) (charge q d)
  add_score-costs p c cs d beat max scoring over before soon below small =
      let (s1, same1, flag1) =
        charge-passes p c max 0 c.now scoring (afresh p c over) (omega (arith, below)) in
      let (s2, same2, flag2) =
        charged-Scored cs (charge p c).0 max (0 + c.cost) c.now (rw same1 scoring) s1
          (rw same1 before) (omega (arith, below)) in
      let q = charged p (c ∷ cs) in
      let same : q.config ≡ p.config = same2 ∙ same1 in
      let total : 0 + c.cost + costs cs ≡ costs (c ∷ cs) = omega arith in
      let s : ((get_stats q 0 ip).score ≡ pos (costs (c ∷ cs)))
          × ((get_stats q 0 ip).last_score_reset ≡ c.now) =
        rw total at s2 in
      let (e, f) = within q d (costs (c ∷ cs)) c.now s (rw same soon) in
      (
        get_score-same q beat ∙ s.0,
        flag2 ∙ flag1,
        subst (Settled beat max q (costs (c ∷ cs) + d.cost))
            (sym (charge-outcome q d max (costs (c ∷ cs)) (rw same scoring) e small))
            (outcome-Settled beat max q d (costs (c ∷ cs) + d.cost)),
      )
