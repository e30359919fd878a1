-- ===== src/Policy/Lifecycle.antt =====
-- How long a ban lasts, and what the periodic reset keeps and drops.
use tos_pool.Prelude.{
  ℕ, ◌+◌, ◌≤◌, ◌<◌, ◌≡◌, refl, ap, ◌∙◌, true, false, some, arith, Option-cases, inl, inr, ltb, leb,
  if◌then◌else◌,
}
use tos_pool.Prelude.Maps.{Bytes, bytes_Eq, member, lookup}
use tos_pool.Policy.State.{
  Config, IpStats, PolicyServer, put, get_stats, ban_ip, milliseconds, is_banned, set_ban,
  queue_ban,
}
use tos_pool.Policy.Tables.{reset_stats}
use tos_pool.Policy.Bans.{flag_of, ban_flag, lookup-ban_ip, banned-get_stats}
use tos_pool.Policy.Invariant.{Distinct, swept, lookup-sweep, lookup-Sound}
use tos_pool.Policy.Safety.{IsValid, ban_ip-IsValid}

module _ {F : Type 0} where
  is_banned-flag :
      (p : PolicyServer F) (now : ℕ) (ip : Bytes)
      → p.config.banning_enabled ≡ true
      → (is_banned p now ip).1 ≡ ltb 0 (ban_flag p ip)
  unfolding is_banned
  is_banned-flag p now ip on = simp (on, banned-get_stats p now ip)

  config-queue_ban : (p : PolicyServer F) (ip : Bytes) → (queue_ban p ip).config ≡ p.config
  unfolding queue_ban
  config-queue_ban p ip = ground arith

  config-ban_ip :
      (p : PolicyServer F) (b at : ℕ) (ip : Bytes) → (ban_ip p b at ip).config ≡ p.config
  unfolding ban_ip set_ban
  config-ban_ip p b at ip = ground (
    arith,
    config-queue_ban (put p ip (record (get_stats p b ip) { banned_at = at; banned = 1 })) ip,
  )

  flag-IsValid : (p : PolicyServer F) (ip : Bytes) → IsValid p → ban_flag p ip ≤ 1
  flag-IsValid p ip v = elim (Option-cases (lookup ip p.stats)) [
    | inl new ↦ rw new (omega arith)
    | inr (st, old) ↦ rw old (lookup-Sound ip st p.stats v.sound old).0
  ]

  -- One reset clears the flag of a banned entry exactly if its time is over.
  flag_of-swept :
      (cfg : Config F) (now : ℕ) (st : IpStats)
      → 0 < st.banned_at
      → st.banned ≡ 1
      → flag_of (swept cfg now (some st))
        ≡ (if leb (st.banned_at + milliseconds cfg.ban_timeout) now then 0 else 1)
  flag_of-swept cfg now st t on = ground arith

  flag-reset :
      (q : PolicyServer F) (now : ℕ) (ip : Bytes) (st : IpStats)
      → Distinct q.stats
      → lookup ip q.stats ≡ some st
      → 0 < st.banned_at
      → st.banned ≡ 1
      → ban_flag (reset_stats q now) ip
        ≡ (if leb (st.banned_at + milliseconds q.config.ban_timeout) now then 0 else 1)
  unfolding reset_stats
  flag-reset q now ip st d e t on =
      ap flag_of (lookup-sweep q.config now ip q.stats d ∙ ap (swept q.config now) e)
      ∙ flag_of-swept q.config now st t on

  config-reset : (q : PolicyServer F) (now : ℕ) → (reset_stats q now).config ≡ q.config
  unfolding reset_stats
  config-reset q now = refl

  -- `BanIP` on an address that is not whitelisted, in a valid server with banning on: the address
  -- is banned at once, and the first reset ends the ban exactly if its timeout has passed by then.
  pub ban_ip-reset_stats :
      (p : PolicyServer F) (beat at now later : ℕ) (ip : Bytes)
      → IsValid p
      → p.config.banning_enabled ≡ true
      → member ip p.whitelist ≡ false
      → 0 < at
      → let q = ban_ip p beat at ip in
        ((is_banned q later ip).1 ≡ true)
        × ((is_banned (reset_stats q now) later ip).1
            ≡ ltb now (at + milliseconds p.config.ban_timeout))
  ban_ip-reset_stats p beat at now later ip v on out t =
      let q = ban_ip p beat at ip in
      let entry : IpStats = record (get_stats p beat ip) { banned_at = at; banned = 1 } in
      let found = lookup-ban_ip p beat at ip on out (flag-IsValid p ip v) in
      let cfg = config-ban_ip p beat at ip in
      let on' = ap (λ c. c.banning_enabled) cfg ∙ on in
      let w = ban_ip-IsValid p beat at ip t v in
      let cleared = flag-reset q now ip entry w.distinct found t refl in
      ground (
        arith,
        is_banned-flag q later ip on',
        ap flag_of found,
        is_banned-flag (reset_stats q now) later ip
            (ap (λ c. c.banning_enabled) (config-reset q now) ∙ on'),
        cleared,
        ap (λ (c : Config F). milliseconds c.ban_timeout) cfg,
      )

  -- The reset drops no banned address whose time is not over, however long it has been silent.
  pub reset_stats-keeps_ban :
      (p : PolicyServer F) (now : ℕ) (ip : Bytes) (st : IpStats)
      → IsValid p
      → lookup ip p.stats ≡ some st
      → st.banned ≡ 1
      → now < st.banned_at + milliseconds p.config.ban_timeout
      → lookup ip (reset_stats p now).stats ≡ some st
  unfolding reset_stats
  reset_stats-keeps_ban p now ip st v e on early =
      lookup-sweep p.config now ip p.stats v.distinct ∙ ap (swept p.config now) e ∙ ground arith
