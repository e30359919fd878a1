-- ===== src/Policy/Bans.antt =====
-- Bans and their end.
use tos_pool.Prelude.{ℕ, ◌≤◌, ◌≡◌, ◌≢◌, refl, ap, ◌∙◌, true, false, Option, none, some, arith}
use tos_pool.Prelude.Maps.{
  Bytes, bytes_Eq, member, lookup, insert, lookup-insert_self, lookup-insert_ne,
}
use tos_pool.Policy.State.{IpStats, PolicyServer, put, get_stats, ban_ip, set_ban, queue_ban}

abbrev pub flag_of : Option IpStats → ℕ
flag_of none = 0
flag_of (some st) = st.banned

module _ {F : Type 0} where
  -- The `Banned` flag of an IP, 0 where it has no entry.
  abbrev pub ban_flag : PolicyServer F → Bytes → ℕ
  ban_flag p ip = flag_of (lookup ip p.stats)

  pub stats-queue_ban : (p : PolicyServer F) (ip : Bytes) → (queue_ban p ip).stats ≡ p.stats
  unfolding queue_ban
  stats-queue_ban p ip = ground arith

  pub lookup-put :
      (p : PolicyServer F) (ip : Bytes) (st : IpStats) → lookup ip (put p ip st).stats ≡ some st
  lookup-put p ip st = lookup-insert_self ip st p.stats

  pub lookup-put_ne :
      (p : PolicyServer F) (j ip : Bytes) (st : IpStats)
      → j ≢ ip
      → lookup j (put p ip st).stats ≡ lookup j p.stats
  lookup-put_ne p j ip st h = lookup-insert_ne j ip st p.stats h

  stats-set_ban :
      (p : PolicyServer F) (ip : Bytes) (st : IpStats) (at : ℕ)
      → st.banned ≤ 1
      → (set_ban p ip st at).stats ≡ insert ip (record st { banned_at = at; banned = 1 }) p.stats
  unfolding set_ban
  stats-set_ban p ip st at h =
      ground (arith, stats-queue_ban (put p ip (record st { banned_at = at; banned = 1 })) ip)

  pub get_stats-put :
      (p : PolicyServer F) (now : ℕ) (ip : Bytes) (st : IpStats)
      → get_stats (put p ip st) now ip ≡ record st { last_beat = now }
  unfolding get_stats
  get_stats-put p now ip st = rw (lookup-put p ip st) refl

  -- `getStats` changes the time of an entry and nothing else.
  pub banned-get_stats :
      (p : PolicyServer F) (now : ℕ) (ip : Bytes) → (get_stats p now ip).banned ≡ ban_flag p ip
  unfolding get_stats
  banned-get_stats p now ip = ground arith

  pub ban_flag-put :
      (p : PolicyServer F) (ip : Bytes) (st : IpStats) → ban_flag (put p ip st) ip ≡ st.banned
  ban_flag-put p ip st = ap flag_of (lookup-put p ip st)

  ban_ip-set_ban :
      (p : PolicyServer F) (beat at : ℕ) (ip : Bytes)
      → p.config.banning_enabled ≡ true
      → member ip p.whitelist ≡ false
      → ban_ip p beat at ip ≡ set_ban p ip (get_stats p beat ip) at
  unfolding ban_ip
  ban_ip-set_ban p beat at ip on out = simp (on, out)

  -- An IP that no list protects is banned by `BanIP`, from the time that was read.
  pub lookup-ban_ip :
      (p : PolicyServer F) (beat at : ℕ) (ip : Bytes)
      → p.config.banning_enabled ≡ true
      → member ip p.whitelist ≡ false
      → ban_flag p ip ≤ 1
      → lookup ip (ban_ip p beat at ip).stats
        ≡ some (record (get_stats p beat ip) { banned_at = at; banned = 1 })
  lookup-ban_ip p beat at ip on out flag =
      ap (λ q. lookup ip q.stats) (ban_ip-set_ban p beat at ip on out)
      ∙ ap (lookup ip)
          (stats-set_ban p ip (get_stats p beat ip) at (rw (banned-get_stats p beat ip) flag))
      ∙ lookup-put p ip _
