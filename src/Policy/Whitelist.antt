-- ===== src/Policy/Whitelist.antt =====
-- Which addresses a request leaves alone.
use tos_pool.Prelude.{
  ℕ, ◌≡◌, ◌≢◌, refl, ap, ◌∙◌, Bool, true, Option, none, some, List, arith, inl, inr,
}
use tos_pool.Prelude.Int.{ℤ, pos, ◌+ℤ◌, ◌-ℤ◌, int32}
use tos_pool.Prelude.Maps.{Bytes, bytes_Eq, beq-cases, member, lookup}
use tos_pool.Policy.State.{
  IpStats, PolicyServer, put, get_stats, ban_ip, is_banned, get_score, set_ban,
  apply_malformed_policy, apply_connection_limit, add_score, settle_score, fresh_score,
}
use tos_pool.Policy.Tables.{
  Float32, apply_share_policy, apply_login_policy, refresh_lists, add_to_blacklist,
  add_to_whitelist, count_share, reset_stats,
}
use tos_pool.Policy.Bans.{
  flag_of, ban_flag, lookup-put_ne, stats-queue_ban, banned-get_stats, ban_flag-put,
}
use tos_pool.Policy.Invariant.{swept, lookup-sweep}
use tos_pool.Policy.Steps.{
  Request, check, connect, malform, submit, login, charge, query, ban, reset, refresh, blacken,
  whiten, dequeue, step,
}
use tos_pool.Policy.Safety.{SameBan, share-SameBan, IsValid}

-- The request is for another address, and is no sweep of all.
abbrev pub Spares : Bytes → Request → Type 0
Spares j (check now ip) = j ≢ ip
Spares j (connect now beat ip) = j ≢ ip
Spares j (malform b b' at ip) = j ≢ ip
Spares j (submit b b' at ip v) = j ≢ ip
Spares j (login b at a ip) = j ≢ ip
Spares j (charge b now at ip cost) = j ≢ ip
Spares j (query now ip) = j ≢ ip
Spares j (ban b at ip) = j ≢ ip
Spares j (reset now) = ⊥
Spares j _ = Unit {0}

module _ {F : Type 0} (j : Bytes) where
  -- `q` holds the same entry for `j` as `p`.
  abbrev Same : PolicyServer F → PolicyServer F → Type 0
  Same p q = lookup j q.stats ≡ lookup j p.stats

  set_ban-Same :
      (p : PolicyServer F) (ip : Bytes) (st : IpStats) (at : ℕ)
      → j ≢ ip
      → Same p (set_ban p ip st at)
  unfolding set_ban
  set_ban-Same p ip st at h = ground (
    arith,
    ap (lookup j) (stats-queue_ban (put p ip (record st { banned_at = at; banned = 1 })) ip),
    lookup-put_ne p j ip (record st { banned_at = at; banned = 1 }) h,
    lookup-put_ne p j ip (record st { banned_at = at }) h,
  )

  ban_ip-Same : (p : PolicyServer F) (b at : ℕ) (ip : Bytes) → j ≢ ip → Same p (ban_ip p b at ip)
  unfolding ban_ip
  ban_ip-Same p b at ip h = ground (arith, set_ban-Same p ip (get_stats p b ip) at h)

  malformed-Same :
      (p : PolicyServer F) (b b' at : ℕ) (ip : Bytes)
      → j ≢ ip
      → Same p (apply_malformed_policy p b b' at ip).0
  unfolding apply_malformed_policy
  malformed-Same p b b' at ip h =
      let st : IpStats = record (get_stats p b ip) {
        malformed = int32 ((get_stats p b ip).malformed +ℤ pos 1);
      } in
      ground (arith, lookup-put_ne p j ip st h, ban_ip-Same (put p ip st) b' at ip h)

  score-Same :
      (p : PolicyServer F) (b now at : ℕ) (ip : Bytes) (cost : ℤ)
      → j ≢ ip
      → Same p (add_score p b now at ip cost).0
  unfolding add_score settle_score fresh_score
  score-Same p b now at ip cost h = grind (arith, lookup-put_ne)

  submit-Same :
      (fl : Float32 F) (p : PolicyServer F) (b b' at : ℕ) (ip : Bytes) (valid : Bool)
      → j ≢ ip
      → Same p (apply_share_policy fl p b b' at ip valid).0
  unfolding apply_share_policy
  submit-Same fl p b b' at ip valid h =
      let st = count_share p.config (get_stats p b ip) valid in
      let zeroed : IpStats = record st { valid_shares = pos 0; invalid_shares = pos 0 } in
      ground (
        arith,
        lookup-put_ne p j ip st h,
        lookup-put_ne p j ip zeroed h,
        ban_ip-Same (put p ip zeroed) b' at ip h,
      )

  refresh-Same :
      (p : PolicyServer F) (reply : Option (Option (List Bytes) × Option (List Bytes)))
      → (refresh_lists p reply).stats ≡ p.stats
  unfolding refresh_lists
  refresh-Same p none = refl
  refresh-Same p (some (none, none)) = refl
  refresh-Same p (some (none, some w)) = refl
  refresh-Same p (some (some b, none)) = refl
  refresh-Same p (some (some b, some w)) = refl

  -- A request changes the entry of no address but its own.
  step-other :
      (fl : Float32 F) (p : PolicyServer F) (r : Request)
      → Spares j r
      → lookup j (step fl p r).stats ≡ lookup j p.stats
  unfolding step is_banned get_score apply_connection_limit apply_login_policy add_to_blacklist
      add_to_whitelist
  step-other fl p (check now ip) h = ground (arith, lookup-put_ne p j ip (get_stats p now ip) h)
  step-other fl p (connect now beat ip) h = grind (arith, lookup-put_ne)
  step-other fl p (malform b b' at ip) h = malformed-Same p b b' at ip h
  step-other fl p (submit b b' at ip v) h = submit-Same fl p b b' at ip v h
  step-other fl p (login b at a ip) h = ground (arith, ban_ip-Same p b at ip h)
  step-other fl p (charge b now at ip cost) h = score-Same p b now at ip cost h
  step-other fl p (query now ip) h = lookup-put_ne p j ip (get_stats p now ip) h
  step-other fl p (ban b at ip) h = ban_ip-Same p b at ip h
  step-other fl p (reset now) h = absurd h
  step-other fl p (refresh reply) h = ap (lookup j) (refresh-Same p reply)
  step-other fl p (blacken stored a) h = ground arith
  step-other fl p (whiten stored ip) h = ground arith
  step-other fl p dequeue h = refl

-- Every request but `AddScore`, whose temporary ban does not ask the whitelist.
abbrev pub IsUnscored : Request → Type 0
IsUnscored (charge b now at ip cost) = ⊥
IsUnscored _ = Unit {0}

module _ {F : Type 0} where
  ban_ip-whitelisted :
      (p : PolicyServer F) (b at : ℕ) (ip : Bytes)
      → member ip p.whitelist ≡ true
      → ban_ip p b at ip ≡ p
  unfolding ban_ip
  ban_ip-whitelisted p b at ip w = ground arith

  flag-touched :
      (p : PolicyServer F) (now : ℕ) (ip : Bytes) (st : IpStats)
      → ban_flag p ip ≡ 0
      → SameBan (get_stats p now ip) st
      → ban_flag (put p ip st) ip ≡ 0
  flag-touched p now ip st z s = ban_flag-put p ip st ∙ s.0 ∙ banned-get_stats p now ip ∙ z

  own-malform :
      (p : PolicyServer F) (b b' at : ℕ) (ip : Bytes)
      → member ip p.whitelist ≡ true
      → ban_flag p ip ≡ 0
      → ban_flag (apply_malformed_policy p b b' at ip).0 ip ≡ 0
  unfolding apply_malformed_policy
  own-malform p b b' at ip w z =
      let st : IpStats = record (get_stats p b ip) {
        malformed = int32 ((get_stats p b ip).malformed +ℤ pos 1);
      } in
      ground (
        arith,
        flag-touched p b ip st z (refl, refl),
        ap (λ q. ban_flag q ip) (ban_ip-whitelisted (put p ip st) b' at ip w),
      )

  own-submit :
      (fl : Float32 F) (p : PolicyServer F) (b b' at : ℕ) (ip : Bytes) (v : Bool)
      → member ip p.whitelist ≡ true
      → ban_flag p ip ≡ 0
      → ban_flag (apply_share_policy fl p b b' at ip v).0 ip ≡ 0
  unfolding apply_share_policy
  own-submit fl p b b' at ip v w z =
      let st = count_share p.config (get_stats p b ip) v in
      let zeroed : IpStats = record st { valid_shares = pos 0; invalid_shares = pos 0 } in
      let same = share-SameBan p.config (get_stats p b ip) v in
      ground (
        arith,
        flag-touched p b ip st z same,
        flag-touched p b ip zeroed z same,
        ap (λ q. ban_flag q ip) (ban_ip-whitelisted (put p ip zeroed) b' at ip w),
      )

  own-connect :
      (p : PolicyServer F) (now beat : ℕ) (ip : Bytes)
      → ban_flag p ip ≡ 0
      → ban_flag (apply_connection_limit p now beat ip).0 ip ≡ 0
  unfolding apply_connection_limit
  own-connect p now beat ip z = ground (
    arith,
    flag-touched p beat ip
        (record (get_stats p beat ip) {
          conn_limit = int32 ((get_stats p beat ip).conn_limit -ℤ pos 1);
        })
        z (refl, refl),
  )

  own-reset :
      (p : PolicyServer F) (now : ℕ) (ip : Bytes)
      → IsValid p
      → ban_flag p ip ≡ 0
      → ban_flag (reset_stats p now) ip ≡ 0
  unfolding reset_stats
  own-reset p now ip v z =
      ap flag_of (lookup-sweep p.config now ip p.stats v.distinct)
      ∙ swept-zero (lookup ip p.stats) z
    where
      swept-zero : (o : Option IpStats) → flag_of o ≡ 0 → flag_of (swept p.config now o) ≡ 0
      swept-zero none e = refl
      swept-zero (some st) e = ground arith

module _ {F : Type 0} (fl : Float32 F) where
  other :
      (p : PolicyServer F) (ip : Bytes) (r : Request)
      → Spares ip r
      → ban_flag p ip ≡ 0
      → ban_flag (step fl p r) ip ≡ 0
  other p ip r h z = ap flag_of (step-other ip fl p r h) ∙ z

  -- Whatever a request other than `AddScore` is about, it does not ban a whitelisted address.
  pub step-whitelisted :
      (p : PolicyServer F) (r : Request) (ip : Bytes)
      → IsValid p
      → member ip p.whitelist ≡ true
      → ban_flag p ip ≡ 0
      → IsUnscored r
      → ban_flag (step fl p r) ip ≡ 0
  unfolding step is_banned get_score apply_login_policy
  step-whitelisted p (check now i) ip v w z u = elim (beq-cases ip i) [
    | inl e ↦ rw (← e) (ground (arith, flag-touched p now ip (get_stats p now ip) z (refl, refl)))
    | inr h ↦ other p ip (check now i) h z
  ]
  step-whitelisted p (connect now beat i) ip v w z u = elim (beq-cases ip i) [
    | inl e ↦ rw (← e) (own-connect p now beat ip z)
    | inr h ↦ other p ip (connect now beat i) h z
  ]
  step-whitelisted p (malform b b' at i) ip v w z u = elim (beq-cases ip i) [
    | inl e ↦ rw (← e) (own-malform p b b' at ip w z)
    | inr h ↦ other p ip (malform b b' at i) h z
  ]
  step-whitelisted p (submit b b' at i ok) ip v w z u = elim (beq-cases ip i) [
    | inl e ↦ rw (← e) (own-submit fl p b b' at ip ok w z)
    | inr h ↦ other p ip (submit b b' at i ok) h z
  ]
  step-whitelisted p (login b at a i) ip v w z u = elim (beq-cases ip i) [
    | inl e ↦ rw (← e) (ground (arith, ap (λ q. ban_flag q ip) (ban_ip-whitelisted p b at ip w)))
    | inr h ↦ other p ip (login b at a i) h z
  ]
  step-whitelisted p (charge b now at i cost) ip v w z u = absurd u
  step-whitelisted p (query now i) ip v w z u = elim (beq-cases ip i) [
    | inl e ↦ rw (← e) (flag-touched p now ip (get_stats p now ip) z (refl, refl))
    | inr h ↦ other p ip (query now i) h z
  ]
  step-whitelisted p (ban b at i) ip v w z u = elim (beq-cases ip i) [
    | inl e ↦ rw (← e) (ap (λ q. ban_flag q ip) (ban_ip-whitelisted p b at ip w) ∙ z)
    | inr h ↦ other p ip (ban b at i) h z
  ]
  step-whitelisted p (reset now) ip v w z u = own-reset p now ip v z
  step-whitelisted p (refresh reply) ip v w z u = other p ip (refresh reply) tt z
  step-whitelisted p (blacken stored a) ip v w z u = other p ip (blacken stored a) tt z
  step-whitelisted p (whiten stored i) ip v w z u = other p ip (whiten stored i) tt z
  step-whitelisted p dequeue ip v w z u = other p ip dequeue tt z
