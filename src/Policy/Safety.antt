-- ===== src/Policy/Safety.antt =====
-- Every method keeps the entries sound, one for each IP, and the ban channel within its capacity.
use tos_pool.Prelude.{
  ℕ, ◌≤◌, ◌<◌, ◌≡◌, refl, Bool, true, false, Option, none, some, List, [], ◌∷◌, arith, Option-cases,
  inl, inr, length, length-append,
}
use tos_pool.Prelude.Int.{ℤ, pos, ◌+ℤ◌, ◌-ℤ◌, int32}
use tos_pool.Prelude.Maps.{Bytes, bytes_Eq, lookup}
use tos_pool.Policy.State.{
  Config, IpStats, PolicyServer, put, get_stats, ban_ip, is_banned, set_ban, queue_ban, add_score,
  settle_score, fresh_score, get_score, apply_malformed_policy, apply_connection_limit,
  ban_chan_capacity,
}
use tos_pool.Policy.Tables.{
  Float32, apply_share_policy, apply_login_policy, reset_stats, refresh_lists, add_to_blacklist,
  add_to_whitelist, count_share,
}
use tos_pool.Policy.Invariant.{
  Distinct, Sound, AllSound, insert-Distinct, insert-AllSound, lookup-Sound, sweep-Distinct,
  sweep-AllSound,
}
use tos_pool.Policy.Steps.{
  Request, IsTimed, tail, check, connect, malform, submit, login, charge, query, ban, reset,
  refresh, blacken, whiten, dequeue, step, run,
}

length-tail : (l : List Bytes) → length (tail l) ≤ length l
length-tail [] = omega arith
length-tail (x ∷ l) = omega arith

-- An entry with the ban fields of a sound one is sound.
abbrev pub SameBan : IpStats → IpStats → Type 0
SameBan st st' = (st'.banned ≡ st.banned) × (st'.banned_at ≡ st.banned_at)

module _ {F : Type 0} where
  pub record IsValid (p : PolicyServer F) : Type 0 where
    pub distinct : Distinct p.stats
    pub sound : AllSound p.stats
    pub bounded : length p.ban_chan ≤ ban_chan_capacity

  put-IsValid :
      (p : PolicyServer F) (ip : Bytes) (st : IpStats)
      → IsValid p
      → Sound st
      → IsValid (put p ip st)
  put-IsValid p ip st v h = record {
    distinct = insert-Distinct ip st p.stats v.distinct;
    sound = insert-AllSound ip st p.stats h v.sound;
    bounded = v.bounded;
  }

  queue_ban-IsValid : (p : PolicyServer F) (ip : Bytes) → IsValid p → IsValid (queue_ban p ip)
  unfolding queue_ban
  queue_ban-IsValid p ip v = ground (arith, length-append p.ban_chan (ip ∷ []))

  set_ban-IsValid :
      (p : PolicyServer F) (ip : Bytes) (st : IpStats) (at : ℕ)
      → 0 < at
      → Sound st
      → IsValid p
      → IsValid (set_ban p ip st at)
  unfolding set_ban
  set_ban-IsValid p ip st at t h v =
      let new = put p ip (record st { banned_at = at; banned = 1 }) in
      ground (
        arith,
        put-IsValid p ip (record st { banned_at = at }) v (h.0, λ _. t),
        queue_ban-IsValid new ip
            (put-IsValid p ip (record st { banned_at = at; banned = 1 }) v (omega arith, λ _. t)),
      )

  get_stats-Sound :
      (p : PolicyServer F) (now : ℕ) (ip : Bytes) → IsValid p → Sound (get_stats p now ip)
  unfolding get_stats
  get_stats-Sound p now ip v = elim (Option-cases (lookup ip p.stats)) [
    | inl new ↦ rw new (omega arith, λ e. cc)
    | inr (st, old) ↦ rw old (lookup-Sound ip st p.stats v.sound old)
  ]

  pub ban_ip-IsValid :
      (p : PolicyServer F) (beat at : ℕ) (ip : Bytes)
      → 0 < at
      → IsValid p
      → IsValid (ban_ip p beat at ip)
  unfolding ban_ip
  ban_ip-IsValid p beat at ip t v =
      ground
        (arith, set_ban-IsValid p ip (get_stats p beat ip) at t (get_stats-Sound p beat ip v) v)

  touched-IsValid :
      (p : PolicyServer F) (now : ℕ) (ip : Bytes) (st : IpStats)
      → IsValid p
      → SameBan (get_stats p now ip) st
      → IsValid (put p ip st)
  touched-IsValid p now ip st v (same, at) =
      let s = get_stats-Sound p now ip v in
      put-IsValid p ip st v (omega (arith, s.0), λ e. omega (arith, s.1 (same' e)))
    where
      same' : st.banned ≡ 1 → (get_stats p now ip).banned ≡ 1
      same' e = cc

  connection-IsValid :
      (p : PolicyServer F) (now beat : ℕ) (ip : Bytes)
      → IsValid p
      → IsValid (apply_connection_limit p now beat ip).0
  unfolding apply_connection_limit
  connection-IsValid p now beat ip v = ground (
    arith,
    touched-IsValid p beat ip
        (record (get_stats p beat ip) {
          conn_limit = int32 ((get_stats p beat ip).conn_limit -ℤ pos 1);
        })
        v (refl, refl),
  )

  malformed-IsValid :
      (p : PolicyServer F) (b b' at : ℕ) (ip : Bytes)
      → 0 < at
      → IsValid p
      → IsValid (apply_malformed_policy p b b' at ip).0
  unfolding apply_malformed_policy
  malformed-IsValid p b b' at ip t v =
      let st : IpStats = record (get_stats p b ip) {
        malformed = int32 ((get_stats p b ip).malformed +ℤ pos 1);
      } in
      let w = touched-IsValid p b ip st v (refl, refl) in
      ground (arith, w, ban_ip-IsValid (put p ip st) b' at ip t w)

  score-IsValid :
      (p : PolicyServer F) (b now at : ℕ) (ip : Bytes) (cost : ℤ)
      → 0 < at
      → IsValid p
      → IsValid (add_score p b now at ip cost).0
  unfolding add_score settle_score fresh_score
  score-IsValid p b now at ip cost t v =
      let s = get_stats-Sound p b ip v in grind (arith, put-IsValid)

  pub share-SameBan :
      (cfg : Config F) (st : IpStats) (valid : Bool) → SameBan st (count_share cfg st valid)
  unfolding count_share
  share-SameBan cfg st true = (refl, refl)
  share-SameBan cfg st false = (refl, refl)

  submit-IsValid :
      (fl : Float32 F) (p : PolicyServer F) (b b' at : ℕ) (ip : Bytes) (valid : Bool)
      → 0 < at
      → IsValid p
      → IsValid (apply_share_policy fl p b b' at ip valid).0
  unfolding apply_share_policy
  submit-IsValid fl p b b' at ip valid t v =
      let st = count_share p.config (get_stats p b ip) valid in
      let kept = share-SameBan p.config (get_stats p b ip) valid in
      let zeroed : IpStats = record st { valid_shares = pos 0; invalid_shares = pos 0 } in
      let w = touched-IsValid p b ip zeroed v kept in
      ground
        (arith, touched-IsValid p b ip st v kept, w, ban_ip-IsValid (put p ip zeroed) b' at ip t w)

  login-IsValid :
      (p : PolicyServer F) (b at : ℕ) (a ip : Bytes)
      → 0 < at
      → IsValid p
      → IsValid (apply_login_policy p b at a ip).0
  unfolding apply_login_policy
  login-IsValid p b at a ip t v = ground (arith, ban_ip-IsValid p b at ip t v)

  reset-IsValid : (p : PolicyServer F) (now : ℕ) → IsValid p → IsValid (reset_stats p now)
  unfolding reset_stats
  reset-IsValid p now v = record {
    distinct = sweep-Distinct p.config now p.stats v.distinct;
    sound = sweep-AllSound p.config now p.stats v.sound;
    bounded = v.bounded;
  }

  refresh-IsValid :
      (p : PolicyServer F) (reply : Option (Option (List Bytes) × Option (List Bytes)))
      → IsValid p
      → IsValid (refresh_lists p reply)
  unfolding refresh_lists
  refresh-IsValid p none v = v
  refresh-IsValid p (some (none, none)) v = v
  refresh-IsValid p (some (none, some w)) v = record {
    distinct = v.distinct;
    sound = v.sound;
    bounded = v.bounded;
  }
  refresh-IsValid p (some (some b, none)) v = record {
    distinct = v.distinct;
    sound = v.sound;
    bounded = v.bounded;
  }
  refresh-IsValid p (some (some b, some w)) v = record {
    distinct = v.distinct;
    sound = v.sound;
    bounded = v.bounded;
  }

abbrev pub AllTimed : List Request → Type 0
AllTimed [] = Unit {0}
AllTimed (r ∷ rs) = IsTimed r × AllTimed rs

module _ {F : Type 0} (fl : Float32 F) where
  -- Every request, whose time of a ban is positive, keeps the server valid.
  pub step-IsValid :
      (p : PolicyServer F) (r : Request) → IsTimed r → IsValid p → IsValid (step fl p r)
  unfolding step is_banned get_score add_to_blacklist add_to_whitelist
  step-IsValid p (check now ip) t v =
      ground (arith, touched-IsValid p now ip (get_stats p now ip) v (refl, refl))
  step-IsValid p (connect now beat ip) t v = connection-IsValid p now beat ip v
  step-IsValid p (malform b b' at ip) t v = malformed-IsValid p b b' at ip t v
  step-IsValid p (submit b b' at ip valid) t v = submit-IsValid fl p b b' at ip valid t v
  step-IsValid p (login b at a ip) t v = login-IsValid p b at a ip t v
  step-IsValid p (charge b now at ip cost) t v = score-IsValid p b now at ip cost t v
  step-IsValid p (query now ip) t v = touched-IsValid p now ip (get_stats p now ip) v (refl, refl)
  step-IsValid p (ban b at ip) t v = ban_ip-IsValid p b at ip t v
  step-IsValid p (reset now) t v = reset-IsValid p now v
  step-IsValid p (refresh reply) t v = refresh-IsValid p reply v
  step-IsValid p (blacken stored a) t v = ground arith
  step-IsValid p (whiten stored ip) t v = ground arith
  step-IsValid p dequeue t v = record {
    distinct = v.distinct;
    sound = v.sound;
    bounded = omega (arith, length-tail p.ban_chan, v.bounded);
  }

  run-IsValid :
      (rs : List Request) (p : PolicyServer F) → AllTimed rs → IsValid p → IsValid (run fl p rs)
  unfolding run
  run-IsValid [] p t v = v
  run-IsValid (r ∷ rs) p t v = run-IsValid rs (step fl p r) t.1 (step-IsValid p r t.0 v)
