-- ===== src/Policy/Steps.antt =====
-- The server's methods as the steps of one machine, in any order, and its invariant.
use tos_pool.Prelude.{ℕ, ◌<◌, Bool, Option, List, [], ◌∷◌}
use tos_pool.Prelude.Int.{ℤ}
use tos_pool.Prelude.Maps.{Bytes, bytes_Eq}
use tos_pool.Policy.State.{
  PolicyServer, ban_ip, is_banned, add_score, get_score, apply_malformed_policy,
  apply_connection_limit,
}
use tos_pool.Policy.Tables.{
  Float32, apply_share_policy, apply_login_policy, reset_stats, refresh_lists, add_to_blacklist,
  add_to_whitelist,
}

-- A call of a method, with the clock readings that it makes; `dequeue` is a ban worker's receive
-- from the channel.
pub data Request : Type 0 where
  check : ℕ → Bytes → Request
  connect : ℕ → ℕ → Bytes → Request
  malform : ℕ → ℕ → ℕ → Bytes → Request
  submit : ℕ → ℕ → ℕ → Bytes → Bool → Request
  login : ℕ → ℕ → Bytes → Bytes → Request
  charge : ℕ → ℕ → ℕ → Bytes → ℤ → Request
  query : ℕ → Bytes → Request
  ban : ℕ → ℕ → Bytes → Request
  reset : ℕ → Request
  refresh : Option (Option (List Bytes) × Option (List Bytes)) → Request
  blacken whiten : Bool → Bytes → Request
  dequeue : Request

-- The time at which a request would start a ban is after 1970.
abbrev pub IsTimed : Request → Type 0
IsTimed (malform b b' at ip) = 0 < at
IsTimed (submit b b' at ip v) = 0 < at
IsTimed (login b at a ip) = 0 < at
IsTimed (charge b n at ip c) = 0 < at
IsTimed (ban b at ip) = 0 < at
IsTimed _ = Unit {0}

abbrev pub tail : List Bytes → List Bytes
tail [] = []
tail (x ∷ xs) = xs

module _ {F : Type 0} (fl : Float32 F) where
  unfoldable pub step : PolicyServer F → Request → PolicyServer F
  step p (check now ip) = (is_banned p now ip).0
  step p (connect now beat ip) = (apply_connection_limit p now beat ip).0
  step p (malform b b' at ip) = (apply_malformed_policy p b b' at ip).0
  step p (submit b b' at ip v) = (apply_share_policy fl p b b' at ip v).0
  step p (login b at a ip) = (apply_login_policy p b at a ip).0
  step p (charge b now at ip cost) = (add_score p b now at ip cost).0
  step p (query now ip) = (get_score p now ip).0
  step p (ban b at ip) = ban_ip p b at ip
  step p (reset now) = reset_stats p now
  step p (refresh reply) = refresh_lists p reply
  step p (blacken stored a) = (add_to_blacklist p stored a).0
  step p (whiten stored ip) = (add_to_whitelist p stored ip).0
  step p dequeue = record p { ban_chan = tail p.ban_chan }

  unfoldable pub run : PolicyServer F → List Request → PolicyServer F
  unfolding step
  run p [] = p
  run p (r ∷ rs) = run (step p r) rs
