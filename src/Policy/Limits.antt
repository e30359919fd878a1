-- ===== src/Policy/Limits.antt =====
-- How many calls of one address pass: connections, malformed requests, shares and scores.
use tos_pool.Prelude.{
  ℕ, zero, suc, ◌+◌, ◌^◌, ◌≤◌, ◌<◌, ◌≡◌, sym, ap, ◌∙◌, Bool, true, false, arith, ltb, leb,
  if◌then◌else◌,
}
use mathlib.Core.Path.{subst}
use tos_pool.Prelude.Int.{ℤ, pos, ◌+ℤ◌, ◌-ℤ◌, leb_ℤ, int32, int32-id, int_laws}
use tos_pool.Prelude.Maps.{Bytes, bytes_Eq}
use tos_pool.Policy.State.{
  IpStats, PolicyServer, put, get_stats, ban_ip, apply_malformed_policy, apply_connection_limit,
  milliseconds,
}
use tos_pool.Policy.Bans.{get_stats-put}

-- One more off the allowance, before the int32 wraps.
fall :
    (limit k : ℕ)
    → limit < 2 ^ 31
    → k < limit + 2 ^ 31
    → int32 (pos limit -ℤ pos k -ℤ pos 1) ≡ pos limit -ℤ pos (suc k)
unfolding ◌-ℤ◌
fall limit k small few = int32-id _ (ground arith) ∙ ground arith

rise : (k : ℕ) → suc k < 2 ^ 31 → int32 (pos k +ℤ pos 1) ≡ pos (suc k)
unfolding ◌+ℤ◌
rise k small = int32-id _ (ground arith) ∙ ground arith

fall_sign : (limit k : ℕ) → leb_ℤ (pos 0) (pos limit -ℤ pos (suc k)) ≡ ltb k limit
unfolding ◌-ℤ◌
fall_sign limit k = ground arith

module _ {F : Type 0} (ip : Bytes) (now beat : ℕ) where
  -- The server after `k` connections of one address.
  abbrev pub connected : ℕ → PolicyServer F → PolicyServer F
  connected zero p = p
  connected (suc k) p = (apply_connection_limit (connected k p) now beat ip).0

  -- Connections are limited, and the grace period is over.
  abbrev pub IsLimited : PolicyServer F → Type 0
  IsLimited p =
      (p.config.rate_limit_enabled ≡ true)
      × (ltb now (p.started_at + milliseconds p.config.connection_grace) ≡ false)

  abbrev left : PolicyServer F → ℤ
  left p = (get_stats p beat ip).conn_limit

  connect-runs :
      (p : PolicyServer F)
      → IsLimited p
      → apply_connection_limit p now beat ip ≡ (
        put p ip (record (get_stats p beat ip) { conn_limit = int32 (left p -ℤ pos 1) }),
        leb_ℤ (pos 0) (int32 (left p -ℤ pos 1)),
      )
  unfolding apply_connection_limit
  connect-runs p (on, over) = simp (on, over)

  connect-left :
      (p : PolicyServer F)
      → IsLimited p
      → let q = (apply_connection_limit p now beat ip).0 in
        IsLimited q × (left q ≡ int32 (left p -ℤ pos 1))
  connect-left p l =
      let st : IpStats = record (get_stats p beat ip) { conn_limit = int32 (left p -ℤ pos 1) } in
      rw (connect-runs p l) (l, ap (λ s. s.conn_limit) (get_stats-put p beat ip st))

  connected-left :
      (k limit : ℕ) (p : PolicyServer F)
      → IsLimited p
      → limit < 2 ^ 31
      → k ≤ limit + 2 ^ 31
      → left p ≡ pos limit
      → IsLimited (connected k p) × (left (connected k p) ≡ pos limit -ℤ pos k)
  connected-left zero limit p l small few e = (l, e ∙ omega int_laws)
  connected-left (suc k) limit p l small few e =
      let (l', e') = connected-left k limit p l small (omega arith) e in
      let (l'', e'') = connect-left (connected k p) l' in
      (l'', e'' ∙ ap (λ z. int32 (z -ℤ pos 1)) e' ∙ fall limit k small (omega arith))

  -- Of the connections that an address opens after the grace period, with nothing else in between,
  -- exactly the first `limit` are allowed, as long as the int32 counter does not wrap.
  connected-allowed :
      (k limit : ℕ) (p : PolicyServer F)
      → IsLimited p
      → limit < 2 ^ 31
      → k < limit + 2 ^ 31
      → (get_stats p beat ip).conn_limit ≡ pos limit
      → (apply_connection_limit (connected k p) now beat ip).1 ≡ ltb k limit
  connected-allowed k limit p l small few e =
      let (l', e') = connected-left k limit p l small (omega arith) e in
      rw (connect-runs (connected k p) l') (
        ap (leb_ℤ (pos 0)) (ap (λ z. int32 (z -ℤ pos 1)) e' ∙ fall limit k small few)
        ∙ fall_sign limit k)

-- Malformed requests of one address, one after the other.
module _ {F : Type 0} (ip : Bytes) (beat beat' at : ℕ) where
  abbrev pub malforms : ℕ → PolicyServer F → PolicyServer F
  malforms zero p = p
  malforms (suc k) p = (apply_malformed_policy (malforms k p) beat beat' at ip).0

  abbrev count : PolicyServer F → ℤ
  count p = (get_stats p beat ip).malformed

  abbrev Counts : ℕ → ℕ → PolicyServer F → Type 0
  Counts limit k p =
      (p.config.banning_enabled ≡ true) × (p.config.malformed_limit ≡ pos limit) × (count p ≡ pos k)

  malform-runs :
      (p : PolicyServer F) (limit k : ℕ)
      → Counts limit k p
      → k < limit
      → limit < 2 ^ 31
      → let st : IpStats = record (get_stats p beat ip) { malformed = pos (suc k) } in
        apply_malformed_policy p beat beat' at ip ≡ (
          if leb limit (suc k)
          then (ban_ip (put p ip st) beat' at ip, false)
          else (put p ip st, true))
  unfolding apply_malformed_policy
  malform-runs p limit k (on, lim, now_at) few small =
      let e : int32 (count p +ℤ pos 1) ≡ pos (suc k) =
        ap (λ z. int32 (z +ℤ pos 1)) now_at ∙ rise k (omega arith) in
      simp (on, e, lim) (ground arith)

  malforms-Counts :
      (k limit : ℕ) (p : PolicyServer F)
      → Counts limit 0 p
      → k < limit
      → limit < 2 ^ 31
      → Counts limit k (malforms k p)
  malforms-Counts zero limit p c few small = c
  malforms-Counts (suc k) limit p c few small =
      let prev = malforms-Counts k limit p c (omega arith) small in
      let st : IpStats = record (get_stats (malforms k p) beat ip) { malformed = pos (suc k) } in
      let runs : apply_malformed_policy (malforms k p) beat beat' at ip
          ≡ (put (malforms k p) ip st, true) =
        malform-runs (malforms k p) limit k prev (omega arith) small ∙ ground arith in
      subst (λ (r : PolicyServer F × Bool). Counts limit (suc k) r.0) (sym runs)
        (prev.0, prev.1, ap (λ s. s.malformed) (get_stats-put (malforms k p) beat ip st))

  -- From a count of zero, exactly the malformed request that reaches the limit is refused.
  malforms-refused :
      (k limit : ℕ) (p : PolicyServer F)
      → p.config.banning_enabled ≡ true
      → p.config.malformed_limit ≡ pos limit
      → (get_stats p beat ip).malformed ≡ pos 0
      → k < limit
      → limit < 2 ^ 31
      → (apply_malformed_policy (malforms k p) beat beat' at ip).1 ≡ ltb (k + 1) limit
  malforms-refused k limit p on lim none_yet few small =
      ap (λ r. r.1)
        (malform-runs (malforms k p) limit k
          (malforms-Counts k limit p (on, lim, none_yet) few small) few small)
      ∙ ground arith
