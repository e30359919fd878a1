-- ===== src/Websocket/Forwarded.antt =====
-- Whom the policy server is asked about (handleConnection, internal/slave/websocket.go).
use mathlib.Core.Path.{subst}
use tos_pool.Prelude.{
  ℕ, ◌≡◌, ◌≢◌, refl, sym, ap, ◌∙◌, ◌^◌, ◌+◌, ◌<◌, Bool, true, false, not, ◌&&◌, none, some, [], ltb,
  if◌then◌else◌, if-elim, arith,
}
use tos_pool.Prelude.Int.{pos, ◌-ℤ◌, leb_ℤ, int32}
use tos_pool.Prelude.Maps.{Bytes, bytes_Eq, lookup, lookup-insert_self, beq_ne}
use tos_pool.Policy.State.{
  PolicyServer, get_stats, touch, is_banned, apply_connection_limit, milliseconds,
}
use tos_pool.Config.{MiningConfig}
use tos_pool.Websocket.Client.{client_ip, admit, check_policy, new_client, handle_connection}

module _ {G : Type 0} (p : PolicyServer G) (ip : Bytes) (unknown : lookup ip p.stats ≡ none) where
  -- Not banned, and with the configured number of connections left.
  abbrev Free : PolicyServer G × Bool → Type 0
  Free x =
      (x.1 ≡ false)
      × ((x.0.config ≡ p.config)
          × ((beat : ℕ) → (get_stats x.0 beat ip).conn_limit ≡ p.config.connection_limit))

  is_banned-Free : (now : ℕ) → Free (is_banned p now ip)
  unfolding is_banned get_stats
  is_banned-Free now =
      if-elim Free (not p.config.banning_enabled)
        (λ e. (refl, (refl, λ beat. ap (λ o. (touch p.config beat o).conn_limit) unknown)))
        (λ e. (
          ap (λ o. ltb 0 (touch p.config now o).banned) unknown,
          (
            refl,
            λ beat.
                ap (λ o. (touch p.config beat o).conn_limit)
                  (lookup-insert_self ip (get_stats p now ip) p.stats)
                ∙ ap (λ o. (touch p.config now o).conn_limit) unknown,
          ),
        ))

  allowance : (n : ℕ) → n < 2 ^ 31 → 0 < n → leb_ℤ (pos 0) (int32 (pos n -ℤ pos 1)) ≡ true
  unfolding ◌-ℤ◌ int32
  allowance n small some_left = ground arith

  limit-allows :
      (q : PolicyServer G) (n at beat : ℕ)
      → (get_stats q beat ip).conn_limit ≡ pos n
      → n < 2 ^ 31
      → 0 < n
      → (apply_connection_limit q at beat ip).1 ≡ true
  unfolding apply_connection_limit
  limit-allows q n at beat e small some_left =
      if-elim (λ (x : PolicyServer G × Bool). x.1 ≡ true) (not q.config.rate_limit_enabled)
        (λ off. refl)
        (λ on.
          if-elim (λ (x : PolicyServer G × Bool). x.1 ≡ true)
            (ltb at (q.started_at + milliseconds q.config.connection_grace)) (λ early. refl)
            (λ late. ap (λ z. leb_ℤ (pos 0) (int32 (z -ℤ pos 1))) e ∙ allowance n small some_left))

  admit-unknown :
      (n now at beat : ℕ)
      → p.config.connection_limit ≡ pos n
      → n < 2 ^ 31
      → 0 < n
      → (admit p now at beat ip).1 ≡ true
  unfolding admit
  admit-unknown n now at beat limit small some_left =
      let (free, (same, left)) = is_banned-Free now in
      rw free (limit-allows (is_banned p now ip).0 n at beat (left beat ∙ limit) small some_left)

-- A WebSocket connection with a header X-Forwarded-For that the policy server has no entry for is
-- let in, whatever address it comes from, banned or over its limit, and however the policy server
-- is configured, if its connection limit is at least 1.
pub handle_connection-forwarded :
    {F G : Type 0} (cfg : MiningConfig F) (p : PolicyServer G) (n now at beat id since : ℕ)
    (remote_addr forwarded : Bytes)
    → forwarded ≢ []
    → lookup forwarded p.stats ≡ none
    → p.config.connection_limit ≡ pos n
    → n < 2 ^ 31
    → 0 < n
    → (handle_connection cfg (some p) now at beat id since remote_addr forwarded true).1
      ≡ some (new_client cfg id forwarded since)
unfolding handle_connection
handle_connection-forwarded cfg p n now at beat id since remote_addr forwarded some_header unknown
      limit small some_left =
    let given : client_ip remote_addr forwarded ≡ forwarded =
      rw (beq_ne forwarded [] some_header) refl in
    let opened = admit-unknown p forwarded unknown n now at beat limit small some_left in
    subst
      (λ ip.
        (if (check_policy (some p) now at beat ip).1 && true
          then some (new_client cfg id ip since)
          else none)
        ≡ some (new_client cfg id forwarded since))
      (sym given)
      (ap (λ b. if b && true then some (new_client cfg id forwarded since) else none) opened)
