-- ===== src/Pool/Proven.antt =====
-- Shares of the WebSocket server in the master (internal/slave/websocket.go, cmd/tos-pool/main.go,
-- internal/master/master.go).
use tos_pool.Prelude.{ℕ, ◌≡◌, sym, true, Option, List, [], ◌∷◌}
use tos_pool.Prelude.Maps.{Bytes}
use tos_pool.Policy.State.{PolicyServer}
use tos_pool.Config.{MiningConfig}
use tos_pool.Store.Redis.{Redis}
use tos_pool.Store.Data.{Codec}
use tos_pool.Master.Jobs.{Master}
use tos_pool.Master.Shares.{World, process_share}
use tos_pool.Master.Verdicts.{Proves, process_share-valid}
use tos_pool.Util.Hex.{validate_address}
use tos_pool.Stratum.Session.{Share}
use tos_pool.Stratum.Fixed.{AllFixed}
use tos_pool.Websocket.Client.{WsContext, WsRequest, handle_client}
use tos_pool.Websocket.Sound.{fresh, handle_client-IsFixed}
use tos_pool.Pool.Wiring.{submission_of}

module _ {S : Type 0} (r : Redis S) (c : Codec) (window : ℕ) (blake3 : List ℕ → List ℕ)
    (d : ℕ) where
  -- Each share is for a valid address, and if the master, in whatever state it and the store are,
  -- finds it valid, it proves the difficulty.
  abbrev pub AllProven : List Share → Type 0
  AllProven [] = Unit {0}
  AllProven (share ∷ shares) =
      ((validate_address share.address ≡ true)
        × ((w : World) (s : S) (m : Master)
            → (process_share r c window blake3 w s m (submission_of share)).1.valid ≡ true
            → Proves blake3 m (submission_of share) d))
      × AllProven shares

  AllFixed-AllProven : (shares : List Share) → AllFixed d shares → AllProven shares
  AllFixed-AllProven [] h = tt
  AllFixed-AllProven (share ∷ shares) ((a, (same, all)), h) = (
    (
      a,
      λ w s m valid.
          ap_difficulty m share same
            (process_share-valid r c window blake3 w s m (submission_of share) all valid),
    ),
    AllFixed-AllProven shares h,
  )
    where
      ap_difficulty :
          (m : Master) (x : Share)
          → x.difficulty ≡ d
          → Proves blake3 m (submission_of x) x.difficulty
          → Proves blake3 m (submission_of x) d
      ap_difficulty m x e p = rw (sym e) p

-- Whatever a WebSocket connection sends: each share that it hands on is for a valid address, and
-- the master finds it valid only with a proof of work of the initial difficulty.
pub handle_client-AllProven :
    {F G S : Type 0} (r : Redis S) (c : Codec) (window : ℕ) (blake3 : List ℕ → List ℕ)
    (cfg : MiningConfig F) (id : ℕ) (ip : Bytes) (now : ℕ) (policy : Option (PolicyServer G))
    (messages : List (WsContext × Option (WsRequest F)))
    → AllProven r c window blake3 cfg.initial_difficulty
        (handle_client (fresh cfg id ip now policy) messages).shares
handle_client-AllProven r c window blake3 cfg id ip now policy messages =
    AllFixed-AllProven r c window blake3 cfg.initial_difficulty
      (handle_client (fresh cfg id ip now policy) messages).shares
      (handle_client-IsFixed cfg id ip now policy messages).earned
