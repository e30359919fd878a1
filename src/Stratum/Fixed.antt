-- ===== src/Stratum/Fixed.antt =====
-- Sessions of one difficulty, as the WebSocket and Xatum servers have them
-- (internal/slave/websocket.go, internal/slave/xatum.go).
use tos_pool.Prelude.{ℕ, ◌≡◌, Bool, true, false, List, [], ◌∷◌, ◌++◌}
use tos_pool.Prelude.Maps.{Bytes}
use tos_pool.Util.Hex.{validate_address}
use tos_pool.Stratum.Session.{Share}

-- Each share has a valid address and the difficulty, and is to be validated.
abbrev pub AllFixed : ℕ → List Share → Type 0
AllFixed d [] = Unit {0}
AllFixed d (share ∷ shares) =
    ((validate_address share.address ≡ true)
      × ((share.difficulty ≡ d) × (share.skip_validation ≡ false)))
    × AllFixed d shares

-- A session of this difficulty, which has a valid address if it is authorized, with the shares that
-- it handed on.
pub record IsFixed (d : ℕ) (authorized : Bool) (address : Bytes) (difficulty : ℕ)
    (shares : List Share) : Type 0 where
  pub steady : difficulty ≡ d
  pub checked : authorized ≡ true → validate_address address ≡ true
  pub earned : AllFixed d shares

pub AllFixed-append :
    (d : ℕ) (xs : List Share) (y : Share)
    → AllFixed d xs
    → validate_address y.address ≡ true
    → y.difficulty ≡ d
    → y.skip_validation ≡ false
    → AllFixed d (xs ++ (y ∷ []))
AllFixed-append d [] y h a e f = ((a, (e, f)), tt)
AllFixed-append d (x ∷ xs) y h a e f = (h.0, AllFixed-append d xs y h.1 a e f)
