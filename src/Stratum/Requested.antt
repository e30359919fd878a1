-- ===== src/Stratum/Requested.antt =====
-- A difficulty that the miner asked for (handleSetDifficulty and checkVardiff of
-- internal/slave/stratum.go).
use tos_pool.Prelude.{ℕ, ◌-◌, ◌≡◌, refl, ap, ◌∙◌, Bool, true, false, if◌then◌else◌, ◌==◌}
use tos_pool.Config.{Floats, MiningConfig}
use tos_pool.Stratum.Vardiff.{Clock, new_difficulty}
use tos_pool.Stratum.Handlers.{Link, adjust, reset_vardiff, check_vardiff}

module _ {F G : Type 0} where
  abbrev pub flagged : Bool → Link F G → Link F G
  flagged b l = record l {
    session = record l.session {
      vardiff_stats = record l.session.vardiff_stats { miner_requested = b };
    };
  }

  if-flagged :
      (b t : Bool) (x y : Link F G)
      → (if t then flagged b x else flagged b y) ≡ flagged b (if t then x else y)
  if-flagged b true x y = refl
  if-flagged b false x y = refl

  adjust-flagged :
      (b : Bool) (l : Link F G) (d : ℕ) → adjust (flagged b l) d ≡ flagged b (adjust l d)
  adjust-flagged b l d = if-flagged b (d == l.session.difficulty) l _

  reset_vardiff-flagged :
      (b : Bool) (k : Clock) (l : Link F G)
      → reset_vardiff k (flagged b l) ≡ flagged b (reset_vardiff k l)
  reset_vardiff-flagged b k l = refl

  -- `checkVardiff` adjusts the difficulty of a session in the same way whether or not the miner has
  -- asked for one, and leaves the record of that as it is.
  check_vardiff-flagged :
      (fl : Floats F) (cfg : MiningConfig F) (k : Clock) (b : Bool) (l : Link F G)
      → check_vardiff fl cfg k (flagged b l) ≡ flagged b (check_vardiff fl cfg k l)
  unfolding check_vardiff new_difficulty
  check_vardiff-flagged fl cfg k b l =
      let elapsed = k.since - l.session.vardiff_stats.last_retarget in
      let d = new_difficulty fl cfg l.session elapsed in
      let t = fl.less (fl.of_seconds elapsed) cfg.vardiff_retarget in
      ap (λ x. if t then flagged b l else reset_vardiff k x) (adjust-flagged b l d)
      ∙ if-flagged b t l (reset_vardiff k (adjust l d))
