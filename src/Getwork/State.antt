-- ===== src/Getwork/State.antt =====
-- Sessions, work and logins of the getwork server (internal/slave/getwork.go). `F` stands for
-- float64.
use tos_pool.Prelude.{
  ℕ, not, ◌&&◌, Option, none, some, List, [], ◌∷◌, ltb, ◌==◌, if◌then◌else◌, length,
}
use tos_pool.Prelude.Int.{ℤ, negsuc}
use tos_pool.Prelude.Maps.{Bytes, codes, bytes_Eq, insert}
use tos_pool.Util.Hex.{bytes_to_hex, validate_address}
use tos_pool.Config.{MiningConfig}
use tos_pool.Master.Jobs.{Master}
use tos_pool.Master.Jobs
use tos_pool.Master.Shares.{Message}
use tos_pool.Stratum.Session.{Value, before}
use tos_pool.Stratum.Vardiff.{string_at}

pub record GetworkSession : Type 0 where
  pub address : Bytes
  pub worker : Bytes
  pub last_seen : ℕ
  pub difficulty : ℕ
  pub shares : ℕ

pub record GetworkJob : Type 0 where
  pub job_id : Bytes
  pub header_hash : Bytes
  pub target : Bytes
  pub height : ℕ
  pub difficulty : ℕ
  pub timestamp : ℕ

-- The work that is given out, and the sessions by remote address.
pub record GetworkServer : Type 0 where
  pub current_work : Option GetworkJob
  pub sessions : List (Bytes × GetworkSession)

-- The identifier of a request is only sent back.
pub record GetworkRequest (F : Type 0) : Type 0 where
  pub method : Bytes
  pub params : List (Value F)

-- What is sent back: the three strings of a work, the result true, or an error, with its code and
-- its words or the message of the master.
pub data Reply : Type 0 where
  work : Bytes → Bytes → Bytes → Reply
  accepted : Reply
  failure : ℤ → Bytes → Reply
  rejected : Message → Reply

unfoldable pub new_getwork_server : GetworkServer
new_getwork_server = record { current_work = none; sessions = [] }

-- One round of `workUpdateLoop`, with the current job of the master.
unfoldable pub update_work : GetworkServer → Option Jobs.Job → ℕ → GetworkServer
update_work g none now = g
update_work g (some job) now = record g {
  current_work = some (record {
    job_id = job.id;
    header_hash = bytes_to_hex job.header_hash;
    target = bytes_to_hex job.target;
    height = job.height;
    difficulty = job.difficulty;
    timestamp = now;
  });
}

abbrev pub work_reply : Option GetworkJob → Reply
work_reply none = failure (negsuc 0) (codes "No work available")
work_reply (some w) = work w.header_hash w.job_id w.target

unfoldable pub handle_get_work_rpc : GetworkServer → Reply
handle_get_work_rpc g = work_reply g.current_work

-- `parseLogin`: the login is split at its last dot.
unfoldable pub split_last_dot : Bytes → Option (Bytes × Bytes)
split_last_dot [] = none
split_last_dot (c ∷ s) = elim (split_last_dot s) [
  | some p ↦ some (before p c)
  | none ↦ if c == b'.' then some ([], s) else none
]

unfoldable pub parse_login : Bytes → Bytes × Bytes
parse_login login = elim (split_last_dot login) [ none ↦ (login, codes "default") | some p ↦ p ]

module _ {F : Type 0} (cfg : MiningConfig F) where
  abbrev pub authorize_as : GetworkServer → ℕ → Bytes → Bytes × Bytes → GetworkServer × Reply
  authorize_as g now remote_addr (address, worker) =
      if not (validate_address address)
      then (g, failure (negsuc 0) (codes "Invalid address"))
      else (
        record g {
          sessions =
              insert remote_addr
                (record {
                  address = address;
                  worker = worker;
                  last_seen = now;
                  difficulty = cfg.initial_difficulty;
                  shares = 0;
                })
                g.sessions;
        },
        accepted,
      )

  unfoldable pub handle_authorize :
      GetworkServer → ℕ → Bytes → List (Value F) → GetworkServer × Reply
  handle_authorize g now remote_addr params =
      if ltb (length params) 1
      then (g, failure (negsuc 0) (codes "Missing parameters"))
      else authorize_as g now remote_addr (parse_login (string_at params 0))

  -- The session of a submission without login, for the address among its parameters.
  abbrev pub anonymous : List (Value F) → Option GetworkSession
  anonymous params =
      if not (ltb (length params) 4) && validate_address (string_at params 3)
      then some (record {
        address = string_at params 3;
        worker = codes "getwork";
        last_seen = 0;
        difficulty = cfg.initial_difficulty;
        shares = 0;
      })
      else none
