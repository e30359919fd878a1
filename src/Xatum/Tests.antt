-- ===== src/Xatum/Tests.antt =====
-- A session on concrete input, and each theorem at a concrete input.
use tos_pool.Prelude.{ℕ, ◌≡◌, refl, true, Option, none, some, List, [], ◌∷◌, ◌++◌, map, replicate}
use tos_pool.Prelude.Maps.{Bytes, codes}
use tos_pool.Util.Hex.{validate_address}
use tos_pool.Config.{MiningConfig}
use tos_pool.Stratum.Session.{Job, Share}
use tos_pool.Stratum.Fixed.{IsFixed}
use tos_pool.Xatum.Session.{
  XatumLink, XatumContext, XatumRequest, AuthorizeParams, SubmitParams, Decoder, create_session,
  authorize, handle_submit, handle_request, handle_session,
}
use tos_pool.Xatum.Sound.{fresh, handle_session-IsFixed}

abbrev mining : MiningConfig ℕ
mining = record {
  initial_difficulty = 10;
  min_difficulty = 5;
  max_difficulty = 1000;
  vardiff_target_time = 4;
  vardiff_retarget = 90;
  vardiff_variance = 30;
  job_refresh_interval = 50;
}

abbrev job : Job
job = record {
  id = codes "a";
  height = 9;
  header_hash = [];
  parent_hash = [];
  target = [];
  difficulty = 200;
  timestamp = 1;
  clean_jobs = true;
  created_at = 0;
}

abbrev context : XatumContext
context = record { beat = 10; at = 10; unix = 10; job = some job }

-- Parameters that are an address or a job with a nonce.
abbrev Params : Type 0
Params = Option AuthorizeParams × Option SubmitParams

abbrev decoder : Decoder Params
decoder = record { authorize = λ p. p.0; submit = λ p. p.1 }

abbrev address : Bytes
address = codes "tos1" ++ replicate 59 b'q'

abbrev login : XatumRequest Params
login = record {
  method = codes "authorize";
  params = (some (record { address = address; worker = [] }), none);
}

abbrev submission : XatumRequest Params
submission = record {
  method = codes "submit";
  params = (none, some (record { job_id = codes "a"; nonce = codes "00" }));
}

-- A submission without login, the login, and a submission.
abbrev lines : List (XatumContext × Option (XatumRequest Params))
lines = (context, some submission) ∷ (context, some login) ∷ (context, some submission) ∷ []

abbrev finish : XatumLink ℕ
finish = handle_session decoder (fresh mining 1 (codes "10.0.0.1:4000") 0 none) lines

session_runs :
    (finish.session.worker ≡ codes "default")
    × (map (λ (s : Share). s.nonce) finish.shares ≡ codes "00" ∷ [])
unfolding handle_session handle_request authorize handle_submit validate_address create_session
session_runs = (refl, refl)

handle_session-IsFixed_example :
    IsFixed 10 finish.session.authorized finish.session.address finish.session.difficulty
      finish.shares
handle_session-IsFixed_example =
    handle_session-IsFixed decoder mining 1 (codes "10.0.0.1:4000") 0 none lines
