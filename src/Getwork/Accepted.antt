-- ===== src/Getwork/Accepted.antt =====
-- What an accepted work has shown (internal/slave/getwork.go).
use tos_pool.Prelude.{
  ℕ, ◌≡◌, ◌⊎◌, false, inl, inr, refl, true, not, ◌&&◌, Option, none, some, List, ltb, if-elim,
  length, arith,
}
use tos_pool.Prelude.Maps.{Bytes, bytes_eq, bytes_Eq, lookup}
use tos_pool.TosHash.Mix.{tos_hash}
use tos_pool.TosHash.Header.{hash_to_difficulty, verify_difficulty}
use tos_pool.Store.Redis.{Redis}
use tos_pool.Store.Data.{Codec}
use tos_pool.Util.Hex.{hex_to_bytes, bytes_to_hex}
use tos_pool.Config.{MiningConfig}
use tos_pool.Master.Jobs.{Master}
use tos_pool.Master.Jobs
use tos_pool.Master.Shares.{ShareResult, World, process_share}
use tos_pool.Master.Verdicts.{Proves, process_share-valid}
use tos_pool.Stratum.Session.{Value}
use tos_pool.Stratum.Vardiff.{string_at}
use tos_pool.Getwork.State.{GetworkServer, GetworkSession, Reply, accepted, anonymous}
use tos_pool.Getwork.Server.{
  getwork_header, submission, reply_of, check_work, check_nonce, check_job, submit_with,
  submit_without, handle_submit_work,
}

module _ {S : Type 0} (r : Redis S) (c : Codec) (window : ℕ) (blake3 : List ℕ → List ℕ) (w : World)
    (s : S) (m : Master) where
  -- The nonce proves work twice: in the header of this server, and in that of the master.
  abbrev pub ProvesTwice : GetworkSession → Jobs.Job → Bytes → Type 0
  ProvesTwice session job nonce =
      (bytes : List ℕ) × ((hex_to_bytes nonce ≡ some bytes)
        × ((verify_difficulty blake3 (getwork_header job bytes) session.difficulty ≡ true)
            × Proves blake3 m (submission session job nonce) session.difficulty))

  accepted-valid :
      (res : ShareResult) → reply_of r c window blake3 res ≡ accepted → res.valid ≡ true
  accepted-valid res h =
      if-elim (λ (x : Reply). x ≡ accepted → res.valid ≡ true) res.valid (λ e a. e) (λ e a. cc) h

  work-Proves :
      (session : GetworkSession) (job : Jobs.Job) (nonce : Bytes) (bytes : List ℕ)
      (o : Option (List ℕ))
      → tos_hash blake3 (getwork_header job bytes) ≡ o
      → (check_work r c window blake3 w s m session job nonce o).1 ≡ accepted
      → (verify_difficulty blake3 (getwork_header job bytes) session.difficulty ≡ true)
        × Proves blake3 m (submission session job nonce) session.difficulty
  unfolding verify_difficulty
  work-Proves session job nonce bytes none e h = cc
  work-Proves session job nonce bytes (some hash) e h =
      let meets : ltb (hash_to_difficulty hash) session.difficulty ≡ false
          → verify_difficulty blake3 (getwork_header job bytes) session.difficulty ≡ true =
        λ k. rw (e, verify_difficulty) (ground (arith, k)) in
      if-elim
        (λ (x : S × Reply).
          x.1 ≡ accepted
          → (verify_difficulty blake3 (getwork_header job bytes) session.difficulty ≡ true)
            × Proves blake3 m (submission session job nonce) session.difficulty)
        (ltb (hash_to_difficulty hash) session.difficulty) (λ low a. cc)
        (λ enough a. (
          meets enough,
          process_share-valid r c window blake3 w s m (submission session job nonce) refl (
              accepted-valid
                (process_share r c window blake3 w s m (submission session job nonce)).1 a),
        ))
        h

  nonce-Proves :
      (session : GetworkSession) (job : Jobs.Job) (nonce : Bytes) (o : Option (List ℕ))
      → hex_to_bytes nonce ≡ o
      → (check_nonce r c window blake3 w s m session job nonce o).1 ≡ accepted
      → ProvesTwice session job nonce
  nonce-Proves session job nonce none e h = cc
  nonce-Proves session job nonce (some bytes) e h =
      (bytes, (e, work-Proves session job nonce bytes _ refl h))

  job-Proves :
      (session : GetworkSession) (header_hash nonce : Bytes) (o : Option Jobs.Job)
      → (check_job r c window blake3 w s m session header_hash nonce o).1 ≡ accepted
      → (job : Jobs.Job) × ((o ≡ some job) × ProvesTwice session job nonce)
  job-Proves session header_hash nonce none h = cc
  job-Proves session header_hash nonce (some job) h =
      if-elim
        (λ (x : S × Reply).
          x.1 ≡ accepted → (j : Jobs.Job) × ((some job ≡ some j) × ProvesTwice session j nonce))
        (not (bytes_eq header_hash (bytes_to_hex job.header_hash))
          && not (bytes_eq header_hash job.id))
        (λ stale a. cc)
        (λ fits a. (job, (refl, nonce-Proves session job nonce (hex_to_bytes nonce) refl a))) h

  module _ {F : Type 0} (cfg : MiningConfig F) (now : ℕ) (g : GetworkServer) (remote_addr : Bytes)
      (params : List (Value F)) where
    -- The session of the remote address, or one for an address among the parameters.
    abbrev pub Serves : GetworkSession → Type 0
    Serves session =
        (lookup remote_addr g.sessions ≡ some session) ⊎ (anonymous cfg params ≡ some session)

    abbrev pub Earned : Type 0
    Earned =
        (session : GetworkSession) × ((job : Jobs.Job) × (Serves session
            × ((m.current_job ≡ some job) × ProvesTwice session job (string_at params 0))))

    earned :
        (session : GetworkSession)
        → Serves session
        → (check_job r c window blake3 w s m session
            (string_at params 1)
            (string_at params 0)
            m.current_job).1
          ≡ accepted
        → Earned
    earned session known h =
        let (job, (current, twice)) =
          job-Proves session (string_at params 1) (string_at params 0) m.current_job h in
        (session, (job, (known, (current, twice))))

    without-Earned :
        (o : Option GetworkSession)
        → anonymous cfg params ≡ o
        → (submit_without r c window blake3 cfg now w g s m params o).1.1 ≡ accepted
        → Earned
    without-Earned none e h = cc
    without-Earned (some session) e h = earned session (inr e) h

    with-Earned :
        (o : Option GetworkSession)
        → lookup remote_addr g.sessions ≡ o
        → (submit_with r c window blake3 cfg now w g s m remote_addr params o).1.1 ≡ accepted
        → Earned
    with-Earned none e h = without-Earned (anonymous cfg params) refl h
    with-Earned (some session) e h = earned session (inl e) h

    -- The getwork server accepts a submission only for the current job of the master and a known or
    -- anonymous session, if its nonce meets the difficulty of the session in two headers: the one
    -- that this server builds, with the nonce at byte 72, and the one that the master builds.
    pub handle_submit_work-Earned :
        (handle_submit_work r c window blake3 cfg now w g s m remote_addr params).1.1 ≡ accepted
        → Earned
    unfolding handle_submit_work
    handle_submit_work-Earned h =
        if-elim (λ (x : GetworkServer × (S × Reply)). x.1.1 ≡ accepted → Earned)
          (ltb (length params) 3) (λ few a. cc)
          (λ enough a. with-Earned (lookup remote_addr g.sessions) refl a) h
