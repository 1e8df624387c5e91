-- ===== src/Update/Outcome/Conflict.antt =====
-- updateStatusWithRetry against an API server with optimistic concurrency, and whatever other writers
-- do between its calls.
use minecraft_operator.Update.Outcome.{
  failed, retries_exhausted, read_failed, other_error, UpdateReply, conflict, written, StatusError,
  after_write, reapply, after_read, retry, update_status_with_retry, ApiServer,
}
use minecraft_operator.Prelude.{
  Option, ◌⊎◌, ℕ, ◌≡◌, Result, none, some, refl, inl, inr, ok, err, zero, suc,
}
use minecraft_operator.Api.{PaperMcServer, PaperMcServerStatus}

-- The object `latest` with the part of the desired status that is carried over: of the update's outcome
-- the history and the conditions, but neither the versions nor the available update.
abbrev pub Loses : PaperMcServerStatus → PaperMcServer → PaperMcServer → Type 0
Loses desired latest object =
    (object.status.last_update ≡ desired.last_update)
    × (object.status.conditions ≡ desired.conditions)
    × (object.status.current_version ≡ latest.status.current_version)
    × (object.status.current_build ≡ latest.status.current_build)
    × (object.status.available_update ≡ latest.status.available_update)

module _ {S : Type 0} (api : ApiServer S) where
  -- The object has been made, in state `s`, of one read anew behind a conflict.
  abbrev pub IsReread : PaperMcServerStatus → S → PaperMcServer → Type 0
  IsReread desired s object =
      (s0 : S) × (s1 : S) × (refused : PaperMcServer) × (latest : PaperMcServer)
      × (api.status_update s0 refused ≡ (conflict, s1))
      × (api.get s1 ≡ (some latest, s))
      × Loses desired latest object

  -- The four ways in which the retry ends behind a first conflict.
  abbrev pub Ends : PaperMcServerStatus → Result StatusError (Unit {0}) × S → Type 0
  Ends desired (result, after) =
      ((result ≡ ok tt)
        × (s : S) × (object : PaperMcServer) × IsReread desired s object
        × (api.status_update s object ≡ (written, after)))
      ⊎ ((result ≡ err other_error)
          × (s : S) × (object : PaperMcServer) × IsReread desired s object
          × (api.status_update s object ≡ (failed, after)))
      ⊎ ((result ≡ err read_failed)
          × (s0 : S) × (s1 : S) × (refused : PaperMcServer) × (api.status_update s0 refused
              ≡ (conflict, s1))
          × (api.get s1 ≡ (none, after)))
      ⊎ ((result ≡ err retries_exhausted)
          × (object : PaperMcServer) × IsReread desired after object)

  module _ (desired : PaperMcServerStatus) where
    -- Behind a conflict: the object is read anew, and the rounds left go on with it.
    reread_Ends :
        (again : S → PaperMcServer → Result StatusError (Unit {0}) × S) (s0 s1 : S)
        (refused : PaperMcServer)
        → ((s : S) (object : PaperMcServer)
            → IsReread desired s object
            → Ends desired (again s object))
        → api.status_update s0 refused ≡ (conflict, s1)
        → Ends desired (after_read api again desired (api.get s1))
    unfolding after_read reapply
    reread_Ends again s0 s1 refused next stale = go (api.get s1) refl
      where
        go :
            (r : Option PaperMcServer × S)
            → api.get s1 ≡ r
            → Ends desired (after_read api again desired r)
        go (none, s2) e = inr (inr (inl (refl, s0, s1, refused, stale, e)))
        go (some latest, s2) e =
            next s2 _ (s0, s1, refused, latest, stale, e, (refl, refl, refl, refl, refl))

    retry-Ends :
        (n : ℕ) (s : S) (object : PaperMcServer)
        → IsReread desired s object
        → Ends desired (retry api n desired s object)
    unfolding retry after_write
    retry-Ends zero s object h = inr (inr (inr (refl, object, h)))
    retry-Ends (suc n) s object h =
        go (λ s0 s1 refused. reread_Ends (retry api n desired) s0 s1 refused (retry-Ends n))
          (api.status_update s object) refl
      where
        go :
            ((s0 s1 : S) (refused : PaperMcServer)
              → api.status_update s0 refused ≡ (conflict, s1)
              → Ends desired (after_read api (retry api n desired) desired (api.get s1)))
            → (r : UpdateReply × S) → api.status_update s object ≡ r
            → Ends desired (after_write api (retry api n desired) desired r)
        go again (written, s1) e = inl (refl, s, object, h, e)
        go again (failed, s1) e = inr (inl (refl, s, object, h, e))
        go again (conflict, s1) e = again s s1 object e

  -- Against any API server, whoever else writes to it: behind a first write that is refused as stale, the
  -- retry ends in one of four ways. A later write is accepted, of an object read anew behind a conflict,
  -- which carries the history and the conditions of the desired status, and the current version, current
  -- build and available update that were read. Or a later write of such an object fails otherwise. Or the
  -- reading behind a conflict fails. Or the attempts are used up, with such an object read and not written.
  pub stale_write_loses_outcome :
      (s s1 : S) (server : PaperMcServer)
      → api.status_update s server ≡ (conflict, s1)
      → Ends server.status (update_status_with_retry api s server)
  unfolding update_status_with_retry retry after_write
  stale_write_loses_outcome s s1 server stale = rw stale (
      reread_Ends server.status (retry api 2 server.status) s s1 server (retry-Ends server.status 2)
        stale)
