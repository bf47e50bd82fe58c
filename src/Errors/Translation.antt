-- ===== src/Errors/Translation.antt =====
-- Which HTTP status a client sees for which exception.
use monasca_api.Prelude.{◌≡◌, ◌≢◌, ◌⊎◌, inl, inr, refl}
use monasca_api.Errors.{
  Status, not_found, internal_server_error, Exn, http, does_not_exist, already_exists, repository,
  repository_text, message_queue, validation, python, mysql_error, resource_error,
}

-- the status that the client sees; an exception outside the family is a crash of the handler
abbrev pub HasStatus : Status → Exn → Type 0
HasStatus s (http t title d) = s ≡ t
HasStatus s e = ⊥

-- An error that crosses both blocks is a 404 if the repository found no row, and a 500 in every
-- other case: the 409 of an existing row and the 400 of a bad request do not survive a repository
-- method that is under `mysql_try_catch_block`.
pub repository_status :
    (e : Exn)
    → ((e ≡ does_not_exist) × HasStatus not_found (resource_error (mysql_error e)))
      ⊎ ((e ≢ does_not_exist) × HasStatus internal_server_error (resource_error (mysql_error e)))
unfolding mysql_error resource_error
repository_status does_not_exist = inl (refl, refl)
repository_status (http s t d) = inr (cc, refl)
repository_status (already_exists m) = inr (cc, refl)
repository_status (repository e) = inr (cc, refl)
repository_status (repository_text m) = inr (cc, refl)
repository_status message_queue = inr (cc, refl)
repository_status (validation m) = inr (cc, refl)
repository_status (python m) = inr (cc, refl)
