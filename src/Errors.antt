-- ===== src/Errors.antt =====
-- The exceptions of the server and the two blocks that translate them:
-- monasca/common/repositories/exceptions.py, monasca/v2/reference/resource.py and
-- `mysql_try_catch_block` of monasca/common/repositories/mysql/mysql_repository.py.
-- A pure function that may raise returns a `Result`; a method that also changes what it shares with
-- others (the database, a message queue) is an `Exec`: the state comes back beside the error, since
-- what was done before a `raise` stays done.
pub mod Translation
pub mod Steps
pub mod Outcomes
pub mod Refusals
use monasca_api.Prelude.{
  ◌≡◌, refl, Bool, true, false, String, List, [], ◌∷◌, Option, none, some, if◌then◌else◌,
}

-- the subclasses of `falcon.HTTPError` that the server raises
pub data Status : Type 0 where
  not_found bad_request unauthorized conflict internal_server_error service_unavailable : Status

mutual
  pub data Exn : Type 0 where
    -- `falcon.HTTPxxx(title, description)`
    http : Status → String → Description → Exn
    -- `exceptions.DoesNotExistException`
    does_not_exist : Exn
    -- `exceptions.AlreadyExistsException(message)`
    already_exists : String → Exn
    -- `exceptions.RepositoryException(ex)` around another exception
    repository : Exn → Exn
    -- `exceptions.RepositoryException(message)` with a text
    repository_text : String → Exn
    -- `messaging.exceptions.MessageQueueException`
    message_queue : Exn
    -- `schemas.exceptions.ValidationException`
    validation : String → Exn
    -- any other Python exception, by the name of its class
    python : String → Exn

  -- A description is a text, the exception object itself, or the joined `args` of one.
  pub data Description : Type 0 where
    no_description : Description
    text : String → Description
    exception : Exn → Description
    args_of : Exn → Description

pub data Result {ℓ} (A : Type ℓ) : Type ℓ where
  err : Exn → Result A
  ok : A → Result A

-- the statements after one that may raise, with its value and without
infixl 5 ◌>>=◌ ◌>>◌
abbrev pub ◌>>=◌ {ℓ μ} : {V : Type ℓ} {W : Type μ} → Result V → (V → Result W) → Result W
◌>>=◌ (err e) next = err e
◌>>=◌ (ok value) next = next value

abbrev pub ◌>>◌ {ℓ} : {W : Type ℓ} → Result (Unit {0}) → Result W → Result W
◌>>◌ (err e) next = err e
◌>>◌ (ok done) next = next

abbrev pub map_err {ℓ} : {A : Type ℓ} → (Exn → Exn) → Result A → Result A
map_err f (ok a) = ok a
map_err f (err e) = err (f e)

abbrev pub Exec : Type 0 → Type 0 → Type 0
Exec S A = S → Result A × S

-- `mysql_try_catch_block`: what it makes of an exception that its function raises
unfoldable pub mysql_error : Exn → Exn
mysql_error does_not_exist = does_not_exist
mysql_error e = repository e

-- `resource_try_catch_block`, clause by clause. A `RepositoryException` around a text has no
-- `message.args`, so that its own handler raises.
unfoldable pub resource_error : Exn → Exn
resource_error (http not_found title d) = http not_found title d
resource_error does_not_exist = http not_found "" no_description
resource_error (http bad_request title d) = http bad_request title d
resource_error (already_exists m) = http conflict "AlreadyExistsException" (text m)
resource_error (repository e) = http internal_server_error "Service unavailable" (args_of e)
resource_error (repository_text m) = python "AttributeError"
resource_error e = http internal_server_error "Service unavailable" (exception e)

module _ {S A : Type 0} where
  unfoldable pub mysql_try_catch_block : Exec S A → Exec S A
  unfolding mysql_error
  mysql_try_catch_block fun s = let (r, s') = fun s in (map_err mysql_error r, s')

  unfoldable pub resource_try_catch_block : Exec S A → Exec S A
  unfolding resource_error
  resource_try_catch_block fun s = let (r, s') = fun s in (map_err resource_error r, s')

  -- `with cnxn:`: the connection commits when the block ends and rolls back when it raises.
  unfoldable pub transaction : Exec S A → Exec S A
  transaction body s = let (r, s') = body s in elim r [ ok a ↦ (ok a, s') | err e ↦ (err e, s) ]

  -- The same for a block written as a function of the state: the state that an exception leaves
  -- behind is rolled back, so the block need not say what it is.
  unfoldable pub atomically : (S → Result (A × S)) → Exec S A
  atomically body s = elim (body s) [ ok (a, s') ↦ (ok a, s') | err e ↦ (err e, s) ]
