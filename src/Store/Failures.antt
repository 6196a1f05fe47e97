-- ===== src/Store/Failures.antt =====
-- The errors of services/api/internal/postgres/store.go, and `mapDatabaseError`.
use personal_vpn.Prelude.{
  ℕ, Bool, ◌||◌, Option, none, if◌then◌else◌, holds, Str, Str-discrete, text,
}
use personal_vpn.Agent.Snapshot

-- What pgx returns: no row, an error of the server with its code, or another one, such as of the
-- connection or of the timeout.
pub data Failure : Type 0 where
  no_rows : Failure
  server : Str → Failure
  broken : Str → Failure

-- The errors of package control, those that wrap a failure with a text, and those that are returned
-- as they come, from the database or from package agent.
pub data Error : Type 0 where
  invalid_input not_found conflict capacity_exhausted : Error
  device_not_active device_already_allocated : Error
  wrapped : Str → Failure → Error
  failed : Str → Error
  unwrapped : Failure → Error
  signing : Snapshot.Error → Error

abbrev pub unique_violation : Str
unique_violation = text "23505"

abbrev pub foreign_key_violation : Str
foreign_key_violation = text "23503"

abbrev pub invalid_text : Str
invalid_text = text "22P02"

abbrev pub check_violation : Str
check_violation = text "23514"

-- A text that is not in UTF-8.
abbrev pub character_not_in_repertoire : Str
character_not_in_repertoire = text "22021"

unfoldable pub map_code : Str → Error
map_code code =
    if holds (Str-discrete code unique_violation)
    then conflict
    else if holds (Str-discrete code foreign_key_violation)
    then not_found
    else if holds (Str-discrete code invalid_text) || holds (Str-discrete code check_violation)
    then invalid_input
    else wrapped (text "database operation") (server code)

-- `mapDatabaseError` of an error that is not nil.
unfoldable pub map_database_error : Failure → Error
unfolding map_code
map_database_error no_rows = not_found
map_database_error (server code) = map_code code
map_database_error (broken what) = wrapped (text "database operation") (broken what)

-- How a database call goes wrong, other than by no row: it fails, and may have taken effect all the
-- same.
pub record Fault : Type 0 where
  pub failure : Failure
  pub effective : Bool

-- The faults of the calls of an operation, by their number; a commit is a call too.
abbrev pub Faults : Type 0
Faults = ℕ → Option Fault

abbrev pub no_faults : Faults
no_faults n = none
