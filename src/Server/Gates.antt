-- ===== src/Server/Gates.antt =====
-- internal/server/server.go, read.go and stream.go: who reaches a handler. A device's token is looked
-- up among the devices and a viewer's among the viewers. `sha256` is the digest of crypto/sha256, and
-- `answered` says whether the database answers the lookup.
pub mod Reached
use tracker.Base.{
  ℕ, Bool, true, false, not, String, Option, none, some, List, [], ◌∷◌, if◌then◌else◌, ◌==◌, ℤ, pos,
  ◌*ℤ◌, string_eq,
}
use tracker.Clock.{Time}
use tracker.Store.{Device}
use tracker.Store.Credentials.{
  Bytes, bytes_eq, Account, Viewer, Lookup, found, unknown_token, invalid_token_hash, unanswered,
  authenticate_device, authenticate_viewer,
}
use tracker.Auth.{from_request}
use tracker.Config.ParseInt.{Parsed, parsed, syntax, out_of_range, parse_int}
use tracker.Store.Geofence.Evaluate.{zero_time}

-- Whether the handler is reached, and with whom; or the refusal that is answered.
pub data Gate (Profile : Type 0) : Type 0 where
  passes : Profile → Gate Profile
  unauthorized : String → Gate Profile
  internal_error : String → Gate Profile

pub record Request : Type 0 where
  pub authorization : Bytes
  pub basic_password : Option Bytes
  pub query_token : Bytes
  pub last_event_id : String

-- What the lookup of a presented token makes of the request.
unfoldable pub admit : {Profile : Type 0} → Lookup Profile → Gate Profile
admit (found p) = passes p
admit unknown_token = unauthorized "unknown or revoked token"
admit invalid_token_hash = internal_error "could not verify the token"
admit unanswered = internal_error "could not verify the token"

module _ (trim_space : Bytes → Bytes) (sha256 : Bytes → Bytes) (answered : Bool) (now : Time) where
  unfoldable pub require_device : List (Account Device) → Request → Gate Device
  require_device devices r = elim (from_request trim_space r.authorization r.basic_password) [
    | none ↦ unauthorized "missing or malformed bearer token"
    | some tok ↦ admit (authenticate_device answered now devices (sha256 tok))
  ]

  unfoldable pub require_viewer : List (Account Viewer) → Request → Gate Viewer
  require_viewer viewers r = elim (from_request trim_space r.authorization r.basic_password) [
    | none ↦ unauthorized "missing or malformed bearer token"
    | some tok ↦ admit (authenticate_viewer answered now viewers (sha256 tok))
  ]

  -- The token of the stream: the header's, or the query's where the header has none.
  unfoldable pub stream_token : Request → Option Bytes
  stream_token r = elim (from_request trim_space r.authorization r.basic_password) [
    | some tok ↦ some tok
    | none ↦ if r.query_token == [] then none else some r.query_token
  ]

  unfoldable pub auth_viewer_for_stream : List (Account Viewer) → Request → Gate Viewer
  auth_viewer_for_stream viewers r = elim (stream_token r) [
    | none ↦ unauthorized "missing or malformed bearer token"
    | some tok ↦ admit (authenticate_viewer answered now viewers (sha256 tok))
  ]

-- The cursor, and whether the request is a resume.
unfoldable pub parse_resume_cursor : Request → Time × Bool
parse_resume_cursor r =
    if r.last_event_id == "" then (zero_time, false) else elim (parse_int r.last_event_id) [
      | parsed micros ↦ (micros *ℤ pos 1000, true)
      | syntax ↦ (zero_time, false)
      | out_of_range ↦ (zero_time, false)
    ]
