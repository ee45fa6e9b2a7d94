-- ===== src/Tests/Credentials.antt =====
-- The properties of the credentials: two phones, one of which is given a new token.
use tracker.Base.{
  ℕ, zero, suc, ◌≡◌, ◌≢◌, ◌⊎◌, refl, arith, true, none, some, List, [], ◌∷◌, map, pos, length,
  if◌then◌else◌, ◌==◌, nat_eq, string_eq, contains, is_some, Unique,
}
use tracker.Config.ParseInt.{codes}
use tracker.Store.{Device}
use tracker.Store.Credentials.{
  Bytes, bytes_eq, Account, Viewer, found, unknown_token, updated, unexpired, by_token, by_id,
  authenticate, set_token, rows_with_id, held_elsewhere, rotate,
}
use tracker.Store.Credentials.Rotate.{hash_of, authenticate-rotate}
use tracker.Auth.{from_request, cut_prefix_fold}
use tracker.Server.Gates.{
  Request, passes, admit, require_device, auth_viewer_for_stream, stream_token,
}
use tracker.Server.Gates.Reached.{
  Presents, Vouched, require_device-passes, auth_viewer_for_stream-passes,
}

-- A digest of thirty-two equal bytes.
abbrev filled : ℕ → ℕ → Bytes
filled zero b = []
filled (suc n) b = b ∷ filled n b

abbrev pub digest : ℕ → Bytes
digest b = filled 32 b

abbrev alice : Device
alice = record { id = "d1"; family_id = "f"; name = "Alice" }

abbrev bob : Device
bob = record { id = "d2"; family_id = "f"; name = "Bob" }

abbrev account : Device → ℕ → Account Device
account d b = record { id = d.id; profile = d; token_hash = digest b; expires_at = none }

abbrev phones : List (Account Device)
phones = account alice 1 ∷ account bob 2 ∷ []

abbrev rotated_phones : List (Account Device)
rotated_phones = account alice 3 ∷ account bob 2 ∷ []

rotates : rotate true phones "d1" (digest 3) none ≡ (rotated_phones, updated true)
unfolding rotate rows_with_id held_elsewhere set_token
rotates = refl

never_expires : unexpired (pos 0) none ≡ true
unfolding unexpired
never_expires = refl

distinct : Unique (map (hash_of {Profile = Device}) phones)
unfolding contains
distinct = (refl, (refl, tt))

other_digest : digest 1 ≢ digest 3
other_digest = ground (arith, bytes_eq.beq_iff (digest 1) (digest 3))

authenticate-rotate_example :
    (authenticate true (pos 0) rotated_phones (digest 1)
      ≡ elim (by_token (pos 0) (digest 1) phones) [
        | none ↦ unknown_token
        | some a ↦ if a.id == "d1" then unknown_token else found a.profile
      ])
    × (authenticate true (pos 0) rotated_phones (digest 3)
        ≡ elim (by_id "d1" phones) [ none ↦ unknown_token | some a ↦ found a.profile ])
    × (is_some (by_id "d1" phones) ≡ true)
authenticate-rotate_example =
    authenticate-rotate (pos 0) "d1" (digest 3) none phones rotated_phones (digest 1) distinct
      never_expires rotates refl other_digest

abbrev same : Bytes → Bytes
same s = s

abbrev sha256 : Bytes → Bytes
sha256 t = digest (length t)

-- A token of two bytes, in the header and in the query.
abbrev with_header : Request
with_header = record {
  authorization = codes "bearer ab";
  basic_password = none;
  query_token = [];
  last_event_id = "";
}

abbrev with_query : Request
with_query = record {
  authorization = [];
  basic_password = none;
  query_token = codes "ab";
  last_event_id = "";
}

abbrev watcher : Viewer
watcher = record { id = "v"; family_id = "f"; email = "a@example.com"; display_name = "A" }

abbrev watchers : List (Account Viewer)
watchers = record { id = "v"; profile = watcher; token_hash = digest 2; expires_at = none } ∷ []

device_passes : require_device same sha256 true (pos 0) phones with_header ≡ passes bob
unfolding require_device from_request cut_prefix_fold admit authenticate by_token unexpired
device_passes = refl

require_device-passes_example :
    (tok : Bytes) × Presents same sha256 true (pos 0) with_header tok
    × Vouched (pos 0) phones (sha256 tok) bob
require_device-passes_example =
    require_device-passes same sha256 true (pos 0) with_header phones bob device_passes

viewer_passes : auth_viewer_for_stream same sha256 true (pos 0) watchers with_query ≡ passes watcher
unfolding auth_viewer_for_stream stream_token from_request cut_prefix_fold admit authenticate
    by_token unexpired
viewer_passes = refl

auth_viewer_for_stream-passes_example :
    (tok : Bytes) × (tok ≢ [])
    × (Presents same sha256 true (pos 0) with_query tok ⊎ (tok ≡ codes "ab"))
    × Vouched (pos 0) watchers (sha256 tok) watcher
auth_viewer_for_stream-passes_example =
    auth_viewer_for_stream-passes same sha256 true (pos 0) with_query watchers watcher viewer_passes
