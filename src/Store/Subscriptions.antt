-- ===== src/Store/Subscriptions.antt =====
-- internal/store/push.go: the table of push endpoints. The table is the list of its rows, at most one
-- for a provider and token. A query's failure is the argument `reachable`; the database's new row id
-- and its now() are arguments too.
pub mod Owner
use tracker.Base.{
  ℕ, Bool, true, false, ◌&&◌, ◌||◌, not, String, List, [], ◌∷◌, suc, keep, if◌then◌else◌, ◌==◌,
  nat_eq, string_eq,
}
use tracker.Clock.{Time}

abbrev pub push_provider_fcm : String
push_provider_fcm = "fcm"

abbrev pub push_provider_unified_push : String
push_provider_unified_push = "unifiedpush"

unfoldable pub valid_push_provider : String → Bool
valid_push_provider p = p == push_provider_fcm || p == push_provider_unified_push

pub record Row : Type 0 where
  pub id : String
  pub viewer_id : String
  pub provider : String
  pub token : String
  pub created_at : Time

pub data Registration : Type 0 where
  registered : String → Registration
  invalid_provider : Registration
  unavailable : Registration

abbrev pub is_endpoint : String → String → Row → Bool
is_endpoint provider token r = r.provider == provider && r.token == token

-- registerPushSubscriptionSQL: insert, or on a conflict move the row to the presenting viewer.
unfoldable pub upsert : String → Time → String → String → String → List Row → List Row × String
upsert new_id now viewer_id provider token [] = (
  record {
    id = new_id;
    viewer_id = viewer_id;
    provider = provider;
    token = token;
    created_at = now;
  }
      ∷ [],
  new_id,
)
upsert new_id now viewer_id provider token (r ∷ rest) =
    let later = upsert new_id now viewer_id provider token rest in
    if is_endpoint provider token r
    then (record r { viewer_id = viewer_id; created_at = now } ∷ rest, r.id)
    else (r ∷ later.0, later.1)

unfoldable pub register_push_subscription :
    Bool → String → Time → List Row → String → String → String → List Row × Registration
register_push_subscription reachable new_id now rows viewer_id provider token =
    if not (valid_push_provider provider)
    then (rows, invalid_provider)
    else if not reachable
    then (rows, unavailable)
    else (let (rows', id) = upsert new_id now viewer_id provider token rows in
        (rows', registered id))

-- removeSupersededPushSubscriptionSQL: the rows that stay, and how many went.
abbrev superseded : String → String → String → Row → Bool
superseded viewer_id provider token r = r.viewer_id == viewer_id && is_endpoint provider token r

unfoldable pub delete_rows : String → String → String → List Row → List Row × ℕ
delete_rows viewer_id provider token [] = ([], 0)
delete_rows viewer_id provider token (r ∷ rest) =
    let later = delete_rows viewer_id provider token rest in
    if superseded viewer_id provider token r then (later.0, suc later.1) else (r ∷ later.0, later.1)

pub data Removal : Type 0 where
  removal : Bool → Removal
  refused : Removal

unfoldable pub remove_push_subscription_for_viewer :
    Bool → List Row → String → String → String → List Row × Removal
remove_push_subscription_for_viewer reachable rows viewer_id provider token =
    if not (valid_push_provider provider)
    then (rows, refused)
    else if not reachable
    then (rows, refused)
    else (let (rows', affected) = delete_rows viewer_id provider token rows in
        (rows', removal (affected == 1)))
