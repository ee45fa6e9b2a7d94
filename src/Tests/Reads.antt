-- ===== src/Tests/Reads.antt =====
-- The properties of the history reads: one phone with two fixes.
use tracker.Base.{
  ◌*◌, ℕ, ◌+◌, ◌≡◌, refl, arith, Bool, true, String, none, some, List, [], ◌∷◌, ◌++◌, map, ℤ, pos,
  string_eq, int_eq, ◌*ℤ◌, ◌+ℤ◌, ◌-ℤ◌, int64, nat_eq,
}
use tracker.Base.Sort.{slice_stable, insert_stable}
use tracker.Clock.{Time, second, unix, from_unix}
use tracker.Store.{Device}
use tracker.Store.Credentials.{Account, Viewer, by_id, device_by_id}
use tracker.Store.Ingest.{Stored}
use tracker.Store.History.{
  HistoryFix, history_fix, device_history, selected, in_scope, in_family, bound, clamp_limit,
  clamp_offset,
}
use tracker.Store.History.Pages.{device_history-pages}
use tracker.Server.Read.{
  HistoryQuery, history_entry, ok, get_device_history, history_page, parse_window, parse_page,
  epoch_param, int_param,
}
use tracker.Server.Read.Family.{Shows, get_device_history-Shows}
use tracker.Config.ParseInt.{parse_int, parse_bytes, parse_uint, digits, with_sign}

abbrev row : ℕ → Stored ℤ
row seconds = record {
  fix = record {
    device_id = "d1";
    ts = pos seconds *ℤ pos second;
    lon = pos 8;
    lat = pos 47;
    accuracy_m = none;
    battery_pct = none;
    speed_mps = none;
    trigger_reason = none;
    msg_id = none;
  };
  received_at = pos 0;
}

abbrev rows : List (Stored ℤ)
rows = row 10 ∷ row 20 ∷ []

abbrev phone : Device
phone = record { id = "d1"; family_id = "f"; name = "Alice" }

abbrev accounts : List (Account Device)
accounts = record { id = "d1"; profile = phone; token_hash = []; expires_at = none } ∷ []

abbrev watcher : Viewer
watcher = record { id = "v"; family_id = "f"; email = "a@example.com"; display_name = "A" }

abbrev since : Time
since = pos 5

abbrev until : Time
until = pos (30 * second)

abbrev newest : List (HistoryFix ℤ)
newest = history_fix (row 20) ∷ []

abbrev oldest : List (HistoryFix ℤ)
oldest = history_fix (row 10) ∷ []

first_page :
    device_history true (phone ∷ []) rows "f" "d1" since until (pos 1) (pos 0) ≡ some newest
unfolding device_history selected in_scope in_family bound clamp_limit clamp_offset slice_stable
    insert_stable ◌*ℤ◌
first_page = refl

second_page :
    device_history true (phone ∷ []) rows "f" "d1" since until (pos 1) (pos (0 + 1)) ≡ some oldest
unfolding device_history selected in_scope in_family bound clamp_limit clamp_offset slice_stable
    insert_stable ◌*ℤ◌
second_page = refl

device_history-pages_example :
    device_history true (phone ∷ []) rows "f" "d1" since until (pos (1 + 1)) (pos 0)
    ≡ some (newest ++ oldest)
device_history-pages_example =
    device_history-pages (phone ∷ []) rows "f" "d1" since until 1 1 0 newest oldest (omega arith)
      (omega arith) (omega arith) first_page second_page

abbrev query : HistoryQuery
query = record { id = "d1"; from = ""; to = "15"; limit = ""; offset = "" }

abbrev is_uuid : String → Bool
is_uuid s = true

answers :
    get_device_history is_uuid true true accounts rows watcher query ≡ ok (map history_entry oldest)
unfolding get_device_history device_by_id by_id history_page parse_window parse_page epoch_param
    int_param parse_int parse_bytes parse_uint digits with_sign device_history selected in_scope
    in_family bound clamp_limit clamp_offset slice_stable insert_stable ◌*ℤ◌ unix from_unix int64
    ◌+ℤ◌ ◌-ℤ◌
answers = refl

get_device_history-Shows_example :
    ((a : Account Device) × (by_id "d1" accounts ≡ some a) × (a.profile.family_id ≡ "f"))
    × Shows accounts rows "f" query (map history_entry oldest)
get_device_history-Shows_example =
    get_device_history-Shows is_uuid true true accounts rows watcher query
      (map history_entry oldest) answers
