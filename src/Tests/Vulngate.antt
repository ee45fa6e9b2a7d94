-- ===== src/Tests/Vulngate.antt =====
-- The properties of the gate: one advisory without a fix, which is recorded.
use tracker.Base.{
  none, ◌≡◌, ◌↔◌, refl, Bool, false, String, some, List, [], ◌∷◌, length, pos, ◌==◌, string_eq,
  int_eq, nat_eq, contains, All, Unique,
}
use tracker.Base.Dict.{lookup, insert}
use tracker.Base.Sort.{slice_stable, insert_stable}
use tracker.Vulngate.{
  StreamConfig, StreamFinding, Decoded, decoded, read_message, Advisory, Entry, level_module,
  Result, passed, evaluate, check, parse_report, read_stream, advisory_of, is_advisory_id, level_of,
  add_advisory, check_config, entry_ids,
}
use tracker.Vulngate.Verdict.{Carried, Current, evaluate_iff}
use tracker.Vulngate.Covered.{Accepted, check-Accepted}
use tracker.Vulngate.Stream.{findings}
use tracker.Vulngate.Suppressions.{
  Node, mapping, recorded, parse_suppressions, read_nodes, entry_problems, is_required_key,
}
use tracker.Vulngate.Records.{WellFormed, parse_suppressions-WellFormed}

abbrev reported : Advisory
reported = record {
  id = "GO-2026-0001";
  level = level_module;
  module_path = "example.org/m";
  version = "v1.0.0";
  fixed_version = "";
  summary = "";
}

abbrev entry : Entry
entry = record {
  id = "GO-2026-0001";
  reason = "no release";
  reachability = "required only";
  recorded = "2026-01-01";
}

evaluate_iff_example :
    (evaluate (reported ∷ []) (entry ∷ []) ≡ [])
    ↔ (All (Carried (entry ∷ [])) (reported ∷ []) × All (Current (reported ∷ [])) (entry ∷ []))
evaluate_iff_example = evaluate_iff (reported ∷ []) (entry ∷ [])

abbrev set_up : StreamConfig
set_up = record { scanner_name = "govulncheck"; scan_level = "symbol"; scan_mode = "source" }

abbrev found_one : StreamFinding
found_one = record {
  osv = "GO-2026-0001";
  fixed_version = "";
  trace =
      record { module_path = "example.org/m"; version = "v1.0.0"; package_path = ""; function = "" }
      ∷ [];
}

abbrev stream : List Decoded
stream =
    decoded (record { config = some set_up; osv = none; finding = none })
    ∷ decoded (record { config = none; osv = none; finding = some found_one })
    ∷ []

abbrev run : Result
run = record { stdout = stream; exit_code = pos 0 }

abbrev str_lt : String → String → Bool
str_lt a b = false

passes : check str_lt (some (entry ∷ [])) (some run) ≡ passed
unfolding check parse_report read_stream read_message advisory_of is_advisory_id level_of
    add_advisory check_config evaluate lookup insert slice_stable insert_stable contains
passes = refl

check-Accepted_example :
    (held : List Entry) × (res : Result) × (some (entry ∷ []) ≡ some held)
    × (some run ≡ some res)
    × (res.exit_code ≡ pos 0)
    × All (Accepted held) (findings res.stdout)
check-Accepted_example = check-Accepted str_lt (some (entry ∷ [])) (some run) passes

abbrev trim_space : String → String
trim_space s = s

abbrev is_iso_date : String → Bool
is_iso_date s = s == "2026-01-01"

abbrev nodes : List Node
nodes =
    mapping (
      ("id", "GO-2026-0001")
      ∷ ("reason", "no release")
      ∷ ("reachability", "required only")
      ∷ ("recorded", "2026-01-01")
      ∷ [])
    ∷ []

parses : parse_suppressions trim_space is_iso_date nodes ≡ recorded (entry ∷ [])
unfolding parse_suppressions read_nodes entry_problems is_required_key is_advisory_id lookup insert
    contains
parses = refl

parse_suppressions-WellFormed_example :
    All (WellFormed trim_space is_iso_date) (entry ∷ [])
    × Unique (entry_ids (entry ∷ []))
    × (length (entry ∷ []) ≡ length nodes)
parse_suppressions-WellFormed_example =
    parse_suppressions-WellFormed trim_space is_iso_date nodes (entry ∷ []) parses
