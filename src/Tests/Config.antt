-- ===== src/Tests/Config.antt =====
-- The properties of the configuration in an environment that sets a database and one window.
use tracker.Base.{
  ℕ, ◌^◌, ◌≤◌, ◌<◌, ◌≡◌, ◌↔◌, ◌≢◌, refl, String, Option, some, ◌==◌, string_eq, if◌then◌else◌, pos,
  sub_ℕ, arith,
}
use tracker.Config.{
  ok, Url, window_seconds, env_window_seconds, env_or, env_bool, env_int, assemble, load, validate,
  validate_url, validate_log_level, validate_push, validate_tls_pair,
}
use tracker.Config.ParseInt.{codes, parse_int, parse_bytes, parse_uint, digits, with_sign}
use tracker.Config.Grammar.{Written, window_seconds_iff}
use tracker.Config.Valid.{Valid, load-Valid}

abbrev getenv : String → String
getenv key =
    if key == "TRACKER_DATABASE_URL"
    then "postgres://db/tracker"
    else if key == "TRACKER_LIVE_WINDOW_SECONDS"
    then "+060"
    else ""

abbrev same : String → String
same s = s

abbrev parse_url : String → Option Url
parse_url s = some (record { scheme = "postgres"; host = "db" })

loaded :
    load getenv same same parse_url
    ≡ ok (assemble getenv same same "postgres://db/tracker" (pos 0) (pos 60) (pos 900))
unfolding load env_or env_bool env_int env_window_seconds window_seconds assemble validate
    validate_url validate_log_level validate_push validate_tls_pair parse_int parse_bytes parse_uint
    digits with_sign sub_ℕ
loaded = refl

load-Valid_example :
    Valid (assemble getenv same same "postgres://db/tracker" (pos 0) (pos 60) (pos 900))
load-Valid_example =
    load-Valid getenv same same parse_url
      (assemble getenv same same "postgres://db/tracker" (pos 0) (pos 60) (pos 900)) loaded

not_blank : ◌≢◌ {A = String} "+060" ""
not_blank = ground (arith, string_eq.beq_iff "+060" "")

window_seconds_iff_example :
    (window_seconds "TRACKER_LIVE_WINDOW_SECONDS" "+060" (pos 120) ≡ ok (pos 60))
    ↔ ((m : ℕ) × (pos 60 ≡ pos m) × Written (codes "+060") m × (1 ≤ m) × (m < 2 ^ 63))
window_seconds_iff_example =
    window_seconds_iff "TRACKER_LIVE_WINDOW_SECONDS" "+060" (pos 120) (pos 60) not_blank
