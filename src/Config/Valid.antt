-- ===== src/Config/Valid.antt =====
-- What a loaded configuration is known to be.
use tracker.Base.{
  ◌∷◌, List, ℕ, ◌^◌, ◌≤◌, ◌<◌, ◌≡◌, ◌≢◌, ◌↔◌, ◌⊎◌, refl, Bool, true, false, not, String, Option,
  List, [], ◌∷◌, ◌==◌, string_eq, ℤ, pos, ltb_ℤ, arith, subst, pos_part, ◌≤ℤ◌,
}
use tracker.Config.ParseInt.{
  codes, parsed, Magnitude, magnitude, bad_syntax, too_large, parse_uint, with_sign, parse_bytes,
  parse_int,
}
use tracker.Config.{
  Config, Checked, ok, refused, Refusal, Url, require, window_seconds, env_window_seconds, validate,
  validate_url, validate_log_level, validate_push, validate_tls_pair, load, assemble, windows_of,
  env_int, ◌>>=◌,
}
use tracker.Presentation.States.{windows}

pub record Valid (c : Config) : Type 0 where
  pub windows_ordered :
      (short : ℕ) × (long : ℕ) × (windows_of c ≡ windows short long)
      × (1 ≤ short)
      × (short < long)
      × (long < 2 ^ 63)
  pub tls_paired : (c.tls_cert_file ≡ "") ↔ (c.tls_key_file ≡ "")
  pub log_level_known :
      (c.log_level ≡ "debug")
      ⊎ (c.log_level ≡ "info")
      ⊎ (c.log_level ≡ "warn")
      ⊎ (c.log_level ≡ "error")
  pub addr_given : c.addr ≢ ""
  pub push_provider_known :
      (c.push_provider ≡ "") ⊎ (c.push_provider ≡ "unifiedpush") ⊎ (c.push_provider ≡ "fcm")
  pub fcm_complete :
      c.push_provider ≡ "fcm" → (c.fcm_project_id ≢ "") × (c.fcm_credentials_file ≢ "")
  pub keeps_history : pos 0 ≤ℤ c.retention_days

with_sign-bounded :
    (m : Magnitude) (negative : Bool) (n : ℤ)
    → with_sign negative m ≡ parsed n
    → pos_part n < 2 ^ 63
unfolding with_sign
with_sign-bounded bad_syntax negative n e = cc
with_sign-bounded too_large negative n e = cc
with_sign-bounded (magnitude m) false n e = ground arith
with_sign-bounded (magnitude m) true n e = ground arith

parse_bytes-bounded : (cs : List ℕ) (n : ℤ) → parse_bytes cs ≡ parsed n → pos_part n < 2 ^ 63
unfolding parse_bytes
parse_bytes-bounded [] n e = cc
parse_bytes-bounded (c ∷ cs) n e = ground (
  arith,
  with_sign-bounded (parse_uint cs) false n,
  with_sign-bounded (parse_uint cs) true n,
  with_sign-bounded (parse_uint (c ∷ cs)) false n,
)

-- A window is a positive number of seconds within int64, if its default is.
window_seconds-bounded :
    (key raw : String) (def n : ℤ)
    → (pos 1 ≤ℤ def) × (pos_part def < 2 ^ 63)
    → window_seconds key raw def ≡ ok n
    → (pos 1 ≤ℤ n) × (pos_part n < 2 ^ 63)
unfolding window_seconds parse_int
window_seconds-bounded key raw def n d e = ground (arith, parse_bytes-bounded (codes raw) n)

require-ok : (b : Bool) (e : Refusal) (u : Unit {0}) → require b e ≡ ok u → b ≡ true
require-ok true e u h = refl
require-ok false e u h = cc

>>=-ok :
    {A B : Type 0} (m : Checked A) (f : A → Checked B) {b : B}
    → (m >>= f) ≡ ok b
    → (a : A) × (m ≡ ok a) × (f a ≡ ok b)
>>=-ok (ok a) f h = (a, refl, h)
>>=-ok (refused e) f h = cc

validate_push-fcm :
    (c : Config) (u : Unit {0})
    → validate_push c ≡ ok u
    → c.push_provider ≡ "fcm"
    → (c.fcm_project_id ≢ "") × (c.fcm_credentials_file ≢ "")
unfolding validate_push
validate_push-fcm c u h fcm =
    let chosen : (c.push_provider == "fcm") ≡ true = rw fcm refl in
    let some_backend : (c.push_provider == "") ≡ false = rw fcm refl in
    let one_backend : (c.push_provider == "unifiedpush") ≡ false = rw fcm refl in
    (
      λ e. ground (arith, string_eq.beq_iff c.fcm_project_id ""),
      λ e. ground (arith, string_eq.beq_iff c.fcm_credentials_file ""),
    )

validate_push-known :
    (c : Config) (u : Unit {0})
    → validate_push c ≡ ok u
    → (c.push_provider ≡ "") ⊎ (c.push_provider ≡ "unifiedpush") ⊎ (c.push_provider ≡ "fcm")
unfolding validate_push
validate_push-known c u h = ground (
  arith,
  string_eq.beq_iff c.push_provider "",
  string_eq.beq_iff c.push_provider "unifiedpush",
  string_eq.beq_iff c.push_provider "fcm",
)

validate_log_level-known :
    (level : String) (u : Unit {0})
    → validate_log_level level ≡ ok u
    → (level ≡ "debug") ⊎ (level ≡ "info") ⊎ (level ≡ "warn") ⊎ (level ≡ "error")
unfolding validate_log_level
validate_log_level-known level u h = ground (
  arith,
  string_eq.beq_iff level "debug",
  string_eq.beq_iff level "info",
  string_eq.beq_iff level "warn",
  string_eq.beq_iff level "error",
)

validate_tls_pair_iff :
    (cert key : String) (u : Unit {0})
    → validate_tls_pair cert key ≡ ok u
    → (cert ≡ "") ↔ (key ≡ "")
unfolding validate_tls_pair
validate_tls_pair_iff cert key u h = (
  λ e. ground (arith, string_eq.beq_iff cert "", string_eq.beq_iff key ""),
  λ e. ground (arith, string_eq.beq_iff cert "", string_eq.beq_iff key ""),
)

ok-inj : {A : Type 0} {a b : A} → ok a ≡ ok b → a ≡ b
ok-inj h = cc

record Checks (c : Config) : Type 0 where
  level : validate_log_level c.log_level ≡ ok tt
  addr : (c.addr == "") ≡ false
  push : validate_push c ≡ ok tt
  pair : validate_tls_pair c.tls_cert_file c.tls_key_file ≡ ok tt
  retention : ltb_ℤ c.retention_days (pos 0) ≡ false
  order : ltb_ℤ c.live_window_seconds c.stale_window_seconds ≡ true

validate-Checks :
    (parse_url : String → Option Url) (c : Config) (u : Unit {0})
    → validate parse_url c ≡ ok u
    → Checks c
unfolding validate
validate-Checks parse_url c u h =
    let (a1, e1, h1) = >>=-ok (validate_url (parse_url c.database_url)) _ h in
    let (a2, e2, h2) = >>=-ok (validate_log_level c.log_level) _ h1 in
    let (a3, e3, h3) = >>=-ok (require (not (c.addr == "")) _) _ h2 in
    let (a4, e4, h4) = >>=-ok (validate_push c) _ h3 in
    let (a5, e5, h5) = >>=-ok (validate_tls_pair c.tls_cert_file c.tls_key_file) _ h4 in
    let (a6, e6, h6) = >>=-ok (require (not (ltb_ℤ c.retention_days (pos 0))) _) _ h5 in
    record {
      level = e2;
      addr = ground (arith, require-ok _ _ a3 e3);
      push = e4;
      pair = e5;
      retention = ground (arith, require-ok _ _ a6 e6);
      order = require-ok _ _ u h6;
    }

Windows-split :
    (c : Config)
    → (pos 1 ≤ℤ c.live_window_seconds)
    → ltb_ℤ c.live_window_seconds c.stale_window_seconds ≡ true
    → pos_part c.stale_window_seconds < 2 ^ 63
    → (short : ℕ) × (long : ℕ) × (windows_of c ≡ windows short long)
      × (1 ≤ short)
      × (short < long)
      × (long < 2 ^ 63)
Windows-split c h o b = (
  pos_part c.live_window_seconds,
  pos_part c.stale_window_seconds,
  ground arith,
  ground arith,
  ground arith,
  b,
)

Checks-Valid :
    (c : Config)
    → Checks c
    → (pos 1 ≤ℤ c.live_window_seconds) × (pos_part c.live_window_seconds < 2 ^ 63)
    → (pos 1 ≤ℤ c.stale_window_seconds) × (pos_part c.stale_window_seconds < 2 ^ 63)
    → Valid c
Checks-Valid c k live stale = record {
  windows_ordered = Windows-split c live.0 k.order stale.1;
  tls_paired = validate_tls_pair_iff c.tls_cert_file c.tls_key_file tt k.pair;
  log_level_known = validate_log_level-known c.log_level tt k.level;
  addr_given = λ e. ground (arith, k.addr, string_eq.beq_iff c.addr "");
  push_provider_known = validate_push-known c tt k.push;
  fcm_complete = validate_push-fcm c tt k.push;
  keeps_history = ground (arith, k.retention);
}

-- A configuration that is loaded, from whatever environment, has both windows between 1 and 2^63
-- - 1 seconds and the live one below the stale one, a certificate exactly if it has a key, a push
-- provider that is none, UnifiedPush or FCM, and for FCM a project and a credentials file, one of
-- the four log levels, an address to listen on, and no negative retention.
pub load-Valid :
    (getenv trim_space to_lower : String → String) (parse_url : String → Option Url) (c : Config)
    → load getenv trim_space to_lower parse_url ≡ ok c
    → Valid c
unfolding load env_window_seconds assemble
load-Valid getenv trim_space to_lower parse_url c h =
    let (a1, e1, h1) =
      >>=-ok (require (not (trim_space (getenv "TRACKER_DATABASE_URL") == "")) _) _ h in
    let (days, e2, h2) =
      >>=-ok (env_int getenv trim_space to_lower "TRACKER_RETENTION_DAYS" (pos 0)) _ h1 in
    let (live, e3, h3) =
      >>=-ok (env_window_seconds getenv trim_space to_lower "TRACKER_LIVE_WINDOW_SECONDS" (pos 120))
        _ h2 in
    let (stale, e4, h4) =
      >>=-ok
        (env_window_seconds getenv trim_space to_lower "TRACKER_STALE_WINDOW_SECONDS" (pos 900)) _
        h3 in
    let (u, e5, h5) =
      >>=-ok
        (validate parse_url (
          assemble getenv trim_space to_lower (trim_space (getenv "TRACKER_DATABASE_URL")) days live
            stale))
        _ h4 in
    let made : Config =
      assemble getenv trim_space to_lower (trim_space (getenv "TRACKER_DATABASE_URL")) days live
        stale in
    let same : made ≡ c = ok-inj h5 in
    subst Valid same (
      Checks-Valid made (validate-Checks parse_url made u e5)
        (window_seconds-bounded _ _ _ live (omega arith) e3)
        (window_seconds-bounded _ _ _ stale (omega arith) e4))
