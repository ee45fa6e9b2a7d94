-- ===== src/Server/Read/Family.antt =====
-- internal/server/read.go: whose history a watcher is answered, and which page of it.
use mathlib.Core.List.{Perm}
use tracker.Base.{
  ℕ, ◌⊎◌, ◌≡◌, arith, refl, ◌∙◌, ap, Bool, true, false, ◌&&◌, ◌||◌, if◌then◌else◌, String, Option,
  none, some, List, [], ◌∷◌, map, keep, take, drop, leb, ◌==◌, string_eq, int_eq, ℤ, pos_part,
  leb_ℤ, ltb_ℤ, Option-cases, inl, inr,
}
use tracker.Clock.{Time, unix, from_unix}
use tracker.Config.ParseInt.{parsed, syntax, out_of_range, parse_int}
use tracker.Store.{Device}
use tracker.Store.Credentials.{Account, Viewer, device_by_id, by_id}
use tracker.Store.Geofence.Evaluate.{zero_time}
use tracker.Store.Ingest.{Stored}
use tracker.Store.History.{
  history_fix, device_history, HistoryFix, in_family, in_scope, bound, not_before, sooner_than,
  clamp_limit, clamp_offset, selected,
}
use tracker.Store.History.Scope.{NewestFirst, selected-Perm}
use tracker.Server.Read.{
  ok, HistoryQuery, HistoryResponse, history_entry, profiles, history_page, page_answer,
  get_device_history, epoch_param, int_param, parse_window, parse_page, Read, value, unreadable,
}

-- The instant is not before the lower bound, or the bound is absent or the zero time.
abbrev since : String → Time → Bool
since from t = if from == "" then true else elim (parse_int from) [
  | parsed n ↦ from_unix n == zero_time || leb_ℤ (from_unix n) t
  | syntax ↦ false
  | out_of_range ↦ false
]

-- The instant is before the upper bound, or the bound is absent or the zero time.
abbrev until : String → Time → Bool
until to t = if to == "" then true else elim (parse_int to) [
  | parsed n ↦ from_unix n == zero_time || ltb_ℤ t (from_unix n)
  | syntax ↦ false
  | out_of_range ↦ false
]

-- A device of the family has the id.
abbrev owns : List (Account Device) → String → String → Bool
owns [] family_id id = false
owns (a ∷ accounts) family_id id =
    a.profile.id == id && a.profile.family_id == family_id || owns accounts family_id id

-- A hundred, or the number that the text denotes between 1 and 1000.
abbrev limit_of : String → ℕ
limit_of limit = if limit == "" then 100 else elim (parse_int limit) [
  | parsed n ↦ if leb (pos_part n) 1 then 1 else if leb 1000 (pos_part n) then 1000 else pos_part n
  | syntax ↦ 0
  | out_of_range ↦ 0
]

-- None, or the number that the text denotes from 0 on.
abbrev offset_of : String → ℕ
offset_of offset =
    if offset == ""
    then 0
    else elim (parse_int offset) [ parsed n ↦ pos_part n | syntax ↦ 0 | out_of_range ↦ 0 ]

Read-cases :
    {A : Type 0} (r : Read A) → ((a : A) × (r ≡ value a)) ⊎ ((e : String) × (r ≡ unreadable e))
Read-cases (value a) = inl (a, refl)
Read-cases (unreadable e) = inr (e, refl)

epoch_param-since :
    (from : String) (a t : Time)
    → epoch_param "from" from ≡ value a
    → not_before (bound a) t ≡ since from t
unfolding epoch_param bound
epoch_param-since from a t h = ground arith

epoch_param-until :
    (to : String) (b t : Time)
    → epoch_param "to" to ≡ value b
    → sooner_than (bound b) t ≡ until to t
unfolding epoch_param bound
epoch_param-until to b t h = ground arith

parse_window-value :
    (from to : String) (a b : Time)
    → parse_window from to ≡ value (a, b)
    → (epoch_param "from" from ≡ value a) × (epoch_param "to" to ≡ value b)
unfolding parse_window
parse_window-value from to a b h = ground arith

parse_page-value :
    (limit offset : String) (l o : ℤ)
    → parse_page limit offset ≡ value (l, o)
    → (clamp_limit l ≡ limit_of limit) × (clamp_offset o ≡ offset_of offset)
unfolding parse_page int_param clamp_limit clamp_offset
parse_page-value limit offset l o h = ground arith

in_family-owns :
    (accounts : List (Account Device)) (family_id id : String)
    → in_family family_id (profiles accounts) id ≡ owns accounts family_id id
unfolding in_family
in_family-owns [] family_id id = refl
in_family-owns (a ∷ accounts) family_id id = ground (arith, in_family-owns accounts family_id id)

module _ {F : Type 0} where
  -- A stored fix that the query asks for: of the device, of the family, in the window.
  abbrev wanted : List (Account Device) → String → HistoryQuery → Stored F → Bool
  wanted accounts family_id q r =
      owns accounts family_id r.fix.device_id
      && r.fix.device_id == q.id
      && since q.from r.fix.ts
      && until q.to r.fix.ts

  -- What is told of a stored fix.
  abbrev told : Stored F → HistoryResponse F
  told r = record {
    ts = unix r.fix.ts;
    lat = r.fix.lat;
    lon = r.fix.lon;
    accuracy = r.fix.accuracy_m;
    battery = r.fix.battery_pct;
    speed = r.fix.speed_mps;
    trigger = r.fix.trigger_reason;
    received_at = unix r.received_at;
  }

  -- The page of the wanted fixes, in an order that is newest first.
  abbrev pub Shows :
      List (Account Device)
      → List (Stored F)
      → String
      → HistoryQuery
      → List (HistoryResponse F)
      → Type 0
  Shows accounts rows family_id q entries =
      (all : List (Stored F)) × Perm all (keep (wanted accounts family_id q) rows)
      × NewestFirst all
      × (entries ≡ map told (take (limit_of q.limit) (drop (offset_of q.offset) all)))

  page_answer-ok :
      (page : Option (List (HistoryFix F))) (entries : List (HistoryResponse F))
      → page_answer page ≡ ok entries
      → (fixes : List (HistoryFix F)) × (page ≡ some fixes) × (entries ≡ map history_entry fixes)
  page_answer-ok none entries h = ground arith
  page_answer-ok (some fixes) entries h = (fixes, refl, ground arith)

  map-told : (rs : List (Stored F)) → map history_entry (map history_fix rs) ≡ map told rs
  map-told [] = refl
  map-told (r ∷ rs) = ap (λ es. told r ∷ es) (map-told rs)

  in_scope-wanted :
      (accounts : List (Account Device)) (family_id : String) (q : HistoryQuery) (a b : Time)
      (r : Stored F)
      → epoch_param "from" q.from ≡ value a
      → epoch_param "to" q.to ≡ value b
      → in_scope (profiles accounts) family_id q.id (bound a) (bound b) r
        ≡ wanted accounts family_id q r
  unfolding in_scope
  in_scope-wanted accounts family_id q a b r low high = rw (
    in_family-owns accounts family_id r.fix.device_id,
    epoch_param-since q.from a r.fix.ts low,
    epoch_param-until q.to b r.fix.ts high,
  )

  device_history-page :
      (answered : Bool) (devices : List Device) (rows : List (Stored F)) (family_id id : String)
      (a b : Time) (l o : ℤ) (fixes : List (HistoryFix F))
      → device_history answered devices rows family_id id a b l o ≡ some fixes
      → fixes
        ≡ map history_fix
            (take (clamp_limit l) (drop (clamp_offset o) (selected devices rows family_id id a b)))
  unfolding device_history
  device_history-page answered devices rows family_id id a b l o fixes h = ground arith

  history_page-Shows :
      (answered : Bool) (accounts : List (Account Device)) (rows : List (Stored F))
      (family_id : String) (q : HistoryQuery) (entries : List (HistoryResponse F))
      → history_page answered accounts rows family_id q ≡ ok entries
      → Shows accounts rows family_id q entries
  unfolding history_page
  history_page-Shows answered accounts rows family_id q entries h =
      elim (Read-cases (parse_window q.from q.to)) [
        | inr (e, bad) ↦ ground arith
        | inl ((a, b), w) ↦ elim (Read-cases (parse_page q.limit q.offset)) [
          | inr (e, bad) ↦ ground arith
          | inl ((l, o), p) ↦
              let devices = profiles accounts in
              let page = device_history answered devices rows family_id q.id a b l o in
              let (fixes, is, shape) = page_answer-ok page entries (ground arith) in
              let (low, high) = parse_window-value q.from q.to a b w in
              let (limit, offset) = parse_page-value q.limit q.offset l o p in
              let (same, newest) =
                selected-Perm devices rows family_id q.id a b (wanted accounts family_id q)
                  (λ r. in_scope-wanted accounts family_id q a b r low high) in
              let taken =
                device_history-page answered devices rows family_id q.id a b l o fixes is in
              (
                selected devices rows family_id q.id a b,
                same,
                newest,
                shape ∙ ap (map history_entry) taken ∙ map-told _ ∙ rw (limit, offset) refl,
              )
        ]
      ]

  -- If a watcher is answered a history, then the device is of the watcher's family, and the
  -- entries tell, field by field, the page that the request's limit (a hundred if absent, brought
  -- between 1 and 1000) and offset (0 if absent or negative) cut out of the stored fixes of that
  -- device, of the family, from the request's lower bound on and before its upper bound, all of
  -- them and each as often as it is stored, newest first; a bound that is absent, or is the zero
  -- time, bounds nothing.
  pub get_device_history-Shows :
      (is_uuid : String → Bool) (looked_up answered : Bool) (accounts : List (Account Device))
      (rows : List (Stored F)) (v : Viewer) (q : HistoryQuery) (entries : List (HistoryResponse F))
      → get_device_history is_uuid looked_up answered accounts rows v q ≡ ok entries
      → ((a : Account Device) × (by_id q.id accounts ≡ some a)
          × (a.profile.family_id ≡ v.family_id))
        × Shows accounts rows v.family_id q entries
  unfolding get_device_history device_by_id
  get_device_history-Shows is_uuid looked_up answered accounts rows v q entries h =
      elim (Option-cases (by_id q.id accounts)) [
        | inl unknown ↦ ground arith
        | inr (a, known) ↦ (
          (a, known, ground (arith, string_eq.beq_iff a.profile.family_id v.family_id)),
          history_page-Shows answered accounts rows v.family_id q entries (ground arith),
        )
      ]
