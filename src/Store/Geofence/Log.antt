-- ===== src/Store/Geofence/Log.antt =====
-- The log of crossings: what an evaluation appends to it, and that no crossing is recorded twice.
use tracker.Base.{
  ℕ, Bool, true, false, ◌≡◌, refl, sym, ap, ◌∙◌, ◌&&◌, String, List, [], ◌∷◌, ◌++◌, append_assoc,
  append-nil, map, if◌then◌else◌, string_eq, int_eq, arith, inl, inr, Option-cases, Bool-cases,
}
use tracker.Clock.{Time}
use tracker.Store.{GeofenceEvent}
use tracker.Store.Geofence.{Transition}
use tracker.Store.Geofence.Evaluate.{
  reads_fixes, lists_places, appends, reads_last, EventRow, FixRow, Place, Query, Evaluated,
  same_key, recorded, row_of, append_transitions, evaluate_one_geofence, evaluate_places,
  evaluate_device_geofences, last_event,
}

-- The row of a returned event.
abbrev pub to_row : GeofenceEvent → EventRow
to_row e = record {
  device_id = e.device_id;
  geofence_id = e.geofence_id;
  transition = e.transition;
  fix_ts = e.fix_ts;
}

-- No two rows have the same device, Place and instant.
abbrev pub Keyed : List EventRow → Type 0
Keyed [] = Unit {0}
Keyed (r ∷ rest) = (recorded r rest ≡ false) × Keyed rest

same_key_sym : (a b : EventRow) → same_key a b ≡ same_key b a
same_key_sym a b = ground (
  arith,
  string_eq.beq_iff a.device_id b.device_id,
  string_eq.beq_iff b.device_id a.device_id,
  string_eq.beq_iff a.geofence_id b.geofence_id,
  string_eq.beq_iff b.geofence_id a.geofence_id,
  int_eq.beq_iff a.fix_ts b.fix_ts,
  int_eq.beq_iff b.fix_ts a.fix_ts,
)

recorded-append :
    (e r : EventRow) (rows : List EventRow)
    → recorded e (rows ++ r ∷ []) ≡ (if recorded e rows then true else same_key r e)
unfolding recorded
recorded-append e r [] = ground arith
recorded-append e r (x ∷ rows) = ground (arith, recorded-append e r rows)

snoc-Keyed :
    (r : EventRow) (rows : List EventRow)
    → recorded r rows ≡ false
    → Keyed rows
    → Keyed (rows ++ r ∷ [])
unfolding recorded
snoc-Keyed r [] new k = (refl, tt)
snoc-Keyed r (x ∷ rows) new k =
    let apart : same_key x r ≡ false = ground arith in
    let later : recorded r rows ≡ false = ground arith in
    let head : recorded x (rows ++ r ∷ []) ≡ false =
      recorded-append x r rows ∙ ground (arith, k.0, same_key_sym r x ∙ apart) in
    (head, snoc-Keyed r rows later k.1)

-- What an evaluation of one Place does to the log, whether or not it is completed.
record Logged (events : List EventRow) (e : Evaluated) : Type 0 where
  keyed : Keyed events → Keyed e.events
  grown : e.events ≡ events ++ map to_row e.appended

unchanged :
    (events : List EventRow) (complete : Bool)
    → Logged events (record { events = events; appended = []; complete = complete })
unchanged events complete = record { keyed = λ k. k; grown = sym (append-nil events) }

module _ {Location : Type 0} (covers : String → Location → Bool) (answers : Query → Bool) where
  append_transitions-Logged :
      (d g name : String) (events : List EventRow) (trs : List Transition)
      → Logged events (append_transitions covers answers d g name events trs)
  unfolding append_transitions
  append_transitions-Logged d g name events [] = unchanged events true
  append_transitions-Logged d g name events (tr ∷ rest) =
      let row = row_of d g tr in
      elim (Bool-cases (answers (appends row))) [
        | inr failed ↦ rw failed (unchanged events false)
        | inl answered ↦ elim (Bool-cases (recorded row events)) [
          | inl old ↦ rw (answered, old) (append_transitions-Logged d g name events rest)
          | inr new ↦
              let more = append_transitions-Logged d g name (events ++ row ∷ []) rest in
              rw (answered, new)
                (record {
                  keyed = λ k. more.keyed (snoc-Keyed row events new k);
                  grown = more.grown ∙ append_assoc events (row ∷ []) _;
                })
        ]
      ]

  module _ (debounce : ℕ) (fixes : List (FixRow Location)) (device_id : String)
      (around : Time) where
    evaluate_one_geofence-Logged :
        (events : List EventRow) (p : Place)
        → Logged events
            (evaluate_one_geofence covers answers debounce fixes events device_id p around)
    unfolding evaluate_one_geofence
    evaluate_one_geofence-Logged events p =
        elim (Bool-cases (answers (reads_last p.id) && answers (reads_fixes p.id))) [
          | inr failed ↦ rw failed (unchanged events false)
          | inl answered ↦ elim (Option-cases (last_event device_id p.id events)) [
            | inl first ↦
                rw (answered, first) (append_transitions-Logged device_id p.id p.name events _)
            | inr (last, held) ↦
                rw (answered, held) (append_transitions-Logged device_id p.id p.name events _)
          ]
        ]

    evaluate_places-log :
        (events : List EventRow) (places : List Place)
        → let e = evaluate_places covers answers debounce fixes events device_id places around in
          (Keyed events → Keyed e.events)
          × (e.complete ≡ true → e.events ≡ events ++ map to_row e.appended)
    unfolding evaluate_places
    evaluate_places-log events [] = (λ k. k, λ c. sym (append-nil events))
    evaluate_places-log events (p ∷ places) =
        let here = evaluate_one_geofence covers answers debounce fixes events device_id p around in
        let one = evaluate_one_geofence-Logged events p in
        let rest = evaluate_places-log here.events places in
        let tail =
          evaluate_places covers answers debounce fixes here.events device_id places around in
        let more : List EventRow = map to_row tail.appended in
        elim (Bool-cases here.complete) [
          | inr failed ↦ rw failed (one.keyed, λ c. cc)
          | inl done ↦ rw done (
            λ k. rest.0 (one.keyed k),
            λ c.
                rest.1 c
                ∙ ap (λ rows. rows ++ more) one.grown
                ∙ append_assoc events (map to_row here.appended) more
                ∙ ap (λ rows. events ++ rows) (sym (map-append here.appended tail.appended)),
          )
        ]
      where
        map-append :
            (xs ys : List GeofenceEvent) → map to_row (xs ++ ys) ≡ map to_row xs ++ map to_row ys
        map-append [] ys = refl
        map-append (x ∷ xs) ys = ap (λ zs. to_row x ∷ zs) (map-append xs ys)

    -- If the log holds no two events of one device, Place and instant, then an evaluation keeps
    -- it so, whichever of its queries fail.
    pub evaluate_device_geofences-Keyed :
        (events : List EventRow) (places : List Place)
        → Keyed events
        → Keyed
            (evaluate_device_geofences covers answers debounce fixes events device_id places
              around).events
    unfolding evaluate_device_geofences
    evaluate_device_geofences-Keyed events places k =
        elim (Bool-cases (answers (lists_places device_id))) [
          | inl answered ↦ rw answered ((evaluate_places-log events places).0 k)
          | inr failed ↦ rw failed k
        ]

    -- If every query of an evaluation is answered, then what it has added to the log of crossings
    -- is exactly the events that it returns, in order.
    pub evaluate_device_geofences-map :
        (events : List EventRow) (places : List Place)
        → (evaluate_device_geofences covers answers debounce fixes events device_id places
            around).complete
          ≡ true
        → (evaluate_device_geofences covers answers debounce fixes events device_id places
            around).events
          ≡ events
            ++ map to_row
                (evaluate_device_geofences covers answers debounce fixes events device_id places
                  around).appended
    unfolding evaluate_device_geofences
    evaluate_device_geofences-map events places =
        elim (Bool-cases (answers (lists_places device_id))) [
          | inl answered ↦ rw answered ((evaluate_places-log events places).1)
          | inr failed ↦ rw failed (λ c. cc)
        ]

    -- If the Places are listed and the evaluation of the first of them is not completed, then the
    -- events that it had appended are in the log, and the evaluation of the device returns no
    -- event.
    pub evaluate_device_geofences-evaluate_one_geofence :
        (events : List EventRow) (p : Place) (places : List Place)
        → answers (lists_places device_id) ≡ true
        → (evaluate_one_geofence covers answers debounce fixes events device_id p around).complete
          ≡ false
        → let one = evaluate_one_geofence covers answers debounce fixes events device_id p around in
          let e =
            evaluate_device_geofences covers answers debounce fixes events device_id
              (p ∷ places)
              around in
          (e.events ≡ events ++ map to_row one.appended) × (e.appended ≡ [])
    unfolding evaluate_device_geofences evaluate_places
    evaluate_device_geofences-evaluate_one_geofence events p places answered failed =
        rw (answered, failed) ((evaluate_one_geofence-Logged events p).grown, refl)
