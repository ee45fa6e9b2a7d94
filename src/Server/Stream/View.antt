-- ===== src/Server/Stream/View.antt =====
-- What a watcher holds after a poll that reads the family, whatever the poll owes it.
use tracker.Base.{
  Bool, true, false, ◌≡◌, String, none, some, List, [], keep, contains, Unique, All, All-keep,
  All-imp, if◌then◌else◌, string_eq, arith, ◌∙◌, inl, inr, Option-cases,
}
use tracker.Base.Sort.{
  find, keys, find-keep, keep-Unique, find-slice_stable, slice_stable-Unique, slice_stable-All,
  find-key,
}
use tracker.Clock.{Time}
use tracker.Presentation.{evaluate}
use tracker.Store.{DeviceState}
use tracker.Server.Presentation.{sort_device_states, sort_by_arrival}
use tracker.Server.Stream.{Conn, observe}
use tracker.Server.Stream.Events.{
  shown, Consistent, describes-entry_for, id_of, pushed, arrived_after, position_event,
  presentation_event, last_arrival, noted, shown-pushed, noted-contains,
}

module _ {Float : Type 0} (to_lower : String → String) (str_lt : String → String → Bool) where
  abbrev pub arrivals : Time → List (DeviceState Float) → List (DeviceState Float)
  arrivals since states = keep (arrived_after since) (sort_by_arrival str_lt states)

  abbrev pub listed : List (DeviceState Float) → List (DeviceState Float)
  listed states = sort_device_states to_lower str_lt (sort_by_arrival str_lt states)

  -- The rows that a poll owes an event by the test `q`, its positions left out.
  abbrev pub owed_by :
      (DeviceState Float → Bool) → Time → List (DeviceState Float) → List (DeviceState Float)
  owed_by q since states =
      keep (λ s. if contains s.device_id (noted (arrivals since states) []) then false else q s)
        (listed states)

  -- The connection after a poll that owes by `q`.
  abbrev pub polled :
      Conn Float → Time → List (DeviceState Float) → (DeviceState Float → Bool) → Conn Float
  polled c at states q = record c {
    since = last_arrival c.since (arrivals c.since states);
    swept = true;
    prev = observe (listed states) [];
    prev_at = at;
    degraded = false;
    sent =
        pushed (presentation_event at c.windows) (owed_by q c.since states)
          (pushed (position_event at c.windows) (arrivals c.since states) c.sent);
  }

  module _ (states : List (DeviceState Float)) (u : Unique (keys id_of states)) where
    pub find-by_arrival :
        (k : String) → find id_of k (sort_by_arrival str_lt states) ≡ find id_of k states
    unfolding sort_by_arrival
    find-by_arrival k = find-slice_stable id_of _ k states u

    pub by_arrival-Unique : Unique (keys id_of (sort_by_arrival str_lt states))
    unfolding sort_by_arrival
    by_arrival-Unique = slice_stable-Unique id_of _ states u

    pub find-listed : (k : String) → find id_of k (listed states) ≡ find id_of k states
    unfolding sort_device_states
    find-listed k = find-slice_stable id_of _ k _ by_arrival-Unique ∙ find-by_arrival k

    pub listed-Unique : Unique (keys id_of (listed states))
    unfolding sort_device_states
    listed-Unique = slice_stable-Unique id_of _ _ by_arrival-Unique

    listed-Consistent : All Consistent states → All Consistent (listed states)
    unfolding sort_device_states sort_by_arrival
    listed-Consistent h = slice_stable-All Consistent _ _ (slice_stable-All Consistent _ states h)

    pub arrivals-Consistent :
        (since : Time) → All Consistent states → All Consistent (arrivals since states)
    unfolding sort_by_arrival
    arrivals-Consistent since h = All-keep Consistent _ _ (slice_stable-All Consistent _ states h)

    -- A device of the family shows its value at this instant if its position has just arrived or the
    -- poll owes it an event; otherwise it shows what it showed before. So does any other device.
    pub shown-polled :
        (c : Conn Float) (at : Time) (q : DeviceState Float → Bool) (k : String)
        → All Consistent states
        → shown k (polled c at states q).sent ≡ elim (find id_of k states) [
          | none ↦ shown k c.sent
          | some s ↦
              if arrived_after c.since s
              then some (evaluate at s.last_contact c.windows)
              else if q s
              then some (evaluate at s.last_contact c.windows)
              else shown k c.sent
        ]
    unfolding contains
    shown-polled c at q k h =
        let value = λ (s : DeviceState Float). evaluate at s.last_contact c.windows in
        let fresh = arrivals c.since states in
        let owed = owed_by q c.since states in
        let p =
          λ (s : DeviceState Float). if contains s.device_id (noted fresh []) then false else q s in
        let before_owed = pushed (position_event at c.windows) fresh c.sent in
        let a =
          shown-pushed (presentation_event at c.windows) value k owed before_owed
            (All-imp Consistent _ owed (λ s ok. (describes-entry_for s at c.windows ok).1)
              (All-keep Consistent _ _ (listed-Consistent h)))
            (keep-Unique id_of _ _ listed-Unique) in
        let b =
          shown-pushed (position_event at c.windows) value k fresh c.sent
            (All-imp Consistent _ fresh (λ s ok. (describes-entry_for s at c.windows ok).0)
              (arrivals-Consistent c.since h))
            (keep-Unique id_of _ _ by_arrival-Unique) in
        let fa = find-keep id_of k p (listed states) listed-Unique in
        let fb =
          find-keep id_of k (arrived_after c.since) (sort_by_arrival str_lt states)
            by_arrival-Unique in
        let n = noted-contains k fresh [] in
        let la = find-listed k in
        let lb = find-by_arrival k in
        elim (Option-cases (find id_of k states)) [
          | inl missing ↦ rw missing (ground (arith, a, b, fa, fb, la, lb, missing))
          | inr (s, held) ↦
              let same = find-key id_of k states held in
              rw held (ground (arith, a, b, fa, fb, la, lb, held, n, same))
        ]
