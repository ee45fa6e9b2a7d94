-- ===== src/Server/Stream/InStep.antt =====
-- A watcher and the server's own previous reading agree, poll after poll.
use tracker.Base.{
  Bool, true, false, ◌≡◌, refl, ◌⊎◌, String, Option, none, some, List, [], ◌∷◌, Unique, All, not,
  ◌==◌, string_eq, arith, ◌∙◌, inl, inr, Option-cases, Bool-cases, subst,
}
use tracker.Base.Dict.{lookup, insert, lookup-insert}
use tracker.Base.Sort.{find, keys, contains-find, find-key}
use tracker.Clock.{Time}
use tracker.Presentation.{Value, value_eq, Windows, evaluate}
use tracker.Store.{DeviceState}
use tracker.Server.Stream.{Conn, observe}
use tracker.Server.Stream.Events.{shown, Consistent, id_of, arrived_after}
use tracker.Server.Stream.View.{polled, shown-polled, listed, find-listed, listed-Unique}
use tracker.Server.Stream.Poll.{diff_test}

-- One device: what the watcher shows, if it shows the device at all, is the value of the previous
-- poll's reading at its instant; of a device that the previous poll did not see it shows nothing.
abbrev pub Agrees : Time → Windows → Option (Option Time) → Option Value → Type 0
Agrees at w none view = view ≡ none
Agrees at w (some contact) view = (view ≡ none) ⊎ (view ≡ some (evaluate at contact w))

agree_at :
    (at : Time) (w : Windows) {p : Option (Option Time)} (p' : Option (Option Time))
    {v : Option Value} (v' : Option Value)
    → p ≡ p'
    → v ≡ v'
    → Agrees at w p' v'
    → Agrees at w p v
agree_at at w p' v' e f h = rw (e, f) h

module _ {Float : Type 0} where
  abbrev pub InStep : Conn Float → Type 0
  InStep c = (k : String) → Agrees c.prev_at c.windows (lookup k c.prev) (shown k c.sent)

  -- What the query may answer: distinct devices, each with both halves or neither, and every device
  -- of the previous reading still there.
  pub record Readable (c : Conn Float) (states : List (DeviceState Float)) : Type 0 where
    pub distinct : Unique (keys id_of states)
    pub consistent : All Consistent states
    pub persists : (k : String) → find id_of k states ≡ none → lookup k c.prev ≡ none

  lookup-observe :
      (k : String) (states : List (DeviceState Float)) (seen : List (String × Option Time))
      → Unique (keys id_of states)
      → lookup k (observe states seen)
        ≡ elim (find id_of k states) [ none ↦ lookup k seen | some s ↦ some s.last_contact ]
  unfolding observe find
  lookup-observe k [] seen u = refl
  lookup-observe k (s ∷ rest) seen u = ground (
    arith,
    lookup-observe k rest (insert s.device_id s.last_contact seen) u.1,
    lookup-insert s.device_id k s.last_contact seen,
    contains-find id_of s.device_id rest,
    string_eq.beq_iff s.device_id k,
  )

  module _ (to_lower : String → String) (str_lt : String → String → Bool) where
    lookup-prev :
        (c : Conn Float) (at : Time) (states : List (DeviceState Float))
        (q : DeviceState Float → Bool) (k : String)
        → Unique (keys id_of states)
        → lookup k (polled to_lower str_lt c at states q).prev
          ≡ elim (find id_of k states) [ none ↦ none | some s ↦ some s.last_contact ]
    unfolding lookup
    lookup-prev c at states q k u =
        lookup-observe k (listed to_lower str_lt states) [] (listed-Unique to_lower str_lt states u)
        ∙ ground (arith, find-listed to_lower str_lt states u k)

    -- A poll keeps the two in step if each row that it does not owe an event has not changed.
    polled-InStep :
        (c : Conn Float) (at : Time) (states : List (DeviceState Float))
        (q : DeviceState Float → Bool)
        → Readable c states
        → ((s : DeviceState Float)
            → q s ≡ false
            → Agrees at c.windows (some s.last_contact) (shown s.device_id c.sent))
        → InStep c
        → InStep (polled to_lower str_lt c at states q)
    polled-InStep c at states q r unchanged h k =
        let view = shown-polled to_lower str_lt states r.distinct c at q k r.consistent in
        let seen = lookup-prev c at states q k r.distinct in
        elim (Option-cases (find id_of k states)) [
          | inl missing ↦
              let was = r.persists k missing in
              agree_at at c.windows none (shown k c.sent) (ground (arith, seen, missing))
                (ground (arith, view, missing))
                (subst (λ p. Agrees c.prev_at c.windows p (shown k c.sent)) was (h k))
          | inr (s, held) ↦
              let same = find-key id_of k states held in
              agree_at at c.windows (some s.last_contact)
                (shown k (polled to_lower str_lt c at states q).sent) (ground (arith, seen, held))
                refl
                (elim (Bool-cases (arrived_after c.since s)) [
                  | inl arrived ↦ inr (ground (arith, view, held, arrived))
                  | inr old ↦ elim (Bool-cases (q s)) [
                    | inl told ↦ inr (ground (arith, view, held, old, told))
                    | inr quiet ↦ ground (arith, view, held, old, quiet, unchanged s quiet, same)
                  ]
                ])
        ]

    module _ (c : Conn Float) (at : Time) (states : List (DeviceState Float))
        (r : Readable c states) (h : InStep c) where
      pub diff-InStep : InStep (polled to_lower str_lt c at states (diff_test c at))
      diff-InStep =
          polled-InStep c at states (diff_test c at) r
            (λ s quiet. unchanged s (lookup s.device_id c.prev) quiet (h s.device_id)) h
        where
          unchanged :
              (s : DeviceState Float) (p : Option (Option Time))
              → elim p [
                | none ↦ false
                | some l ↦
                    not (evaluate c.prev_at l c.windows == evaluate at s.last_contact c.windows)
              ]
                ≡ false
              → Agrees c.prev_at c.windows p (shown s.device_id c.sent)
              → Agrees at c.windows (some s.last_contact) (shown s.device_id c.sent)
          unchanged s none quiet a = inl a
          unchanged s (some l) quiet a = ground (
            arith,
            value_eq.beq_iff (evaluate c.prev_at l c.windows)
                (evaluate at s.last_contact c.windows),
          )

      pub all-InStep : InStep (polled to_lower str_lt c at states (λ s. true))
      all-InStep = polled-InStep c at states (λ s. true) r (λ s quiet. cc) h
