-- ===== src/Store/States/Contact.antt =====
-- What the two reads answer: distinct and consistent rows, and contacts no later than the instant.
use tracker.Base.{
  Bool, true, ◌≡◌, refl, not, String, some, List, [], ◌∷◌, map, keep, All, Unique, is_some, ◌==◌,
  string_eq, arith, ◌≤ℤ◌, Bool-cases, Option-cases, inl, inr, sym, ap, subst, ◌∙◌,
}
use tracker.Base.Dict.{Values, insert-Values}
use tracker.Base.Sort.{slice_stable, insert_stable, keep-Unique}
use tracker.Clock.{Time, after}
use tracker.Store.{Device, DeviceState}
use tracker.Store.States.{
  StoredFix, max_received, fixes_of, position_of, state_of, family_device_states, contacts_as_of,
}

module _ {Float : Type 0} where
  position-insert :
      (d : Device) (less : StoredFix Float → StoredFix Float → Bool) (f : StoredFix Float)
      (fixes : List (StoredFix Float))
      → is_some (position_of d (insert_stable less f fixes)) ≡ true
  unfolding position_of insert_stable
  position-insert d less f [] = refl
  position-insert d less f (g ∷ rest) = ground arith

  max-some :
      (f : StoredFix Float) (rest : List (StoredFix Float))
      → is_some (max_received (f ∷ rest)) ≡ true
  unfolding max_received
  max-some f rest = ground arith

  position-max :
      (d : Device) (less : StoredFix Float → StoredFix Float → Bool)
      (fixes : List (StoredFix Float))
      → is_some (position_of d (slice_stable less fixes)) ≡ is_some (max_received fixes)
  unfolding slice_stable
  position-max d less [] = unfold position_of max_received in refl
  position-max d less (f ∷ rest) =
      position-insert d less f (slice_stable less rest) ∙ sym (max-some f rest)

  state_of-All :
      (fixes : List (StoredFix Float)) (devices : List Device)
      → All (λ s. is_some s.current ≡ is_some s.last_contact) (map (state_of fixes) devices)
  state_of-All fixes [] = tt
  state_of-All fixes (d ∷ devices) =
      (position-max d _ (fixes_of d.id fixes), state_of-All fixes devices)

  names-state_of :
      (fixes : List (StoredFix Float)) (devices : List Device)
      → map (λ s. s.device_id) (map (state_of fixes) devices) ≡ map (λ d. d.id) devices
  names-state_of fixes [] = refl
  names-state_of fixes (d ∷ devices) = ap (λ ids. d.id ∷ ids) (names-state_of fixes devices)

  -- If device ids are distinct and the query is answered, then the rows of a family have distinct
  -- devices, and each has a current position exactly if it has a last contact.
  pub family_device_states-All :
      (devices : List Device) (fixes : List (StoredFix Float)) (family_id : String)
      → Unique (map (λ d. d.id) devices)
      → (states : List (DeviceState Float)) × (family_device_states true devices fixes family_id
          ≡ some states)
        × All (λ s. is_some s.current ≡ is_some s.last_contact) states
        × Unique (map (λ s. s.device_id) states)
  unfolding family_device_states
  family_device_states-All devices fixes family_id u =
      let family = keep (λ d. d.family_id == family_id) devices in
      let kept : Unique (map (λ d. d.id) family) = keep-Unique (λ d. d.id) _ devices u in
      (
        map (state_of fixes) family,
        refl,
        state_of-All fixes family,
        subst Unique (sym (names-state_of fixes family)) kept,
      )

  max_received-bounded :
      (instant : Time) (fixes : List (StoredFix Float)) (m : Time)
      → max_received (keep (λ f. not (after f.received_at instant)) fixes) ≡ some m
      → m ≤ℤ instant
  unfolding max_received
  max_received-bounded instant [] m h = cc
  max_received-bounded instant (f ∷ rest) m h =
      elim (Option-cases (max_received (keep (λ g. not (after g.received_at instant)) rest))) [
        | inl none_left ↦ ground arith
        | inr (n, held) ↦ let earlier = max_received-bounded instant rest n held in ground arith
      ]

  -- Every last contact as of an instant is at or before that instant.
  pub contacts_as_of-Values :
      (devices : List Device) (fixes : List (StoredFix Float)) (family_id : String) (instant : Time)
      → Values (λ t. t ≤ℤ instant) (contacts_as_of devices fixes family_id instant)
  unfolding contacts_as_of
  contacts_as_of-Values [] fixes family_id instant = tt
  contacts_as_of-Values (d ∷ devices) fixes family_id instant =
      let rest = contacts_as_of-Values devices fixes family_id instant in
      let heard = keep (λ f. not (after f.received_at instant)) (fixes_of d.id fixes) in
      elim (Bool-cases (d.family_id == family_id)) [
        | inr other ↦ rw other rest
        | inl mine ↦ elim (Option-cases (max_received heard)) [
          | inl unheard ↦ rw (mine, unheard) rest
          | inr (last, held) ↦
              rw (mine, held)
                (insert-Values (λ t. t ≤ℤ instant) d.id last _
                  (max_received-bounded instant (fixes_of d.id fixes) last held) rest)
        ]
      ]
