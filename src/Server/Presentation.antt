-- ===== src/Server/Presentation.antt =====
-- internal/server/presentation.go: how a device is described on every surface, and the orders in
-- which a family is served. `Float` is float64; `to_lower` is strings.ToLower and `str_lt` the byte
-- order of Go's `<` on strings.
use tracker.Base.{
  Bool, true, false, String, Option, none, some, List, if◌then◌else◌, not, ◌==◌, string_eq, int_eq,
  ℤ, pos,
}
use tracker.Base.Sort.{slice_stable}
use tracker.Clock.{Time, unix, before}
use tracker.Presentation.{Value, no_position, value_eq, Windows, evaluate}
use tracker.Store.{DeviceState}

module _ (Float : Type 0) where
  -- positionResponse, a located entry.
  pub record PositionResponse : Type 0 where
    pub device_id : String
    pub device_name : String
    pub lat : Float
    pub lon : Float
    pub ts : ℤ
    pub received_at : ℤ
    pub presentation : Value
    pub last_contact_at : ℤ

-- unlocatedEntry, three keys and no coordinate.
pub record UnlocatedEntry : Type 0 where
  pub device_id : String
  pub device_name : String
  pub presentation : Value

-- presentationUpdate, a partial update that is not a position.
pub record PresentationUpdate : Type 0 where
  pub device_id : String
  pub device_name : String
  pub presentation : Value
  pub last_contact_at : ℤ

-- What an event's data may be; `failure` is the stream's error payload.
pub data Payload (Float : Type 0) : Type 0 where
  located : PositionResponse Float → Payload Float
  unlocated : UnlocatedEntry → Payload Float
  update : PresentationUpdate → Payload Float
  failure : Payload Float

-- `LastContact.Unix()`. It is read only where the value is not `no-position`, so the pointer is set.
unfoldable pub contact_unix : Option Time → ℤ
contact_unix none = pos 0
contact_unix (some t) = unix t

module _ {Float : Type 0} where
  abbrev pub unlocated_for : DeviceState Float → Payload Float
  unlocated_for s =
      unlocated (record {
        device_id = s.device_id;
        device_name = s.device_name;
        presentation = no_position;
      })

  unfoldable pub entry_for : DeviceState Float → Time → Windows → Payload Float
  entry_for s at w =
      let value = evaluate at s.last_contact w in
      elim s.current [
        | none ↦ unlocated_for s
        | some current ↦
            if value == no_position
            then unlocated_for s
            else located (record {
              device_id = s.device_id;
              device_name = s.device_name;
              lat = current.lat;
              lon = current.lon;
              ts = unix current.ts;
              received_at = unix current.received_at;
              presentation = value;
              last_contact_at = contact_unix s.last_contact;
            })
      ]

  unfoldable pub presentation_payload_for : DeviceState Float → Time → Windows → Payload Float
  presentation_payload_for s at w =
      let value = evaluate at s.last_contact w in
      elim s.current [
        | none ↦ unlocated_for s
        | some current ↦
            if value == no_position
            then unlocated_for s
            else update (record {
              device_id = s.device_id;
              device_name = s.device_name;
              presentation = value;
              last_contact_at = contact_unix s.last_contact;
            })
      ]

  module _ (to_lower : String → String) (str_lt : String → String → Bool) where
    name_less : DeviceState Float → DeviceState Float → Bool
    name_less a b =
        let folded = to_lower a.device_name in
        let other = to_lower b.device_name in
        if not (folded == other)
        then str_lt folded other
        else if not (a.device_name == b.device_name)
        then str_lt a.device_name b.device_name
        else str_lt a.device_id b.device_id

    unfoldable pub sort_device_states : List (DeviceState Float) → List (DeviceState Float)
    unfolding name_less
    sort_device_states = slice_stable name_less

  module _ (str_lt : String → String → Bool) where
    arrival_less : DeviceState Float → DeviceState Float → Bool
    arrival_less a b = elim a.current [
      | none ↦ elim b.current [ none ↦ str_lt a.device_id b.device_id | some q ↦ true ]
      | some p ↦ elim b.current [
        | none ↦ false
        | some q ↦
            if not (p.received_at == q.received_at)
            then before p.received_at q.received_at
            else str_lt a.device_id b.device_id
      ]
    ]

    unfoldable pub sort_by_arrival : List (DeviceState Float) → List (DeviceState Float)
    unfolding arrival_less
    sort_by_arrival = slice_stable arrival_less
