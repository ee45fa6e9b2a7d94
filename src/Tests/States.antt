-- ===== src/Tests/States.antt =====
-- The properties of the two reads, in a family of a phone that reported and one that has not.
use tracker.Base.{ℕ, refl, List, [], ◌∷◌, map, Unique, contains, pos, string_eq}
use tracker.Store.{Device}
use tracker.Store.States.{StoredFix}

abbrev devices : List Device
devices =
    record { id = "a"; family_id = "f"; name = "Ada" }
    ∷ record { id = "b"; family_id = "f"; name = "Bob" }
    ∷ []

-- The second fix is a backlog: it is older by the phone's clock and arrived later.
abbrev stored : List (StoredFix ℕ)
stored =
    record { device_id = "a"; ts = pos 50; lon = 1; lat = 2; received_at = pos 60 }
    ∷ record { device_id = "a"; ts = pos 40; lon = 1; lat = 2; received_at = pos 90 }
    ∷ []

devices-Unique : Unique (map (λ d. d.id) devices)
unfolding contains
devices-Unique = (refl, (refl, tt))
