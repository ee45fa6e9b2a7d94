-- ===== src/Tests/Registration.antt =====
-- The properties of a registration, of one phone whose token has rotated.
use tracker.Base.{true, false, ◌≡◌, ◌≢◌, refl, String, some, [], ◌∷◌, pos, string_eq, ◌==◌, arith}
use tracker.Push.Dispatcher.Start.{new_dispatcher}
use tracker.Store.Subscriptions.{valid_push_provider}
use tracker.Store.Subscriptions.Owner.{owner}
use tracker.Server.Push.{PushSubscriptionRequest, Tables, decoded, register_subscription}
use tracker.Server.Push.Registration.{register_subscription-owner, register_subscription-others}

abbrev trim_space : String → String
trim_space s = s

abbrev tables : Tables
tables = record {
  subscriptions =
      record { id = "1"; viewer_id = "ada"; provider = "fcm"; token = "old"; created_at = pos 0 }
      ∷ record { id = "2"; viewer_id = "bob"; provider = "fcm"; token = "bobs"; created_at = pos 0 }
      ∷ [];
  dispatcher = new_dispatcher [];
}

-- Ada's phone names its old address, or tries Bob's.
abbrev rotated : String → PushSubscriptionRequest
rotated replaces = record {
  provider = some "fcm";
  token = some "new";
  replaces_token = some replaces;
}

fcm-valid : valid_push_provider "fcm" ≡ true
unfolding valid_push_provider
fcm-valid = refl

text_apart : (a b : String) → (a == b) ≡ false → a ≢ b
text_apart a b h e = ground (arith, string_eq.beq_iff a b)

register_subscription-owner_example :
    owner "fcm" "new"
      (register_subscription trim_space true "ada" true "3"
        (pos 9)
        "fcm"
        tables
        (decoded (rotated "old"))).0.subscriptions
    ≡ some "ada"
register_subscription-owner_example =
    register_subscription-owner trim_space true "ada" true "3" (pos 9) "fcm" tables (rotated "old")
      "fcm" "new" refl refl (text_apart "new" "" refl) fcm-valid refl

bob-owner : owner "fcm" "bobs" tables.subscriptions ≡ some "bob"
unfolding owner
bob-owner = refl

not_bobs :
    (t : String)
    → (rotated "bobs").provider ≡ some "fcm"
    → (rotated "bobs").token ≡ some t
    → t ≢ "bobs"
not_bobs t p e same = text_apart "new" "bobs" refl cc

register_subscription-others_example :
    owner "fcm" "bobs"
      (register_subscription trim_space true "ada" true "3"
        (pos 9)
        "fcm"
        tables
        (decoded (rotated "bobs"))).0.subscriptions
    ≡ some "bob"
register_subscription-others_example =
    register_subscription-others trim_space true "ada" true "3" (pos 9) "fcm" tables
      (rotated "bobs") "fcm" "bobs" "bob" bob-owner (text_apart "bob" "ada" refl) not_bobs
