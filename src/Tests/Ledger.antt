-- ===== src/Tests/Ledger.antt =====
-- The properties of the delivery ledger on a few calls.
use tracker.Base.{
  if◌then◌else◌, ◌≤◌, if◌then◌else◌, leb, length, ◌≡◌, ◌≢◌, refl, String, List, [], ◌∷◌, string_eq,
  arith,
}
use tracker.Base.Dict.{lookup}
use tracker.Push.{EndpointKey, endpoint_eq, handed_over, beyond_collapse_bound}
use tracker.Push.Ledger.{
  new_ledger, classify, not_handed_over, pending_count, Call, classifies, takes_back, registers,
  run,
}
use tracker.Push.Ledger.Order.{Inv}
use tracker.Push.Ledger.Invariant.{run-new-Inv}
use tracker.Push.Ledger.Book.{keys_at, book, classified, run-book}
use tracker.Push.Ledger.Classify.{not_handed_over-classify}

abbrev phone : EndpointKey
phone = record { provider = "fcm"; token = "t1" }

abbrev tablet : EndpointKey
tablet = record { provider = "unifiedpush"; token = "https://push.example/2" }

abbrev home : String
home = "gf:a:home"

abbrev school : String
school = "gf:a:school"

abbrev morning : List Call
morning =
    classifies phone "gf:a:home"
    ∷ classifies phone "gf:a:home"
    ∷ classifies tablet "gf:a:home"
    ∷ takes_back phone "gf:a:home"
    ∷ registers "fcm" "t3"
    ∷ []

run-new-Inv_example : Inv (run new_ledger morning)
run-new-Inv_example = run-new-Inv morning

phone-tablet : phone ≢ tablet
phone-tablet h = ground (arith, endpoint_eq.beq_iff phone tablet)

first-handed_over : (classify new_ledger phone home).1 ≡ handed_over
unfolding classify lookup
first-handed_over = refl

not_handed_over-classify_example :
    pending_count (not_handed_over (classify new_ledger phone home).0 phone home) phone home
    ≡ pending_count new_ledger phone home
unfolding run
not_handed_over-classify_example =
    not_handed_over-classify new_ledger phone home home (run-new-Inv []) first-handed_over

few : classified morning ≤ 4096
unfolding classified
few = omega arith

run-book_example :
    (keys_at (run new_ledger morning) phone ≡ book phone [] morning)
    × ((classify (run new_ledger morning) phone home).1
        ≡ (if leb 4 (length (book phone [] morning)) then beyond_collapse_bound else handed_over))
run-book_example = run-book morning phone home few
