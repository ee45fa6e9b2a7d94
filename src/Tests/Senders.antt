-- ===== src/Tests/Senders.antt =====
-- The property of the token source: one exchange, and a second call while its token is fresh.
use tracker.Base.{
  ◌≡◌, ◌≢◌, ◌⊎◌, refl, true, String, some, [], ◌∷◌, string_eq, pos, ◌+ℤ◌, ◌-ℤ◌, ◌*ℤ◌, int64, ◌*◌,
}
use tracker.Clock.{Time, before, second}
use tracker.Push.Senders.{Call, answered, exchange, token, token_expiry_grace}
use tracker.Push.Senders.Fresh.{Grants, Granted, source_after, token-Granted}

abbrev call : Time → Call
call t = record {
  now = t;
  signed = true;
  answer = answered 200 (some (record { access_token = "ya29"; expires_in = pos 3600 }));
  minted_at = t;
}

handed_out : (token (source_after (call (pos 0) ∷ [])) (call (pos (3000 * second)))).1 ≡ some "ya29"
unfolding source_after token exchange int64 ◌+ℤ◌ ◌-ℤ◌ ◌*ℤ◌
handed_out = refl

token-Granted_example :
    (◌≢◌ {A = String} "ya29" "")
    × (expiry : Time) × (Grants (call (pos (3000 * second))) "ya29" expiry
        ⊎ (Granted (call (pos 0) ∷ []) "ya29" expiry
            × (before (pos (3000 * second)) (expiry -ℤ pos token_expiry_grace) ≡ true)))
token-Granted_example =
    token-Granted (call (pos 0) ∷ []) (call (pos (3000 * second))) "ya29" handed_out
