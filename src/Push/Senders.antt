-- ===== src/Push/Senders.antt =====
-- internal/push/serviceaccount.go, fcm.go and unifiedpush.go: the push backends' clients. `sign` is the
-- RS256 signature of an assertion, `none` where it fails; a request answers a status and a body, the
-- decoded one where it can be read, or fails on the way. Only what the bodies say is modelled of them.
pub mod Fresh
use tracker.Base.{
  ◌*◌, ℕ, Bool, true, false, ◌&&◌, ◌||◌, not, String, Option, none, some, List, [], ◌∷◌,
  if◌then◌else◌, ◌==◌, string_eq, ℤ, pos, ◌+ℤ◌, ◌-ℤ◌, ◌*ℤ◌, int64, ltb, leb,
}
use tracker.Clock.{Time, before, second}
use tracker.Push.{Delivery}

pub record TokenSource : Type 0 where
  pub cached : String
  pub expiry : Time

pub record TokenResponse : Type 0 where
  pub access_token : String
  pub expires_in : ℤ

pub data HttpAnswer (A : Type 0) : Type 0 where
  transport_error : HttpAnswer A
  answered : ℕ → Option A → HttpAnswer A

abbrev pub token_expiry_grace : ℕ
token_expiry_grace = 60 * second

abbrev pub succeeded : ℕ → Bool
succeeded status = leb 200 status && ltb status 300

-- The token and its lifetime in nanoseconds, an int64 product.
unfoldable pub exchange : HttpAnswer TokenResponse → Option (String × ℤ)
exchange transport_error = none
exchange (answered status none) = none
exchange (answered status (some tr)) =
    if not (succeeded status)
    then none
    else if tr.access_token == ""
    then none
    else some (tr.access_token, int64 (tr.expires_in *ℤ pos second))

-- One call of Token: what the clock says before and after the exchange, and what the exchange answers.
pub record Call : Type 0 where
  pub now : Time
  pub signed : Bool
  pub answer : HttpAnswer TokenResponse
  pub minted_at : Time

unfoldable pub token : TokenSource → Call → TokenSource × Option String
token s c =
    if not (s.cached == "") && before c.now (s.expiry -ℤ pos token_expiry_grace)
    then (s, some s.cached)
    else if not c.signed
    then (s, none)
    else elim (exchange c.answer) [
      | none ↦ (s, none)
      | some (tok, ttl) ↦ (record { cached = tok; expiry = c.minted_at +ℤ ttl }, some tok)
    ]

-- The expiry of a source that holds no token is not read.
abbrev pub new_source : TokenSource
new_source = record { cached = ""; expiry = pos 0 }

pub record FcmMessage : Type 0 where
  pub token : String
  pub title : String
  pub body : String
  pub fields : List (String × String)
  pub priority : String
  pub collapse_key : String

pub record UnifiedPushMessage : Type 0 where
  pub title : String
  pub body : String
  pub priority : String
  pub collapse_key : String
  pub fields : List (String × String)

unfoldable pub fcm_message : Delivery → FcmMessage
fcm_message d = record {
  token = d.sub.token;
  title = d.note.title;
  body = d.note.body;
  fields = d.note.fields;
  priority = "high";
  collapse_key = d.note.collapse_key;
}

unfoldable pub unified_push_message : Delivery → UnifiedPushMessage
unified_push_message d = record {
  title = d.note.title;
  body = d.note.body;
  priority = "high";
  collapse_key = d.note.collapse_key;
  fields = d.note.fields;
}

abbrev pub accepted : {A : Type 0} → HttpAnswer A → Bool
accepted transport_error = false
accepted (answered status body) = succeeded status

-- FCMSender.Send: `post` is the POST of the message under an access token; it reports success.
unfoldable pub send_fcm :
    (String → FcmMessage → HttpAnswer (Unit {0}))
    → TokenSource
    → Call
    → Delivery
    → TokenSource × Bool
send_fcm post s c d =
    let (s', access) = token s c in
    elim access [ none ↦ (s', false) | some tok ↦ (s', accepted (post tok (fcm_message d))) ]

-- UnifiedPushSender.Send: the endpoint is the subscription's token.
unfoldable pub send_unified_push :
    (String → UnifiedPushMessage → HttpAnswer (Unit {0})) → Delivery → Bool
send_unified_push post d = accepted (post d.sub.token (unified_push_message d))
