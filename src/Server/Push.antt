-- ===== src/Server/Push.antt =====
-- internal/server/push.go: POST /v1/push-subscriptions, as a step on the table of endpoints and on
-- the dispatcher whose ledger the notifier tells. The strict decoder is outside: its answer is an
-- argument. `trim_space` is strings.TrimSpace. Each of the two queries may fail: `stores` and
-- `removes` say whether it reaches the database.
pub mod Registration
use tracker.Base.{
  Bool, true, false, ◌&&◌, not, String, Option, none, some, List, if◌then◌else◌, ◌==◌, string_eq,
}
use tracker.Clock.{Time}
use tracker.Store.Subscriptions.{
  Row, valid_push_provider, registered, invalid_provider, unavailable, register_push_subscription,
  removal, refused, remove_push_subscription_for_viewer,
}
use tracker.Push.Dispatcher.{Dispatcher}
use tracker.Push.Notify.{endpoint_registered, endpoint_removed}

pub record PushSubscriptionRequest : Type 0 where
  pub provider : Option String
  pub token : Option String
  pub replaces_token : Option String

pub record PushSubscriptionResponse : Type 0 where
  pub id : String
  pub provider : String
  pub configured_provider : String

-- What decodeStrict answers.
pub data Decoded : Type 0 where
  rejected : String → Decoded
  decoded : PushSubscriptionRequest → Decoded

pub data Response : Type 0 where
  bad_request : String → Response
  internal_error : String → Response
  created : PushSubscriptionResponse → Response

-- The state that the route changes.
pub record Tables : Type 0 where
  pub subscriptions : List Row
  pub dispatcher : Dispatcher

module _ (trim_space : String → String) (removes : Bool) (viewer_id : String) where
  -- The supersede of `replaced`, the address trimmed.
  unfoldable pub supersede_trimmed : Tables → String → String → String → Tables
  supersede_trimmed s provider token replaced =
      if not (replaced == "") && not (replaced == token)
      then (let (rows, result) =
            remove_push_subscription_for_viewer removes s.subscriptions viewer_id provider
              replaced in
          elim result [
            | removal true ↦ record {
              subscriptions = rows;
              dispatcher = endpoint_removed s.dispatcher provider replaced;
            }
            | removal false ↦ record s { subscriptions = rows }
            | refused ↦ record s { subscriptions = rows }
          ])
      else s

  unfoldable pub supersede : Tables → String → String → Option String → Tables
  supersede s provider token none = s
  supersede s provider token (some replaces) =
      supersede_trimmed s provider token (trim_space replaces)

  module _ (stores : Bool) (new_id : String) (now : Time) (configured_provider : String) where
    -- The request past its two required fields, the token trimmed.
    unfoldable pub register_trimmed : Tables → String → String → Option String → Tables × Response
    register_trimmed s provider token replaces =
        if token == ""
        then (s, bad_request "token must not be empty")
        else if not (valid_push_provider provider)
        then (s, bad_request "provider must be one of \"fcm\", \"unifiedpush\"")
        else (let (rows, result) =
              register_push_subscription stores new_id now s.subscriptions viewer_id provider
                token in
            elim result [
              | invalid_provider ↦
                  (record s { subscriptions = rows }, bad_request "unknown push provider")
              | unavailable ↦ (
                record s { subscriptions = rows },
                internal_error "could not register the push subscription",
              )
              | registered id ↦ (
                supersede
                    (record {
                      subscriptions = rows;
                      dispatcher = endpoint_registered s.dispatcher provider token;
                    })
                    provider token replaces,
                created (record {
                  id = id;
                  provider = provider;
                  configured_provider = configured_provider;
                }),
              )
            ])

    unfoldable pub register_request : Tables → PushSubscriptionRequest → Tables × Response
    register_request s req = elim req.provider [
      | none ↦ (s, bad_request "provider and token are required")
      | some provider ↦ elim req.token [
        | none ↦ (s, bad_request "provider and token are required")
        | some token ↦ register_trimmed s provider (trim_space token) req.replaces_token
      ]
    ]

    unfoldable pub register_subscription : Tables → Decoded → Tables × Response
    register_subscription s (rejected message) = (s, bad_request message)
    register_subscription s (decoded req) = register_request s req
