-- ===== src/Server/Push/Registration.antt =====
-- What a registration does to the endpoints of the family's viewers.
use tracker.Base.{
  Bool, true, false, ◌≡◌, ◌≢◌, refl, ◌&&◌, String, Option, none, some, ◌==◌, string_eq, arith, ◌⊎◌,
  inl, inr, Bool-cases, Option-cases, ◌∙◌, ap,
}
use tracker.Clock.{Time}
use tracker.Store.Subscriptions.{
  upsert, valid_push_provider, register_push_subscription, remove_push_subscription_for_viewer,
}
use tracker.Store.Subscriptions.Owner.{
  owner, upsert-owner, delete_rows-owner, delete_rows-elsewhere,
}
use tracker.Push.Notify.{endpoint_registered}
use tracker.Server.Push.{
  Tables, decoded, PushSubscriptionRequest, supersede_trimmed, supersede, register_trimmed,
  register_request, register_subscription,
}

module _ (trim_space : String → String) (removes : Bool) (viewer_id : String) where
  supersede-owner :
      (s : Tables) (p t : String) (replaces : Option String) (q u w : String)
      → owner q u s.subscriptions ≡ some w
      → (w ≢ viewer_id) ⊎ (t ≡ u)
      → owner q u (supersede trim_space removes viewer_id s p t replaces).subscriptions ≡ some w
  unfolding supersede supersede_trimmed remove_push_subscription_for_viewer
  supersede-owner s p t none q u w h safe = h
  supersede-owner s p t (some replaces) q u w h safe =
      let r = trim_space replaces in
      ground (
        arith,
        delete_rows-owner viewer_id p r q u w s.subscriptions h,
        delete_rows-elsewhere viewer_id p r q u s.subscriptions,
        string_eq.beq_iff r t,
      )

  module _ (stores : Bool) (new_id : String) (now : Time) (configured : String) where
    register_trimmed-owner :
        (s : Tables) (p t : String) (replaces : Option String)
        → t ≢ ""
        → valid_push_provider p ≡ true
        → stores ≡ true
        → owner p t
            (register_trimmed trim_space removes viewer_id stores new_id now configured s p t
              replaces).0.subscriptions
          ≡ some viewer_id
    unfolding register_trimmed register_push_subscription
    register_trimmed-owner s p t replaces some_token known up =
        let rows = (upsert new_id now viewer_id p t s.subscriptions).0 in
        let mine : owner p t rows ≡ some viewer_id = ground (
          arith,
          upsert-owner viewer_id p t new_id now p t s.subscriptions,
          string_eq.beq_iff p p,
          string_eq.beq_iff t t,
        ) in
        ground (
          arith,
          string_eq.beq_iff t "",
          supersede-owner
              (record { subscriptions = rows; dispatcher = endpoint_registered s.dispatcher p t }) p
              t replaces p t viewer_id mine (inr refl),
        )

    register_trimmed-others :
        (s : Tables) (p t : String) (replaces : Option String) (q u w : String)
        → owner q u s.subscriptions ≡ some w
        → w ≢ viewer_id
        → (p == q && t == u) ≡ false
        → owner q u
            (register_trimmed trim_space removes viewer_id stores new_id now configured s p t
              replaces).0.subscriptions
          ≡ some w
    unfolding register_trimmed register_push_subscription
    register_trimmed-others s p t replaces q u w h other apart =
        let rows = (upsert new_id now viewer_id p t s.subscriptions).0 in
        let theirs : owner q u rows ≡ some w =
          ground (arith, upsert-owner viewer_id p t new_id now q u s.subscriptions) in
        ground (
          arith,
          supersede-owner
              (record { subscriptions = rows; dispatcher = endpoint_registered s.dispatcher p t }) p
              t replaces q u w theirs (inl other),
        )

    -- If the request names a known provider and a token that is not blank once trimmed, and the
    -- store takes the row, then afterwards the endpoint belongs to the viewer that registered it,
    -- whatever address the request says it replaces.
    pub register_subscription-owner :
        (s : Tables) (req : PushSubscriptionRequest) (p t : String)
        → req.provider ≡ some p
        → req.token ≡ some t
        → trim_space t ≢ ""
        → valid_push_provider p ≡ true
        → stores ≡ true
        → owner p
            (trim_space t)
            (register_subscription trim_space removes viewer_id stores new_id now configured s
              (decoded req)).0.subscriptions
          ≡ some viewer_id
    unfolding register_subscription register_request
    register_subscription-owner s req p t provided sent some_token known up =
        rw (provided, sent)
          (register_trimmed-owner s p (trim_space t) req.replaces_token some_token known up)

    -- Whatever a decoded request holds, and whether or not the queries reach the database, an
    -- endpoint that belongs to another viewer, and is not the one that the request registers,
    -- still belongs to that viewer afterwards: naming it as replaced removes nothing.
    pub register_subscription-others :
        (s : Tables) (req : PushSubscriptionRequest) (q u w : String)
        → owner q u s.subscriptions ≡ some w
        → w ≢ viewer_id
        → ((t : String) → req.provider ≡ some q → req.token ≡ some t → trim_space t ≢ u)
        → owner q u
            (register_subscription trim_space removes viewer_id stores new_id now configured s
              (decoded req)).0.subscriptions
          ≡ some w
    unfolding register_subscription register_request
    register_subscription-others s req q u w h other apart = elim (Option-cases req.provider) [
      | inl absent ↦ rw absent h
      | inr (p, provided) ↦ elim (Option-cases req.token) [
        | inl absent ↦ rw (provided, absent) h
        | inr (t, sent) ↦
            rw (provided, sent)
              (register_trimmed-others s p (trim_space t) req.replaces_token q u w h other
                (elim (Bool-cases (p == q && trim_space t == u)) [
                  | inr differs ↦ differs
                  | inl same ↦ absurd (clash p t provided sent same)
                ]))
      ]
    ]
      where
        clash :
            (p t : String)
            → req.provider ≡ some p
            → req.token ≡ some t
            → (p == q && trim_space t == u) ≡ true
            → ⊥
        clash p t provided sent same =
            let a : p ≡ q = ground (arith, string_eq.beq_iff p q) in
            let b : trim_space t ≡ u = ground (arith, string_eq.beq_iff (trim_space t) u) in
            apart t (provided ∙ ap some a) sent b
