-- ===== src/Server/Gates/Reached.antt =====
-- internal/server: what reaching a handler needs, of both kinds of credential.
use tracker.Base.{
  refl, ◌≡◌, ◌≢◌, ◌⊎◌, inl, inr, Bool, true, some, List, [], ◌∷◌, arith, Option-cases, length,
  string_eq, nat_eq,
}
use tracker.Clock.{Time}
use tracker.Store.{Device}
use tracker.Store.Credentials.{
  Bytes, bytes_eq, Account, Viewer, authenticate, by_token, unexpired, token_hash_len,
}
use tracker.Auth.{from_request}
use tracker.Auth.Presented.{from_request-Carries}
use tracker.Server.Gates.{
  passes, Request, admit, require_device, stream_token, auth_viewer_for_stream,
}

-- An account that the digest finds holds it and has not expired.
by_token-found :
    {Profile : Type 0} (now : Time) (hash : Bytes) (accounts : List (Account Profile))
    (a : Account Profile)
    → by_token now hash accounts ≡ some a
    → (a.token_hash ≡ hash) × (unexpired now a.expires_at ≡ true)
unfolding by_token
by_token-found now hash [] a h = ground arith
by_token-found now hash (x ∷ rest) a h =
    ground (arith, by_token-found now hash rest a, bytes_eq.beq_iff x.token_hash hash)

-- An account of the table holds the digest, has not expired, and is of this profile.
abbrev pub Vouched : {Profile : Type 0} → Time → List (Account Profile) → Bytes → Profile → Type 0
Vouched {Profile} now accounts hash p =
    (a : Account Profile) × (by_token now hash accounts ≡ some a)
    × (a.token_hash ≡ hash)
    × (unexpired now a.expires_at ≡ true)
    × (a.profile ≡ p)

admit-passes :
    {Profile : Type 0} (answered : Bool) (now : Time) (accounts : List (Account Profile))
    (hash : Bytes) (p : Profile)
    → admit (authenticate answered now accounts hash) ≡ passes p
    → (answered ≡ true) × (length hash ≡ token_hash_len) × Vouched now accounts hash p
unfolding admit authenticate
admit-passes answered now accounts hash p h = elim (Option-cases (by_token now hash accounts)) [
  | inl unknown ↦ ground arith
  | inr (a, known) ↦
      let (same, valid) = by_token-found now hash accounts a known in
      (ground arith, ground arith, (a, known, same, valid, ground arith))
]

module _ (trim_space : Bytes → Bytes) (sha256 : Bytes → Bytes) (answered : Bool) (now : Time)
    (r : Request) where
  -- A token that is not blank comes with the request in its header.
  abbrev pub Presents : Bytes → Type 0
  Presents tok = (tok ≢ []) × (from_request trim_space r.authorization r.basic_password ≡ some tok)

  -- A request that reaches an ingest handler as a phone presented a token that is not blank in
  -- its Authorization header, and an account of the devices that has not expired holds the digest
  -- of that token and is of that phone.
  pub require_device-passes :
      (devices : List (Account Device)) (d : Device)
      → require_device trim_space sha256 answered now devices r ≡ passes d
      → (tok : Bytes) × Presents tok × Vouched now devices (sha256 tok) d
  unfolding require_device
  require_device-passes devices d h =
      elim (Option-cases (from_request trim_space r.authorization r.basic_password)) [
        | inl absent ↦ ground arith
        | inr (tok, present) ↦ (
          tok,
          (
            (from_request-Carries trim_space r.authorization r.basic_password tok present).0,
            present,
          ),
          (admit-passes answered now devices (sha256 tok) d (ground arith)).2,
        )
      ]

  -- A stream that is opened as a watcher came with a token that is not blank, from its header or
  -- from its query, and an account of the viewers that has not expired holds the digest of that
  -- token and is of that watcher.
  pub auth_viewer_for_stream-passes :
      (viewers : List (Account Viewer)) (v : Viewer)
      → auth_viewer_for_stream trim_space sha256 answered now viewers r ≡ passes v
      → (tok : Bytes) × (tok ≢ [])
        × (Presents tok ⊎ (tok ≡ r.query_token))
        × Vouched now viewers (sha256 tok) v
  unfolding auth_viewer_for_stream stream_token
  auth_viewer_for_stream-passes viewers v h =
      elim (Option-cases (from_request trim_space r.authorization r.basic_password)) [
        | inr (tok, present) ↦
            let nonblank =
              (from_request-Carries trim_space r.authorization r.basic_password tok present).0 in
            (
              tok,
              nonblank,
              inl (nonblank, present),
              (admit-passes answered now viewers (sha256 tok) v (ground arith)).2,
            )
        | inl absent ↦ (
          r.query_token,
          ground (arith, bytes_eq.beq_iff r.query_token []),
          inr refl,
          (admit-passes answered now viewers (sha256 r.query_token) v
              (ground (arith, bytes_eq.beq_iff r.query_token []))).2,
        )
      ]
