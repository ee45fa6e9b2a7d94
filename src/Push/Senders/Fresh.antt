-- ===== src/Push/Senders/Fresh.antt =====
-- internal/push/serviceaccount.go: which access tokens are handed out.
use tracker.Base.{
  ℕ, ◌≡◌, ◌≢◌, ◌⊎◌, inl, inr, arith, refl, sym, subst, true, ◌&&◌, not, String, Option, some, List,
  [], ◌∷◌, ◌==◌, string_eq, ℤ, pos, ◌+ℤ◌, ◌-ℤ◌, Bool-cases, Option-cases,
}
use tracker.Clock.{Time, before}
use tracker.Push.Senders.{
  HttpAnswer, transport_error, answered, TokenSource, Call, exchange, token, token_expiry_grace,
  new_source,
}

-- The token and its expiry as an exchange of this call grants them.
abbrev pub Grants : Call → String → Time → Type 0
Grants c tok expiry =
    (ttl : ℤ) × (exchange c.answer ≡ some (tok, ttl)) × (expiry ≡ c.minted_at +ℤ ttl)

-- Some call of the list has granted them.
abbrev pub Granted : List Call → String → Time → Type 0
Granted [] tok expiry = ⊥
Granted (c ∷ calls) tok expiry = Grants c tok expiry ⊎ Granted calls tok expiry

-- The source after calls, the latest of them first.
unfoldable pub source_after : List Call → TokenSource
source_after [] = new_source
source_after (c ∷ calls) = (token (source_after calls) c).0

Answer-cases :
    {A : Type 0} (a : HttpAnswer A)
    → (a ≡ transport_error) ⊎ ((status : ℕ) × (body : Option A) × (a ≡ answered status body))
Answer-cases transport_error = inl refl
Answer-cases (answered status body) = inr (status, body, refl)

exchange-some : (c : Call) (tok : String) (ttl : ℤ) → exchange c.answer ≡ some (tok, ttl) → tok ≢ ""
unfolding exchange
exchange-some c tok ttl h = elim (Answer-cases c.answer) [
  | inl lost ↦ ground arith
  | inr (status, body, is) ↦ elim (Option-cases body) [
    | inl unread ↦ ground arith
    | inr (tr, decoded) ↦
        ground (arith, string_eq.beq_iff tr.access_token "", string_eq.beq_iff tok "")
  ]
]

-- What a call leaves: the source as it was, or what its exchange has granted.
token-left :
    (s : TokenSource) (c : Call)
    → ((token s c).0 ≡ s) ⊎ Grants c (token s c).0.cached (token s c).0.expiry
unfolding token
token-left s c =
    elim (Bool-cases (not (s.cached == "") && before c.now (s.expiry -ℤ pos token_expiry_grace))) [
      | inl fresh ↦ inl (ground arith)
      | inr old ↦ elim (Option-cases (exchange c.answer)) [
        | inl refused ↦ inl (ground arith)
        | inr ((tok, ttl), given) ↦ elim (Bool-cases c.signed) [
          | inl signed ↦ inr (ttl, ground arith, ground arith)
          | inr unsigned ↦ inl (ground arith)
        ]
      ]
    ]

-- What is cached has been granted.
source_after-Granted :
    (calls : List Call)
    → (source_after calls).cached ≢ ""
    → Granted calls (source_after calls).cached (source_after calls).expiry
unfolding source_after
source_after-Granted [] h = ground arith
source_after-Granted (c ∷ calls) h = elim (token-left (source_after calls) c) [
  | inr granted ↦ inl granted
  | inl same ↦ inr (
      subst (λ (s : TokenSource). Granted calls s.cached s.expiry) (sym same)
        (source_after-Granted calls (subst (λ (s : TokenSource). s.cached ≢ "") same h)))
]

-- Whatever calls the token source has answered, a token that it hands out is not empty, and an
-- exchange granted it with its expiry: that of this call, or one of an earlier call, of which the
-- expiry is more than a minute after the clock of this call.
pub token-Granted :
    (calls : List Call) (c : Call) (tok : String)
    → (token (source_after calls) c).1 ≡ some tok
    → (tok ≢ "")
      × (expiry : Time) × (Grants c tok expiry
          ⊎ (Granted calls tok expiry × (before c.now (expiry -ℤ pos token_expiry_grace) ≡ true)))
unfolding token
token-Granted calls c tok h =
    let s = source_after calls in
    elim (Bool-cases (not (s.cached == "") && before c.now (s.expiry -ℤ pos token_expiry_grace))) [
      | inl fresh ↦
          let same : s.cached ≡ tok = ground arith in
          let held : s.cached ≢ "" = ground (arith, string_eq.beq_iff s.cached "") in
          (
            subst (λ t. t ≢ "") same held,
            s.expiry,
            inr (
              subst (λ t. Granted calls t s.expiry) same (source_after-Granted calls held),
              ground arith,
            ),
          )
      | inr old ↦ elim (Option-cases (exchange c.answer)) [
        | inl refused ↦ ground arith
        | inr ((new, ttl), given) ↦
            let same : new ≡ tok = ground arith in
            (
              exchange-some c tok ttl (ground arith),
              c.minted_at +ℤ ttl,
              inl (ttl, ground arith, refl),
            )
      ]
    ]
