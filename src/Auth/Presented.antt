-- ===== src/Auth/Presented.antt =====
-- internal/auth/auth.go: what a token from a request is.
use tracker.Base.{◌≡◌, ◌≢◌, ◌⊎◌, inl, inr, Option, none, some, [], arith, Option-cases}
use tracker.Store.Credentials.{Bytes, bytes_eq}
use tracker.Auth.{cut_prefix_fold, bearer, from_request}

-- The texts that carry a token: the rest of a Bearer header, trimmed, or the password of Basic.
abbrev pub Carries : (Bytes → Bytes) → Bytes → Option Bytes → Bytes → Type 0
Carries trim_space header password t =
    ((rest : Bytes) × (cut_prefix_fold header bearer ≡ some rest) × (t ≡ trim_space rest))
    ⊎ ((cut_prefix_fold header bearer ≡ none) × (password ≡ some t))

-- A token is never blank.
pub from_request-Carries :
    (trim_space : Bytes → Bytes) (authorization : Bytes) (password : Option Bytes) (t : Bytes)
    → from_request trim_space authorization password ≡ some t
    → (t ≢ [])
      × (trim_space authorization ≢ [])
      × Carries trim_space (trim_space authorization) password t
unfolding from_request
from_request-Carries trim_space authorization password t h =
    let header = trim_space authorization in
    elim (Option-cases (cut_prefix_fold header bearer)) [
      | inr (rest, cut) ↦ (
        ground (arith, bytes_eq.beq_iff (trim_space rest) []),
        ground (arith, bytes_eq.beq_iff header []),
        inl (rest, cut, ground arith),
      )
      | inl uncut ↦ (
        ground (arith, bytes_eq.beq_iff t []),
        ground (arith, bytes_eq.beq_iff header []),
        inr (uncut, ground (arith, bytes_eq.beq_iff t [])),
      )
    ]
