-- ===== src/Config/Grammar.antt =====
-- Which texts a presentation window accepts.
use tracker.Base.{
  ℕ, ◌+◌, ◌-◌, ◌*◌, ◌^◌, ◌≤◌, ◌<◌, ◌≡◌, ◌≢◌, ◌↔◌, ◌⊎◌, inl, inr, refl, Bool, true, false, String,
  List, [], ◌∷◌, All, ◌==◌, nat_eq, string_eq, ℤ, pos, negsuc, arith, Bool-cases, ◌∙◌, ap, sym,
}
use tracker.Config.ParseInt.{
  codes, parsed, is_digit, Magnitude, magnitude, bad_syntax, too_large, digits, parse_uint,
  with_sign, parse_bytes, parse_int,
}
use tracker.Config.{ok, window_seconds}

-- The number that decimal digits write, after the value of those before.
abbrev pub decimal_value : ℕ → List ℕ → ℕ
decimal_value n [] = n
decimal_value n (c ∷ cs) = decimal_value (n * 10 + (c - b'0')) cs

value-le : (n : ℕ) (cs : List ℕ) → n ≤ decimal_value n cs
value-le n [] = omega arith
value-le n (c ∷ cs) = omega (arith, value-le (n * 10 + (c - b'0')) cs)

digits_only :
    (n : ℕ) (cs : List ℕ) (m : ℕ)
    → digits n cs ≡ magnitude m
    → All (λ c. is_digit c ≡ true) cs × (decimal_value n cs ≡ m)
unfolding digits
digits_only n [] m h = (tt, cc)
digits_only n (c ∷ cs) m h = ground (arith, digits_only (n * 10 + (c - b'0')) cs m)

digits_accepts :
    (n : ℕ) (cs : List ℕ)
    → All (λ c. is_digit c ≡ true) cs
    → decimal_value n cs < 2 ^ 64
    → digits n cs ≡ magnitude (decimal_value n cs)
unfolding digits
digits_accepts n [] d h = refl
digits_accepts n (c ∷ cs) d h =
    ground
      (arith, digits_accepts (n * 10 + (c - b'0')) cs d.1 h, value-le (n * 10 + (c - b'0')) cs, d.0)

-- Decimal digits, at least one, with or without a plus sign before them.
abbrev pub Digits : List ℕ → ℕ → Type 0
Digits [] n = ⊥
Digits (c ∷ cs) n = All (λ d. is_digit d ≡ true) (c ∷ cs) × (decimal_value 0 (c ∷ cs) ≡ n)

abbrev pub Written : List ℕ → ℕ → Type 0
Written [] n = ⊥
Written (c ∷ cs) n = Digits (c ∷ cs) n ⊎ ((c ≡ b'+') × Digits cs n)

parse_uint-Digits : (cs : List ℕ) (n : ℕ) → parse_uint cs ≡ magnitude n → Digits cs n
unfolding parse_uint
parse_uint-Digits [] n h = cc
parse_uint-Digits (c ∷ cs) n h = digits_only 0 (c ∷ cs) n h

Digits-parse_uint : (cs : List ℕ) (n : ℕ) → n < 2 ^ 64 → Digits cs n → parse_uint cs ≡ magnitude n
unfolding parse_uint
Digits-parse_uint [] n h d = absurd d
Digits-parse_uint (c ∷ cs) n h d = ground (arith, digits_accepts 0 (c ∷ cs) d.0)

with_sign-pos :
    (m : Magnitude) (negative : Bool) (n : ℕ)
    → 1 ≤ n
    → with_sign negative m ≡ parsed (pos n)
    → (m ≡ magnitude n) × (n < 2 ^ 63) × (negative ≡ false)
unfolding with_sign
with_sign-pos bad_syntax negative n h e = cc
with_sign-pos too_large negative n h e = cc
with_sign-pos (magnitude m) false n h e = ground arith
with_sign-pos (magnitude m) true n h e = ground arith

with_sign-lt : (n : ℕ) → n < 2 ^ 63 → with_sign false (magnitude n) ≡ parsed (pos n)
unfolding with_sign
with_sign-lt n h = ground arith

parse_bytes-Written :
    (cs : List ℕ) (n : ℕ) → 1 ≤ n → parse_bytes cs ≡ parsed (pos n) → Written cs n × (n < 2 ^ 63)
unfolding parse_bytes
parse_bytes-Written [] n h e = cc
parse_bytes-Written (c ∷ cs) n h e = elim (Bool-cases (c == b'+')) [
  | inl plus ↦
      let signed : with_sign false (parse_uint cs) ≡ parsed (pos n) = ground arith in
      let s = with_sign-pos (parse_uint cs) false n h signed in
      (inr (ground arith, parse_uint-Digits cs n s.0), s.1)
  | inr other ↦ elim (Bool-cases (c == b'-')) [
    | inl minus ↦
        let signed : with_sign true (parse_uint cs) ≡ parsed (pos n) = ground arith in
        let clash = (with_sign-pos (parse_uint cs) true n h signed).2 in cc
    | inr plain ↦
        let signed : with_sign false (parse_uint (c ∷ cs)) ≡ parsed (pos n) = ground arith in
        let s = with_sign-pos (parse_uint (c ∷ cs)) false n h signed in
        (inl (parse_uint-Digits (c ∷ cs) n s.0), s.1)
  ]
]

Written-parse_bytes :
    (cs : List ℕ) (n : ℕ) → n < 2 ^ 63 → Written cs n → parse_bytes cs ≡ parsed (pos n)
unfolding parse_bytes
Written-parse_bytes [] n h w = absurd w
Written-parse_bytes (c ∷ cs) n h (inl plain) =
    ground (arith, Digits-parse_uint (c ∷ cs) n, with_sign-lt n h, plain.0.0)
Written-parse_bytes (c ∷ cs) n h (inr plus) =
    ground (arith, Digits-parse_uint cs n, with_sign-lt n h)

accepted_value :
    (key raw : String) (def : ℤ) (m : ℕ)
    → raw ≢ ""
    → window_seconds key raw def ≡ ok (pos m)
    → Written (codes raw) m × (1 ≤ m) × (m < 2 ^ 63)
unfolding window_seconds parse_int
accepted_value key raw def m some_text h =
    let at_least : 1 ≤ m = ground (arith, string_eq.beq_iff raw "") in
    let value : parse_bytes (codes raw) ≡ parsed (pos m) =
      ground (arith, string_eq.beq_iff raw "") in
    let w = parse_bytes-Written (codes raw) m at_least value in (w.0, at_least, w.1)

accepted_int :
    (key raw : String) (def n : ℤ)
    → raw ≢ ""
    → window_seconds key raw def ≡ ok n
    → (m : ℕ) × (n ≡ pos m) × Written (codes raw) m × (1 ≤ m) × (m < 2 ^ 63)
unfolding window_seconds
accepted_int key raw def (pos m) some_text h =
    let (w, lo, hi) = accepted_value key raw def m some_text h in (m, refl, w, lo, hi)
accepted_int key raw def (negsuc m) some_text h = ground (arith, string_eq.beq_iff raw "")

window_accepts :
    (key raw : String) (def : ℤ) (m : ℕ)
    → raw ≢ ""
    → Written (codes raw) m
    → 1 ≤ m
    → m < 2 ^ 63
    → window_seconds key raw def ≡ ok (pos m)
unfolding window_seconds parse_int
window_accepts key raw def m some_text w lo hi =
    ground (arith, string_eq.beq_iff raw "", Written-parse_bytes (codes raw) m hi w)

-- A window that is set is accepted with an integer exactly if the integer is a number from 1 to
-- 2^63 - 1 that the text denotes in decimal digits, after an optional plus.
pub window_seconds_iff :
    (key raw : String) (def n : ℤ)
    → raw ≢ ""
    → (window_seconds key raw def ≡ ok n)
      ↔ ((m : ℕ) × (n ≡ pos m) × Written (codes raw) m × (1 ≤ m) × (m < 2 ^ 63))
window_seconds_iff key raw def n some_text = (
  accepted_int key raw def n some_text,
  λ (m, same, w, lo, hi). window_accepts key raw def m some_text w lo hi ∙ ap ok (sym same),
)
