-- ===== src/Auth.antt =====
-- internal/auth/auth.go: the token that a request presents. A text is the list of its bytes.
-- `trim_space` is strings.TrimSpace; the password of HTTP Basic is what http.Request.BasicAuth
-- answers, `none` where the header is no such credential.
pub mod Presented
use tracker.Base.{
  ℕ, zero, suc, ◌+◌, ◌&&◌, ◌||◌, not, Bool, true, false, String, Option, none, some, List, [], ◌∷◌,
  length, if◌then◌else◌, ◌==◌, nat_eq, leb, ltb, take, drop,
}
use tracker.Config.ParseInt.{codes}
use tracker.Store.Credentials.{Bytes, bytes_eq}

-- An ASCII letter without its case. Of the letters of "Bearer " no other character is a fold.
abbrev pub folded : ℕ → ℕ
folded c = if leb b'A' c && leb c b'Z' then c + 32 else c

abbrev pub fold_bytes : Bytes → Bytes
fold_bytes [] = []
fold_bytes (c ∷ cs) = folded c ∷ fold_bytes cs

unfoldable pub cut_prefix_fold : Bytes → Bytes → Option Bytes
cut_prefix_fold s prefix =
    if ltb (length s) (length prefix)
      || not (fold_bytes (take (length prefix) s) == fold_bytes prefix)
    then none
    else some (drop (length prefix) s)

abbrev pub bearer : Bytes
bearer = codes "Bearer "

module _ (trim_space : Bytes → Bytes) where
  -- The token is present only where it is not blank.
  unfoldable pub from_request : Bytes → Option Bytes → Option Bytes
  from_request authorization password =
      let h = trim_space authorization in
      if h == [] then none else elim (cut_prefix_fold h bearer) [
        | some rest ↦ let t = trim_space rest in if t == [] then none else some t
        | none ↦ elim password [ none ↦ none | some pass ↦ if pass == [] then none else some pass ]
      ]
