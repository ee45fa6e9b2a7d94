-- ===== src/Store/Credentials.antt =====
-- internal/store/entities.go: the credentials of phones and of watchers. The tables `devices` and
-- `viewers` are lists of accounts, each with the profile that a lookup returns; token_hash is
-- unique in its table. A digest is the list of its bytes. `answered` says whether the database
-- answers, and `now` is its clock.
pub mod Rotate
use tracker.Base.{
  ℕ, zero, suc, ◌+◌, ◌&&◌, ◌||◌, not, Bool, true, false, String, Option, none, some, List, [], ◌∷◌,
  length, if◌then◌else◌, ◌==◌, nat_eq, string_eq, Eq, ◌≡◌, ◌↔◌, arith, ltb, refl,
}
use tracker.Clock.{Time, after}
use tracker.Store.{Device}

-- TokenHashLen.
abbrev pub token_hash_len : ℕ
token_hash_len = 32

abbrev pub Bytes : Type 0
Bytes = List ℕ

abbrev bytes_beq : Bytes → Bytes → Bool
bytes_beq [] [] = true
bytes_beq (x ∷ xs) (y ∷ ys) = x == y && bytes_beq xs ys
bytes_beq _ _ = false

pub bytes_beq_iff : (a b : Bytes) → (bytes_beq a b ≡ true) ↔ (a ≡ b)
bytes_beq_iff [] [] = ground arith
bytes_beq_iff [] (y ∷ ys) = ground arith
bytes_beq_iff (x ∷ xs) [] = ground arith
bytes_beq_iff (x ∷ xs) (y ∷ ys) = ground (arith, bytes_beq_iff xs ys)

instance abbrev pub bytes_eq : Eq Bytes
bytes_eq = record { beq = bytes_beq; beq_iff = bytes_beq_iff }

pub record Viewer : Type 0 where
  pub id : String
  pub family_id : String
  pub email : String
  pub display_name : String

pub record Account (Profile : Type 0) : Type 0 where
  pub id : String
  pub profile : Profile
  pub token_hash : Bytes
  pub expires_at : Option Time

-- What a lookup by credential answers.
pub data Lookup (Profile : Type 0) : Type 0 where
  found : Profile → Lookup Profile
  unknown_token invalid_token_hash unanswered : Lookup Profile

-- What an update answers: whether a row was changed.
pub data Update : Type 0 where
  updated : Bool → Update
  bad_hash failed : Update

-- `expires_at IS NULL OR expires_at > now()`.
unfoldable pub unexpired : Time → Option Time → Bool
unexpired now none = true
unexpired now (some t) = after t now

module _ {Profile : Type 0} where
  -- The SELECT by token_hash.
  unfoldable pub by_token : Time → Bytes → List (Account Profile) → Option (Account Profile)
  by_token now hash [] = none
  by_token now hash (a ∷ rest) =
      if a.token_hash == hash && unexpired now a.expires_at then some a else by_token now hash rest

  unfoldable pub authenticate : Bool → Time → List (Account Profile) → Bytes → Lookup Profile
  authenticate answered now accounts hash =
      if not (length hash == token_hash_len)
      then invalid_token_hash
      else if not answered
      then unanswered
      else elim (by_token now hash accounts) [ none ↦ unknown_token | some a ↦ found a.profile ]

  -- The UPDATE, and RowsAffected.
  unfoldable pub set_token :
      String → Bytes → Option Time → List (Account Profile) → List (Account Profile)
  set_token id hash expires [] = []
  set_token id hash expires (a ∷ rest) =
      (if a.id == id then record a { token_hash = hash; expires_at = expires } else a)
      ∷ set_token id hash expires rest

  unfoldable pub rows_with_id : String → List (Account Profile) → ℕ
  rows_with_id id [] = 0
  rows_with_id id (a ∷ rest) =
      if a.id == id then suc (rows_with_id id rest) else rows_with_id id rest

  -- The unique constraint on token_hash: another account holds the digest.
  unfoldable pub held_elsewhere : String → Bytes → List (Account Profile) → Bool
  held_elsewhere id hash [] = false
  held_elsewhere id hash (a ∷ rest) =
      if not (a.id == id) && a.token_hash == hash then true else held_elsewhere id hash rest

  unfoldable pub rotate :
      Bool → List (Account Profile) → String → Bytes → Option Time → List (Account Profile) × Update
  rotate answered accounts id hash expires =
      if not (length hash == token_hash_len)
      then (accounts, bad_hash)
      else if not answered
      then (accounts, failed)
      else if ltb 0 (rows_with_id id accounts) && held_elsewhere id hash accounts
      then (accounts, failed)
      else (set_token id hash expires accounts, updated (ltb 0 (rows_with_id id accounts)))

  -- The INSERT of a new account, with the id that the database gives it.
  unfoldable pub enroll :
      Bool
      → String
      → List (Account Profile)
      → Profile
      → Bytes
      → List (Account Profile) × Option String
  enroll answered new_id accounts profile hash =
      if not (length hash == token_hash_len)
      then (accounts, none)
      else if not answered || held_elsewhere new_id hash accounts
      then (accounts, none)
      else (
        record { id = new_id; profile = profile; token_hash = hash; expires_at = none } ∷ accounts,
        some new_id,
      )

  unfoldable pub by_id : String → List (Account Profile) → Option (Account Profile)
  by_id id [] = none
  by_id id (a ∷ rest) = if a.id == id then some a else by_id id rest

pub data Found : Type 0 where
  device : Device → Found
  unknown_device lookup_failed : Found

unfoldable pub device_by_id : Bool → List (Account Device) → String → Found
device_by_id answered devices id =
    if answered
    then elim (by_id id devices) [ none ↦ unknown_device | some a ↦ device a.profile ]
    else lookup_failed

-- AuthenticateDevice and AuthenticateViewer, RotateDeviceToken and RotateViewerToken, CreateDevice and
-- CreateViewer: one table each.
abbrev pub authenticate_device : Bool → Time → List (Account Device) → Bytes → Lookup Device
authenticate_device answered now devices hash = authenticate answered now devices hash

abbrev pub authenticate_viewer : Bool → Time → List (Account Viewer) → Bytes → Lookup Viewer
authenticate_viewer answered now viewers hash = authenticate answered now viewers hash

abbrev pub rotate_device_token :
    Bool → List (Account Device) → String → Bytes → Option Time → List (Account Device) × Update
rotate_device_token answered devices id hash expires = rotate answered devices id hash expires

abbrev pub rotate_viewer_token :
    Bool → List (Account Viewer) → String → Bytes → Option Time → List (Account Viewer) × Update
rotate_viewer_token answered viewers id hash expires = rotate answered viewers id hash expires

unfoldable pub create_device :
    Bool
    → String
    → List (Account Device)
    → String
    → String
    → Bytes
    → List (Account Device) × Option String
create_device answered new_id devices family_id name hash =
    enroll answered new_id devices (record { id = new_id; family_id = family_id; name = name }) hash

unfoldable pub create_viewer :
    Bool
    → String
    → List (Account Viewer)
    → String
    → String
    → String
    → Bytes
    → List (Account Viewer) × Option String
create_viewer answered new_id viewers family_id email display_name hash =
    enroll answered new_id viewers
      (record { id = new_id; family_id = family_id; email = email; display_name = display_name })
      hash
