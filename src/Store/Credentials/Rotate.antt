-- ===== src/Store/Credentials/Rotate.antt =====
-- What a rotation leaves of the old token and of the other accounts.
use tracker.Base.{
  is_some, true, false, String, Option, none, some, List, [], ◌∷◌, length, if◌then◌else◌, ◌==◌,
  nat_eq, map, Unique, string_eq, ◌≡◌, ◌≢◌, arith, ltb, refl, contains,
}
use tracker.Clock.{Time}
use tracker.Store.Credentials.{
  Bytes, bytes_eq, Account, found, unknown_token, updated, unexpired, by_token, authenticate,
  set_token, rows_with_id, held_elsewhere, rotate, token_hash_len, by_id,
}

abbrev pub hash_of : {Profile : Type 0} → Account Profile → Bytes
hash_of a = a.token_hash

module _ {Profile : Type 0} (now : Time) (id : String) (hash : Bytes) (expires : Option Time) where
  -- A digest that no account holds finds none after the update, unless it is the new one.
  absent :
      (old : Bytes) (accounts : List (Account Profile))
      → old ≢ hash
      → contains old (map hash_of accounts) ≡ false
      → by_token now old (set_token id hash expires accounts) ≡ none
  unfolding by_token set_token contains
  absent old [] other h = refl
  absent old (a ∷ rest) other h =
      ground
        (arith, absent old rest other, bytes_eq.beq_iff hash old, bytes_eq.beq_iff a.token_hash old)

  -- Any other digest finds whom it found before, and the account of the update by none.
  set_token-others :
      (old : Bytes) (accounts : List (Account Profile))
      → old ≢ hash
      → Unique (map hash_of accounts)
      → by_token now old (set_token id hash expires accounts) ≡ elim (by_token now old accounts) [
        | none ↦ none
        | some a ↦ if a.id == id then none else some a
      ]
  unfolding by_token set_token
  set_token-others old [] other u = refl
  set_token-others old (a ∷ rest) other u = ground (
    arith,
    set_token-others old rest other u.1,
    absent old rest other,
    bytes_eq.beq_iff hash old,
    bytes_eq.beq_iff a.token_hash old,
  )

  -- The new digest finds the account, if no other account holds it.
  set_token-own :
      (accounts : List (Account Profile))
      → unexpired now expires ≡ true
      → held_elsewhere id hash accounts ≡ false
      → by_token now hash (set_token id hash expires accounts) ≡ elim (by_id id accounts) [
        | none ↦ none
        | some a ↦ some (record a { token_hash = hash; expires_at = expires })
      ]
  unfolding by_token set_token held_elsewhere by_id
  set_token-own [] valid free = refl
  set_token-own (a ∷ rest) valid free =
      ground (arith, set_token-own rest valid, bytes_eq.beq_iff hash hash)

  -- What a rotation that changed a row has tested, and the table that it leaves.
  rotated :
      (accounts left : List (Account Profile))
      → rotate true accounts id hash expires ≡ (left, updated true)
      → (length hash ≡ token_hash_len)
        × (held_elsewhere id hash accounts ≡ false)
        × (left ≡ set_token id hash expires accounts)
        × (ltb 0 (rows_with_id id accounts) ≡ true)
  unfolding rotate
  rotated accounts left h = ground arith

  rows-by_id :
      (accounts : List (Account Profile))
      → ltb 0 (rows_with_id id accounts) ≡ true
      → is_some (by_id id accounts) ≡ true
  unfolding rows_with_id by_id
  rows-by_id [] h = ground arith
  rows-by_id (a ∷ rest) h = ground (arith, rows-by_id rest)

  -- If no two accounts share a digest, then after a rotation that changed a row, to a digest that
  -- has not expired, the new digest finds the account of that id, which there is, and any other
  -- digest of the right length finds whom it found before, except that account, which it no
  -- longer finds.
  pub authenticate-rotate :
      (accounts left : List (Account Profile)) (old : Bytes)
      → Unique (map hash_of accounts)
      → unexpired now expires ≡ true
      → rotate true accounts id hash expires ≡ (left, updated true)
      → length old ≡ token_hash_len
      → old ≢ hash
      → (authenticate true now left old ≡ elim (by_token now old accounts) [
        | none ↦ unknown_token
        | some a ↦ if a.id == id then unknown_token else found a.profile
      ])
        × (authenticate true now left hash
            ≡ elim (by_id id accounts) [ none ↦ unknown_token | some a ↦ found a.profile ])
        × (is_some (by_id id accounts) ≡ true)
  unfolding authenticate
  authenticate-rotate accounts left old u valid h long other =
      let (size, free, same, known) = rotated accounts left h in
      (
        rw same (rw (set_token-others old accounts other u) (ground arith)),
        rw same (rw (set_token-own accounts valid free) (ground arith)),
        rows-by_id accounts known,
      )
