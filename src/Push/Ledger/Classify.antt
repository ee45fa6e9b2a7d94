-- ===== src/Push/Ledger/Classify.antt =====
-- What Classify answers, what it leaves at every endpoint, and what takes it back.
use tracker.Base.{
  ◌⊎◌, ◌&&◌, ◌==◌, ap, ◌∙◌, is_some, length-append, ℕ, ◌+◌, ◌-◌, ◌≤◌, ◌<◌, ◌≡◌, ◌≢◌, ◌↔◌, refl,
  true, false, String, none, some, List, [], ◌∷◌, ◌++◌, inl, inr, ltb, if◌then◌else◌, length,
  contains, Option-cases, string_eq, arith,
}
use tracker.Base.Dict.{lookup, insert, delete, lookup-insert, lookup-delete}
use tracker.Push.{EndpointKey, endpoint_eq, handed_over, beyond_collapse_bound}
use tracker.Push.Ledger.Order.{Inv}
use tracker.Push.Ledger.{
  endpoint_removed, Keys, Ledger, max_tracked_endpoints, evict, track, write_keys, classify,
  not_handed_over, forget, keys_or_new, count_or_zero, pending_keys, pending_count,
  endpoint_registered,
}

-- A crossing is beyond the collapse bound exactly if four or more distinct keys were already pending
-- at its endpoint, a repeat of one of them included.
pub classify-beyond_iff :
    (l : Ledger) (e : EndpointKey) (k : String)
    → ((classify l e k).1 ≡ beyond_collapse_bound) ↔ (4 ≤ pending_keys l e)
unfolding classify pending_keys
classify-beyond_iff l e k = (λ h. ground arith, λ h. ground arith)

-- The eviction drops the oldest entries, so never the one that has just been added.
evict-newest :
    (cap : ℕ) (e : EndpointKey) (order : List EndpointKey) (pending : List (EndpointKey × Keys))
    → 1 ≤ cap
    → contains e order ≡ false
    → lookup e (evict cap (order ++ e ∷ []) pending).pending ≡ lookup e pending
unfolding evict contains
evict-newest cap e [] pending pos h = ground arith
evict-newest cap e (o ∷ rest) pending pos h =
    ground (arith, evict-newest cap e rest (delete o pending) pos, lookup-delete o e pending)

-- Any other entry is left as it is or dropped, and dropped only past the bound.
evict-others :
    (cap : ℕ) (j : EndpointKey) (order : List EndpointKey) (pending : List (EndpointKey × Keys))
    → (lookup j (evict cap order pending).pending ≡ lookup j pending)
      ⊎ ((lookup j (evict cap order pending).pending ≡ none) × (cap < length order))
unfolding evict
evict-others cap j [] pending = inl refl
evict-others cap j (o ∷ rest) pending =
    ground (arith, evict-others cap j rest (delete o pending), lookup-delete o j pending)

module _ (l : Ledger) (e : EndpointKey) (v : Inv l) where
  pub track_self : lookup e (track l e).pending ≡ some (keys_or_new (lookup e l.pending))
  unfolding track
  track_self = elim (Option-cases (lookup e l.pending)) [
    | inl fresh ↦
        rw (fresh, track)
          (evict-newest max_tracked_endpoints e l.order (insert e [] l.pending) (omega arith)
              (v.tracks.synced e ∙ ap is_some fresh)
            ∙ ground (arith, lookup-insert e e [] l.pending, endpoint_eq.beq_iff e e))
    | inr (keys, held) ↦ rw (held, track) held
  ]

  track-others :
      (j : EndpointKey)
      → e ≢ j
      → (lookup j (track l e).pending ≡ lookup j l.pending)
        ⊎ ((lookup j (track l e).pending ≡ none) × (max_tracked_endpoints ≤ length l.order))
  unfolding track
  track-others j other = elim (Option-cases (lookup e l.pending)) [
    | inl fresh ↦
        rw (fresh, track)
          (ground (
            arith,
            evict-others max_tracked_endpoints j (l.order ++ e ∷ []) (insert e [] l.pending),
            lookup-insert e j [] l.pending,
            endpoint_eq.beq_iff e j,
            length-append l.order (e ∷ []),
          ))
    | inr (keys, held) ↦ rw (held, track) (inl refl)
  ]

  -- In a ledger that satisfies the invariant, a classification adds one to the key's own count at
  -- the endpoint if fewer than four distinct keys were pending there, and changes no other count
  -- at the endpoint.
  pub classify-counts :
      (k j : String)
      → pending_count (classify l e k).0 e j ≡ (
          if ltb (pending_keys l e) 4 && k == j
          then pending_count l e j + 1
          else pending_count l e j)
  unfolding classify pending_count pending_keys write_keys
  classify-counts k j = ground (
    arith,
    track_self,
    string_eq.beq_iff k j,
    lookup-insert k j (count_or_zero (lookup k (keys_or_new (lookup e l.pending))) + 1)
        (keys_or_new (lookup e l.pending)),
    endpoint_eq.beq_iff e e,
    lookup-insert e e
        (insert k (count_or_zero (lookup k (keys_or_new (lookup e l.pending))) + 1)
          (keys_or_new (lookup e l.pending)))
        (track l e).pending,
  )

  -- In a ledger that satisfies the invariant, a classification leaves the keys of any other
  -- endpoint as they are, unless 4096 endpoints were tracked already: then the endpoint may be
  -- forgotten.
  pub classify-others :
      (k : String) (j : EndpointKey)
      → e ≢ j
      → (lookup j (classify l e k).0.pending ≡ lookup j l.pending)
        ⊎ ((pending_keys (classify l e k).0 j ≡ 0) × (4096 ≤ length l.order))
  unfolding classify write_keys pending_keys
  classify-others k j other =
      let keys = keys_or_new (lookup e l.pending) in
      ground (
        arith,
        track_self,
        track-others j other,
        endpoint_eq.beq_iff e j,
        lookup-insert e j (insert k (count_or_zero (lookup k keys) + 1) keys) (track l e).pending,
      )

pub lookup-nil : (j : String) → lookup {V = ℕ} j [] ≡ none
unfolding lookup
lookup-nil j = refl

-- Taking a hand-over of a key back lowers the key's own count at the endpoint by one, if it has
-- one, and changes no other count anywhere.
pub not_handed_over-counts :
    (l : Ledger) (e i : EndpointKey) (k j : String)
    → pending_count (not_handed_over l e k) i j
      ≡ (if e == i && k == j then pending_count l i j - 1 else pending_count l i j)
unfolding not_handed_over pending_count
not_handed_over-counts l e i k j = elim (Option-cases (lookup e l.pending)) [
  | inl missing ↦
      rw (missing, not_handed_over) (ground (arith, missing, lookup-nil j, endpoint_eq.beq_iff e i))
  | inr (keys, held) ↦ ground (
    arith,
    held,
    string_eq.beq_iff k j,
    endpoint_eq.beq_iff e i,
    lookup-delete k j keys,
    lookup-insert e i (delete k keys) l.pending,
    lookup-insert k j (count_or_zero (lookup k keys) - 1) keys,
    lookup-insert e i (insert k (count_or_zero (lookup k keys) - 1) keys) l.pending,
  )
]

handed_over-room :
    (l : Ledger) (e : EndpointKey) (k : String)
    → (classify l e k).1 ≡ handed_over
    → ltb (pending_keys l e) 4 ≡ true
unfolding classify pending_keys
handed_over-room l e k h = ground arith

-- In a ledger that satisfies the invariant, a hand-over that is taken back leaves every count at
-- its endpoint as if it had not been made.
pub not_handed_over-classify :
    (l : Ledger) (e : EndpointKey) (k j : String)
    → Inv l
    → (classify l e k).1 ≡ handed_over
    → pending_count (not_handed_over (classify l e k).0 e k) e j ≡ pending_count l e j
not_handed_over-classify l e k j v h =
    let room = handed_over-room l e k h in
    rw (not_handed_over-counts, classify-counts l e v k j)
      (ground (arith, room, endpoint_eq.beq_iff e e))

forget-pending :
    (l : Ledger) (e i : EndpointKey)
    → pending_keys (forget l e) i ≡ (if e == i then 0 else pending_keys l i)
unfolding forget pending_keys
forget-pending l e i = elim (Option-cases (lookup e l.pending)) [
  | inl missing ↦ rw (missing, forget) (ground (arith, missing, endpoint_eq.beq_iff e i))
  | inr (keys, held) ↦ rw (held, forget) (ground (arith, lookup-delete e i l.pending))
]

-- An endpoint that registers again, or is removed, has nothing pending, and every other endpoint
-- has as many keys pending as before.
pub endpoint_registered-pending :
    (l : Ledger) (e i : EndpointKey)
    → (pending_keys (endpoint_registered l e.provider e.token) i
        ≡ (if e == i then 0 else pending_keys l i))
      × (pending_keys (endpoint_removed l e.provider e.token) i
          ≡ (if e == i then 0 else pending_keys l i))
unfolding endpoint_registered endpoint_removed
endpoint_registered-pending l e i = (forget-pending l e i, forget-pending l e i)
