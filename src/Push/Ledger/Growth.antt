-- ===== src/Push/Ledger/Growth.antt =====
-- The counts of every endpoint after one classification, while nothing is evicted.
use tracker.Base.{
  ℕ, ◌+◌, ◌≤◌, ◌<◌, ◌≡◌, ◌&&◌, String, List, [], ◌∷◌, ◌++◌, inl, inr, ltb, leb, ◌≢◌, if◌then◌else◌,
  length, length-append, ◌==◌, Option-cases, Bool-cases, string_eq, arith,
}
use tracker.Base.Dict.{lookup, insert, delete}
use tracker.Push.{handed_over, beyond_collapse_bound, EndpointKey, endpoint_eq}
use tracker.Push.Ledger.{
  Keys, Ledger, max_tracked_endpoints, evict, track, write_keys, classify, pending_keys,
  pending_count, keys_or_new, collapse_key_bound,
}
use tracker.Push.Ledger.Order.{Inv}
use tracker.Push.Ledger.Classify.{classify-counts, classify-others}

evict-length :
    (cap : ℕ) (order : List EndpointKey) (pending : List (EndpointKey × Keys))
    → length (evict cap order pending).order ≤ length order
unfolding evict
evict-length cap [] pending = omega arith
evict-length cap (o ∷ rest) pending = ground (arith, evict-length cap rest (delete o pending))

track-length : (l : Ledger) (e : EndpointKey) → length (track l e).order ≤ length l.order + 1
unfolding track
track-length l e = elim (Option-cases (lookup e l.pending)) [
  | inl fresh ↦
      rw (fresh, track)
        (omega (
          arith,
          evict-length max_tracked_endpoints (l.order ++ e ∷ []) (insert e [] l.pending),
          length-append l.order (e ∷ []),
        ))
  | inr (keys, held) ↦ rw (held, track) (omega arith)
]

write_keys-length :
    (l : Ledger) (e : EndpointKey) (keys : Keys)
    → length (write_keys l e keys).order ≡ length l.order
unfolding write_keys
write_keys-length l e keys = ground arith

pub classify-length :
    (l : Ledger) (e : EndpointKey) (k : String)
    → length (classify l e k).0.order ≤ length l.order + 1
unfolding classify
classify-length l e k =
    let keys = keys_or_new (lookup e l.pending) in
    elim (Bool-cases (leb collapse_key_bound (length keys))) [
      | inl full ↦ rw full (track-length l e)
      | inr room ↦ rw room (rw write_keys-length (track-length l e))
    ]

same_elsewhere :
    (l : Ledger) (e i : EndpointKey) (k j : String)
    → Inv l
    → length l.order < max_tracked_endpoints
    → e ≢ i
    → pending_count (classify l e k).0 i j ≡ pending_count l i j
unfolding pending_count
same_elsewhere l e i k j v room other = ground (arith, classify-others l e v k i other)

-- While fewer than 4096 endpoints are tracked, a hand-over adds one to its own count, and changes no
-- other.
pub classify-count :
    (l : Ledger) (e i : EndpointKey) (k j : String)
    → Inv l
    → length l.order < max_tracked_endpoints
    → pending_count (classify l e k).0 i j ≡ (
        if ltb (pending_keys l e) 4 && (e == i && k == j)
        then pending_count l i j + 1
        else pending_count l i j)
classify-count l e i k j v room = elim (Bool-cases (e == i)) [
  | inl same ↦ ground (arith, classify-counts l e v k j, endpoint_eq.beq_iff e i)
  | inr other ↦
      ground (arith, same_elsewhere l e i k j v room (λ h. ground (arith, endpoint_eq.beq_iff e i)))
]

pub classify-outcome :
    (l : Ledger) (e : EndpointKey) (k : String)
    → (classify l e k).1 ≡ (if ltb (pending_keys l e) 4 then handed_over else beyond_collapse_bound)
unfolding classify pending_keys
classify-outcome l e k = ground arith
