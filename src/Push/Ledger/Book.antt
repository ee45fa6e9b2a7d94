-- ===== src/Push/Ledger/Book.antt =====
-- internal/push/ledger.go: the ledger against a book that keeps each endpoint's keys on their own and
-- forgets none.
use tracker.Base.{
  ℕ, suc, ◌+◌, ◌-◌, ◌≤◌, ◌≡◌, arith, refl, ap, ◌∙◌, String, none, some, List, [], ◌∷◌, inl, inr,
  leb, if◌then◌else◌, length, length-erase, ◌==◌, Option-cases, Bool-cases, string_eq, nat_eq,
}
use tracker.Base.Dict.{lookup, insert, delete, lookup-insert, lookup-delete}
use tracker.Push.{handed_over, beyond_collapse_bound, EndpointKey, endpoint_eq}
use tracker.Push.Ledger.{
  Keys, Ledger, max_tracked_endpoints, new_ledger, track, write_keys, classify, not_handed_over,
  forget, endpoint_registered, endpoint_removed, keys_or_new, count_or_zero, pending_keys, Call,
  classifies, takes_back, registers, removes, resets, step, run,
}
use tracker.Push.Ledger.Order.{Inv}
use tracker.Push.Ledger.Classify.{lookup-nil, track_self, classify-others}
use tracker.Push.Ledger.Growth.{classify-length}
use tracker.Push.Ledger.Invariant.{step-Inv, new-Inv}

-- One more hand-over of a key, while fewer than four keys are pending.
unfoldable pub joined : String → Keys → Keys
joined k keys =
    if leb 4 (length keys) then keys else insert k (count_or_zero (lookup k keys) + 1) keys

-- One hand-over of a key less.
unfoldable pub lowered : String → Keys → Keys
lowered k keys = elim (lookup k keys) [
  | none ↦ keys
  | some n ↦ if leb n 1 then delete k keys else insert k (n - 1) keys
]

-- The keys of the endpoint `i` after one call, from those before it alone.
unfoldable pub book_step : EndpointKey → Keys → Call → Keys
book_step i keys (classifies e k) = if e == i then joined k keys else keys
book_step i keys (takes_back e k) = if e == i then lowered k keys else keys
book_step i keys (registers p t) = if record { provider = p; token = t } == i then [] else keys
book_step i keys (removes p t) = if record { provider = p; token = t } == i then [] else keys
book_step i keys resets = []

unfoldable pub book : EndpointKey → Keys → List Call → Keys
book i keys [] = keys
book i keys (c ∷ cs) = book i (book_step i keys c) cs

-- How many of the calls classify.
unfoldable pub classified : List Call → ℕ
classified [] = 0
classified (classifies e k ∷ cs) = suc (classified cs)
classified (_ ∷ cs) = classified cs

abbrev pub keys_at : Ledger → EndpointKey → Keys
keys_at l i = keys_or_new (lookup i l.pending)

pending_keys-zero : (l : Ledger) (i : EndpointKey) → pending_keys l i ≡ 0 → keys_at l i ≡ []
unfolding pending_keys
pending_keys-zero l i h = ground arith

classify-own :
    (l : Ledger) (e : EndpointKey) (k : String)
    → Inv l
    → keys_at (classify l e k).0 e ≡ joined k (keys_at l e)
unfolding classify joined write_keys
classify-own l e k v = ground (
  arith,
  track_self l e v,
  endpoint_eq.beq_iff e e,
  lookup-insert e e
      (insert k (count_or_zero (lookup k (keys_or_new (lookup e l.pending))) + 1)
        (keys_or_new (lookup e l.pending)))
      (track l e).pending,
)

not_handed_over-keys :
    (l : Ledger) (e i : EndpointKey) (k : String)
    → keys_at (not_handed_over l e k) i ≡ (if e == i then lowered k (keys_at l i) else keys_at l i)
unfolding not_handed_over lowered
not_handed_over-keys l e i k = elim (Option-cases (lookup e l.pending)) [
  | inl missing ↦ ground (arith, missing, lookup-nil k, endpoint_eq.beq_iff e i)
  | inr (keys, held) ↦ ground (
    arith,
    held,
    endpoint_eq.beq_iff e i,
    lookup-insert e i (delete k keys) l.pending,
    lookup-insert e i (insert k (count_or_zero (lookup k keys) - 1) keys) l.pending,
  )
]

forget-keys :
    (l : Ledger) (e i : EndpointKey) → keys_at (forget l e) i ≡ (if e == i then [] else keys_at l i)
unfolding forget
forget-keys l e i = ground (arith, lookup-delete e i l.pending, endpoint_eq.beq_iff e i)

outcome-keys :
    (l : Ledger) (i : EndpointKey) (k : String) (keys : Keys)
    → keys_at l i ≡ keys
    → (classify l i k).1 ≡ (if leb 4 (length keys) then beyond_collapse_bound else handed_over)
unfolding classify
outcome-keys l i k keys h = ground (arith, ap (λ (ks : Keys). length ks) h)

-- One step, while there is room for one more endpoint if the call classifies.
step-book_step :
    (l : Ledger) (i : EndpointKey) (c : Call)
    → Inv l
    → length l.order + classified (c ∷ []) ≤ max_tracked_endpoints
    → keys_at (step l c) i ≡ book_step i (keys_at l i) c
unfolding step book_step classified lookup endpoint_registered endpoint_removed
step-book_step l i (classifies e k) v room = elim (Bool-cases (e == i)) [
  | inl same ↦ ground (arith, classify-own l e k v, endpoint_eq.beq_iff e i)
  | inr other ↦ ground (
    arith,
    classify-others l e v k i (λ h. ground (arith, endpoint_eq.beq_iff e i)),
    ap keys_or_new,
  )
]
step-book_step l i (takes_back e k) v room = not_handed_over-keys l e i k
step-book_step l i (registers p t) v room = forget-keys l (record { provider = p; token = t }) i
step-book_step l i (removes p t) v room = forget-keys l (record { provider = p; token = t }) i
step-book_step l i resets v room = refl

not_handed_over-length :
    (l : Ledger) (e : EndpointKey) (k : String)
    → length (not_handed_over l e k).order ≡ length l.order
unfolding not_handed_over
not_handed_over-length l e k = ground arith

forget-length : (l : Ledger) (e : EndpointKey) → length (forget l e).order ≤ length l.order
unfolding forget
forget-length l e = ground (arith, length-erase e l.order)

-- A call tracks at most the one endpoint that it classifies at.
step-length :
    (l : Ledger) (c : Call) → length (step l c).order ≤ length l.order + classified (c ∷ [])
unfolding step classified endpoint_registered endpoint_removed
step-length l (classifies e k) = omega (arith, classify-length l e k)
step-length l (takes_back e k) = omega (arith, not_handed_over-length l e k)
step-length l (registers p t) = omega (arith, forget-length l (record { provider = p; token = t }))
step-length l (removes p t) = omega (arith, forget-length l (record { provider = p; token = t }))
step-length l resets = omega arith

classified-first :
    (c : Call) (cs : List Call) → classified (c ∷ cs) ≡ classified (c ∷ []) + classified cs
unfolding classified
classified-first (classifies e k) cs = omega arith
classified-first (takes_back e k) cs = omega arith
classified-first (registers p t) cs = omega arith
classified-first (removes p t) cs = omega arith
classified-first resets cs = omega arith

run-keys :
    (l : Ledger) (i : EndpointKey) (cs : List Call)
    → Inv l
    → length l.order + classified cs ≤ max_tracked_endpoints
    → keys_at (run l cs) i ≡ book i (keys_at l i) cs
unfolding run book
run-keys l i [] v room = refl
run-keys l i (c ∷ cs) v room =
    run-keys (step l c) i cs (step-Inv l c v)
      (omega (arith, room, step-length l c, classified-first c cs))
    ∙ ap (λ keys. book i keys cs)
        (step-book_step l i c v (omega (arith, room, classified-first c cs)))

-- Whatever calls a new ledger has answered, at most 4096 of them classifications, the keys
-- pending at an endpoint and their counts are those of a book that keeps each endpoint on its own
-- and forgets none, and the next classification there is a hand-over exactly while the book has
-- fewer than four keys for it.
pub run-book :
    (cs : List Call) (i : EndpointKey) (k : String)
    → classified cs ≤ 4096
    → (keys_at (run new_ledger cs) i ≡ book i [] cs)
      × ((classify (run new_ledger cs) i k).1
          ≡ (if leb 4 (length (book i [] cs)) then beyond_collapse_bound else handed_over))
unfolding lookup
run-book cs i k few =
    let same = run-keys new_ledger i cs new-Inv (omega (arith, few)) in
    (same, outcome-keys (run new_ledger cs) i k (book i [] cs) same)
