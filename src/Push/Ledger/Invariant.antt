-- ===== src/Push/Ledger/Invariant.antt =====
-- Each method of the ledger keeps the invariant, and so does every history of calls.
use tracker.Push.Ledger.Order.{
  KeysOk, Tracks, Inv, snoc-Tracks, write-Tracks, erase-Tracks, evict-Tracks, tail-Tracks,
}
use tracker.Base.{
  sym, ◌-◌, tests, ap, ℕ, ◌+◌, ◌≤◌, ◌<◌, ◌≡◌, refl, false, String, Option, none, some, List, [],
  ◌∷◌, ◌++◌, inl, inr, leb, length, is_some, contains, length-erase, Option-cases, Bool-cases,
  string_eq, arith,
}
use tracker.Base.Dict.{
  lookup, insert, delete, insert-Distinct, delete-Distinct, length-insert, length-delete,
  insert-Values, delete-Values, lookup-Values, lookup-none-nil,
}
use tracker.Push.{EndpointKey, endpoint_eq}
use tracker.Push.Ledger.{
  Keys, Ledger, new_ledger, Call, classifies, takes_back, registers, removes, resets, step, run,
  collapse_key_bound, max_tracked_endpoints, track, write_keys, classify, not_handed_over, forget,
  endpoint_registered, endpoint_removed, keys_or_new,
}

track-Inv : (l : Ledger) (e : EndpointKey) → Inv l → Inv (track l e)
unfolding track
track-Inv l e v = elim (Option-cases (lookup e l.pending)) [
  | inl fresh ↦
      let t =
        evict-Tracks max_tracked_endpoints (l.order ++ e ∷ []) (insert e [] l.pending)
          (snoc-Tracks e l.order l.pending v.tracks fresh) in
      rw (fresh, track) (record { tracks = t.0; bounded = t.1 })
  | inr (keys, held) ↦ rw (held, track) v
]

write_keys-Inv :
    (l : Ledger) (e : EndpointKey) (keys : Keys) → Inv l → KeysOk keys → Inv (write_keys l e keys)
unfolding write_keys
write_keys-Inv l e keys v ok = elim (Option-cases (lookup e l.pending)) [
  | inl missing ↦ rw (missing, write_keys) v
  | inr (old, held) ↦
      rw (held, write_keys)
        (record {
          tracks = write-Tracks e keys l.order l.pending v.tracks held ok;
          bounded = v.bounded;
        })
]

held_keys : (l : Ledger) (e : EndpointKey) → Inv l → KeysOk (keys_or_new (lookup e l.pending))
held_keys l e v = elim (Option-cases (lookup e l.pending)) [
  | inl missing ↦ rw (missing, keys_or_new) (tt, omega arith, tt)
  | inr (keys, held) ↦
      rw (held, keys_or_new) (lookup-Values KeysOk e l.pending v.tracks.keys_ok held)
]

add_key-KeysOk :
    (k : String) (n : ℕ) (keys : Keys)
    → KeysOk keys
    → length keys < collapse_key_bound
    → KeysOk (insert k (n + 1) keys)
add_key-KeysOk k n keys ok room = (
  insert-Distinct k (n + 1) keys ok.0,
  ground (arith, length-insert k (n + 1) keys),
  insert-Values (λ m. 0 < m) k (n + 1) keys (omega arith) ok.2,
)

pub classify-Inv : (l : Ledger) (e : EndpointKey) (k : String) → Inv l → Inv (classify l e k).0
unfolding classify
classify-Inv l e k v =
    elim (Bool-cases (leb collapse_key_bound (length (keys_or_new (lookup e l.pending))))) [
      | inl full ↦ rw full (track-Inv l e v)
      | inr room ↦ rw room (
          write_keys-Inv (track l e) e _ (track-Inv l e v)
            (add_key-KeysOk k _ _ (held_keys l e v) (omega tests)))
    ]

fewer_keys :
    (k : String) (keys : Keys) {n : ℕ}
    → KeysOk keys
    → lookup k keys ≡ some n
    → KeysOk (delete k keys)
fewer_keys k keys ok held = (
  delete-Distinct k keys ok.0,
  ground (arith, length-delete k keys ok.0),
  delete-Values (λ m. 0 < m) k keys ok.2,
)

lower_key :
    (k : String) (n : ℕ) (keys : Keys)
    → KeysOk keys
    → lookup k keys ≡ some n
    → 1 < n
    → KeysOk (insert k (n - 1) keys)
lower_key k n keys ok held more = (
  insert-Distinct k (n - 1) keys ok.0,
  ground (arith, length-insert k (n - 1) keys),
  insert-Values (λ m. 0 < m) k (n - 1) keys (omega arith) ok.2,
)

not_handed_over-Inv :
    (l : Ledger) (e : EndpointKey) (k : String) → Inv l → Inv (not_handed_over l e k)
unfolding not_handed_over
not_handed_over-Inv l e k v = elim (Option-cases (lookup e l.pending)) [
  | inl missing ↦ rw (missing, not_handed_over) v
  | inr (keys, held) ↦ elim (Option-cases (lookup k keys)) [
    | inl never ↦ rw (held, never, not_handed_over) v
    | inr (n, counted) ↦
        let ok = lookup-Values KeysOk e l.pending v.tracks.keys_ok held in
        let keep =
          λ (ks : Keys) (o : KeysOk ks). write-Tracks e ks l.order l.pending v.tracks held o in
        elim (Bool-cases (leb n 1)) [
          | inl last ↦
              rw (held, counted, not_handed_over, last)
                (record { tracks = keep _ (fewer_keys k keys ok counted); bounded = v.bounded })
          | inr more ↦
              rw (held, counted, not_handed_over, more)
                (record {
                  tracks = keep _ (lower_key k n keys ok counted (omega tests));
                  bounded = v.bounded;
                })
        ]
  ]
]

forget-Inv : (l : Ledger) (e : EndpointKey) → Inv l → Inv (forget l e)
unfolding forget
forget-Inv l e v = elim (Option-cases (lookup e l.pending)) [
  | inl missing ↦ rw (missing, forget) v
  | inr (keys, held) ↦
      rw (held, forget)
        (record {
          tracks = erase-Tracks e l.order l.pending v.tracks;
          bounded = omega (arith, length-erase e l.order, v.bounded);
        })
]

pub new-Inv : Inv new_ledger
new-Inv = record {
  tracks = record {
    unique = tt;
    synced = λ e. unfold contains lookup in refl;
    distinct = tt;
    keys_ok = tt;
  };
  bounded = omega arith;
}

pub step-Inv : (l : Ledger) (c : Call) → Inv l → Inv (step l c)
unfolding step endpoint_registered endpoint_removed
step-Inv l (classifies e k) v = classify-Inv l e k v
step-Inv l (takes_back e k) v = not_handed_over-Inv l e k v
step-Inv l (registers p t) v = forget-Inv l _ v
step-Inv l (removes p t) v = forget-Inv l _ v
step-Inv l resets v = new-Inv

run-Inv : (l : Ledger) (cs : List Call) → Inv l → Inv (run l cs)
unfolding run
run-Inv l [] v = v
run-Inv l (c ∷ cs) v = run-Inv (step l c) cs (step-Inv l c v)

-- After any calls the ledger holds one order entry for each tracked endpoint and no other, none
-- twice, at most 4096 of them, and at each endpoint at most four distinct keys, each with a
-- positive count.
pub run-new-Inv : (cs : List Call) → Inv (run new_ledger cs)
run-new-Inv cs = run-Inv new_ledger cs new-Inv

none_of : {A : Type 0} (o : Option A) → is_some o ≡ false → o ≡ none
none_of none h = refl
none_of (some a) h = cc

-- As many endpoints are pending as the order lists.
Tracks-length :
    (order : List EndpointKey) (pending : List (EndpointKey × Keys))
    → Tracks order pending
    → length pending ≡ length order
unfolding contains
Tracks-length [] pending t =
    ap length (lookup-none-nil pending (λ e. none_of (lookup e pending) (sym (t.synced e))))
Tracks-length (e ∷ rest) pending t =
    let shorter = Tracks-length rest (delete e pending) (tail-Tracks e rest pending t) in
    ground (arith, length-delete e pending t.distinct, shorter, t.synced e, endpoint_eq.beq_iff e e)

-- After any calls on a new ledger at most 4096 endpoints are held in memory.
pub run-pending-bounded :
    (cs : List Call) → length (run new_ledger cs).pending ≤ max_tracked_endpoints
run-pending-bounded cs =
    let v = run-new-Inv cs in omega (arith, Tracks-length _ _ v.tracks, v.bounded)
