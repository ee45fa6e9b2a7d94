-- ===== src/Push/Ledger/Order.antt =====
-- What every history of the ledger keeps: one order entry for each tracked endpoint, within the
-- bound, and at most four keys at an endpoint, each counted.
use tracker.Base.{
  ap, ◌∙◌, ℕ, suc, ◌≤◌, ◌<◌, ◌≡◌, none, some, List, [], ◌∷◌, ◌++◌, inl, inr, ltb, length, is_some,
  contains, erase, Unique, contains-snoc, contains-erase, snoc-Unique, erase-Unique, Bool-cases,
  string_eq, arith,
}
use tracker.Base.Dict.{
  lookup, insert, delete, Distinct, Values, lookup-insert, lookup-delete, insert-Distinct,
  delete-Distinct, insert-Values, delete-Values,
}
use tracker.Push.{EndpointKey, endpoint_eq}
use tracker.Push.Ledger.{Keys, Ledger, collapse_key_bound, max_tracked_endpoints, evict}

abbrev pub KeysOk : Keys → Type 0
KeysOk keys = Distinct keys × (length keys ≤ collapse_key_bound) × Values (λ n. 0 < n) keys

pub record Tracks (order : List EndpointKey) (pending : List (EndpointKey × Keys)) : Type 0 where
  pub unique : Unique order
  pub synced : (e : EndpointKey) → contains e order ≡ is_some (lookup e pending)
  pub distinct : Distinct pending
  pub keys_ok : Values KeysOk pending

pub record Inv (l : Ledger) : Type 0 where
  pub tracks : Tracks l.order l.pending
  pub bounded : length l.order ≤ max_tracked_endpoints

pub snoc-Tracks :
    (e : EndpointKey) (order : List EndpointKey) (pending : List (EndpointKey × Keys))
    → Tracks order pending
    → lookup e pending ≡ none
    → Tracks (order ++ e ∷ []) (insert e [] pending)
snoc-Tracks e order pending t fresh = record {
  unique = snoc-Unique e order (t.synced e ∙ ap is_some fresh) t.unique;
  synced = λ j. ground (arith, contains-snoc j e order, lookup-insert e j [] pending, t.synced j);
  distinct = insert-Distinct e [] pending t.distinct;
  keys_ok = insert-Values KeysOk e [] pending (tt, omega arith, tt) t.keys_ok;
}

pub write-Tracks :
    (e : EndpointKey) (keys : Keys) {old : Keys} (order : List EndpointKey)
    (pending : List (EndpointKey × Keys))
    → Tracks order pending
    → lookup e pending ≡ some old
    → KeysOk keys
    → Tracks order (insert e keys pending)
write-Tracks e keys order pending t held ok = record {
  unique = t.unique;
  synced = λ j. ground (arith, lookup-insert e j keys pending, t.synced j, endpoint_eq.beq_iff e j);
  distinct = insert-Distinct e keys pending t.distinct;
  keys_ok = insert-Values KeysOk e keys pending ok t.keys_ok;
}

pub erase-Tracks :
    (e : EndpointKey) (order : List EndpointKey) (pending : List (EndpointKey × Keys))
    → Tracks order pending
    → Tracks (erase e order) (delete e pending)
erase-Tracks e order pending t = record {
  unique = erase-Unique e order t.unique;
  synced =
      λ j. ground (arith, contains-erase e j order t.unique, lookup-delete e j pending, t.synced j);
  distinct = delete-Distinct e pending t.distinct;
  keys_ok = delete-Values KeysOk e pending t.keys_ok;
}

pub tail-Tracks :
    (e : EndpointKey) (rest : List EndpointKey) (pending : List (EndpointKey × Keys))
    → Tracks (e ∷ rest) pending
    → Tracks rest (delete e pending)
tail-Tracks e rest pending t = record {
  unique = t.unique.1;
  synced = λ j.
      unfold contains in
      ground (arith, lookup-delete e j pending, t.synced j, endpoint_eq.beq_iff e j, t.unique);
  distinct = delete-Distinct e pending t.distinct;
  keys_ok = delete-Values KeysOk e pending t.keys_ok;
}

-- The loop of evictLocked ends within its bound and keeps the two views in step.
pub evict-Tracks :
    (cap : ℕ) (order : List EndpointKey) (pending : List (EndpointKey × Keys))
    → Tracks order pending
    → let l = evict cap order pending in Tracks l.order l.pending × (length l.order ≤ cap)
unfolding evict
evict-Tracks cap [] pending t = (t, omega arith)
evict-Tracks cap (e ∷ rest) pending t = elim (Bool-cases (ltb cap (suc (length rest)))) [
  | inl over ↦ rw over (evict-Tracks cap rest (delete e pending) (tail-Tracks e rest pending t))
  | inr fits ↦ rw fits (t, ground arith)
]
