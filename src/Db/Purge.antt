-- ===== src/Db/Purge.antt =====
-- What a purge takes and what it leaves.
use tracker.Base.{
  Bool, true, false, ◌≡◌, refl, not, String, none, some, List, [], ◌∷◌, map, keep, All, is_some, ℤ,
  ◌-ℤ◌, arith,
}
use tracker.Clock.{Time, after}
use tracker.Db.{Child, drop_children, drop_partitions_before, run_once}

-- Its range ends after the cutoff, or cannot be read.
abbrev pub retained : Time → Child → Bool
retained cutoff c = elim c.upper [ none ↦ true | some upper ↦ after upper cutoff ]

abbrev pub name_of : Child → String
name_of c = c.name

module _ (droppable : Child → Bool) where
  drop_children_complete :
      (cutoff : Time) (catalog : List Child)
      → All (λ c. is_some c.upper ≡ true) catalog
      → All (λ c. droppable c ≡ true) catalog
      → drop_children droppable cutoff catalog ≡ record {
        catalog = keep (retained cutoff) catalog;
        dropped = map name_of (keep (λ c. not (retained cutoff c)) catalog);
        stop = none;
      }
  unfolding drop_children
  drop_children_complete cutoff [] readable can = refl
  drop_children_complete cutoff (c ∷ rest) readable can =
      ground (arith, drop_children_complete cutoff rest readable.1 can.1, readable.0, can.0)

  -- If the catalog is listed, every bound can be read and every child can be dropped, then a
  -- purge succeeds, leaves exactly the children whose range ends after the cutoff, and reports
  -- exactly the others, in order.
  pub run_once_complete :
      (catalog : List Child) (now : Time) (window : ℤ)
      → All (λ c. is_some c.upper ≡ true) catalog
      → All (λ c. droppable c ≡ true) catalog
      → run_once droppable true catalog now window ≡ record {
        catalog = keep (retained (now -ℤ window)) catalog;
        dropped = map name_of (keep (λ c. not (retained (now -ℤ window) c)) catalog);
        stop = none;
      }
  unfolding run_once drop_partitions_before
  run_once_complete catalog now window = drop_children_complete (now -ℤ window) catalog

  drop_children_loud :
      (cutoff : Time) (catalog : List Child)
      → (drop_children droppable cutoff catalog).stop ≡ none
      → All (λ c. is_some c.upper ≡ true) catalog
  unfolding drop_children
  drop_children_loud cutoff [] h = tt
  drop_children_loud cutoff (c ∷ rest) h = ground (arith, drop_children_loud cutoff rest)

  -- A purge that reports success has listed the catalog and read the upper bound of every child.
  pub run_once_loud :
      (listed : Bool) (catalog : List Child) (now : Time) (window : ℤ)
      → (run_once droppable listed catalog now window).stop ≡ none
      → (listed ≡ true) × All (λ c. is_some c.upper ≡ true) catalog
  unfolding run_once drop_partitions_before
  run_once_loud true catalog now window h = (refl, drop_children_loud (now -ℤ window) catalog h)
  run_once_loud false catalog now window h = cc

  drop_children_keeps :
      (cutoff : Time) (catalog : List Child)
      → keep (retained cutoff) (drop_children droppable cutoff catalog).catalog
        ≡ keep (retained cutoff) catalog
  unfolding drop_children
  drop_children_keeps cutoff [] = refl
  drop_children_keeps cutoff (c ∷ rest) = ground (arith, drop_children_keeps cutoff rest)

  -- However a purge ends, it drops no child whose range ends after the cutoff or whose bound
  -- cannot be read.
  pub run_once_keeps :
      (listed : Bool) (catalog : List Child) (now : Time) (window : ℤ)
      → keep (retained (now -ℤ window)) (run_once droppable listed catalog now window).catalog
        ≡ keep (retained (now -ℤ window)) catalog
  unfolding run_once drop_partitions_before
  run_once_keeps true catalog now window = drop_children_keeps (now -ℤ window) catalog
  run_once_keeps false catalog now window = refl
