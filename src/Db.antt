-- ===== src/Db.antt =====
-- internal/db/partitions.go and internal/retention/retention.go: how expired history is purged. The
-- catalog is the list of the children of `fixes` by name, each with its upper bound where it can be
-- read, and `droppable` says of which child the database carries a DROP TABLE out.
pub mod Purge
pub mod Provision
use tracker.Base.{
  Bool, true, false, not, String, Option, none, some, List, [], ◌∷◌, keep, if◌then◌else◌, ◌==◌,
  string_eq, ℤ, ◌-ℤ◌,
}
use tracker.Clock.{Time, after}

pub record Child : Type 0 where
  pub name : String
  pub upper : Option Time

-- What ends a purge early.
pub data Stop : Type 0 where
  unlisted : Stop
  unrecognized_partition : String → Stop
  undropped : String → Stop

pub record Purged : Type 0 where
  -- The children that are left.
  pub catalog : List Child
  pub dropped : List String
  pub stop : Option Stop

-- One more drop, before what the rest of the loop does.
abbrev pub and_dropped : String → Purged → Purged
and_dropped name p = record p { dropped = name ∷ p.dropped }

abbrev pub and_kept : Child → Purged → Purged
and_kept c p = record p { catalog = c ∷ p.catalog }

module _ (droppable : Child → Bool) where
  -- The loop over the children read before any DROP runs.
  unfoldable pub drop_children : Time → List Child → Purged
  drop_children cutoff [] = record { catalog = []; dropped = []; stop = none }
  drop_children cutoff (c ∷ rest) =
      let later = drop_children cutoff rest in
      elim c.upper [
        | none ↦ record {
          catalog = c ∷ rest;
          dropped = [];
          stop = some (unrecognized_partition c.name);
        }
        | some upper ↦
            if after upper cutoff
            then and_kept c later
            else if droppable c
            then and_dropped c.name later
            else record { catalog = c ∷ rest; dropped = []; stop = some (undropped c.name) }
      ]

  -- `listed` says whether the catalog query succeeds.
  unfoldable pub drop_partitions_before : Bool → List Child → Time → Purged
  drop_partitions_before listed catalog cutoff =
      if listed
      then drop_children cutoff catalog
      else record { catalog = catalog; dropped = []; stop = some unlisted }

  -- Job.RunOnce at the instant `now`, with the job's window.
  unfoldable pub run_once : Bool → List Child → Time → ℤ → Purged
  run_once listed catalog now window = drop_partitions_before listed catalog (now -ℤ window)

  -- Job.Run: one purge at once and one at every tick, whatever the one before met.
  unfoldable pub run : ℤ → List Child → List (Time × Bool) → List Child
  run window catalog [] = catalog
  run window catalog ((now, listed) ∷ ticks) =
      run window (run_once listed catalog now window).catalog ticks
