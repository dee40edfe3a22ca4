-- ===== src/Indexer/Concurrent/Lone.antt =====
-- A call of the gateway that runs alone is a run of the steps into which a concurrent call is cut.
use timeline_aggregation_pro.Base.{◌≡◌, List, ◌∷◌, ◌≢◌, ◌⊎◌}
use timeline_aggregation_pro.Core.Error.{Error}
use timeline_aggregation_pro.Core.Action.{Outcome, panic}
use timeline_aggregation_pro.Indexer.Concurrent as Concurrent
use timeline_aggregation_pro.Indexer.Concurrent.{Phase, counted, asking, over, World, pending, Step}

-- The calls after one more that has ended: with the new call over, or as before where the storing of
-- the receipt panics, which is before the call touches the counter.
abbrev pub Ends : Outcome Error (Unit {0}) → List Phase → List Phase → Type 0
Ends stored calls rest =
    ((stored ≡ panic) × (rest ≡ calls)) ⊎ ((stored ≢ panic) × (rest ≡ over ∷ calls))
