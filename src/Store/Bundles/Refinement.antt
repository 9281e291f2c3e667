-- ===== src/Store/Bundles/Refinement.antt =====
-- That a store keeps its promises.
use dtn7_go.Store.Disk.{Surroundings}
use dtn7_go.Store.Bundles.{
  BundleStore, Event, inserting, calling, collecting, finishing, perform, Running,
}
use dtn7_go.Store.Bundles.Sound.{Running-IsSound}
use dtn7_go.Store.Bundles.View.{view, Promise, calling-kept, finishing-kept, collecting-kept}
use dtn7_go.Store.Bundles.Insertion.{inserting-kept}

module _ {D : Type 0} (env : Surroundings D) where
  -- Of a running store, an event does to what can be seen of it as its promise says. An insertion
  -- tells the descriptor of a bundle that is seen who sent it; a bundle that is not seen is not seen
  -- afterwards either, or with a new descriptor. A call is seen at its own descriptor alone, and hides
  -- it if it deletes it. Garbage collection hides just the bundles that are expired and not retained.
  -- That a goroutine takes a deleted bundle out of the map cannot be seen.
  pub perform-refines :
      (e : Event) (st : BundleStore D)
      → Running env st
      → Promise env st.node_id e (view st) (view (perform env e st))
  unfolding perform
  perform-refines (inserting b) st r = inserting-kept env b st
  perform-refines (calling i c) st r = calling-kept env i c st
  perform-refines (collecting now) st r = collecting-kept env now st (Running-IsSound env st r)
  perform-refines (finishing i) st r = finishing-kept env i st (Running-IsSound env st r)
