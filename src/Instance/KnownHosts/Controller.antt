-- ===== src/Instance/KnownHosts/Controller.antt =====
-- KnownHostsController of greenplum-instance/controllers/knownHosts_controller.go: the informer
-- that it sets up, and what it does with the events of that informer.
pub mod Touches
use greenplum_for_kubernetes.Prelude.{ℕ, List, [], ◌∷◌}
use greenplum_for_kubernetes.Prelude.Text.{String, ◌&◌}
use greenplum_for_kubernetes.Prelude.Effects.{
  Eff, Result, pure, returned, attempt, wrapping, ◌>>=◌, ◌>>◌,
}
use greenplum_for_kubernetes.Instance.Machine.{Machine, Call}
use greenplum_for_kubernetes.Instance.Config.{
  Parsers, get_namespace, get_greenplum_cluster_name, read_string_helper,
}
use greenplum_for_kubernetes.Instance.KnownHosts.{Keys, reconcile_known_hosts}

-- What the shared informer factory is made with; the field selector by its one term.
pub record InformerOptions : Type 0 where
  pub resync_hours : ℕ
  pub namespace : String
  pub label_selector : String
  pub field_selector : String × String

-- The object of an event: an Endpoints by the ready host names of its subsets, or anything else.
pub data EventObj : Type 0 where
  endpoints : (subsets : List (List String)) → EventObj
  other : EventObj

pub data Event : Type 0 where
  added : EventObj → Event
  updated : (old_obj new_obj : EventObj) → Event

-- Which object the handlers pass on.
abbrev pub event_obj : Event → EventObj
event_obj (added obj) = obj
event_obj (updated old_obj new_obj) = new_obj

-- The options for a cluster of this name in this namespace.
abbrev pub options_of : (ns name : String) → InformerOptions
options_of ns name = record {
  resync_hours = 2;
  namespace = ns;
  label_selector = "greenplum-cluster=" & name;
  field_selector = ("metadata.name", "agent");
}

module _ {K : Type 0} (m : Machine K) (keys : Keys K) where
  -- Reconcile on an object; errors are logged only.
  abbrev pub reconcile_obj : EventObj → Eff Call (Unit {0})
  reconcile_obj (endpoints subsets) = reconcile_known_hosts m keys subsets
  reconcile_obj other = pure tt

  -- The handlers, one event after the other.
  unfoldable pub handle_events : List Event → Eff Call (Unit {0})
  unfolding reconcile_known_hosts
  handle_events [] = pure tt
  handle_events (event ∷ rest) = do
    result ← attempt (reconcile_obj (event_obj event))
    handle_events rest

  -- KnownHostsController.Run, up to the start of the informer.
  unfoldable pub run_controller : Parsers → (client : Result (Unit {0})) → Eff Call InformerOptions
  unfolding read_string_helper
  run_controller parsers client = do
    wrapping "failed to initialize client" (returned client)
    ns ← wrapping "failed to read namespace" (get_namespace m parsers)
    name ← wrapping "failed to read greenplumcluster name" (get_greenplum_cluster_name m parsers)
    pure (options_of ns name)

  -- The controller with the events that an informer of these options passes on.
  unfoldable pub watch_known_hosts :
      Parsers
      → (client : Result (Unit {0})) → (informer : InformerOptions → List Event)
      → Eff Call (Unit {0})
  unfolding run_controller handle_events
  watch_known_hosts parsers client informer = do
    options ← run_controller parsers client
    handle_events (informer options)
