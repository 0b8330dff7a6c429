-- ===== src/Core/Events.antt =====
-- `ExecutionEventRecorder` of crates/wasmatrix-core/src/lib.rs.
use wasmatrix.Prelude.{◌≡◌, refl, String, List, [], ◌∷◌, ◌++◌, ◌==◌, retain}
use wasmatrix.HashMap
use wasmatrix.Core.Types.{DateTime, ExecutionEvent, new_event, with_details}

pub record ExecutionEventRecorder : Type 0 where
  pub events : List ExecutionEvent

abbrev pub new_recorder : ExecutionEventRecorder
new_recorder = record { events = [] }

unfoldable pub record_event : ExecutionEventRecorder → ExecutionEvent → ExecutionEventRecorder
record_event r event = record r { events = r.events ++ (event ∷ []) }

unfoldable pub record_crash :
    ExecutionEventRecorder → DateTime → String → String → ExecutionEventRecorder
unfolding record_event new_event with_details
record_crash r now instance_id error = record_event r (
    with_details (new_event now "instance_crashed" instance_id)
      (HashMap.insert HashMap.empty "error" error))

unfoldable pub record_restart : ExecutionEventRecorder → DateTime → String → ExecutionEventRecorder
unfolding record_event new_event
record_restart r now instance_id = record_event r (new_event now "instance_restarted" instance_id)

unfoldable pub record_start : ExecutionEventRecorder → DateTime → String → ExecutionEventRecorder
unfolding record_event new_event
record_start r now instance_id = record_event r (new_event now "instance_started" instance_id)

unfoldable pub record_stop : ExecutionEventRecorder → DateTime → String → ExecutionEventRecorder
unfolding record_event new_event
record_stop r now instance_id = record_event r (new_event now "instance_stopped" instance_id)

abbrev pub get_events : ExecutionEventRecorder → List ExecutionEvent
get_events r = r.events

unfoldable pub get_events_for_instance : ExecutionEventRecorder → String → List ExecutionEvent
unfolding retain
get_events_for_instance r instance_id = retain (λ e. e.instance_id == instance_id) r.events

abbrev pub clear : ExecutionEventRecorder → ExecutionEventRecorder
clear r = record r { events = [] }

pub events-record_crash :
    (r : ExecutionEventRecorder) (now : DateTime) (i e : String)
    → (record_crash r now i e).events
      ≡ r.events
        ++ (with_details
              (new_event now "instance_crashed" i)
              (HashMap.insert HashMap.empty "error" e)
            ∷ [])
unfolding record_crash
events-record_crash r now i e = refl

pub events-record_restart :
    (r : ExecutionEventRecorder) (now : DateTime) (i : String)
    → (record_restart r now i).events ≡ r.events ++ (new_event now "instance_restarted" i ∷ [])
unfolding record_restart
events-record_restart r now i = refl

pub events-record_start :
    (r : ExecutionEventRecorder) (now : DateTime) (i : String)
    → (record_start r now i).events ≡ r.events ++ (new_event now "instance_started" i ∷ [])
unfolding record_start
events-record_start r now i = refl

pub events-record_stop :
    (r : ExecutionEventRecorder) (now : DateTime) (i : String)
    → (record_stop r now i).events ≡ r.events ++ (new_event now "instance_stopped" i ∷ [])
unfolding record_stop
events-record_stop r now i = refl
