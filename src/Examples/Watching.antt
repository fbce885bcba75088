-- ===== src/Examples/Watching.antt =====
-- The watch, on a pod that starts and an event that is of no interest.
use hypertrace.Prelude.{none, some, List, [], ◌∷◌}
use hypertrace.Collector.Events.{KubernetesEvent}
use hypertrace.Collector.Watch.{watch_stream}
use hypertrace.Collector.Watch.Published.{State, Published, events_of, watch_stream-Published}
use hypertrace.Examples.{world}

abbrev started : KubernetesEvent
started = record {
  reason = some "Started";
  message = none;
  kind = "Pod";
  name = "cart-7d9f-x2";
  namespace = some "shop";
  last_timestamp = some 5;
  event_time = none;
  first_timestamp = none;
}

abbrev pulled : KubernetesEvent
pulled = record started { reason = some "Pulled" }

abbrev stream : List KubernetesEvent
stream = started ∷ pulled ∷ started ∷ []

abbrev idle : State
idle = world tt

watch_stream-Published_example :
    Published (events_of "kind" "node-1" stream) idle (watch_stream "kind" "node-1" stream idle)
watch_stream-Published_example = watch_stream-Published "kind" "node-1" stream idle
