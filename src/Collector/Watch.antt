-- ===== src/Collector/Watch.antt =====
-- services/collector/app: the watch of k8s_events.py, with the callback of main.py, and the loop
-- `_collect_loop` around a cycle.
pub mod Published
use hypertrace.Prelude.{ℕ, zero, suc, ◌-◌, String, Option, none, some, List, [], ◌∷◌, ◌++◌}
use hypertrace.Float.{Float}
use hypertrace.Messaging.{routing_key_lifecycle}
use hypertrace.Effects.{Exec, World, Result, ok, err, pure, raise, publish, ◌>>◌}
use hypertrace.Schemas.{LifecycleEvent, MetricEvent}
use hypertrace.Collector.Resolver.{Resolver}
use hypertrace.Collector.Kubelet.{Summary}
use hypertrace.Collector.Events.{KubernetesEvent, lifecycle_event}
use hypertrace.Collector.Cycle.{Agent, collect_once}

-- The watch keeps no state but its client.
abbrev pub Action : Type 0 → Type 0
Action A = Exec LifecycleEvent (Unit {0}) A

-- `_publish_lifecycle_event`
unfoldable pub publish_lifecycle_event : LifecycleEvent → Action (Unit {0})
publish_lifecycle_event e = publish routing_key_lifecycle e

-- The body of the loop over the stream, by the event that an item leads to.
unfoldable pub on_item : Option LifecycleEvent → Action (Unit {0})
on_item none = pure tt
on_item (some e) = publish_lifecycle_event e

-- The items of one stream, up to its end or its error.
unfoldable pub watch_stream : String → String → List KubernetesEvent → Action (Unit {0})
watch_stream cluster node [] = pure tt
watch_stream cluster node (raw ∷ rest) =
    on_item (lifecycle_event cluster node raw) >> watch_stream cluster node rest

-- `watch_lifecycle_events` on the streams that the API opens one after another. What a stream raises
-- is passed over.
unfoldable pub watch_lifecycle_events :
    String
    → String
    → List (List KubernetesEvent)
    → World LifecycleEvent (Unit {0})
    → World LifecycleEvent (Unit {0})
watch_lifecycle_events cluster node [] w = w
watch_lifecycle_events cluster node (stream ∷ streams) w =
    watch_lifecycle_events cluster node streams (watch_stream cluster node stream w).1

-- A turn of the collector: what the kubelet answers, and the monotonic clock before and after the
-- cycle, in microseconds.
pub record Turn : Type 0 where
  pub summary : Result Summary
  pub started : ℕ
  pub ended : ℕ

-- `COLLECT_INTERVAL_SECONDS`, in microseconds, and `max(0.0, interval - elapsed)`.
abbrev pub pause : ℕ → Turn → ℕ
pause interval t = interval - (t.ended - t.started)

module _ {N : Type 0} ⦃f : Float N⦄ where
  abbrev pub cycle : Agent → Result Summary → Exec (MetricEvent N) Resolver (Unit {0})
  cycle a (ok summary) = collect_once a summary
  cycle a (err e) = raise e

  -- `_collect_loop` on the turns that it takes: the pauses, and what is left. What a cycle raises is
  -- passed over.
  unfoldable pub collect_loop :
      ℕ
      → Agent
      → List Turn
      → World (MetricEvent N) Resolver
      → List ℕ × World (MetricEvent N) Resolver
  collect_loop interval a [] w = ([], w)
  collect_loop interval a (t ∷ turns) w =
      let (pauses, w') = collect_loop interval a turns (cycle a t.summary w).1 in
      (pause interval t ∷ pauses, w')
