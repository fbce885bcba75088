-- ===== src/Collector/Watch/Published.antt =====
-- What the watch publishes of a stream.
use hypertrace.Prelude.{String, ◌≡◌, refl, ap, ◌∙◌, sym, Option, none, some, List, [], ◌∷◌, ◌++◌}
use mathlib.Core.List.{append-nil, append_assoc}
use hypertrace.Messaging.{routing_key_lifecycle}
use hypertrace.Effects.{World, Result, ok, err, publish_error, ◌>>◌}
use hypertrace.Effects.Sending.{Sent, delivered, lost, publish-Sent}
use hypertrace.Schemas.{LifecycleEvent}
use hypertrace.Collector.Events.{KubernetesEvent, lifecycle_event}
use hypertrace.Collector.Watch.{Action, publish_lifecycle_event, on_item, watch_stream}

abbrev pub State : Type 0
State = World LifecycleEvent (Unit {0})

abbrev pub with_found : Option LifecycleEvent → List LifecycleEvent → List LifecycleEvent
with_found none es = es
with_found (some e) es = e ∷ es

-- The events that the items of a stream lead to.
abbrev pub events_of : String → String → List KubernetesEvent → List LifecycleEvent
events_of cluster node [] = []
events_of cluster node (raw ∷ rest) =
    with_found (lifecycle_event cluster node raw) (events_of cluster node rest)

-- The messages for some events.
abbrev pub messages : List LifecycleEvent → List (String × LifecycleEvent)
messages [] = []
messages (e ∷ es) = (routing_key_lifecycle, e) ∷ messages es

-- All events are out, in order, or those before the first whose publish raised.
pub data Published (es : List LifecycleEvent) (w : State) : Result (Unit {0}) × State → Type 0 where
  complete : (w' : State) → w'.mq.sent ≡ w.mq.sent ++ messages es → Published es w (ok tt, w')
  cut :
      (w' : State) (before : List LifecycleEvent) (failed : LifecycleEvent)
      (after : List LifecycleEvent)
      → es ≡ before ++ failed ∷ after
      → w'.mq.sent ≡ w.mq.sent ++ messages before
      → Published es w (err publish_error, w')

-- One more message at the front.
pushed :
    (e : LifecycleEvent) (es : List LifecycleEvent) (w w1 : State) (p : Result (Unit {0}) × State)
    → w1.mq.sent ≡ w.mq.sent ++ (routing_key_lifecycle, e) ∷ []
    → Published es w1 p
    → Published (e ∷ es) w p
pushed e es w w1 _ h (complete w' out) =
    complete w' (out ∙ ap (λ s. s ++ messages es) h ∙ append_assoc w.mq.sent _ (messages es))
pushed e es w w1 _ h (cut w' before failed after same out) =
    cut w' (e ∷ before) failed after (ap (λ s. e ∷ s) same)
      (out ∙ ap (λ s. s ++ messages before) h ∙ append_assoc w.mq.sent _ (messages before))

then_rest :
    (e : LifecycleEvent) (es : List LifecycleEvent) (rest : Action (Unit {0})) (w : State)
    (p : Result (Unit {0}) × State)
    → Sent routing_key_lifecycle e w p
    → ((v : State) → Published es v (rest v))
    → Published (e ∷ es) w (((λ _. p) >> rest) w)
then_rest e es rest w _ (delivered c d) later =
    pushed e es w (record w { mq = c }) _ d (later (record w { mq = c }))
then_rest e es rest w _ (lost c d) later =
    cut (record w { mq = c }) [] e es refl (d ∙ sym (append-nil w.mq.sent))

on_item-Published :
    (found : Option LifecycleEvent) (es : List LifecycleEvent) (rest : Action (Unit {0}))
    (w : State)
    → ((v : State) → Published es v (rest v))
    → Published (with_found found es) w ((on_item found >> rest) w)
unfolding on_item publish_lifecycle_event
on_item-Published none es rest w later = later w
on_item-Published (some e) es rest w later =
    then_rest e es rest w _ (publish-Sent routing_key_lifecycle e w) later

-- Of the items of one stream, exactly those that lead to a lifecycle event are published, in their
-- order; when a publish raises, the message is lost, the rest of the stream with it, and those before
-- it are out.
pub watch_stream-Published :
    (cluster node : String) (raws : List KubernetesEvent) (w : State)
    → Published (events_of cluster node raws) w (watch_stream cluster node raws w)
unfolding watch_stream
watch_stream-Published cluster node [] w = complete w (sym (append-nil w.mq.sent))
watch_stream-Published cluster node (raw ∷ rest) w =
    on_item-Published (lifecycle_event cluster node raw) (events_of cluster node rest)
      (watch_stream cluster node rest) w (watch_stream-Published cluster node rest)
