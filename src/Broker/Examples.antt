-- ===== src/Broker/Examples.antt =====
-- A broker with two subscribers.
use metawsm.Base.{ℕ, if◌then◌else◌, ◌≡◌, refl, true, false, none, some, List, [], ◌∷◌, ◌++◌}
use metawsm.Base.Text.{trim_space, to_lower}
use metawsm.Model.Forum.{ActorType, ForumEvent}
use metawsm.Broker.{
  ForumEventSubscriber, ForumEventBroker, new_forum_event_broker, subscribe, unsubscribe,
  matches_event_filter, deliver, publish,
}
use metawsm.Broker.Valid.{IsValid, matching}
use metawsm.Broker.Pushed.{pushed, wants}
use metawsm.Broker.Safe.{
  subscribe-IsValid, new-IsValid, subscribing, unsubscribing, publishing, closing, run_calls,
  calls_never_panic, publish-matching,
}
use metawsm.Broker.Race.{publish_can_panic}

abbrev event : ForumEvent
event = record {
  sequence = 7;
  envelope = record {
    event_id = "e";
    event_type = "forum.post.added";
    event_version = 1;
    occurred_at = "1";
    thread_id = "t";
    run_id = "r";
    ticket = "K-1";
    agent_name = "a";
    actor_type = ActorType.agent;
    actor_name = "a";
    correlation_id = "";
    causation_id = "";
  };
  payload_json = "";
}

abbrev broker : ForumEventBroker
broker = (subscribe " k-1" "" (subscribe "other" "" (new_forum_event_broker 1)).1).1

broker-IsValid : IsValid broker
broker-IsValid = subscribe-IsValid " k-1" "" _ (subscribe-IsValid "other" "" _ (new-IsValid 1))

calls_never_panic_example :
    (after : ForumEventBroker) × ((run_calls
          (subscribing "K-1" ""
            ∷ publishing event
            ∷ publishing event
            ∷ unsubscribing 1
            ∷ closing
            ∷ closing
            ∷ [])
          (new_forum_event_broker 0)
        ≡ some after)
      × IsValid after)
calls_never_panic_example = calls_never_panic 0 (
    subscribing "K-1" ""
    ∷ publishing event
    ∷ publishing event
    ∷ unsubscribing 1
    ∷ closing
    ∷ closing
    ∷ [])

broker_serving : broker.closed ≡ false
unfolding subscribe
broker_serving = refl

publish-matching_example :
    (after : ForumEventBroker) × ((publish event broker
        ≡ some (matching event broker.subscribers, after))
      × IsValid after
      × (after.subscribers ≡ broker.subscribers)
      × ((id : ℕ)
          → after.channels id ≡ (
              if wants event id broker.subscribers
              then pushed broker.buffer_size event (broker.channels id)
              else broker.channels id)))
publish-matching_example = publish-matching event broker broker-IsValid broker_serving

-- One of the two subscribers is counted.
matching_one : matching event broker.subscribers ≡ 1
unfolding matching matches_event_filter subscribe trim_space to_lower
matching_one = refl

abbrev wanted : ForumEventSubscriber
wanted = record { id = 2; ticket = "k-1"; run_id = "" }

abbrev others : List ForumEventSubscriber
others = record { id = 1; ticket = "other"; run_id = "" } ∷ []

broker_split : broker.subscribers ≡ [] ++ wanted ∷ others
unfolding subscribe trim_space
broker_split = refl

wanted_matches : matches_event_filter wanted event ≡ true
unfolding matches_event_filter trim_space to_lower
wanted_matches = refl

publish_can_panic_example :
    (after : ForumEventBroker) × ((unsubscribe 2 broker ≡ some after)
      × (deliver broker.buffer_size event broker.subscribers after.channels ≡ none))
publish_can_panic_example =
    publish_can_panic event broker [] others wanted broker-IsValid broker_split wanted_matches
