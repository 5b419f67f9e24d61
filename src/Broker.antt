-- ===== src/Broker.antt =====
-- internal/server/forum_event_broker.go: the fan-out of forum events to websocket subscribers. The
-- channels stand in a heap under the ids of their subscribers. `none` is a Go panic: a send to a
-- closed channel or a second close.
pub mod Valid
pub mod Pushed
pub mod Safe
pub mod Race
mod Examples
use mathlib.Core.Option
use metawsm.Base.{
  ℕ, zero, suc, ◌+◌, String, Bool, true, false, not, ◌&&◌, Option, none, some, List, [], ◌∷◌, ◌++◌,
  length, ltb, leb, ◌==◌, nat_eq, string_eq, if◌then◌else◌,
}
use metawsm.Base.Text.{trim_space, equal_fold}
use metawsm.Base.Maybe.{◌>>=◌}
use metawsm.Model.Forum.{ForumEvent}

pub record Channel : Type 0 where
  pub queue : List ForumEvent
  pub is_open : Bool

pub record ForumEventSubscriber : Type 0 where
  pub id : ℕ
  pub ticket : String
  pub run_id : String

pub record ForumEventBroker : Type 0 where
  pub closed : Bool
  pub next_id : ℕ
  pub buffer_size : ℕ
  pub subscribers : List ForumEventSubscriber
  pub channels : ℕ → Channel

abbrev pub no_channel : Channel
no_channel = record { queue = []; is_open = false }

unfoldable pub set : ℕ → Channel → (ℕ → Channel) → ℕ → Channel
set id c channels j = if j == id then c else channels j

-- `bufferSize <= 0` is `zero`.
abbrev pub new_forum_event_broker : ℕ → ForumEventBroker
new_forum_event_broker zero = record {
  closed = false;
  next_id = 0;
  buffer_size = 64;
  subscribers = [];
  channels = λ id. no_channel;
}
new_forum_event_broker (suc n) = record {
  closed = false;
  next_id = 0;
  buffer_size = suc n;
  subscribers = [];
  channels = λ id. no_channel;
}

-- The subscriber's id is `none` where the broker is closed and the caller gets a closed channel.
unfoldable pub subscribe : String → String → ForumEventBroker → Option ℕ × ForumEventBroker
subscribe ticket run_id b = if b.closed then (none, b) else (
  some (b.next_id + 1),
  record b {
    next_id = b.next_id + 1;
    subscribers =
        (record { id = b.next_id + 1; ticket = trim_space ticket; run_id = trim_space run_id })
        ∷ b.subscribers;
    channels = set (b.next_id + 1) (record { queue = []; is_open = true }) b.channels;
  },
)

unfoldable pub close_channel : ℕ → (ℕ → Channel) → Option (ℕ → Channel)
close_channel id channels =
    if (channels id).is_open
    then some (set id (record (channels id) { is_open = false }) channels)
    else none

unfoldable pub has_subscriber : ℕ → List ForumEventSubscriber → Bool
has_subscriber id [] = false
has_subscriber id (s ∷ ss) = if s.id == id then true else has_subscriber id ss

unfoldable pub remove : ℕ → List ForumEventSubscriber → List ForumEventSubscriber
remove id [] = []
remove id (s ∷ ss) = let rest = remove id ss in if s.id == id then rest else s ∷ rest

unfoldable pub unsubscribe : ℕ → ForumEventBroker → Option ForumEventBroker
unsubscribe id b =
    if has_subscriber id b.subscribers
    then Option.map
        (λ channels. record b { subscribers = remove id b.subscribers; channels = channels })
        (close_channel id b.channels)
    else some b

-- One of the two conditions on which `matchesEventFilter` returns false
abbrev pub is_filtered : String → String → Bool
is_filtered wanted given = not (wanted == "") && not (equal_fold (trim_space given) wanted)

unfoldable pub matches_event_filter : ForumEventSubscriber → ForumEvent → Bool
matches_event_filter s event =
    if is_filtered s.ticket event.envelope.ticket
    then false
    else if is_filtered s.run_id event.envelope.run_id
    then false
    else true

abbrev pub drop_one : List ForumEvent → List ForumEvent
drop_one [] = []
drop_one (_ ∷ es) = es

-- `ch <- event` under a `select` with a default: whether the event went in.
unfoldable pub try_send : ℕ → ForumEvent → List ForumEvent → Bool × List ForumEvent
try_send capacity event queue =
    if ltb (length queue) capacity then (true, queue ++ event ∷ []) else (false, queue)

-- The retry, after one stale event has been dropped
abbrev pub retry_send : ℕ → ForumEvent → Bool × List ForumEvent → Bool × List ForumEvent
retry_send capacity event (true, queue) = (true, queue)
retry_send capacity event (false, queue) = try_send capacity event (drop_one queue)

unfoldable pub try_publish_event : ℕ → ForumEvent → Channel → Option (Bool × Channel)
try_publish_event capacity event c =
    if not c.is_open
    then none
    else let after = retry_send capacity event (try_send capacity event c.queue) in
      some (after.0, record c { queue = after.1 })

abbrev pub count_if : Bool → ℕ → ℕ
count_if true n = n + 1
count_if false n = n

-- The loop of `Publish` over its snapshot
unfoldable pub deliver :
    ℕ → ForumEvent → List ForumEventSubscriber → (ℕ → Channel) → Option (ℕ × (ℕ → Channel))
deliver capacity event [] channels = some (0, channels)
deliver capacity event (s ∷ ss) channels =
    if not (matches_event_filter s event) then deliver capacity event ss channels else do
      sent ← try_publish_event capacity event (channels s.id)
      rest ← deliver capacity event ss (set s.id sent.1 channels)
      some (count_if sent.0 rest.0, rest.1)

unfoldable pub publish : ForumEvent → ForumEventBroker → Option (ℕ × ForumEventBroker)
publish event b =
    if b.closed
    then some (0, b)
    else Option.map (λ (r : ℕ × (ℕ → Channel)). (r.0, record b { channels = r.1 }))
        (deliver b.buffer_size event b.subscribers b.channels)

unfoldable pub close_all : List ForumEventSubscriber → (ℕ → Channel) → Option (ℕ → Channel)
close_all [] channels = some channels
close_all (s ∷ ss) channels = do closed ← close_channel s.id channels; close_all ss closed

unfoldable pub close : ForumEventBroker → Option ForumEventBroker
close b =
    if b.closed
    then some b
    else Option.map (λ channels. record b { closed = true; subscribers = []; channels = channels })
        (close_all b.subscribers b.channels)
