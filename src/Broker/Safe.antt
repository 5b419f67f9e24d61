-- ===== src/Broker/Safe.antt =====
-- What every sequence of calls of the broker keeps (internal/server/forum_event_broker.go).
use mathlib.Core.Option
use metawsm.Base.{
  ℕ, zero, suc, ◌+◌, String, ◌≡◌, refl, Bool, true, false, Option, none, some, List, [], ◌∷◌, arith,
  nat_eq, string_eq, if◌then◌else◌, Bool-cases, inl, inr,
}
use metawsm.Base.Maybe.{◌>>=◌}
use metawsm.Model.Forum.{ForumEvent}
use metawsm.Broker.{
  ForumEventBroker, set, new_forum_event_broker, subscribe, has_subscriber, remove, unsubscribe,
  publish, close,
}
use metawsm.Broker.Pushed.{
  pushed, wants, push_all, push_all_lem, push_all-AllLive, deliver-push_all,
}
use metawsm.Broker.Valid.{
  AllLive-apart, AllLive-set, Distinct-remove, IsLive, IsValid, below-fresh, close_all_lem,
  close_channel_lem, has_subscriber-live, matching, remove-All, remove-has_subscriber,
}

pub data BrokerCall : Type 0 where
  subscribing : String → String → BrokerCall
  unsubscribing : ℕ → BrokerCall
  publishing : ForumEvent → BrokerCall
  closing : BrokerCall

unfoldable pub run_call : BrokerCall → ForumEventBroker → Option ForumEventBroker
run_call (subscribing ticket run_id) b = some (subscribe ticket run_id b).1
run_call (unsubscribing id) b = unsubscribe id b
run_call (publishing event) b = Option.map (λ (r : ℕ × ForumEventBroker). r.1) (publish event b)
run_call closing b = close b

unfoldable pub run_calls : List BrokerCall → ForumEventBroker → Option ForumEventBroker
run_calls [] b = some b
run_calls (call ∷ calls) b = do after ← run_call call b; run_calls calls after

either-IsValid :
    (c : Bool) (x y : Option ℕ × ForumEventBroker)
    → IsValid x.1
    → IsValid y.1
    → IsValid (if c then x else y).1
either-IsValid true x y h k = h
either-IsValid false x y h k = k

pub subscribe-IsValid :
    (ticket run_id : String) (b : ForumEventBroker)
    → IsValid b
    → IsValid (subscribe ticket run_id b).1
unfolding subscribe set
subscribe-IsValid ticket run_id b v =
    let fresh = below-fresh b.next_id b.subscribers v.below in
    either-IsValid b.closed (none, b) _ v
      (record {
        sized = v.sized;
        live = (
          new_channel,
          AllLive-set b.buffer_size (b.next_id + 1) _ b.channels b.subscribers (refl, ground arith)
              v.live,
        );
        distinct = (fresh.0, v.distinct);
        below = (ground arith, fresh.1);
      })
  where
    new_channel :
        IsLive b.buffer_size
          (set (b.next_id + 1) (record { queue = []; is_open = true }) b.channels (b.next_id + 1))
    new_channel = ground arith

unsubscribe-IsValid :
    (id : ℕ) (b : ForumEventBroker)
    → IsValid b
    → (after : ForumEventBroker) × ((unsubscribe id b ≡ some after) × IsValid after)
unfolding unsubscribe
unsubscribe-IsValid id b v = elim (Bool-cases (has_subscriber id b.subscribers)) [
  | inr unknown ↦ (b, (rw unknown, v))
  | inl known ↦
      let closed = record (b.channels id) { is_open = false } in
      (
        record b { subscribers = remove id b.subscribers; channels = set id closed b.channels },
        (
          rw (
            known,
            close_channel_lem id b.channels
                (has_subscriber-live b.buffer_size id b.channels b.subscribers v.live known),
          ),
          record {
            sized = v.sized;
            live =
                AllLive-apart b.buffer_size id closed b.channels (remove id b.subscribers)
                  (remove-has_subscriber id b.subscribers) (remove-All _ id b.subscribers v.live);
            distinct = Distinct-remove id b.subscribers v.distinct;
            below = remove-All _ id b.subscribers v.below;
          },
        ),
      )
]

-- In a valid broker that is not closed, publishing returns the number of the subscribers that the
-- event is for, and puts the event at the end of the channel of each of them, from which the
-- oldest event is dropped where the channel is full; every other channel stays as it is, the
-- subscribers stay, and the broker stays valid.
pub publish-matching :
    (event : ForumEvent) (b : ForumEventBroker)
    → IsValid b
    → b.closed ≡ false
    → (after : ForumEventBroker) × ((publish event b ≡ some (matching event b.subscribers, after))
        × IsValid after
        × (after.subscribers ≡ b.subscribers)
        × ((id : ℕ)
            → after.channels id ≡ (
                if wants event id b.subscribers
                then pushed b.buffer_size event (b.channels id)
                else b.channels id)))
unfolding publish
publish-matching event b v serving =
    let sent = deliver-push_all b.buffer_size event b.subscribers b.channels v.sized v.live in
    let channels = push_all b.buffer_size event b.subscribers b.channels in
    let live =
      push_all-AllLive b.buffer_size event b.subscribers b.subscribers b.channels v.sized v.live
        v.live in
    (
      record b { channels = channels },
      (
        rw (serving, sent),
        record { sized = v.sized; live = live; distinct = v.distinct; below = v.below },
        refl,
        push_all_lem b.buffer_size event b.subscribers b.channels v.distinct,
      ),
    )

close-IsValid :
    (b : ForumEventBroker)
    → IsValid b
    → (after : ForumEventBroker) × ((close b ≡ some after) × IsValid after)
unfolding close
close-IsValid b v = elim (Bool-cases b.closed) [
  | inl closed ↦ (b, (rw closed, v))
  | inr serving ↦
      let (channels, shut) =
        close_all_lem b.buffer_size b.subscribers b.channels v.distinct v.live in
      (
        record b { closed = true; subscribers = []; channels = channels },
        (rw (serving, shut), record { sized = v.sized; live = tt; distinct = tt; below = tt }),
      )
]

publish-IsValid :
    (event : ForumEvent) (b : ForumEventBroker)
    → IsValid b
    → (after : ForumEventBroker) × ((Option.map
            (λ (r : ℕ × ForumEventBroker). r.1)
            (publish event b)
          ≡ some after)
        × IsValid after)
unfolding publish
publish-IsValid event b v = elim (Bool-cases b.closed) [
  | inl closed ↦ (b, (rw closed, v))
  | inr serving ↦
      let (after, (sent, valid, _, _)) = publish-matching event b v serving in
      (after, (rw sent, valid))
]

run_call-IsValid :
    (call : BrokerCall) (b : ForumEventBroker)
    → IsValid b
    → (after : ForumEventBroker) × ((run_call call b ≡ some after) × IsValid after)
unfolding run_call
run_call-IsValid (subscribing ticket run_id) b v =
    ((subscribe ticket run_id b).1, (refl, subscribe-IsValid ticket run_id b v))
run_call-IsValid (unsubscribing id) b v = unsubscribe-IsValid id b v
run_call-IsValid (publishing event) b v = publish-IsValid event b v
run_call-IsValid closing b v = close-IsValid b v

run_calls-IsValid :
    (calls : List BrokerCall) (b : ForumEventBroker)
    → IsValid b
    → (after : ForumEventBroker) × ((run_calls calls b ≡ some after) × IsValid after)
unfolding run_calls
run_calls-IsValid [] b v = (b, (refl, v))
run_calls-IsValid (call ∷ calls) b v =
    let (next, (ran, valid)) = run_call-IsValid call b v in
    let (after, (rest, still)) = run_calls-IsValid calls next valid in (after, (rw ran rest, still))

pub new-IsValid : (n : ℕ) → IsValid (new_forum_event_broker n)
new-IsValid zero = record { sized = ground arith; live = tt; distinct = tt; below = tt }
new-IsValid (suc n) = record { sized = ground arith; live = tt; distinct = tt; below = tt }

-- Calls of a new broker that follow one another, of any kinds and in any order, never panic: no
-- event goes to a closed channel and no channel is closed twice. What they leave is valid: its
-- subscribers have ids of their own and open channels that hold no more than the buffer's size.
pub calls_never_panic :
    (buffer_size : ℕ) (calls : List BrokerCall)
    → (after : ForumEventBroker) × ((run_calls calls (new_forum_event_broker buffer_size)
          ≡ some after)
        × IsValid after)
calls_never_panic buffer_size calls =
    run_calls-IsValid calls (new_forum_event_broker buffer_size) (new-IsValid buffer_size)
