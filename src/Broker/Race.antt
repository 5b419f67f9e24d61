-- ===== src/Broker/Race.antt =====
-- `Publish` gives the lock back before it sends (internal/server/forum_event_broker.go).
use metawsm.Base.{
  ℕ, ◌≡◌, refl, ap, ◌∙◌, Bool, true, false, none, some, List, [], ◌∷◌, ◌++◌, arith, ◌==◌, nat_eq,
  Bool-cases, inl, inr, subst,
}
use metawsm.Model.Forum.{ForumEvent}
use metawsm.Broker.{
  Channel, ForumEventSubscriber, ForumEventBroker, set, has_subscriber, remove, unsubscribe,
  matches_event_filter, try_send, retry_send, try_publish_event, deliver,
}
use metawsm.Broker.Valid.{IsValid, close_channel_lem, has_subscriber-live}

-- A write to one channel that leaves it as open as it was leaves a closed channel closed.
set-closed :
    (id j : ℕ) (c : Channel) (channels : ℕ → Channel)
    → c.is_open ≡ (channels id).is_open
    → (channels j).is_open ≡ false
    → (set id c channels j).is_open ≡ false
unfolding set
set-closed id j c channels same h = elim (Bool-cases (j == id)) [
  | inl here ↦
      let e : j ≡ id = ground (arith, here) in
      rw here (same ∙ subst (λ k. (channels k).is_open ≡ false) e h)
  | inr there ↦ rw there h
]

try_publish_event-closed :
    (capacity : ℕ) (event : ForumEvent) (c : Channel)
    → c.is_open ≡ false
    → try_publish_event capacity event c ≡ none
unfolding try_publish_event
try_publish_event-closed capacity event c h = rw h

try_publish_event-open :
    (capacity : ℕ) (event : ForumEvent) (c : Channel)
    → c.is_open ≡ true
    → (sent : Bool × Channel) × ((try_publish_event capacity event c ≡ some sent)
        × (sent.1.is_open ≡ c.is_open))
unfolding try_publish_event
try_publish_event-open capacity event c h =
    let after = retry_send capacity event (try_send capacity event c.queue) in
    ((after.0, record c { queue = after.1 }), (rw h, refl))

deliver-closed :
    (capacity : ℕ) (event : ForumEvent) (before rest : List ForumEventSubscriber)
    (s : ForumEventSubscriber) (channels : ℕ → Channel)
    → matches_event_filter s event ≡ true
    → (channels s.id).is_open ≡ false
    → deliver capacity event (before ++ s ∷ rest) channels ≡ none
unfolding deliver
deliver-closed capacity event [] rest s channels m c =
    rw (m, try_publish_event-closed capacity event (channels s.id) c)
deliver-closed capacity event (t ∷ before) rest s channels m c =
    elim (Bool-cases (matches_event_filter t event)) [
      | inr unwanted ↦ rw unwanted (deliver-closed capacity event before rest s channels m c)
      | inl wanted ↦ elim (Bool-cases (channels t.id).is_open) [
        | inr shut ↦ rw (wanted, try_publish_event-closed capacity event (channels t.id) shut)
        | inl serving ↦
            let (sent, (published, same)) =
              try_publish_event-open capacity event (channels t.id) serving in
            rw (wanted, published)
              (rw (
                deliver-closed capacity event before rest s (set t.id sent.1 channels) m
                  (set-closed t.id s.id sent.1 channels same c)))
      ]
    ]

has_subscriber-split :
    (s : ForumEventSubscriber) (before rest : List ForumEventSubscriber)
    → has_subscriber s.id (before ++ s ∷ rest) ≡ true
unfolding has_subscriber
has_subscriber-split s [] rest = ground arith
has_subscriber-split s (t ∷ before) rest = ground (arith, has_subscriber-split s before rest)

set-same : (id : ℕ) (c : Channel) (channels : ℕ → Channel) → set id c channels id ≡ c
unfolding set
set-same id c channels = ground arith

-- When another goroutine unsubscribes a subscriber that an event is for after `Publish` has taken
-- its snapshot and before the loop over it, the unsubscribing succeeds, and the loop then sends to
-- a closed channel and panics, wherever the subscriber stands in the snapshot and whatever the
-- subscribers before it are.
pub publish_can_panic :
    (event : ForumEvent) (b : ForumEventBroker) (before rest : List ForumEventSubscriber)
    (s : ForumEventSubscriber)
    → IsValid b
    → b.subscribers ≡ before ++ s ∷ rest
    → matches_event_filter s event ≡ true
    → (after : ForumEventBroker) × ((unsubscribe s.id b ≡ some after)
        × (deliver b.buffer_size event b.subscribers after.channels ≡ none))
unfolding unsubscribe
publish_can_panic event b before rest s v e m =
    let shut = record (b.channels s.id) { is_open = false } in
    let known : has_subscriber s.id b.subscribers ≡ true =
      rw e (has_subscriber-split s before rest) in
    (
      record b { subscribers = remove s.id b.subscribers; channels = set s.id shut b.channels },
      (
        rw (
          known,
          close_channel_lem s.id b.channels
              (has_subscriber-live b.buffer_size s.id b.channels b.subscribers v.live known),
        ),
        rw e (
            deliver-closed b.buffer_size event before rest s (set s.id shut b.channels) m
              (ap (λ (c : Channel). c.is_open) (set-same s.id shut b.channels))),
      ),
    )
