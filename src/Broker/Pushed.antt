-- ===== src/Broker/Pushed.antt =====
-- Where `Publish` puts an event (internal/server/forum_event_broker.go).
use metawsm.Base.{
  ℕ, ◌≤◌, ◌≡◌, refl, Bool, true, false, ◌&&◌, some, List, [], ◌∷◌, ◌++◌, length, length-append, ltb,
  arith, ◌==◌, nat_eq, string_eq, if◌then◌else◌, Bool-cases, inl, inr,
}
use metawsm.Model.Forum.{ForumEvent}
use metawsm.Broker.{
  Channel, ForumEventSubscriber, set, has_subscriber, matches_event_filter, drop_one, try_send,
  retry_send, try_publish_event, deliver,
}
use metawsm.Broker.Valid.{matching, IsLive, Distinct, AllLive, AllLive-set}

-- The event at the end of the channel, from which the oldest is dropped where it is full
unfoldable pub pushed : ℕ → ForumEvent → Channel → Channel
pushed capacity event c = record c {
  queue =
      if ltb (length c.queue) capacity
      then c.queue ++ event ∷ []
      else drop_one c.queue ++ event ∷ [];
}

-- Whether a subscriber has this id and lets the event through
unfoldable pub wants : ForumEvent → ℕ → List ForumEventSubscriber → Bool
wants event id [] = false
wants event id (s ∷ ss) =
    let rest = wants event id ss in
    if s.id == id && matches_event_filter s event then true else rest

unfoldable pub push_all : ℕ → ForumEvent → List ForumEventSubscriber → (ℕ → Channel) → ℕ → Channel
push_all capacity event [] channels = channels
push_all capacity event (s ∷ ss) channels = push_all capacity event ss (
    if matches_event_filter s event
    then set s.id (pushed capacity event (channels s.id)) channels
    else channels)

pushed_queue :
    (capacity : ℕ) (event : ForumEvent) (queue : List ForumEvent)
    → 1 ≤ capacity
    → length queue ≤ capacity
    → retry_send capacity event (try_send capacity event queue) ≡ (
      true,
      if ltb (length queue) capacity then queue ++ event ∷ [] else drop_one queue ++ event ∷ [],
    )
unfolding try_send
pushed_queue capacity event [] h l = ground arith
pushed_queue capacity event (e ∷ es) h l = ground arith

try_publish_event-pushed :
    (capacity : ℕ) (event : ForumEvent) (c : Channel)
    → 1 ≤ capacity
    → IsLive capacity c
    → try_publish_event capacity event c ≡ some (true, pushed capacity event c)
unfolding try_publish_event pushed
try_publish_event-pushed capacity event c h l = rw (l.0, pushed_queue capacity event c.queue h l.1)

short :
    (capacity : ℕ) (event : ForumEvent) (queue : List ForumEvent)
    → 1 ≤ capacity
    → length queue ≤ capacity
    → length
        (if ltb (length queue) capacity then queue ++ event ∷ [] else drop_one queue ++ event ∷ [])
      ≤ capacity
short capacity event [] h l = ground arith
short capacity event (e ∷ es) h l = ground (arith, length-append es (event ∷ []))

pushed-IsLive :
    (capacity : ℕ) (event : ForumEvent) (c : Channel)
    → 1 ≤ capacity
    → IsLive capacity c
    → IsLive capacity (pushed capacity event c)
unfolding pushed
pushed-IsLive capacity event c h l = (l.0, short capacity event c.queue h l.1)

pub deliver-push_all :
    (capacity : ℕ) (event : ForumEvent) (ss : List ForumEventSubscriber) (channels : ℕ → Channel)
    → 1 ≤ capacity
    → AllLive capacity channels ss
    → deliver capacity event ss channels
      ≡ some (matching event ss, push_all capacity event ss channels)
unfolding deliver matching push_all
deliver-push_all capacity event [] channels h l = refl
deliver-push_all capacity event (s ∷ ss) channels h l =
    elim (Bool-cases (matches_event_filter s event)) [
      | inl wanted ↦
          rw (wanted, try_publish_event-pushed capacity event (channels s.id) h l.0)
            (rw (
              deliver-push_all capacity event ss _ h (
                AllLive-set capacity s.id _ channels ss
                  (pushed-IsLive capacity event (channels s.id) h l.0) l.1)))
      | inr unwanted ↦ rw unwanted (rw (deliver-push_all capacity event ss channels h l.1))
    ]

AllLive-if :
    (capacity : ℕ) (b : Bool) (id : ℕ) (c : Channel) (channels : ℕ → Channel)
    (ss : List ForumEventSubscriber)
    → IsLive capacity c
    → AllLive capacity channels ss
    → AllLive capacity (if b then set id c channels else channels) ss
AllLive-if capacity true id c channels ss h l = AllLive-set capacity id c channels ss h l
AllLive-if capacity false id c channels ss h l = l

pub push_all-AllLive :
    (capacity : ℕ) (event : ForumEvent) (all ss : List ForumEventSubscriber)
    (channels : ℕ → Channel)
    → 1 ≤ capacity
    → AllLive capacity channels all
    → AllLive capacity channels ss
    → AllLive capacity (push_all capacity event ss channels) all
unfolding push_all
push_all-AllLive capacity event all [] channels h a l = a
push_all-AllLive capacity event all (s ∷ ss) channels h a l =
    let live = pushed-IsLive capacity event (channels s.id) h l.0 in
    let wanted = matches_event_filter s event in
    push_all-AllLive capacity event all ss _ h
      (AllLive-if capacity wanted s.id _ channels all live a)
      (AllLive-if capacity wanted s.id _ channels ss live l.1)

unwanted_apart :
    (event : ForumEvent) (id : ℕ) (ss : List ForumEventSubscriber)
    → has_subscriber id ss ≡ false
    → wants event id ss ≡ false
unfolding has_subscriber wants
unwanted_apart event id [] h = refl
unwanted_apart event id (s ∷ ss) h = ground (arith, unwanted_apart event id ss)

pub push_all_lem :
    (capacity : ℕ) (event : ForumEvent) (ss : List ForumEventSubscriber) (channels : ℕ → Channel)
    → Distinct ss
    → (id : ℕ)
    → push_all capacity event ss channels id
      ≡ (if wants event id ss then pushed capacity event (channels id) else channels id)
unfolding push_all wants set
push_all_lem capacity event [] channels d id = refl
push_all_lem capacity event (s ∷ ss) channels d id =
    let apart = unwanted_apart event s.id ss d.0 in
    elim (Bool-cases (matches_event_filter s event)) [
      | inl wanted ↦
          let rest =
            push_all_lem capacity event ss
              (set s.id (pushed capacity event (channels s.id)) channels) d.1 id in
          rw wanted (ground (arith, rest, apart))
      | inr unwanted ↦
          let rest = push_all_lem capacity event ss channels d.1 id in
          rw unwanted (ground (arith, rest))
    ]
