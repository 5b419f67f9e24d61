-- ===== src/Broker/Valid.antt =====
-- When a broker is valid, and what its parts keep (internal/server/forum_event_broker.go).
use metawsm.Base.{
  ℕ, ◌≤◌, ◌+◌, ◌≡◌, refl, subst, Bool, true, false, some, List, [], ◌∷◌, All, length, arith, ◌==◌,
  nat_eq, string_eq, if◌then◌else◌, Bool-cases, inl, inr,
}
use metawsm.Model.Forum.{ForumEvent}
use metawsm.Broker.{
  Channel, ForumEventSubscriber, ForumEventBroker, set, close_channel, has_subscriber, remove,
  matches_event_filter, count_if, close_all,
}

-- The number of subscribers that an event is for
unfoldable pub matching : ForumEvent → List ForumEventSubscriber → ℕ
matching event [] = 0
matching event (s ∷ ss) =
    let rest = matching event ss in count_if (matches_event_filter s event) rest

-- An open channel with at most as many events as its buffer holds
abbrev pub IsLive : ℕ → Channel → Type 0
IsLive capacity c = (c.is_open ≡ true) × (length c.queue ≤ capacity)

abbrev pub AllLive : ℕ → (ℕ → Channel) → List ForumEventSubscriber → Type 0
AllLive capacity channels = All (λ s. IsLive capacity (channels s.id))

abbrev pub Distinct : List ForumEventSubscriber → Type 0
Distinct [] = Unit
Distinct (s ∷ ss) = (has_subscriber s.id ss ≡ false) × Distinct ss

pub record IsValid (b : ForumEventBroker) : Type 0 where
  pub sized : 1 ≤ b.buffer_size
  pub live : AllLive b.buffer_size b.channels b.subscribers
  pub distinct : Distinct b.subscribers
  pub below : All (λ (s : ForumEventSubscriber). s.id ≤ b.next_id) b.subscribers

pub AllLive-set :
    (capacity id : ℕ) (c : Channel) (channels : ℕ → Channel) (ss : List ForumEventSubscriber)
    → IsLive capacity c
    → AllLive capacity channels ss
    → AllLive capacity (set id c channels) ss
unfolding set
AllLive-set capacity id c channels [] h l = tt
AllLive-set capacity id c channels (s ∷ ss) h l =
    (head_live (s.id == id), AllLive-set capacity id c channels ss h l.1)
  where
    head_live : (b : Bool) → IsLive capacity (if b then c else channels s.id)
    head_live true = h
    head_live false = l.0

pub AllLive-apart :
    (capacity id : ℕ) (c : Channel) (channels : ℕ → Channel) (ss : List ForumEventSubscriber)
    → has_subscriber id ss ≡ false
    → AllLive capacity channels ss
    → AllLive capacity (set id c channels) ss
unfolding set has_subscriber
AllLive-apart capacity id c channels [] h l = tt
AllLive-apart capacity id c channels (s ∷ ss) h l = (
  head_live (s.id == id) (ground arith),
  AllLive-apart capacity id c channels ss (ground arith) l.1,
)
  where
    head_live : (b : Bool) → b ≡ false → IsLive capacity (if b then c else channels s.id)
    head_live true e = cc
    head_live false e = l.0

pub close_channel_lem :
    (id : ℕ) (channels : ℕ → Channel)
    → (channels id).is_open ≡ true
    → close_channel id channels ≡ some (set id (record (channels id) { is_open = false }) channels)
unfolding close_channel
close_channel_lem id channels h = rw h

pub close_all_lem :
    (capacity : ℕ) (ss : List ForumEventSubscriber) (channels : ℕ → Channel)
    → Distinct ss
    → AllLive capacity channels ss
    → (after : ℕ → Channel) × (close_all ss channels ≡ some after)
unfolding close_all
close_all_lem capacity [] channels d l = (channels, refl)
close_all_lem capacity (s ∷ ss) channels d l =
    let closed = record (channels s.id) { is_open = false } in
    let (after, h) =
      close_all_lem capacity ss (set s.id closed channels) d.1
        (AllLive-apart capacity s.id closed channels ss d.0 l.1) in
    (after, rw (close_channel_lem s.id channels l.0.0) h)

pub remove-All :
    (P : ForumEventSubscriber → Type 0) (id : ℕ) (ss : List ForumEventSubscriber)
    → All P ss
    → All P (remove id ss)
unfolding remove
remove-All P id [] h = tt
remove-All P id (s ∷ ss) h = kept (s.id == id) (remove-All P id ss h.1)
  where
    kept : (b : Bool) → All P (remove id ss) → All P (if b then remove id ss else s ∷ remove id ss)
    kept true rest = rest
    kept false rest = (h.0, rest)

pub has_subscriber-remove :
    (id j : ℕ) (ss : List ForumEventSubscriber)
    → has_subscriber j ss ≡ false
    → has_subscriber j (remove id ss) ≡ false
unfolding has_subscriber remove
has_subscriber-remove id j [] h = refl
has_subscriber-remove id j (s ∷ ss) h = ground (arith, has_subscriber-remove id j ss)

pub remove-has_subscriber :
    (id : ℕ) (ss : List ForumEventSubscriber) → has_subscriber id (remove id ss) ≡ false
unfolding has_subscriber remove
remove-has_subscriber id [] = refl
remove-has_subscriber id (s ∷ ss) = ground (arith, remove-has_subscriber id ss)

pub Distinct-remove :
    (id : ℕ) (ss : List ForumEventSubscriber) → Distinct ss → Distinct (remove id ss)
unfolding remove
Distinct-remove id [] d = tt
Distinct-remove id (s ∷ ss) d = kept (s.id == id) (Distinct-remove id ss d.1)
  where
    kept :
        (b : Bool)
        → Distinct (remove id ss)
        → Distinct (if b then remove id ss else s ∷ remove id ss)
    kept true rest = rest
    kept false rest = (has_subscriber-remove id s.id ss d.0, rest)

-- A subscriber's channel is live.
pub has_subscriber-live :
    (capacity id : ℕ) (channels : ℕ → Channel) (ss : List ForumEventSubscriber)
    → AllLive capacity channels ss
    → has_subscriber id ss ≡ true
    → (channels id).is_open ≡ true
unfolding has_subscriber
has_subscriber-live capacity id channels [] l h = cc
has_subscriber-live capacity id channels (s ∷ ss) l h = elim (Bool-cases (s.id == id)) [
  | inl same ↦
      let e : s.id ≡ id = ground (arith, same) in subst (λ j. (channels j).is_open ≡ true) e l.0.0
  | inr other ↦ has_subscriber-live capacity id channels ss l.1 (rw other at h)
]

pub below-fresh :
    (n : ℕ) (ss : List ForumEventSubscriber)
    → All (λ (s : ForumEventSubscriber). s.id ≤ n) ss
    → (has_subscriber (n + 1) ss ≡ false) × All (λ (s : ForumEventSubscriber). s.id ≤ n + 1) ss
unfolding has_subscriber
below-fresh n [] h = (refl, tt)
below-fresh n (s ∷ ss) h =
    let rest = below-fresh n ss h.1 in (ground (arith, h.0, rest.0), (ground (arith, h.0), rest.1))
