-- ===== src/Store/Outbox/Claims.antt =====
-- What a claim of the outbox takes (internal/store/sqlite_forum.go).
use mathlib.Core.Option
use mathlib.Core.Option.{some-injective}
use metawsm.Base.{
  ℕ, zero, suc, String, ◌≡◌, refl, subst, ◌⊎◌, inl, inr, Bool, true, false, ◌||◌, some, List, [],
  ◌∷◌, All, take, arith, ◌==◌, nat_eq, string_eq, if◌then◌else◌, Bool-cases,
}
use metawsm.Base.Rows.{find}
use metawsm.Model.Outbox.{ForumOutboxMessage, processing}
use metawsm.Store.Schema.{outbox_key}
use metawsm.Store.Outbox.{
  is_claimable, claimable, insert_sorted, sort, has_id, claimed, claim_rows, chosen_rows,
}

-- Ids are unique.
abbrev pub Distinct : List ForumOutboxMessage → Type 0
Distinct [] = Unit
Distinct (m ∷ ms) = (has_id m.id ms ≡ false) × Distinct ms

has_id-insert_sorted :
    (id : ℕ) (m : ForumOutboxMessage) (ms : List ForumOutboxMessage)
    → has_id id (insert_sorted m ms) ≡ (m.id == id || has_id id ms)
unfolding has_id insert_sorted
has_id-insert_sorted id m [] = refl
has_id-insert_sorted id m (n ∷ ns) = ground (arith, has_id-insert_sorted id m ns)

has_id-sort : (id : ℕ) (ms : List ForumOutboxMessage) → has_id id (sort ms) ≡ has_id id ms
unfolding sort has_id
has_id-sort id [] = refl
has_id-sort id (m ∷ ms) = rw (has_id-insert_sorted id m (sort ms), has_id-sort id ms)

has_id-take :
    (id n : ℕ) (ms : List ForumOutboxMessage) → has_id id (take n ms) ≡ true → has_id id ms ≡ true
unfolding has_id
has_id-take id zero ms h = cc
has_id-take id (suc n) [] h = h
has_id-take id (suc n) (m ∷ ms) h = ground (arith, has_id-take id n ms)

has_id-claimable :
    (id : ℕ) (ms : List ForumOutboxMessage) → has_id id (claimable ms) ≡ true → has_id id ms ≡ true
unfolding has_id claimable
has_id-claimable id [] h = h
has_id-claimable id (m ∷ ms) h = ground (arith, has_id-claimable id ms)

-- Only claimable rows of the table lie in `chosen`.
abbrev pub Chosen : List ForumOutboxMessage → ForumOutboxMessage → Type 0
Chosen chosen m = has_id m.id chosen ≡ true → is_claimable m.status ≡ true

Chosen-cons :
    (m : ForumOutboxMessage) (ms rest : List ForumOutboxMessage)
    → has_id m.id rest ≡ false
    → All (Chosen (claimable ms)) rest
    → All (Chosen (claimable (m ∷ ms))) rest
unfolding has_id claimable
Chosen-cons m ms [] apart h = tt
Chosen-cons m ms (n ∷ rest) apart h =
    (λ e. ground (arith, h.0), Chosen-cons m ms rest (ground arith) h.1)

Chosen-front :
    (m : ForumOutboxMessage) (ms : List ForumOutboxMessage)
    → has_id m.id ms ≡ false
    → Chosen (claimable (m ∷ ms)) m
unfolding claimable
Chosen-front m ms apart e = ground (arith, has_id-claimable m.id ms)

Chosen-claimable : (ms : List ForumOutboxMessage) → Distinct ms → All (Chosen (claimable ms)) ms
Chosen-claimable [] d = tt
Chosen-claimable (m ∷ ms) d =
    (Chosen-front m ms d.0, Chosen-cons m ms ms d.0 (Chosen-claimable ms d.1))

Chosen-weaken :
    (chosen wider rows : List ForumOutboxMessage)
    → ((id : ℕ) → has_id id chosen ≡ true → has_id id wider ≡ true)
    → All (Chosen wider) rows
    → All (Chosen chosen) rows
Chosen-weaken chosen wider [] sub h = tt
Chosen-weaken chosen wider (m ∷ ms) sub h =
    (λ e. h.0 (sub m.id e), Chosen-weaken chosen wider ms sub h.1)

-- A claim chooses pending and failed rows only.
pub Chosen-chosen_rows :
    (limit : ℕ) (rows : List ForumOutboxMessage)
    → Distinct rows
    → All (Chosen (chosen_rows limit rows)) rows
unfolding chosen_rows
Chosen-chosen_rows limit rows d =
    Chosen-weaken (take limit (sort (claimable rows))) (claimable rows) rows
      (λ id e.
        let sorted = has_id-take id limit (sort (claimable rows)) e in
        rw (has_id-sort id (claimable rows)) at sorted)
      (Chosen-claimable rows d)

has_id-claim_rows :
    (id : ℕ) (marker : String) (chosen rows : List ForumOutboxMessage)
    → has_id id (claim_rows marker chosen rows) ≡ has_id id rows
unfolding has_id claim_rows
has_id-claim_rows id marker chosen [] = refl
has_id-claim_rows id marker chosen (m ∷ ms) = ground (arith, has_id-claim_rows id marker chosen ms)

pub Distinct-claim_rows :
    (marker : String) (chosen rows : List ForumOutboxMessage)
    → Distinct rows
    → Distinct (claim_rows marker chosen rows)
unfolding claim_rows
Distinct-claim_rows marker chosen [] d = tt
Distinct-claim_rows marker chosen (m ∷ ms) d =
    (head_apart (has_id m.id chosen), Distinct-claim_rows marker chosen ms d.1)
  where
    head_apart :
        (b : Bool)
        → has_id (if b then claimed marker m else m).id (claim_rows marker chosen ms) ≡ false
    head_apart true = rw (has_id-claim_rows m.id marker chosen ms) d.0
    head_apart false = rw (has_id-claim_rows m.id marker chosen ms) d.0

find-claim_rows :
    (key marker : String) (chosen rows : List ForumOutboxMessage)
    → find outbox_key key (claim_rows marker chosen rows)
      ≡ Option.map
          (λ (m : ForumOutboxMessage). if has_id m.id chosen then claimed marker m else m)
          (find outbox_key key rows)
unfolding find claim_rows
find-claim_rows key marker chosen [] = refl
find-claim_rows key marker chosen (m ∷ ms) = ground (arith, find-claim_rows key marker chosen ms)

All-find :
    (P : ForumOutboxMessage → Type 0) (key : String) (rows : List ForumOutboxMessage)
    → All P rows
    → {m : ForumOutboxMessage} → find outbox_key key rows ≡ some m
    → P m
unfolding find
All-find P key [] h e = cc
All-find P key (n ∷ rows) h {m} e = elim (Bool-cases (n.message_id == key)) [
  | inl here ↦ subst P (some-injective n m (rw here at e)) h.0
  | inr further ↦ All-find P key rows h.1 (rw further at e)
]

-- The row of a message after a claim: a pending or failed one may be taken, with one more attempt,
-- and any other one stays as it is.
pub find-claim :
    (key marker : String) (limit : ℕ) (rows : List ForumOutboxMessage)
    → Distinct rows
    → {m : ForumOutboxMessage} → find outbox_key key rows ≡ some m
    → (find outbox_key key (claim_rows marker (chosen_rows limit rows) rows) ≡ some m)
      ⊎ (is_claimable m.status ≡ true)
        × (find outbox_key key (claim_rows marker (chosen_rows limit rows) rows)
            ≡ some (claimed marker m))
find-claim key marker limit rows d {m} e =
    elim (Bool-cases (has_id m.id (chosen_rows limit rows))) [
      | inl taken ↦ inr (
        All-find (Chosen (chosen_rows limit rows)) key rows (Chosen-chosen_rows limit rows d) e
            taken,
        rw (find-claim_rows key marker (chosen_rows limit rows) rows, e) (rw taken),
      )
      | inr left ↦ inl (rw (find-claim_rows key marker (chosen_rows limit rows) rows, e) (rw left))
    ]

-- Claims one after the other, each with its limit and its marker.
unfoldable pub run_claims : List (ℕ × String) → List ForumOutboxMessage → List ForumOutboxMessage
run_claims [] rows = rows
run_claims ((limit, marker) ∷ more) rows =
    run_claims more (claim_rows marker (chosen_rows limit rows) rows)

-- A message that a claim has taken is taken by no later claim, however many follow, provided that
-- ids are unique: it stays in `processing` with the marker and the attempts that it has, until a
-- mark changes its status.
pub claimed_stays :
    (claims : List (ℕ × String)) (key : String) (rows : List ForumOutboxMessage)
    (m : ForumOutboxMessage)
    → Distinct rows
    → find outbox_key key rows ≡ some m
    → m.status ≡ processing
    → find outbox_key key (run_claims claims rows) ≡ some m
unfolding run_claims
claimed_stays [] key rows m d e p = e
claimed_stays ((limit, marker) ∷ more) key rows m d e p =
    claimed_stays more key (claim_rows marker (chosen_rows limit rows) rows) m
      (Distinct-claim_rows marker (chosen_rows limit rows) rows d) still p
  where
    still : find outbox_key key (claim_rows marker (chosen_rows limit rows) rows) ≡ some m
    still = elim (find-claim key marker limit rows d e) [ inl h ↦ h | inr (c, _) ↦ cc (c, p) ]
