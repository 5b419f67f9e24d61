-- ===== src/Federation/Preferred.antt =====
-- Which tickets a merge shows (internal/docfederation/merge.go).
use metawsm.Base.{
  ℕ, ◌≤◌, String, Bool, true, false, Option, none, some, List, [], ◌∷◌, ◌≡◌, refl, sym, subst, ◌⊎◌,
  inl, inr, ◌==◌, string_eq, nat_eq, if◌then◌else◌, arith, eq_iff, Bool-cases, eq_refl,
}
use metawsm.Base.Text.{trim_space, text_ltb_irrefl, text_ltb_trans}
use metawsm.Base.Rows.{find, upsert, find-upsert, key-find}
use metawsm.Federation.{
  TicketItem, EndpointSnapshot, ActiveContext, AggregatedTicket, endpoint_kind_rank, candidate,
  ticket_key, preferred_over, put_candidate, put_items, put_snapshots, is_reachable,
  merge_workspace_first,
}

-- The list has the member.
abbrev pub Has : {A : Type 0} → A → List A → Type 0
Has x [] = ⊥
Has x (y ∷ ys) = (y ≡ x) ⊎ Has x ys

-- A sort loses no member.
abbrev pub IsSort : ((A : Type 0) → (A → A → Bool) → List A → List A) → Type 1
IsSort sort =
    (A : Type 0) (less : A → A → Bool) (xs : List A) (x : A) → Has x xs → Has x (sort A less xs)

find-Has :
    (k : String) (rows : List AggregatedTicket) {e : AggregatedTicket}
    → find ticket_key k rows ≡ some e
    → Has e rows
unfolding find
find-Has k [] h = cc
find-Has k (r ∷ rs) {e} h = by_key (ticket_key r == k) h (find-Has k rs)
  where
    by_key :
        (b : Bool)
        → (if b then some r else find ticket_key k rs) ≡ some e
        → (find ticket_key k rs ≡ some e → Has e rs)
        → Has e (r ∷ rs)
    by_key true h rest = inl cc
    by_key false h rest = inr (rest h)

module _ (parse : String → ℕ) where
  preferred_irrefl : (c : AggregatedTicket) → preferred_over parse c c ≡ false
  unfolding preferred_over
  preferred_irrefl c = ground (arith, text_ltb_irrefl c.source_name)

  -- What a ticket is not preferred over, it is not preferred over what replaces that.
  preferred_trans :
      (c d e : AggregatedTicket)
      → preferred_over parse c e ≡ false
      → preferred_over parse d e ≡ true
      → preferred_over parse c d ≡ false
  unfolding preferred_over
  preferred_trans c d e h k =
      ground (arith, text_ltb_trans c.source_name d.source_name e.source_name)

  rank_not_below :
      (c e : AggregatedTicket)
      → preferred_over parse c e ≡ false
      → endpoint_kind_rank c.source_kind ≤ endpoint_kind_rank e.source_kind
  unfolding preferred_over
  rank_not_below c e h = ground arith

  -- The rows hold, under the key of the ticket, one that the ticket is not preferred over.
  abbrev pub IsRepresented : AggregatedTicket → List AggregatedTicket → Type 0
  IsRepresented c rows =
      (e : AggregatedTicket) × (find ticket_key (ticket_key c) rows ≡ some e)
      × (preferred_over parse c e ≡ false)

  upsert-IsRepresented :
      (c : AggregatedTicket) (rows : List AggregatedTicket)
      → IsRepresented c (upsert ticket_key c rows)
  upsert-IsRepresented c rows = (
    c,
    ground (arith, find-upsert ticket_key (ticket_key c) c rows, eq_refl (ticket_key c)),
    preferred_irrefl c,
  )

  put_candidate-IsRepresented :
      (c : AggregatedTicket) (rows : List AggregatedTicket)
      → IsRepresented c (put_candidate parse c rows)
  unfolding put_candidate
  put_candidate-IsRepresented c rows = by_found (find ticket_key (ticket_key c) rows) refl
    where
      by_found :
          (o : Option AggregatedTicket)
          → find ticket_key (ticket_key c) rows ≡ o
          → IsRepresented c (elim o [
            | none ↦ upsert ticket_key c rows
            | some e ↦ if preferred_over parse c e then upsert ticket_key c rows else rows
          ])
      by_found none h = upsert-IsRepresented c rows
      by_found (some e) h = elim (Bool-cases (preferred_over parse c e)) [
        | inl k ↦
            subst (λ b. IsRepresented c (if b then upsert ticket_key c rows else rows)) (sym k)
              (upsert-IsRepresented c rows)
        | inr k ↦
            subst (λ b. IsRepresented c (if b then upsert ticket_key c rows else rows)) (sym k)
              (e, h, k)
      ]

  replaced-IsRepresented :
      (d c e f : AggregatedTicket) (rows : List AggregatedTicket)
      → find ticket_key (ticket_key c) rows ≡ some e
      → preferred_over parse c e ≡ false
      → find ticket_key (ticket_key d) rows ≡ some f
      → preferred_over parse d f ≡ true
      → IsRepresented c (upsert ticket_key d rows)
  replaced-IsRepresented d c e f rows h k g l = elim (Bool-cases (ticket_key d == ticket_key c)) [
    | inl p ↦ (
      d,
      ground (arith, find-upsert ticket_key (ticket_key c) d rows),
      preferred_trans c d e k (same_row p),
    )
    | inr p ↦ (e, ground (arith, find-upsert ticket_key (ticket_key c) d rows), k)
  ]
    where
      same_row : (ticket_key d == ticket_key c) ≡ true → preferred_over parse d e ≡ true
      same_row p = ground (arith, eq_iff (ticket_key d) (ticket_key c))

  kept-IsRepresented :
      (d c e : AggregatedTicket) (rows : List AggregatedTicket)
      → find ticket_key (ticket_key c) rows ≡ some e
      → preferred_over parse c e ≡ false
      → find ticket_key (ticket_key d) rows ≡ none
      → IsRepresented c (upsert ticket_key d rows)
  kept-IsRepresented d c e rows h k g = (
    e,
    ground
        (arith, find-upsert ticket_key (ticket_key c) d rows, eq_iff (ticket_key d) (ticket_key c)),
    k,
  )

  put_candidate_keeps-IsRepresented :
      (d c : AggregatedTicket) (rows : List AggregatedTicket)
      → IsRepresented c rows
      → IsRepresented c (put_candidate parse d rows)
  unfolding put_candidate
  put_candidate_keeps-IsRepresented d c rows (e, h, k) =
      by_found (find ticket_key (ticket_key d) rows) refl
    where
      by_found :
          (o : Option AggregatedTicket)
          → find ticket_key (ticket_key d) rows ≡ o
          → IsRepresented c (elim o [
            | none ↦ upsert ticket_key d rows
            | some f ↦ if preferred_over parse d f then upsert ticket_key d rows else rows
          ])
      by_found none g = kept-IsRepresented d c e rows h k g
      by_found (some f) g = elim (Bool-cases (preferred_over parse d f)) [
        | inl l ↦
            subst (λ b. IsRepresented c (if b then upsert ticket_key d rows else rows)) (sym l)
              (replaced-IsRepresented d c e f rows h k g l)
        | inr l ↦
            subst (λ b. IsRepresented c (if b then upsert ticket_key d rows else rows)) (sym l)
              (e, h, k)
      ]

  put_items_keep-IsRepresented :
      (cs : List ActiveContext) (s : EndpointSnapshot) (items : List TicketItem)
      (c : AggregatedTicket) (rows : List AggregatedTicket)
      → IsRepresented c rows
      → IsRepresented c (put_items parse cs s items rows)
  unfolding put_items
  put_items_keep-IsRepresented cs s [] c rows r = r
  put_items_keep-IsRepresented cs s (i ∷ items) c rows r =
      put_items_keep-IsRepresented cs s items c _ (
        by_blank (trim_space i.ticket == "")
          (put_candidate_keeps-IsRepresented (candidate cs s i) c rows r))
    where
      by_blank :
          (b : Bool)
          → IsRepresented c (put_candidate parse (candidate cs s i) rows)
          → IsRepresented c (if b then rows else put_candidate parse (candidate cs s i) rows)
      by_blank true q = r
      by_blank false q = q

  put_items-IsRepresented :
      (cs : List ActiveContext) (s : EndpointSnapshot) (items : List TicketItem) (i : TicketItem)
      (rows : List AggregatedTicket)
      → Has i items
      → (trim_space i.ticket == "") ≡ false
      → IsRepresented (candidate cs s i) (put_items parse cs s items rows)
  unfolding put_items
  put_items-IsRepresented cs s [] i rows p h = elim p [ ]
  put_items-IsRepresented cs s (j ∷ items) i rows (inl p) h =
      put_items_keep-IsRepresented cs s items (candidate cs s i) _ (
        subst
          (λ j. IsRepresented (candidate cs s i) (
            if trim_space j.ticket == ""
            then rows
            else put_candidate parse (candidate cs s j) rows))
          (sym p)
          (subst
            (λ b.
              IsRepresented (candidate cs s i)
                (if b then rows else put_candidate parse (candidate cs s i) rows))
            (sym h) (put_candidate-IsRepresented (candidate cs s i) rows)))
  put_items-IsRepresented cs s (j ∷ items) i rows (inr p) h =
      put_items-IsRepresented cs s items i _ p h

  put_snapshots_keep-IsRepresented :
      (cs : List ActiveContext) (ss : List EndpointSnapshot) (c : AggregatedTicket)
      (rows : List AggregatedTicket)
      → IsRepresented c rows
      → IsRepresented c (put_snapshots parse cs ss rows)
  unfolding put_snapshots
  put_snapshots_keep-IsRepresented cs [] c rows r = r
  put_snapshots_keep-IsRepresented cs (s ∷ ss) c rows r =
      put_snapshots_keep-IsRepresented cs ss c _
        (by_reachable (is_reachable parse s) (put_items_keep-IsRepresented cs s s.tickets c rows r))
    where
      by_reachable :
          (b : Bool)
          → IsRepresented c (put_items parse cs s s.tickets rows)
          → IsRepresented c (if b then put_items parse cs s s.tickets rows else rows)
      by_reachable true q = q
      by_reachable false q = r

  put_snapshots-IsRepresented :
      (cs : List ActiveContext) (ss : List EndpointSnapshot) (s : EndpointSnapshot) (i : TicketItem)
      (rows : List AggregatedTicket)
      → Has s ss
      → is_reachable parse s ≡ true
      → Has i s.tickets
      → (trim_space i.ticket == "") ≡ false
      → IsRepresented (candidate cs s i) (put_snapshots parse cs ss rows)
  unfolding put_snapshots
  put_snapshots-IsRepresented cs [] s i rows p r q h = elim p [ ]
  put_snapshots-IsRepresented cs (t ∷ ss) s i rows (inl p) r q h =
      put_snapshots_keep-IsRepresented cs ss (candidate cs s i) _ (
        subst
          (λ t.
            IsRepresented (candidate cs s i)
              (if is_reachable parse t then put_items parse cs t t.tickets rows else rows))
          (sym p)
          (subst
            (λ b.
              IsRepresented (candidate cs s i)
                (if b then put_items parse cs s s.tickets rows else rows))
            (sym r) (put_items-IsRepresented cs s s.tickets i rows q h)))
  put_snapshots-IsRepresented cs (t ∷ ss) s i rows (inr p) r q h =
      put_snapshots-IsRepresented cs ss s i _ p r q h

  -- For each ticket with a name that a reachable endpoint lists, the merge shows a ticket under
  -- the same key (name, home of the documents, active or not) that the listed one is not preferred
  -- over, and whose kind of endpoint ranks as high or higher, provided that the sort loses no
  -- member.
  pub merged_ticket_is_preferred :
      (sort : (A : Type 0) → (A → A → Bool) → List A → List A) (snapshots : List EndpointSnapshot)
      (contexts : List ActiveContext) (s : EndpointSnapshot) (item : TicketItem)
      → IsSort sort
      → Has s snapshots
      → is_reachable parse s ≡ true
      → Has item s.tickets
      → (trim_space item.ticket == "") ≡ false
      → (e : AggregatedTicket) × Has e (merge_workspace_first parse sort snapshots contexts).tickets
        × (ticket_key e ≡ ticket_key (candidate contexts s item))
        × (preferred_over parse (candidate contexts s item) e ≡ false)
        × (endpoint_kind_rank s.endpoint.kind ≤ endpoint_kind_rank e.source_kind)
  unfolding merge_workspace_first candidate
  merged_ticket_is_preferred sort ss cs s i is_sort p r q h =
      of_row (put_snapshots-IsRepresented cs ss s i [] p r q h)
    where
      of_row :
          IsRepresented (candidate cs s i) (put_snapshots parse cs ss [])
          → (e : AggregatedTicket) × Has e (merge_workspace_first parse sort ss cs).tickets
            × (ticket_key e ≡ ticket_key (candidate cs s i))
            × (preferred_over parse (candidate cs s i) e ≡ false)
            × (endpoint_kind_rank s.endpoint.kind ≤ endpoint_kind_rank e.source_kind)
      of_row (e, found, k) = (
        e,
        is_sort AggregatedTicket _ _ e (find-Has (ticket_key (candidate cs s i)) _ found),
        key-find ticket_key (ticket_key (candidate cs s i)) _ found,
        k,
        rank_not_below (candidate cs s i) e k,
      )
