-- ===== src/Bus/Settled.antt =====
-- A whole flush of the outbox while sqlite3 answers (internal/forumbus/runtime.go).
use metawsm.Base.{
  ℕ, String, ◌≡◌, refl, Bool, true, false, ◌&&◌, ◌||◌, Option, none, some, List, [], ◌∷◌, All,
  arith, eq_iff, eq_refl, ◌==◌, nat_eq, string_eq, if◌then◌else◌, Bool-cases, inl, inr,
}
use metawsm.Base.Text.{concat}
use metawsm.Base.Rows.{update}
use metawsm.Model.Outbox.{ForumOutboxMessage}
use metawsm.Store.Schema.{Tables, outbox_key}
use metawsm.Store.Sql.{ok, pure, ◌>>=◌, exec, query, quiet}
use metawsm.Store.Outbox.{
  is_processing, marked_rows, claim_rows, claimed, has_id, claim_script, limit_or,
  claim_forum_outbox_pending,
}
use metawsm.Bus.{
  catch, has_handler, stream_topic, flush_batch, flush_claimed, flush_outbox_to_redis,
}
use metawsm.Bus.Flush.{IsNamed, settle_mark, settle_row, settle_rows, delivered, flush_message_lem}

abbrev is_marked : String → ForumOutboxMessage → Bool
is_marked marker m = is_processing m.status && m.updated_at == marker

unfoldable names : String → List ForumOutboxMessage → Bool
names key [] = false
names key (m ∷ ms) = m.message_id == key || names key ms

-- Every row that carries the marker belongs to a message of the list.
abbrev Covered : String → List ForumOutboxMessage → List ForumOutboxMessage → Type 0
Covered marker ms =
    All (λ (r : ForumOutboxMessage). is_marked marker r ≡ true → names r.message_id ms ≡ true)

Covered-nil :
    (marker : String) (rows : List ForumOutboxMessage)
    → Covered marker [] rows
    → marked_rows marker rows ≡ []
unfolding marked_rows names
Covered-nil marker [] h = refl
Covered-nil marker (r ∷ rows) h = ground (arith, h.0, Covered-nil marker rows h.1)

Covered-wider :
    (marker : String) (m : ForumOutboxMessage) (ms rows : List ForumOutboxMessage)
    → Covered marker ms rows
    → Covered marker (m ∷ ms) rows
unfolding names
Covered-wider marker m ms [] h = tt
Covered-wider marker m ms (r ∷ rows) h =
    (λ e. ground (arith, h.0 e), Covered-wider marker m ms rows h.1)

Covered-marked_rows :
    (marker : String) (rows : List ForumOutboxMessage)
    → Covered marker (marked_rows marker rows) rows
unfolding marked_rows names
Covered-marked_rows marker [] = tt
Covered-marked_rows marker (r ∷ rows) =
    by_mark (is_marked marker r) refl (Covered-marked_rows marker rows)
  where
    by_mark :
        (b : Bool)
        → is_marked marker r ≡ b
        → Covered marker (marked_rows marker rows) rows
        → Covered marker
            (if b then r ∷ marked_rows marker rows else marked_rows marker rows)
            (r ∷ rows)
    by_mark true e h = (
      λ _. rw (eq_refl r.message_id) refl,
      Covered-wider marker r (marked_rows marker rows) rows h,
    )
    by_mark false e h = (λ carried. cc, h)

Covered-update :
    (marker : String) (m : ForumOutboxMessage) (f : ForumOutboxMessage → ForumOutboxMessage)
    (ms rows : List ForumOutboxMessage)
    → ((r : ForumOutboxMessage) → is_processing (f r).status ≡ false)
    → Covered marker (m ∷ ms) rows
    → Covered marker ms (update outbox_key m.message_id f rows)
unfolding update names
Covered-update marker m f ms [] marks h = tt
Covered-update marker m f ms (r ∷ rows) marks h = (
  elim (Bool-cases (r.message_id == m.message_id)) [
    | inl same ↦ rw same (λ e. ground (arith, marks r))
    | inr other ↦ rw other (λ e.
        ground (arith, h.0, eq_iff r.message_id m.message_id, eq_iff m.message_id r.message_id))
  ],
  Covered-update marker m f ms rows marks h.1,
)

settle_row-is_processing :
    (handlers : List String) (stream_name : String)
    (deliver : String → ForumOutboxMessage → Option String) (now : String)
    (m r : ForumOutboxMessage)
    → is_processing (settle_row handlers stream_name deliver now m r).status ≡ false
settle_row-is_processing handlers stream_name deliver now m r =
    by_handler (has_handler m.topic handlers) (deliver (stream_topic stream_name m.topic) m)
  where
    by_handler :
        (b : Bool) (o : Option String)
        → is_processing
            ((if b
                then settle_mark now o
                else settle_mark now (some (concat "no handler for topic " m.topic)))
              r).status
          ≡ false
    by_handler true none = refl
    by_handler true (some error) = refl
    by_handler false o = refl

settle_rows-Covered :
    (handlers : List String) (stream_name : String)
    (deliver : String → ForumOutboxMessage → Option String) (now marker : String)
    (ms rows : List ForumOutboxMessage)
    → Covered marker ms rows
    → marked_rows marker (settle_rows handlers stream_name deliver now ms rows) ≡ []
unfolding settle_rows
settle_rows-Covered handlers stream_name deliver now marker [] rows h = Covered-nil marker rows h
settle_rows-Covered handlers stream_name deliver now marker (m ∷ ms) rows h =
    settle_rows-Covered handlers stream_name deliver now marker ms _ (
      Covered-update marker m _ ms rows
        (settle_row-is_processing handlers stream_name deliver now m) h)

flush_batch_lem :
    (handlers : List String) (stream_name : String)
    (deliver : String → ForumOutboxMessage → Option String) (now : String)
    (ms : List ForumOutboxMessage) (k : ℕ) (db : Tables) (n : ℕ)
    → All IsNamed ms
    → flush_batch handlers stream_name deliver now ms k (quiet db n) ≡ (
      ok (delivered handlers stream_name deliver now ms k, none),
      quiet (record db { outbox = settle_rows handlers stream_name deliver now ms db.outbox }) n,
    )
unfolding flush_batch settle_rows delivered pure catch ◌>>=◌
flush_batch_lem handlers stream_name deliver now [] k db n h = refl
flush_batch_lem handlers stream_name deliver now (m ∷ ms) k db n h =
    rw (flush_message_lem handlers stream_name deliver now m db n h.0)
      (flush_batch_lem handlers stream_name deliver now ms _ _ n h.1)

IsNamed-claim_rows :
    (marker : String) (chosen rows : List ForumOutboxMessage)
    → All IsNamed rows
    → All IsNamed (claim_rows marker chosen rows)
unfolding claim_rows
IsNamed-claim_rows marker chosen [] h = tt
IsNamed-claim_rows marker chosen (m ∷ ms) h =
    (by_choice (has_id m.id chosen), IsNamed-claim_rows marker chosen ms h.1)
  where
    by_choice : (b : Bool) → IsNamed (if b then claimed marker m else m)
    by_choice true = h.0
    by_choice false = h.0

IsNamed-marked_rows :
    (marker : String) (rows : List ForumOutboxMessage)
    → All IsNamed rows
    → All IsNamed (marked_rows marker rows)
unfolding marked_rows
IsNamed-marked_rows marker [] h = tt
IsNamed-marked_rows marker (m ∷ ms) h =
    by_mark (is_marked marker m) (IsNamed-marked_rows marker ms h.1)
  where
    by_mark :
        (b : Bool)
        → All IsNamed (marked_rows marker ms)
        → All IsNamed (if b then m ∷ marked_rows marker ms else marked_rows marker ms)
    by_mark true named = (h.0, named)
    by_mark false named = named

IsNamed-claim_script :
    (limit : ℕ) (marker : String) (db : Tables)
    → All IsNamed db.outbox
    → All IsNamed (marked_rows marker (claim_script limit marker db).outbox)
unfolding claim_script
IsNamed-claim_script limit marker db h =
    IsNamed-marked_rows marker _ (IsNamed-claim_rows marker _ db.outbox h)

module _ (handlers : List String) (stream_name : String)
    (deliver : String → ForumOutboxMessage → Option String) (now : String) where
  flush_claimed_lem :
      (batch : List ForumOutboxMessage) (db : Tables) (n : ℕ)
      → All IsNamed batch
      → flush_claimed handlers stream_name deliver now true (ok batch) (quiet db n) ≡ (
        ok (delivered handlers stream_name deliver now batch 0, none),
        quiet
            (record db { outbox = settle_rows handlers stream_name deliver now batch db.outbox })
            n,
      )
  unfolding delivered settle_rows pure
  flush_claimed_lem [] db n h = refl
  flush_claimed_lem (m ∷ ms) db n h =
      flush_batch_lem handlers stream_name deliver now (m ∷ ms) 0 db n h

  -- While sqlite3 answers and a publisher is there, a flush returns the number of messages of its
  -- claim that have a handler and that Redis has taken, with no error, and it leaves no row in
  -- `processing` with its marker, provided that all ids in the outbox are trimmed and not blank.
  pub flush_settles_claim :
      (limit : ℕ) (db : Tables) (n : ℕ)
      → All IsNamed db.outbox
      → let batch = marked_rows now (claim_script (limit_or 20 limit) now db).outbox in
        let after =
          flush_outbox_to_redis handlers stream_name deliver now true limit (quiet db n) in
        (after.0 ≡ ok (delivered handlers stream_name deliver now batch 0, none))
        × (marked_rows now after.1.tables.outbox ≡ [])
  unfolding flush_outbox_to_redis claim_forum_outbox_pending ◌>>=◌ catch exec query
  flush_settles_claim limit db n h =
      rw
        (flush_claimed_lem (marked_rows now (claim_script (limit_or 20 limit) now db).outbox)
          (claim_script (limit_or 20 limit) now db) n
          (IsNamed-claim_script (limit_or 20 limit) now db h))
        (
          refl,
          settle_rows-Covered handlers stream_name deliver now now
              (marked_rows now (claim_script (limit_or 20 limit) now db).outbox)
              (claim_script (limit_or 20 limit) now db).outbox
              (Covered-marked_rows now (claim_script (limit_or 20 limit) now db).outbox),
        )
