-- ===== src/Store/Project/Newest.antt =====
-- The newest post of a thread, as posts come in (internal/store/sqlite_forum.go).
use metawsm.Base.{
  ◌≡◌, refl, String, true, some, List, [], ◌∷◌, ◌++◌, All, arith, ◌==◌, string_eq, if◌then◌else◌,
}
use metawsm.Store.Schema.{PostRow}
use metawsm.Store.Project.{posts_of, before, newest}

-- Every post of the list comes before `q`.
abbrev pub AllBefore : PostRow → List PostRow → Type 0
AllBefore q = All (λ p. before p q ≡ true)

pub newest-concat :
    (ps : List PostRow) (q : PostRow) → AllBefore q ps → newest (ps ++ q ∷ []) ≡ some q
unfolding newest
newest-concat [] q h = refl
newest-concat (p ∷ ps) q h = ground (arith, newest-concat ps q h.1, h.0)

pub posts_of-concat :
    (tid : String) (ps : List PostRow) (q : PostRow)
    → posts_of tid (ps ++ q ∷ [])
      ≡ (if q.thread_id == tid then posts_of tid ps ++ q ∷ [] else posts_of tid ps)
unfolding posts_of
posts_of-concat tid [] q = refl
posts_of-concat tid (p ∷ ps) q = ground (arith, posts_of-concat tid ps q)
