-- ===== src/Federation/Examples.antt =====
-- A ticket that a repository and a workspace list (internal/docfederation).
use metawsm.Base.{ℕ, ◌≤◌, ◌≡◌, refl, String, Bool, false, Option, none, some, List, [], ◌∷◌, inl}
use metawsm.Base.Text.{trim_space, to_upper, to_lower}
use metawsm.Base.Rows.{find, upsert}
use metawsm.Federation.{
  EndpointKind, workspace, repo, TicketItem, EndpointSnapshot, ActiveContext, AggregatedTicket,
  endpoint_kind_rank, candidate, ticket_key, preferred_over, put_candidate, put_items,
  put_snapshots, is_active, merge_workspace_first,
}
use metawsm.Federation.Preferred.{Has, merged_ticket_is_preferred}

abbrev no_time : String → ℕ
no_time _ = 0

abbrev as_listed : (A : Type 0) → (A → A → Bool) → List A → List A
as_listed A less xs = xs

abbrev item : String → TicketItem
item name = record {
  ticket = name;
  title = "Title";
  status = "active";
  updated_at = "";
  topics = [];
}

abbrev snapshot : EndpointKind → String → TicketItem → Option String → EndpointSnapshot
snapshot kind name listed error = record {
  endpoint = record {
    name = name;
    kind = kind;
    base_url = "http://localhost";
    web_url = "";
    repo = "app";
    workspace = "ws";
  };
  indexed_at = "";
  tickets = listed ∷ [];
  error = error;
}

abbrev in_repo : EndpointSnapshot
in_repo = snapshot repo "a" (item "MW-1") none

abbrev in_workspace : EndpointSnapshot
in_workspace = snapshot workspace "b" (item " mw-1 ") none

abbrev snapshots : List EndpointSnapshot
snapshots = in_repo ∷ in_workspace ∷ snapshot repo "c" (item "MW-2") (some "refused") ∷ []

abbrev contexts : List ActiveContext
contexts = record { ticket = "MW-1"; doc_home_repo = "App" } ∷ []

abbrev merged : List AggregatedTicket
merged = (merge_workspace_first no_time as_listed snapshots contexts).tickets

abbrev sources : List AggregatedTicket → List String
sources [] = []
sources (t ∷ ts) = t.source_name ∷ sources ts

workspace_wins : sources merged ≡ "b" ∷ []
unfolding merge_workspace_first put_snapshots put_items trim_space put_candidate find upsert
    ticket_key to_upper candidate to_lower is_active preferred_over
workspace_wins = refl

merged_ticket_is_preferred_example :
    (e : AggregatedTicket) × Has e merged
    × (ticket_key e ≡ ticket_key (candidate contexts in_repo (item "MW-1")))
    × (preferred_over no_time (candidate contexts in_repo (item "MW-1")) e ≡ false)
    × (1 ≤ endpoint_kind_rank e.source_kind)
unfolding trim_space
merged_ticket_is_preferred_example =
    merged_ticket_is_preferred no_time as_listed snapshots contexts in_repo (item "MW-1")
      (λ A less xs x h. h) (inl refl) refl (inl refl) refl
