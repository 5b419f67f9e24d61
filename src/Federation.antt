-- ===== src/Federation.antt =====
-- internal/docfederation/merge.go: the merge of the tickets that several endpoints list. `parse` is
-- `parseFlexibleTime`, the times numbered in their order, and `sort` is `sort.Slice`. The order
-- of a map is that of the list. Of a snapshot's status, only `IndexedAt` is kept.
pub mod Preferred
mod Examples
use metawsm.Base.{
  ℕ, String, Bool, true, false, not, ◌&&◌, ◌||◌, Option, none, some, List, [], ◌∷◌, ◌++◌, ltb, ◌==◌,
  nat_eq, string_eq, if◌then◌else◌,
}
use metawsm.Base.Text.{trim_space, to_lower, to_upper, concat, text_ltb}
use metawsm.Base.Rows.{find, upsert}

pub data EndpointKind : Type 0 where
  workspace repo : EndpointKind
  other : String → EndpointKind

pub record Endpoint : Type 0 where
  pub name : String
  pub kind : EndpointKind
  pub base_url : String
  pub web_url : String
  pub repo : String
  pub workspace : String

pub record TicketItem : Type 0 where
  pub ticket : String
  pub title : String
  pub status : String
  pub updated_at : String
  pub topics : List String

pub record EndpointSnapshot : Type 0 where
  pub endpoint : Endpoint
  pub indexed_at : String
  pub tickets : List TicketItem
  pub error : Option String

pub record ActiveContext : Type 0 where
  pub ticket : String
  pub doc_home_repo : String

pub record EndpointHealth : Type 0 where
  pub endpoint : Endpoint
  pub reachable : Bool
  pub indexed_at : String
  pub error_text : String

pub record AggregatedTicket : Type 0 where
  pub ticket : String
  pub title : String
  pub status : String
  pub topics : List String
  pub doc_home_repo : String
  pub active : Bool
  pub source_kind : EndpointKind
  pub source_name : String
  pub source_url : String
  pub source_web_url : String
  pub source_repo : String
  pub source_ws : String
  pub updated_at : String
  pub indexed_at : String

pub record MergeResult : Type 0 where
  pub tickets : List AggregatedTicket
  pub health : List EndpointHealth

abbrev pub endpoint_kind_rank : EndpointKind → ℕ
endpoint_kind_rank workspace = 2
endpoint_kind_rank _ = 1

abbrev bool_key : Bool → String
bool_key true = "active"
bool_key false = "inactive"

abbrev web_url_or_base : Endpoint → String
web_url_or_base e = if not (trim_space e.web_url == "") then e.web_url else e.base_url

abbrev active_key : String → String → String
active_key ticket home = concat (to_upper ticket) (concat "|" (to_lower home))

-- `active[key]`
unfoldable pub is_active : List ActiveContext → String → Bool
is_active [] k = false
is_active (c ∷ cs) k =
    let rest = is_active cs k in
    let ticket = to_upper (trim_space c.ticket) in
    let home = to_lower (trim_space c.doc_home_repo) in
    if ticket == "" || home == ""
    then rest
    else if concat ticket (concat "|" home) == k
    then true
    else rest

-- The candidate that an item of a snapshot gives
unfoldable pub candidate : List ActiveContext → EndpointSnapshot → TicketItem → AggregatedTicket
candidate contexts s item = record {
  ticket = trim_space item.ticket;
  title = trim_space item.title;
  status = trim_space item.status;
  topics = item.topics;
  doc_home_repo = trim_space s.endpoint.repo;
  active = is_active contexts (active_key (trim_space item.ticket) (trim_space s.endpoint.repo));
  source_kind = s.endpoint.kind;
  source_name = s.endpoint.name;
  source_url = s.endpoint.base_url;
  source_web_url = web_url_or_base s.endpoint;
  source_repo = s.endpoint.repo;
  source_ws = s.endpoint.workspace;
  updated_at = item.updated_at;
  indexed_at = s.indexed_at;
}

-- The key of `byKey`
unfoldable pub ticket_key : AggregatedTicket → String
ticket_key t = concat (active_key t.ticket t.doc_home_repo) (concat "|" (bool_key t.active))

abbrev health_of : EndpointSnapshot → EndpointHealth
health_of s = record {
  endpoint = s.endpoint;
  reachable = elim s.error [ none ↦ true | some _ ↦ false ];
  indexed_at = s.indexed_at;
  error_text = elim s.error [ none ↦ "" | some text ↦ text ];
}

abbrev same_kind : EndpointKind → EndpointKind → Bool
same_kind a b = kind_text a == kind_text b
  where
    kind_text : EndpointKind → String
    kind_text EndpointKind.workspace = "workspace"
    kind_text EndpointKind.repo = "repo"
    kind_text (other text) = text

abbrev health_less : EndpointHealth → EndpointHealth → Bool
health_less a b =
    if not (same_kind a.endpoint.kind b.endpoint.kind)
    then same_kind a.endpoint.kind EndpointKind.workspace
    else text_ltb a.endpoint.name b.endpoint.name

abbrev ticket_less : AggregatedTicket → AggregatedTicket → Bool
ticket_less a b =
    if not (bool_key a.active == bool_key b.active)
    then a.active
    else if not (to_upper a.ticket == to_upper b.ticket)
    then text_ltb (to_upper a.ticket) (to_upper b.ticket)
    else if not (to_lower a.doc_home_repo == to_lower b.doc_home_repo)
    then text_ltb (to_lower a.doc_home_repo) (to_lower b.doc_home_repo)
    else text_ltb a.source_name b.source_name

abbrev healths : List EndpointSnapshot → List EndpointHealth
healths [] = []
healths (s ∷ ss) = health_of s ∷ healths ss

module _ (parse : String → ℕ) where
  unfoldable pub preferred_over : AggregatedTicket → AggregatedTicket → Bool
  preferred_over c e =
      if not (endpoint_kind_rank c.source_kind == endpoint_kind_rank e.source_kind)
      then ltb (endpoint_kind_rank e.source_kind) (endpoint_kind_rank c.source_kind)
      else if not (parse c.updated_at == parse e.updated_at)
      then ltb (parse e.updated_at) (parse c.updated_at)
      else if not (parse c.indexed_at == parse e.indexed_at)
      then ltb (parse e.indexed_at) (parse c.indexed_at)
      else text_ltb c.source_name e.source_name

  -- `byKey[key] = candidate`, unless there is one that the candidate is not preferred over
  unfoldable pub put_candidate : AggregatedTicket → List AggregatedTicket → List AggregatedTicket
  put_candidate c rows = elim (find ticket_key (ticket_key c) rows) [
    | none ↦ upsert ticket_key c rows
    | some e ↦ if preferred_over c e then upsert ticket_key c rows else rows
  ]

  -- The loop over the items of a snapshot
  unfoldable pub put_items :
      List ActiveContext
      → EndpointSnapshot
      → List TicketItem
      → List AggregatedTicket
      → List AggregatedTicket
  put_items contexts s [] rows = rows
  put_items contexts s (item ∷ items) rows = put_items contexts s items (
      if trim_space item.ticket == "" then rows else put_candidate (candidate contexts s item) rows)

  abbrev pub is_reachable : EndpointSnapshot → Bool
  is_reachable s = elim s.error [ none ↦ true | some _ ↦ false ]

  -- The loop over the snapshots
  unfoldable pub put_snapshots :
      List ActiveContext → List EndpointSnapshot → List AggregatedTicket → List AggregatedTicket
  put_snapshots contexts [] rows = rows
  put_snapshots contexts (s ∷ ss) rows =
      put_snapshots contexts ss
        (if is_reachable s then put_items contexts s s.tickets rows else rows)

  module _ (sort : (A : Type 0) → (A → A → Bool) → List A → List A) where
    unfoldable pub merge_workspace_first : List EndpointSnapshot → List ActiveContext → MergeResult
    merge_workspace_first snapshots contexts = record {
      tickets = sort AggregatedTicket ticket_less (put_snapshots contexts snapshots []);
      health = sort EndpointHealth health_less (healths snapshots);
    }
