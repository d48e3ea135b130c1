-- ===== src/Access/Guard.antt =====
-- memory_access.py: the tools and the table writes that a capability permits, and the proposals that
-- a child may queue.
use thread_keeper.Common.{
  ltb, if◌then◌else◌, ◌==◌, nat_eq, pair_eq, contains, Text, codes, text_eq, is_empty, ℕ, Bool,
  true, false, not, ◌&&◌, ◌||◌, Option, none, some, List, [], ◌∷◌, map,
}
use thread_keeper.Access.Policy.{Access, propose, write, MemoryAccess}

unfoldable pub operational_tools : List Text
operational_tools = map codes (
    "broadcast" ∷ "whisper" ∷ "wait" ∷ "ask" ∷ "respond" ∷ "inbox" ∷ "live_status" ∷ "presence"
    ∷ "search_via_parent" ∷ "spawn" ∷ "tournament" ∷ "model_route_write" ∷ "evolve_research_handoff"
    ∷ "curator_research_write" ∷ "curator_report_write" ∷ "tag_signal" ∷ [])

unfoldable pub observational_tools : List Text
observational_tools = map codes ("lesson_get" ∷ "lesson_list" ∷ "skill_list" ∷ [])

unfoldable pub proposable_tools : List Text
proposable_tools = map codes (
    "open_thread" ∷ "note" ∷ "close_thread" ∷ "verbatim_user" ∷ "core_set" ∷ "style_set"
    ∷ "register_concept" ∷ "distill" ∷ "link" ∷ "lesson_append" ∷ "lesson_patch" ∷ "skill_manage"
    ∷ "dialectic_claim" ∷ "dialectic_evidence" ∷ "claim_pickup" ∷ "release_pickup" ∷ [])

unfoldable pub operational_tables : List Text
operational_tables = map codes (
    "sessions" ∷ "events" ∷ "signals" ∷ "tasks" ∷ "mcp_replay_ledger" ∷ "mcp_task_handles"
    ∷ "resource_controls" ∷ "cursors" ∷ "presence" ∷ "model_router_passes" ∷ "model_routes"
    ∷ "evolve_research_handoffs" ∷ [])

abbrev pub is_write : Access → Bool
is_write write = true
is_write _ = false

abbrev pub is_propose : Access → Bool
is_propose propose = true
is_propose _ = false

-- A queued row of `memory_proposals`.
pub record Proposal : Type 0 where
  pub child_cid : Text
  pub tool_name : Text
  pub arguments : Text
  pub project_id : Option Text
  pub memory_scope : Text

pub data Refusal : Type 0 where
  memory_access_denied : Refusal
  proposal_action_not_supported : Refusal
  proposal_too_large : Refusal

pub data Answer : Type 0 where
  run_tool : Answer
  queued : Proposal → Answer
  refused : Refusal → Answer

abbrev pub is_run : Answer → Bool
is_run run_tool = true
is_run _ = false

-- The arguments of a call: the `action` among them, their JSON text and its length in bytes.
pub record Arguments : Type 0 where
  pub action : Option Text
  pub json : Text
  pub bytes : ℕ

unfoldable pub supported_action : Option Text → Bool
supported_action none = false
supported_action (some a) = contains (map codes ("create" ∷ "edit" ∷ "patch" ∷ "write_file" ∷ [])) a

unfoldable pub propose_tool : MemoryAccess → Text → Arguments → Answer
propose_tool policy name args =
    if not (is_propose policy.access) || not (contains proposable_tools name)
    then refused memory_access_denied
    else if name == codes "skill_manage" && not (supported_action args.action)
    then refused proposal_action_not_supported
    else if ltb 128000 args.bytes
    then refused proposal_too_large
    else queued (record {
      child_cid = policy.child_cid;
      tool_name = name;
      arguments = args.json;
      project_id = if is_empty policy.namespace then none else some policy.namespace;
      memory_scope = if is_empty policy.namespace then codes "unresolved" else codes "project";
    })

-- `preflight` of `guard_tool`
unfoldable pub preflight : MemoryAccess → Text → Arguments → Answer
preflight policy name args =
    if is_write policy.access || contains operational_tools name
    then run_tool
    else if contains observational_tools name
    then run_tool
    else if is_propose policy.access && contains proposable_tools name
    then propose_tool policy name args
    else refused memory_access_denied

-- The actions that the authorizer tells apart.
pub data Action : Type 0 where
  read : Action
  insert : Action
  update : Action
  delete : Action
  change_schema : Action
  other : Action

abbrev pub is_change : Action → Bool
is_change insert = true
is_change update = true
is_change delete = true
is_change _ = false

abbrev pub is_read : Action → Bool
is_read read = true
is_read _ = false

abbrev pub is_insert : Action → Bool
is_insert insert = true
is_insert _ = false

abbrev pub is_update : Action → Bool
is_update update = true
is_update _ = false

abbrev pub is_schema : Action → Bool
is_schema change_schema = true
is_schema _ = false

unfoldable pub report_columns : List Text
report_columns = map codes ("report_written_at" ∷ "provenance_sha256" ∷ [])

-- What SQLite asks the authorizer of `protect_connection`.
pub record Ask : Type 0 where
  pub action : Action
  pub table : Text
  pub column : Text
  pub in_main : Bool
  pub source : Text

-- `authorize`, where `views` are the tables behind scoped views and `issuing` says that a grant is
-- being issued; true is SQLITE_OK.
unfoldable pub authorize : MemoryAccess → List Text → Bool → Ask → Bool
authorize policy views issuing a =
    if is_read a.action && a.table == codes "memory_proposals"
    then false
    else if is_read a.action && a.in_main && contains views a.table
    then a.source == a.table
    else if is_update a.action
        && a.table == codes "curator_batches"
        && contains report_columns a.column
    then true
    else if is_change a.action && a.table == codes "child_memory_grants"
    then is_insert a.action && issuing
    else if is_change a.action
        && not (is_write policy.access)
        && not (contains operational_tables a.table)
    then false
    else not (is_schema a.action)
