-- ===== src/Access/Limits.antt =====
-- What a child without write access cannot do.
use thread_keeper.Common.{
  ltb, if◌then◌else◌, ◌==◌, nat_eq, pair_eq, contains, Text, codes, text_eq, is_empty, ◌≡◌, refl,
  Bool, true, false, not, ◌&&◌, ◌||◌, none, some, List, arith,
}
use thread_keeper.Access.Policy.{MemoryAccess}
use thread_keeper.Access.Scope.{is_portable}
use thread_keeper.Access.Guard.{
  memory_access_denied, proposal_action_not_supported, proposal_too_large, is_run, report_columns,
  Action, read, insert, update, delete, change_schema, other, is_read, is_schema, operational_tools,
  observational_tools, proposable_tools, operational_tables, is_write, is_propose, Proposal, Answer,
  run_tool, queued, refused, Arguments, propose_tool, preflight, is_change, is_update, is_insert,
  Ask, authorize, supported_action,
}

-- The one column write that every child may make: the report marks of a curator's batch.
abbrev pub is_report_mark : Ask → Bool
is_report_mark a =
    is_update a.action && a.table == codes "curator_batches" && contains report_columns a.column

read-change : (a : Action) → (is_read a && is_change a) ≡ false
read-change read = refl
read-change insert = refl
read-change update = refl
read-change delete = refl
read-change change_schema = refl
read-change other = refl

-- The authorizer on its tests.
changes :
    (rd proposals main views source mark ch grant ins iss wr op schema : Bool)
    → (rd && ch) ≡ false
    → wr ≡ false
    → ch ≡ true
    → (if rd && proposals
        then false
        else if rd && main && views
        then source
        else if mark
        then true
        else if ch && grant
        then ins && iss
        else if ch && not wr && not op
        then false
        else not schema)
      ≡ true
    → (op || mark || (grant && ins && iss)) ≡ true
changes rd proposals main views source mark ch grant ins iss wr op schema x w c h = ground arith

-- A child without write access changes a table only if it is an operational one, or by a grant that
-- is being issued, or by a report mark of a curator's batch.
pub authorize-changes :
    (policy : MemoryAccess) (views : List Text) (issuing : Bool) (a : Ask)
    → is_write policy.access ≡ false
    → is_change a.action ≡ true
    → authorize policy views issuing a ≡ true
    → (contains operational_tables a.table
        || is_report_mark a
        || (a.table == codes "child_memory_grants" && is_insert a.action && issuing))
      ≡ true
unfolding authorize
authorize-changes policy views issuing a w c h =
    changes (is_read a.action) (a.table == codes "memory_proposals") a.in_main
      (contains views a.table) (a.source == a.table) (is_report_mark a) (is_change a.action)
      (a.table == codes "child_memory_grants") (is_insert a.action) issuing (is_write policy.access)
      (contains operational_tables a.table) (is_schema a.action) (read-change a.action) w c h

-- What a queued proposal is: from a child that may propose, of a proposable tool, and never of memory
-- that other projects see.
abbrev pub Queues : MemoryAccess → Text → Answer → Type 0
Queues policy name run_tool = Unit
Queues policy name (refused r) = Unit
Queues policy name (queued p) =
    (is_propose policy.access ≡ true)
    × (contains proposable_tools name ≡ true)
    × (p.child_cid ≡ policy.child_cid)
    × (is_portable (some p.memory_scope) ≡ false)

scope-not-portable :
    (b : Bool) → is_portable (some (if b then codes "unresolved" else codes "project")) ≡ false
unfolding is_portable
scope-not-portable true = refl
scope-not-portable false = refl

propose_tool-Queues :
    (policy : MemoryAccess) (name : Text) (args : Arguments)
    → (is_run (propose_tool policy name args) ≡ false)
      × Queues policy name (propose_tool policy name args)
unfolding propose_tool
propose_tool-Queues policy name args =
    step (is_propose policy.access) (contains proposable_tools name)
      (name == codes "skill_manage" && not (supported_action args.action)) (ltb 128000 args.bytes)
      refl refl
  where
    proposal : Proposal
    proposal = record {
      child_cid = policy.child_cid;
      tool_name = name;
      arguments = args.json;
      project_id = if is_empty policy.namespace then none else some policy.namespace;
      memory_scope = if is_empty policy.namespace then codes "unresolved" else codes "project";
    }

    answer : Bool → Bool → Bool → Bool → Answer
    answer x y z w =
        if not x || not y
        then refused memory_access_denied
        else if z
        then refused proposal_action_not_supported
        else if w
        then refused proposal_too_large
        else queued proposal

    step :
        (x y z w : Bool)
        → is_propose policy.access ≡ x
        → contains proposable_tools name ≡ y
        → (is_run (answer x y z w) ≡ false) × Queues policy name (answer x y z w)
    step false y z w e f = (refl, tt)
    step true false z w e f = (refl, tt)
    step true true true w e f = (refl, tt)
    step true true false true e f = (refl, tt)
    step true true false false e f =
        (refl, (e, f, refl, scope-not-portable (is_empty policy.namespace)))

-- A tool that is neither operational nor observational runs only with write access; a child that
-- may propose has a call of a proposable tool queued, in its own name, and never as memory that
-- other projects see.
preflight-limits :
    (policy : MemoryAccess) (name : Text) (args : Arguments)
    → contains operational_tools name ≡ false
    → contains observational_tools name ≡ false
    → (is_run (preflight policy name args) ≡ is_write policy.access)
      × Queues policy name (preflight policy name args)
unfolding preflight
preflight-limits policy name args o b =
    rw (o, b)
      (both (is_write policy.access) (is_propose policy.access && contains proposable_tools name))
  where
    both :
        (w q : Bool)
        → (is_run (
              if w || false
              then run_tool
              else if false
              then run_tool
              else if q
              then propose_tool policy name args
              else refused memory_access_denied)
            ≡ w)
          × Queues policy name (
              if w || false
              then run_tool
              else if false
              then run_tool
              else if q
              then propose_tool policy name args
              else refused memory_access_denied)
    both true q = (refl, tt)
    both false true = propose_tool-Queues policy name args
    both false false = (refl, tt)
