-- ===== src/Access/Tests.antt =====
-- The theorems of access and scope at one child.
use thread_keeper.Common.{
  if◌then◌else◌, ◌==◌, nat_eq, pair_eq, contains, Text, codes, text_eq, is_empty, strip, lower, ◌≡◌,
  refl, true, false, ◌&&◌, ◌||◌, none, some, [],
}
use thread_keeper.Access.Policy.{propose, MemoryAccess}
use thread_keeper.Access.Scope.{recall_allowed, recall_where}
use thread_keeper.Access.Recall.{recall_allowed_lem}
use thread_keeper.Access.Guard.{
  operational_tables, is_insert, insert, Ask, Arguments, authorize, operational_tools,
  observational_tools,
}
use thread_keeper.Access.Limits.{is_report_mark, authorize-changes}

abbrev child : MemoryAccess
child = record {
  access = propose;
  namespace = codes "prj_a";
  origin = codes "spawned";
  child_cid = codes "c1";
  child = true;
}

abbrev log_event : Ask
log_event = record {
  action = insert;
  table = codes "events";
  column = [];
  in_main = true;
  source = [];
}

authorize_run : authorize child [] false log_event ≡ true
unfolding authorize operational_tables
authorize_run = refl

authorize-changes_example :
    (contains operational_tables log_event.table
      || is_report_mark log_event
      || (log_event.table == codes "child_memory_grants" && is_insert log_event.action && false))
    ≡ true
authorize-changes_example = authorize-changes child [] false log_event refl refl authorize_run

abbrev arguments : Arguments
arguments = record { action = none; json = codes "{}"; bytes = 2 }

note_operational : contains operational_tools (codes "note") ≡ false
unfolding operational_tools
note_operational = refl

note_observational : contains observational_tools (codes "note") ≡ false
unfolding observational_tools
note_observational = refl

recall_allowed_example :
    recall_allowed child
      (some (codes "prj_a"))
      false
      (some (codes "project"))
      (some (codes "prj_a"))
    ≡ recall_where child
        (some (codes "prj_a"))
        false
        (some (codes "project"))
        (some (codes "prj_a"))
recall_allowed_example =
    recall_allowed_lem child (some (codes "prj_a")) false (some (codes "project"))
      (some (codes "prj_a")) (λ e. absurd (cc e)) (λ e. refl)

abbrev no_scope : Text
no_scope = []

default_scope :
    lower (strip (if is_empty no_scope then codes "project" else no_scope)) ≡ codes "project"
unfolding lower strip
default_scope = refl
