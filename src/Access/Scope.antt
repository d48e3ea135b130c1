-- ===== src/Access/Scope.antt =====
-- project_scope.py: which rows a recall may see, as the Python test of one row and as the SQL filter;
-- and the cap that a child's capability adds (`scope_predicate` of memory_access.py).
use thread_keeper.Common.{
  if◌then◌else◌, ◌==◌, nat_eq, pair_eq, is_none, Text, codes, text_eq, is_empty, strip, lower, Bool,
  true, false, not, ◌&&◌, ◌||◌, Option, none, some,
}
use thread_keeper.Access.Policy.{MemoryAccess}

unfoldable pub is_portable : Option Text → Bool
is_portable none = false
is_portable (some scope) = scope == codes "global" || scope == codes "shared"

unfoldable pub is_project : Option Text → Bool
is_project none = false
is_project (some scope) = scope == codes "project"

-- `bool(s)`, for a text or `None`.
abbrev pub truthy : Option Text → Bool
truthy none = false
truthy (some s) = not (is_empty s)

-- `a == b`, for texts or `None`.
abbrev pub same_text : Option Text → Option Text → Bool
same_text none none = true
same_text (some a) (some b) = a == b
same_text _ _ = false

-- SQL's `a = b`, which a NULL never satisfies.
abbrev pub sql_eq : Option Text → Option Text → Bool
sql_eq (some a) (some b) = a == b
sql_eq _ _ = false

-- A resolved request: `resolve_write_scope`, after `.strip().lower()`.
unfoldable pub write_scope : Text → Option Text → Option (Text × Option Text)
write_scope requested current =
    if is_portable (some requested)
    then some (requested, none)
    else if is_project (some requested)
    then some (if truthy current then (codes "project", current) else (codes "unresolved", none))
    else none

-- `resolve_write_scope`; `none` is the ValueError.
unfoldable pub resolve_write_scope : Text → Option Text → Option (Text × Option Text)
resolve_write_scope scope current =
    write_scope (lower (strip (if is_empty scope then codes "project" else scope))) current

-- What a child's capability refuses in `recall_allowed`.
unfoldable pub refuses : MemoryAccess → Option Text → Option Text → Bool
refuses policy scope project =
    policy.child
    && not (policy.namespace == codes "*")
    && ((is_empty policy.namespace && not (is_portable scope))
        || (is_project scope && not (same_text project (some policy.namespace))))

-- `recall_allowed`, where `current` is the current project, resolved.
unfoldable pub recall_allowed : MemoryAccess → Option Text → Bool → Option Text → Option Text → Bool
recall_allowed policy current cross_project scope project =
    if refuses policy scope project
    then false
    else if is_portable scope
    then true
    else if not (is_project scope)
    then false
    else if not (truthy project)
    then truthy current
    else if cross_project
    then true
    else same_text project current

-- `_recall_where`, as the test that the filter makes of a row.
unfoldable pub recall_where_normal : Option Text → Bool → Option Text → Option Text → Bool
recall_where_normal current cross_project scope project =
    if cross_project
    then is_project scope || is_portable scope
    else if truthy current
    then is_portable scope || (is_project scope && (sql_eq project current || is_none project))
    else is_portable scope

-- `scope_predicate`
unfoldable pub scope_predicate : MemoryAccess → Option Text → Option Text → Bool
scope_predicate policy scope project =
    if policy.namespace == codes "*"
    then true
    else if is_empty policy.namespace
    then is_portable scope
    else is_portable scope || (is_project scope && sql_eq project (some policy.namespace))

-- `recall_where`
unfoldable pub recall_where : MemoryAccess → Option Text → Bool → Option Text → Option Text → Bool
recall_where policy current cross_project scope project =
    recall_where_normal current cross_project scope project
    && (if policy.child then scope_predicate policy scope project else true)
