-- ===== src/Access/Policy.antt =====
-- memory_access.py: the capability of a process, resolved from its environment and the persisted
-- grants. `hashlib.sha256(..).hexdigest()` is the parameter `digest`.
use thread_keeper.Common.{
  if◌then◌else◌, ◌==◌, nat_eq, pair_eq, Text, codes, text_eq, is_empty, Bool, true, false, not,
  ◌&&◌, ◌||◌, Option, none, some, List, [], ◌∷◌,
}

-- The values that the column `access` may hold.
pub data Access : Type 0 where
  read_only propose write : Access

pub record MemoryAccess : Type 0 where
  pub access : Access
  pub namespace : Text
  pub origin : Text
  pub child_cid : Text
  pub child : Bool

-- A row of `child_memory_grants`.
pub record Grant : Type 0 where
  pub child_cid : Text
  pub token_hash : Text
  pub access : Access
  pub namespace : Text
  pub origin : Text

-- `THREADKEEPER_FORCE_CID`, `THREADKEEPER_MEMORY_TOKEN` and `config.SPAWNED_CHILD`.
pub record Environment : Type 0 where
  pub cid : Text
  pub token : Text
  pub spawned_child : Bool

-- `SELECT * FROM child_memory_grants WHERE child_cid=?`
unfoldable pub grant_of : Text → List Grant → Option Grant
grant_of cid [] = none
grant_of cid (g ∷ gs) = if g.child_cid == cid then some g else grant_of cid gs

-- `MemoryAccess(child_cid=cid)`
abbrev pub restricted : Text → MemoryAccess
restricted cid = record {
  access = read_only;
  namespace = [];
  origin = codes "spawned";
  child_cid = cid;
  child = true;
}

abbrev pub unrestricted : MemoryAccess
unrestricted = record {
  access = write;
  namespace = codes "*";
  origin = [];
  child_cid = [];
  child = false;
}

abbrev pub granted : Text → Grant → MemoryAccess
granted cid g = record {
  access = g.access;
  namespace = g.namespace;
  origin = g.origin;
  child_cid = cid;
  child = true;
}

unfoldable pub resolve_access : (Text → Text) → Environment → List Grant → MemoryAccess
resolve_access digest env grants = elim (grant_of env.cid grants) [
  | none ↦
      if env.spawned_child || not (is_empty env.token) then restricted env.cid else unrestricted
  | some g ↦
      if not (is_empty env.token) && g.token_hash == digest env.token
      then granted env.cid g
      else restricted env.cid
]

-- What the code that writes memory knows of its process: the result of `current_access()`, and the
-- context variable `_review_origin`.
pub record Caller : Type 0 where
  pub policy : MemoryAccess
  pub review_origin : Text

unfoldable pub effective_origin : Caller → Text → Text
effective_origin c origin =
    if not (is_empty c.review_origin)
    then codes "spawned"
    else if c.policy.child
    then c.policy.origin
    else origin

-- `policy.child or _review_origin.get()`
abbrev pub is_delegated : Caller → Bool
is_delegated c = c.policy.child || not (is_empty c.review_origin)
