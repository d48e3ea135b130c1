-- ===== src/Authority/Store.antt =====
-- The tables of the provenance store (threadkeeper/db.py) and the reads that authority.py makes.
use thread_keeper.Common.{
  nat_beq, if◌then◌else◌, Equality, ◌==◌, nat_eq, pair_eq, filter, any, Text, text_eq, ℕ, ◌≡◌, ◌↔◌,
  Bool, true, false, ◌&&◌, Option, none, some, List, [], ◌∷◌, arith,
}

-- `UNKNOWN`, `OBSERVED`, `TRUSTED`; `invalid` is any other text.
pub data Class : Type 0 where
  unknown observed trusted invalid : Class

-- `_LEVEL`; the rank of `invalid` is never read.
abbrev pub level : Class → ℕ
level unknown = 0
level observed = 1
level trusted = 2
level invalid = 3

abbrev pub class_beq : Class → Class → Bool
class_beq a b = nat_beq (level a) (level b)

pub class_beq_iff : (a b : Class) → (class_beq a b ≡ true) ↔ (a ≡ b)
class_beq_iff a b = ground arith

instance abbrev pub class_eq : Equality Class
class_eq = record { equal = class_beq; equal_iff = class_beq_iff }

-- (artifact_kind, artifact_id)
abbrev pub Artifact : Type 0
Artifact = Text × Text

-- A row of `memory_authority`, whose primary key is the artifact.
pub record Stamp : Type 0 where
  pub artifact : Artifact
  pub authority_class : Class
  pub source_principal : Text
  pub source_channel : Text
  pub created_at : ℕ
  pub invalidated_at : Option ℕ
  pub invalidation_reason : Option Text

-- A row of `memory_authority_roots`; all columns but `created_at` are its primary key.
pub record Root : Type 0 where
  pub artifact : Artifact
  pub principal : Text
  pub channel : Text
  pub authority_class : Class
  pub created_at : ℕ

-- A row of `memory_derivations`; all columns but `created_at` are its primary key.
pub record Derivation : Type 0 where
  pub parent : Artifact
  pub child : Artifact
  pub created_at : ℕ

pub record Store : Type 0 where
  pub stamps : List Stamp
  pub roots : List Root
  pub derivations : List Derivation

-- `_valid`
abbrev pub valid : Class → Bool
valid invalid = false
valid _ = true

abbrev pub find_stamp : List Stamp → Artifact → Option Stamp
find_stamp [] a = none
find_stamp (r ∷ rs) a = if r.artifact == a then some r else find_stamp rs a

-- `_artifact`
abbrev pub artifact : Store → Artifact → Option Stamp
artifact s a = find_stamp s.stamps a

abbrev pub is_stamped : Store → Artifact → Bool
is_stamped s a = elim (artifact s a) [ none ↦ false | some _ ↦ true ]

abbrev pub live : Option Stamp → Bool
live none = false
live (some r) = elim r.invalidated_at [ none ↦ true | some _ ↦ false ]

-- `SELECT principal, channel, authority_class FROM memory_authority_roots WHERE ...`
abbrev pub roots_of : Store → Artifact → List Root
roots_of s a = filter (λ (r : Root). r.artifact == a) s.roots

-- `INSERT OR IGNORE INTO memory_authority`
abbrev pub insert_stamp : Stamp → Store → Store
insert_stamp r s = if is_stamped s r.artifact then s else record s { stamps = r ∷ s.stamps }

abbrev pub same_root : Root → Root → Bool
same_root p q =
    p.artifact == q.artifact
    && p.principal == q.principal
    && p.channel == q.channel
    && p.authority_class == q.authority_class

-- `INSERT OR IGNORE INTO memory_authority_roots`
abbrev pub insert_root : Root → Store → Store
insert_root r s = if any (same_root r) s.roots then s else record s { roots = r ∷ s.roots }

-- `INSERT OR IGNORE INTO memory_derivations`
abbrev pub insert_derivation : Derivation → Store → Store
insert_derivation d s =
    if any (λ (e : Derivation). e.parent == d.parent && e.child == d.child) s.derivations
    then s
    else record s { derivations = d ∷ s.derivations }
