-- ===== src/Evidence/Tests.antt =====
-- The theorems of the references at one note.
use thread_keeper.Common.{
  nat_eq, pair_eq, length, lookup, Text, codes, text_eq, ℕ, ◌<◌, ◌≡◌, refl, true, false, Option,
  none, some, [], ◌∷◌, arith,
}
use thread_keeper.Access.Policy.{unrestricted}
use thread_keeper.Access.Scope.{recall_allowed, refuses, is_portable, is_project}
use thread_keeper.Authority.Store.{Store, trusted}
use thread_keeper.Authority.Gate.{is_visible}
use thread_keeper.Evidence.Registry.{
  note, Reference, MemoryRow, World, max_links, Registry, trim, issue, is_uri, stored_row,
  row_of_id, is_kept, row_allowed, is_allowed, Document, read_document, is_bound, read_evidence,
}
use thread_keeper.Evidence.Live.{Served, read_evidence-Served}

abbrev note_row : MemoryRow
note_row = record {
  id = codes "n1";
  thread_id = none;
  memory_scope = some (codes "project");
  project_id = some (codes "prj_a");
  created_at = 5;
  content = codes "text";
}

abbrev store_at : Option ℕ → Store
store_at invalidated_at = record {
  stamps =
      record {
        artifact = (codes "note", codes "n1");
        authority_class = trusted;
        source_principal = codes "user";
        source_channel = codes "note";
        created_at = 5;
        invalidated_at = invalidated_at;
        invalidation_reason = none;
      }
      ∷ [];
  roots = [];
  derivations = [];
}

abbrev world_at : Option ℕ → World
world_at invalidated_at = record {
  notes = note_row ∷ [];
  threads = [];
  dialogs = [];
  authority = store_at invalidated_at;
  policy = unrestricted;
  current = some (codes "prj_a");
  now = 100;
  retention = none;
}

abbrev uri_1 : Text
uri_1 = codes "memory://evidence/0123456789012345678901234567890123456789abc"

abbrev uri_2 : Text
uri_2 = codes "memory://evidence/abc0123456789012345678901234567890123456789"

abbrev registry : Registry
registry =
    issue 10 uri_1 note (codes "n1" ∷ []) (codes "local") (some (codes "prj_a")) false none []

abbrev the_document : Document
the_document = record { kind = note; items = note_row ∷ []; thread = none }

read_run :
    read_evidence (λ d. true) (world_at none) 309 (codes "local") uri_1 registry ≡ some the_document
unfolding read_evidence issue is_uri trim is_bound read_document is_allowed stored_row row_of_id
    row_allowed is_visible recall_allowed refuses is_portable is_project is_kept
read_run = refl

read_forgotten :
    read_evidence (λ d. true) (world_at (some 50)) 309 (codes "local") uri_1 registry ≡ none
unfolding read_evidence issue is_uri trim is_bound read_document is_allowed stored_row row_of_id
    row_allowed is_visible
read_forgotten = refl

read_expired : read_evidence (λ d. true) (world_at none) 310 (codes "local") uri_1 registry ≡ none
unfolding read_evidence issue is_uri trim is_bound
read_expired = refl

read_evidence-Served_example :
    Served (world_at none) 309 (codes "local") uri_1 registry the_document
read_evidence-Served_example =
    read_evidence-Served (λ d. true) (world_at none) 309 (codes "local") uri_1 registry the_document
      read_run

abbrev reference_1 : Reference
reference_1 = record {
  kind = note;
  ids = codes "n1" ∷ [];
  caller = codes "local";
  project = some (codes "prj_a");
  cross_project = false;
  expires = 310;
  thread_id = none;
}

short_registry : length registry < max_links
unfolding issue trim
short_registry = omega arith

held : lookup uri_1 registry ≡ some reference_1
unfolding issue trim
held = refl
