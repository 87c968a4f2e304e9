-- ===== src/Library/Tests.antt =====
-- The theorems on the modules of runtime/library at concrete inputs.
use aggexp.Prelude.{◌≡◌, ◌≢◌, refl, true, false, List, [], ◌∷◌, Option, none, some, arith}
use aggexp.Text.{Bytes, codes, str_eq, str_empty}
use aggexp.Decimal.{format_uint}
use aggexp.Kube.{StringMap, ok, err, conflict, modified}
use aggexp.Library.Subresource.{subresource_update}
use aggexp.Library.Subresource.Keeps.{KeptStored, subresource_update-KeptStored}
use aggexp.GoMap.{lookup, insert}
use aggexp.Library.Objects.{stamp_rv}
use aggexp.Library.Occ.{check_conflict, stamp_tracked, record_rv}
use aggexp.Library.Rest.{
  Rest, new, publish_modified, publish_recorded, bump, broadcast, current_resource_version,
}
use aggexp.Library.Rest.Writing
use aggexp.Library.Rest.Writing.{create, update, prepare_found}
use aggexp.Library.Rest.Steps.{Call, run, IsValid}
use aggexp.Library.Rest.Run.{run-new-IsValid}
use aggexp.Library.Rest.Outcomes.{
  CreateOutcome, UpdateOutcome, DeleteOutcome, create-outcome, update-outcome, delete-outcome,
}
use aggexp.Library.Rest.Conflict.{Writer, update-conflict, no_lost_update}
use aggexp.Library.Samples.{
  Item, items, items-IsLawful, options, a_at, b_at, writes_item, one_created, item_writes,
  find_item,
}

abbrev guarded : Rest Item (List Item)
guarded = new (options true none) []

run-new-IsValid_example : IsValid items (
    run items (options true none) (new (options true none) []) (
      Call.creates none (a_at []) none
      ∷ Call.updates none (codes "a") (writes_item (a_at (codes "2")))
      ∷ Call.deletes none (codes "a") none
      ∷ []))
run-new-IsValid_example =
    run-new-IsValid items items-IsLawful (options true none) [] _ (omega arith)

create-outcome_example :
    CreateOutcome items one_created
      (create items (options true none) one_created none (b_at []) none)
create-outcome_example =
    create-outcome items items-IsLawful (options true none) one_created none (b_at []) none

update-outcome_example :
    UpdateOutcome items one_created (
      update items
        (options true none)
        one_created
        none
        (codes "a")
        (writes_item (a_at (codes "2"))))
update-outcome_example =
    update-outcome items items-IsLawful (options true none) one_created none (codes "a")
      (writes_item (a_at (codes "2")))

delete-outcome_example :
    DeleteOutcome items one_created
      (Writing.delete items (options true none) one_created none (codes "a") none)
delete-outcome_example =
    delete-outcome items items-IsLawful (options true none) one_created none (codes "a") none

stale-Writer : (rv : Bytes) → Writer items (writes_item (a_at rv)) rv
stale-Writer rv = record {
  submitted = λ current. a_at rv;
  gives = λ current. refl;
  has_metadata = λ current. refl;
  carries = λ current. refl;
}

tracker_reads :
    ◌≡◌ {A = Option Bytes} (lookup (codes "a") ((codes "a", codes "2") ∷ [])) (some (codes "2"))
unfolding lookup str_eq
tracker_reads = refl

reads_a : find_item (codes "a") (a_at (codes "2") ∷ []) ≡ ok (a_at (codes "2"))
unfolding str_eq
reads_a = refl

two_is_version : codes "2" ≡ format_uint 2
unfolding format_uint
two_is_version = refl

five-ne-two : codes "5" ≢ codes "2"
five-ne-two = λ e. cc e

-- A writer whose copy says "5" where the adapter tracks "2".
update-conflict_example :
    update items (options true none) one_created none (codes "a") (writes_item (a_at (codes "5")))
    ≡ (one_created, err (conflict (codes "a")))
update-conflict_example =
    update-conflict items items-IsLawful (options true none) item_writes refl one_created none
      (codes "a") (writes_item (a_at (codes "5"))) (codes "5") (codes "2")
      ((codes "a", codes "2") ∷ []) (a_at (codes "2")) refl tracker_reads reads_a refl
      (stale-Writer (codes "5")) five-ne-two

abbrev updated_a : Rest Item (List Item)
updated_a = record {
  rv = 3;
  occ = some ((codes "a", codes "3") ∷ []);
  published = record { event_type = modified; object = a_at (codes "3") } ∷ [];
  store = a_at (codes "2") ∷ [];
}

first_update :
    update items (options true none) one_created none (codes "a") (writes_item (a_at (codes "2")))
    ≡ (updated_a, ok (a_at (codes "3"), false))
unfolding update str_eq prepare_found check_conflict stamp_tracked lookup publish_modified
    publish_recorded bump broadcast current_resource_version stamp_rv record_rv format_uint insert
    str_empty
first_update = refl

-- Both writers read version 2; the second comes too late.
no_lost_update_example :
    update items (options true none) updated_a none (codes "a") (writes_item (a_at (codes "2")))
    ≡ (updated_a, err (conflict (codes "a")))
no_lost_update_example =
    no_lost_update items items-IsLawful (options true none) item_writes refl one_created updated_a
      none none (codes "a") (writes_item (a_at (codes "2"))) (writes_item (a_at (codes "2")))
      (a_at (codes "3")) (a_at (codes "2")) false ((codes "a", codes "3") ∷ []) (codes "2")
      (omega arith) first_update refl refl refl reads_a refl (stale-Writer (codes "2"))
      (2, two_is_version, omega arith)

abbrev labels_of : Item → StringMap
labels_of o = o.item_labels

-- A status update that keeps the labels.
abbrev keep_labels : Item → Item → Item
keep_labels new_obj old_obj = record new_obj { item_labels = old_obj.item_labels }

subresource_update-KeptStored_example :
    KeptStored items
      (options true none)
      labels_of
      (a_at (codes "2"))
      (subresource_update items
        (options true none)
        (some keep_labels)
        one_created
        none
        (codes "a")
        (writes_item (a_at (codes "2")))).1
subresource_update-KeptStored_example =
    subresource_update-KeptStored items (options true none) labels_of keep_labels (λ n o. refl)
      (λ o v. refl) item_writes (λ s u name o force. refl) one_created none (codes "a")
      (writes_item (a_at (codes "2"))) (a_at (codes "2")) refl reads_a
