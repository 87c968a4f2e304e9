-- ===== src/Library/ReadTests.antt =====
-- The theorems on reads, pages, selectors and polls of runtime/library at concrete inputs.
use aggexp.Prelude.{
  ◌≡◌, refl, true, false, List, [], ◌∷◌, ◌++◌, none, some, arith, ◌⊎◌, ◌↔◌, All, map,
}
use aggexp.Prelude.Int.{pos}
use aggexp.Text.{Bytes, codes, str_eq, str_empty, contains}
use aggexp.Kube.{ObjList, ok, err, not_found, ListOptions}
use aggexp.Library.Objects.{set_list_rv}
use aggexp.Library.FieldSelector.{matches_field, validate, check_requirements, is_known}
use aggexp.Library.FieldSelector.Meaning.{Meets, matches_field_iff}
use aggexp.Library.Pagination.{encode_continue_token, decode_continue_token, sort_by_name}
use aggexp.Library.Pagination.Token.{decode-encode_continue_token}
use aggexp.Library.Pagination.Pages.{follow_pages, follow_pages_complete}
use aggexp.Library.PollWatch.{run}
use aggexp.Library.PollWatch.Replay.{replay, latest, nothing}
use aggexp.Library.PollWatch.Runs.{run-latest}
use aggexp.Library.Rest.{Rest, current_resource_version}
use aggexp.Library.Rest.Reading.{
  watch, list, selected, list_opts_from, active_selector, check_version, as_added,
}
use aggexp.Library.Rest.Listing.{closing, watch-list}
use aggexp.Library.Samples.{
  Item, items, options, a_at, b_at, all_items, no_options, by_field, field_config,
}

abbrev two_items : Rest Item (List Item)
two_items = record { rv = 1; occ = none; published = []; store = a_at [] ∷ b_at [] ∷ [] }

abbrev only_b : ListOptions
only_b = record no_options { field_selector = some by_field }

abbrev selected_page : ObjList Item
selected_page =
    set_list_rv
      (selected items (options false (some field_config)) (some only_b) (all_items two_items.store))
      (current_resource_version two_items)

listed_b :
    list items (options false (some field_config)) two_items none (some only_b) ≡ ok selected_page
unfolding list validate check_requirements is_known contains str_eq active_selector list_opts_from
listed_b = refl

version_passes : check_version items (options false (some field_config)) two_items [] ≡ ok tt
unfolding check_version str_empty
version_passes = refl

watch-list_example :
    watch items (options false (some field_config)) two_items none (some only_b)
    ≡ ok (
        map (as_added items (options false (some field_config))) selected_page.items
        ++ closing items (options false (some field_config)) two_items (some only_b))
watch-list_example =
    watch-list items (options false (some field_config)) two_items none (some only_b) field_config
      (all_items two_items.store) selected_page refl refl refl refl refl version_passes listed_b

abbrev at_version : Bytes → ListOptions
at_version rv = record no_options { resource_version = rv }

matches_field_iff_example :
    ((matches_field items field_config (some by_field) (b_at []) ≡ true) ↔ (
      (by_field.is_empty ≡ true) ⊎ All (Meets items field_config (b_at [])) by_field.requirements))
    × (matches_field items field_config none (b_at []) ≡ true)
matches_field_iff_example = matches_field_iff items field_config by_field (b_at [])

decode-encode_continue_token_example :
    decode_continue_token (encode_continue_token (codes "12") 500) ≡ some (codes "12", pos 500)
decode-encode_continue_token_example =
    decode-encode_continue_token (codes "12") 500 (ground arith) (omega arith)

follow_pages_complete_example :
    follow_pages items (all_items (b_at [] ∷ a_at [] ∷ [])) 1 (codes "4") 3
    ≡ ok (sort_by_name items (b_at [] ∷ a_at [] ∷ []))
follow_pages_complete_example =
    follow_pages_complete items (all_items (b_at [] ∷ a_at [] ∷ [])) 1 (codes "4") refl
      (ground arith) (omega arith) (omega arith)

abbrev hash_of : Item → Bytes
hash_of o = o.item_rv

run-latest_example :
    replay items hash_of
      (nothing items hash_of)
      (run items hash_of [] (
        (ok (a_at (codes "1") ∷ []) ∷ err (not_found []) ∷ [])
        ++ ok (b_at (codes "2") ∷ []) ∷ [])).1
    ≡ latest items hash_of (b_at (codes "2") ∷ []) (nothing items hash_of)
run-latest_example =
    run-latest items hash_of (ok (a_at (codes "1") ∷ []) ∷ err (not_found []) ∷ [])
      (b_at (codes "2") ∷ [])
