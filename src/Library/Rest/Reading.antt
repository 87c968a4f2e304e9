-- ===== src/Library/Rest/Reading.antt =====
-- The read half of runtime/library/adapter.go: List and Watch.
use aggexp.Prelude.{
  ℕ, Bool, true, false, ◌||◌, ◌&&◌, List, [], ◌∷◌, ◌++◌, map, Option, none, some, keep, ◌==◌,
  if◌then◌else◌,
}
use aggexp.Prelude.Int.{pos}
use aggexp.Text.{Bytes, codes, str_eq, str_empty}
use aggexp.Decimal.{parse_uint}
use aggexp.Kube.{
  Accessor, ObjList, Result, ok, err, ◌>>=◌, ◌>>◌, bad_request, expired, LabelSelector,
  FieldSelector, Requirement, ListOptions, Event, added, bookmark,
}
use aggexp.Library.Objects.{
  extract_list, matches_labels, filter_list, make_bookmark_event, set_list_rv,
}
use aggexp.Library.Occ.{OccTracker, stamp_list_rvs}
use aggexp.Library.FieldSelector.{
  FieldSelectorConfig, metadata_name, metadata_namespace, validate, matches_field,
  filter_list_by_field,
}
use aggexp.Library.Pagination.{paginate_list}
use aggexp.Library.Rest.{Options, Rest, current_resource_version}

-- `labels.Everything()`
abbrev pub everything : LabelSelector
everything = record { is_empty = true; matches = λ labels. true }

abbrev pub or_everything : Option LabelSelector → LabelSelector
or_everything none = everything
or_everything (some sel) = sel

-- `listOptsFrom`; `none` stands for nil options.
unfoldable pub list_opts_from : Option ListOptions → LabelSelector
list_opts_from none = everything
list_opts_from (some o) = or_everything o.label_selector

abbrev pub non_empty : Option FieldSelector → Option FieldSelector
non_empty none = none
non_empty (some sel) = if sel.is_empty then none else some sel

-- The field selector, when it is there and not empty.
unfoldable pub active_selector : Option ListOptions → Option FieldSelector
active_selector none = none
active_selector (some o) = non_empty o.field_selector

abbrev pub stamp_all : {Obj : Type 0} → Accessor Obj → Option OccTracker → ObjList Obj → ObjList Obj
stamp_all k none l = l
stamp_all k (some t) l = stamp_list_rvs k t l

-- Without a field configuration only the two metadata fields are taken.
unfoldable pub check_basic : List Requirement → Result (Unit {0})
check_basic [] = ok tt
check_basic (r ∷ rest) =
    let others = check_basic rest in
    if str_eq r.field metadata_name || str_eq r.field metadata_namespace
    then others
    else err bad_request

abbrev pub check_selector :
    {Obj : Type 0} → Option (FieldSelectorConfig Obj) → Option FieldSelector → Result (Unit {0})
check_selector cfg none = ok tt
check_selector none (some sel) = check_basic sel.requirements
check_selector (some c) (some sel) = validate c (some sel)

abbrev pub basic_config : {Obj : Type 0} → FieldSelectorConfig Obj
basic_config = record { selectable_fields = []; accessor = none }

abbrev pub config_or_basic :
    {Obj : Type 0} → Option (FieldSelectorConfig Obj) → FieldSelectorConfig Obj
config_or_basic none = basic_config
config_or_basic (some c) = c

abbrev pub filter_fields :
    {Obj : Type 0}
    → Accessor Obj
    → FieldSelectorConfig Obj
    → Option FieldSelector
    → ObjList Obj
    → ObjList Obj
filter_fields k c none l = l
filter_fields k c (some sel) l = filter_list_by_field k c (some sel) l

module _ {Obj User Store : Type 0} (k : Accessor Obj) (opts : Options Obj User Store) where
  abbrev pub finish_list : Bytes → Option ListOptions → ObjList Obj → Result (ObjList Obj)
  finish_list current_rv none l =
      if opts.pagination
      then paginate_list k l (pos 0) [] current_rv
      else ok (set_list_rv l current_rv)
  finish_list current_rv (some o) l =
      if opts.pagination
      then paginate_list k l o.limit o.continue_token current_rv
      else ok (set_list_rv l current_rv)

  -- What the backend's list becomes before it is cut into pages.
  unfoldable pub selected : Option ListOptions → ObjList Obj → ObjList Obj
  selected o out =
      let labelled =
        if (list_opts_from o).is_empty then out else filter_list k (some (list_opts_from o)) out in
      filter_fields k (config_or_basic opts.field_selectors) (active_selector o) labelled

  unfoldable pub list : Rest Obj Store → Option User → Option ListOptions → Result (ObjList Obj)
  list r u o = do
    check_selector opts.field_selectors (active_selector o)
    out ← opts.backend.list r.store u (list_opts_from o)
    page ← finish_list (current_resource_version r) o (selected o out)
    ok (stamp_all k r.occ page)

  -- `hasFieldSel`: a field selector counts only where a field configuration is there.
  abbrev pub watch_selector :
      Option (FieldSelectorConfig Obj) → Option FieldSelector → Option FieldSelector
  watch_selector none sel = none
  watch_selector (some c) sel = sel

  -- Whether a watcher with these options is sent the object.
  unfoldable pub admits : Option ListOptions → Obj → Bool
  admits o obj =
      ((list_opts_from o).is_empty || matches_labels k (some (list_opts_from o)) obj)
      && matches_field k (config_or_basic opts.field_selectors)
          (watch_selector opts.field_selectors (active_selector o)) obj

  abbrev pub check_watch :
      Option (FieldSelectorConfig Obj) → Option FieldSelector → Result (Unit {0})
  check_watch none sel = ok tt
  check_watch (some c) sel = validate c sel

  abbrev pub same_number : Option ℕ → ℕ → Bool
  same_number none rv = false
  same_number (some n) rv = n == rv

  -- A requested version other than none, "0" and the current one is too old.
  unfoldable pub check_version : Rest Obj Store → Bytes → Result (Unit {0})
  check_version r requested =
      if str_empty requested || str_eq requested (codes "0")
      then ok tt
      else if same_number (parse_uint requested) r.rv
      then ok tt
      else err expired

  abbrev pub requested_version : Option ListOptions → Bytes
  requested_version none = []
  requested_version (some o) = o.resource_version

  abbrev pub allows_bookmarks : Option ListOptions → Bool
  allows_bookmarks none = false
  allows_bookmarks (some o) = o.allow_watch_bookmarks

  abbrev pub as_added : Obj → Event Obj
  as_added obj = record { event_type = added; object = obj }

  -- The events that a watch starts with.
  unfoldable pub watch_prefix : Rest Obj Store → Option ListOptions → List Obj → List (Event Obj)
  watch_prefix r o items =
      map as_added (keep (admits o) items)
      ++ (if opts.bookmark && allows_bookmarks o
          then make_bookmark_event k opts.backend.new_object (current_resource_version r) ∷ []
          else [])

  -- The filter on later events: a bookmark always passes.
  unfoldable pub passes : Option ListOptions → Event Obj → Bool
  passes o ev = elim ev.event_type [ bookmark ↦ true | _ ↦ admits o ev.object ]

  -- A watch is its prefix; `passes o` filters what is published later.
  unfoldable pub watch :
      Rest Obj Store → Option User → Option ListOptions → Result (List (Event Obj))
  watch r u o = do
    check_watch opts.field_selectors (active_selector o)
    check_version r (requested_version o)
    snapshot ← opts.backend.list r.store u (list_opts_from o)
    items ← extract_list snapshot
    ok (watch_prefix r o items)
