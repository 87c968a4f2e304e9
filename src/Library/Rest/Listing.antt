-- ===== src/Library/Rest/Listing.antt =====
-- What List and Watch show, side by side.
use aggexp.Prelude.{
  ℕ, ◌≤◌, ◌≡◌, ◌≢◌, refl, ap, ◌∙◌, sym, Bool, true, false, ◌&&◌, ◌||◌, List, [], ◌∷◌, ◌++◌, map,
  Option, none, some, keep, arith, if◌then◌else◌,
}
use mathlib.Core.Path.{fun_ext}
use aggexp.Text.{Bytes, codes, str_eq_iff}
use aggexp.Decimal.{max_u64, format_uint, parse_uint}
use aggexp.Decimal.RoundTrip.{parse_uint-format_uint}
use aggexp.ResourceVersion.{str_empty-format}
use aggexp.Kube.{
  Accessor, ObjList, Result, ok, err, ◌>>◌, expired, LabelSelector, FieldSelector, ListOptions,
  Event,
}
use aggexp.Library.Objects.{
  extract_list, matches_labels, filter_list, make_bookmark_event, set_list_rv,
}
use aggexp.Library.FieldSelector.{
  FieldSelectorConfig, validate, matches_field, filter_list_by_field,
}
use aggexp.Library.Rest.{Options, Rest, current_resource_version}
use aggexp.Library.Rest.Reading.{
  list_opts_from, active_selector, check_selector, filter_fields, selected, list, admits,
  finish_list, check_version, requested_version, allows_bookmarks, as_added, watch_prefix, watch,
}

parse_zero : parse_uint (codes "0") ≡ some 0
unfolding parse_uint
parse_zero = refl

module _ {A : Type 0} (p q : A → Bool) where
  keep-keep : (xs : List A) → keep q (keep p xs) ≡ keep (λ x. p x && q x) xs
  keep-keep [] = refl
  keep-keep (x ∷ xs) = ground (arith, keep-keep xs)

keep-true : {A : Type 0} (xs : List A) → keep (λ x. true) xs ≡ xs
keep-true [] = refl
keep-true (x ∷ xs) = ap (◌∷◌ x) (keep-true xs)

module _ {Obj User Store : Type 0} (k : Accessor Obj) (opts : Options Obj User Store) where
  -- The bookmark that ends the initial events, where it is asked for.
  abbrev pub closing : Rest Obj Store → Option ListOptions → List (Event Obj)
  closing r o =
      if opts.bookmark && allows_bookmarks k opts o
      then make_bookmark_event k opts.backend.new_object (current_resource_version r) ∷ []
      else []

  label_step :
      (b : Bool) (sel : LabelSelector) (out : ObjList Obj)
      → out.is_list ≡ true
      → ((if b then out else filter_list k (some sel) out).is_list ≡ true)
        × ((if b then out else filter_list k (some sel) out).items
            ≡ keep (λ x. b || matches_labels k (some sel) x) out.items)
  unfolding filter_list
  label_step true sel out h = (h, sym (keep-true out.items))
  label_step false sel out h = rw h (refl, refl)

  field_step :
      (c : FieldSelectorConfig Obj) (sel : Option FieldSelector) (l : ObjList Obj)
      → l.is_list ≡ true
      → ((filter_fields k c sel l).is_list ≡ true)
        × ((filter_fields k c sel l).items ≡ keep (matches_field k c sel) l.items)
  unfolding filter_list_by_field matches_field
  field_step c none l h = (h, sym (keep-true l.items))
  field_step c (some sel) l h = rw h (refl, refl)

  -- The objects that pass both selectors, in the backend's order.
  selected-items :
      (o : Option ListOptions) (out : ObjList Obj) (c : FieldSelectorConfig Obj)
      → opts.field_selectors ≡ some c
      → out.is_list ≡ true
      → (selected k opts o out).items ≡ keep (admits k opts o) out.items
  unfolding selected admits
  selected-items o out c ec h =
      let sel = list_opts_from o in
      let (is_list, items) = label_step sel.is_empty sel out h in
      let (_, kept) = field_step c (active_selector o) _ is_list in
      rw ec
        (kept ∙ ap (keep (matches_field k c (active_selector o))) items ∙ keep-keep _ _ out.items)

  check_same :
      (c : FieldSelectorConfig Obj) (sel : Option FieldSelector)
      → check_selector (some c) sel ≡ validate c sel
  unfolding validate
  check_same c none = refl
  check_same c (some sel) = refl

  finish_plain :
      (rv : Bytes) (o : Option ListOptions) (l : ObjList Obj)
      → opts.pagination ≡ false
      → finish_list k opts rv o l ≡ ok (set_list_rv l rv)
  finish_plain rv none l ep = rw ep
  finish_plain rv (some o) l ep = rw ep

  list_plain :
      (r : Rest Obj Store) (u : Option User) (o : Option ListOptions) (c : FieldSelectorConfig Obj)
      (out : ObjList Obj) (checked : Result (Unit {0}))
      → opts.field_selectors ≡ some c
      → validate c (active_selector o) ≡ checked
      → opts.pagination ≡ false
      → r.occ ≡ none
      → opts.backend.list r.store u (list_opts_from o) ≡ ok out
      → list k opts r u o
        ≡ (checked >> ok (set_list_rv (selected k opts o out) (current_resource_version r)))
  unfolding list
  list_plain r u o c out (err e) ec ev ep eo eb = simp (ec, check_same c (active_selector o), ev)
  list_plain r u o c out (ok done) ec ev ep eo eb = simp (
    ec,
    check_same c (active_selector o),
    ev,
    eb,
    finish_plain (current_resource_version r) o (selected k opts o out) ep,
    eo,
  )

  watch_plain :
      (r : Rest Obj Store) (u : Option User) (o : Option ListOptions) (c : FieldSelectorConfig Obj)
      (out : ObjList Obj) (checked : Result (Unit {0}))
      → opts.field_selectors ≡ some c
      → validate c (active_selector o) ≡ checked
      → check_version k opts r (requested_version k opts o) ≡ ok tt
      → opts.backend.list r.store u (list_opts_from o) ≡ ok out
      → out.is_list ≡ true
      → watch k opts r u o
        ≡ (checked >> ok (map (as_added k opts) (selected k opts o out).items ++ closing r o))
  unfolding watch watch_prefix extract_list
  watch_plain r u o c out (err e) ec ev version eb is_list = simp (ec, ev)
  watch_plain r u o c out (ok done) ec ev version eb is_list =
      simp (ec, ev, version, eb, is_list, selected-items o out c ec is_list)

  joined :
      (r : Rest Obj Store) (o : Option ListOptions) (selection page : ObjList Obj) (rv : Bytes)
      (checked : Result (Unit {0}))
      → (checked >> ok (set_list_rv selection rv)) ≡ ok page
      → (checked >> ok (map (as_added k opts) selection.items ++ closing r o))
        ≡ ok (map (as_added k opts) page.items ++ closing r o)
  unfolding set_list_rv
  joined r o selection page rv (err e) h = absurd (cc)
  joined r o selection page rv (ok done) h = ground arith

  -- With a field configuration, and neither pagination nor a tracker, List and Watch agree: when the
  -- version check passes and the backend gives a list object and List a result, the initial events of a
  -- watch are an ADDED event for each object of that result, in its order, and then the closing bookmark
  -- where it was asked for.
  pub watch-list :
      (r : Rest Obj Store) (u : Option User) (o : Option ListOptions) (c : FieldSelectorConfig Obj)
      (out page : ObjList Obj)
      → opts.field_selectors ≡ some c
      → opts.pagination ≡ false
      → r.occ ≡ none
      → opts.backend.list r.store u (list_opts_from o) ≡ ok out
      → out.is_list ≡ true
      → check_version k opts r (requested_version k opts o) ≡ ok tt
      → list k opts r u o ≡ ok page
      → watch k opts r u o ≡ ok (map (as_added k opts) page.items ++ closing r o)
  watch-list r u o c out page ec ep eo eb is_list version listed =
      let checked = validate c (active_selector o) in
      watch_plain r u o c out checked ec refl version eb is_list
      ∙ joined r o (selected k opts o out) page (current_resource_version r) checked
          (sym (list_plain r u o c out checked ec refl ep eo eb) ∙ listed)

  version_number :
      (r : Rest Obj Store) (n : ℕ)
      → n ≤ max_u64
      → n ≢ 0
      → n ≢ r.rv
      → check_version k opts r (format_uint n) ≡ err expired
  unfolding check_version
  version_number r n fits nz ne = ground (
    arith,
    parse_uint-format_uint n fits,
    str_empty-format n,
    str_eq_iff (format_uint n) (codes "0"),
    parse_zero,
  )

  -- Without a field configuration, a watch that asks for the decimal text of a uint64 other than zero and
  -- the current version is answered with 410.
  pub watch-expired :
      (r : Rest Obj Store) (u : Option User) (o : ListOptions) (n : ℕ)
      → opts.field_selectors ≡ none
      → o.resource_version ≡ format_uint n
      → n ≤ max_u64
      → n ≢ 0
      → n ≢ r.rv
      → watch k opts r u (some o) ≡ err expired
  unfolding watch
  watch-expired r u o n ec er fits nz ne = simp (ec, er, version_number r n fits nz ne)

  -- The initial events of a watch are the same in two states with the same counter and the same store,
  -- whatever their trackers and published events.
  pub watch_ignores_tracker :
      (r r' : Rest Obj Store) (u : Option User) (o : Option ListOptions)
      → r'.rv ≡ r.rv
      → r'.store ≡ r.store
      → watch k opts r' u o ≡ watch k opts r u o
  unfolding watch check_version watch_prefix current_resource_version
  watch_ignores_tracker r r' u o ev es = rw (ev, es)

  admits_ignores_fields :
      (o : ListOptions) (sel : Option FieldSelector)
      → opts.field_selectors ≡ none
      → admits k opts (some (record o { field_selector = sel })) ≡ admits k opts (some o)
  unfolding admits list_opts_from
  admits_ignores_fields o sel ec = fun_ext λ obj. rw ec

  prefix_ignores_fields :
      (r : Rest Obj Store) (o : ListOptions) (sel : Option FieldSelector) (items : List Obj)
      → opts.field_selectors ≡ none
      → watch_prefix k opts r (some (record o { field_selector = sel })) items
        ≡ watch_prefix k opts r (some o) items
  unfolding watch_prefix
  prefix_ignores_fields r o sel items ec = rw (admits_ignores_fields o sel ec)

  -- Without a field configuration a watch is the same whatever its field selector.
  pub watch_ignores_fields :
      (r : Rest Obj Store) (u : Option User) (o : ListOptions) (sel : Option FieldSelector)
      → opts.field_selectors ≡ none
      → watch k opts r u (some (record o { field_selector = sel })) ≡ watch k opts r u (some o)
  unfolding watch list_opts_from
  watch_ignores_fields r u o sel ec =
      simp (ec, λ (items : List Obj). prefix_ignores_fields r o sel items ec)
