-- ===== src/Library/Pagination/Pages.antt =====
-- Following the continue tokens of a snapshot from page to page.
use aggexp.Prelude.{
  ℕ, zero, suc, ◌+◌, ◌-◌, ◌≤◌, ◌<◌, ◌≡◌, ◌≢◌, refl, true, false, List, [], ◌∷◌, ◌++◌, arith, ltb,
  ltb→lt, leb, All, length, take, drop, take-append-drop, take_all, drop-drop, length-drop,
  if◌then◌else◌, Bool-cases, inl, inr,
}
use aggexp.Prelude.Int.{pos, ◌+ℤ◌}
use aggexp.Text.{Bytes, str_empty, str_eq_refl}
use aggexp.Decimal.{format_uint}
use aggexp.Base64.RoundTrip.{encode-cons-ne-nil}
use aggexp.Kube.{Accessor, ObjList, Result, ok, err, internal, ◌>>=◌}
use aggexp.Library.Objects.{extract_list}
use aggexp.Library.Pagination.{
  max_i64, wrap_i64, encode_continue_token, sort_by_name, token_offset, slice, clamp_offset,
  page_end, build_page, cut_page, paginate_list,
}
use aggexp.Library.Pagination.Token.{IsTokenByte, decode-encode_continue_token}
use aggexp.Library.Pagination.Sort.{length-sort_by_name}

wrap_small : (n : ℕ) → n ≤ max_i64 → wrap_i64 (pos n) ≡ pos n
unfolding wrap_i64
wrap_small n h = ground arith

add_pos : (m n : ℕ) → (pos m) +ℤ (pos n) ≡ pos (m + n)
unfolding ◌+ℤ◌
add_pos m n = ground arith

-- The end of a page of `limit` items from an offset within the list.
page_end-eq :
    (limit offset total : ℕ)
    → 0 < limit
    → offset + limit ≤ max_i64
    → page_end (pos limit) (pos offset) total
      ≡ pos (if ltb (offset + limit) total then offset + limit else total)
unfolding page_end
page_end-eq limit offset total h fits =
    rw (add_pos offset limit, wrap_small (offset + limit) fits) (ground arith)

clamp_within : (offset total : ℕ) → offset ≤ total → clamp_offset (pos offset) total ≡ pos offset
unfolding clamp_offset
clamp_within offset total h = ground arith

slice_within :
    {Obj : Type 0} (items : List Obj) (lo hi : ℕ)
    → lo ≤ hi
    → hi ≤ length items
    → slice items (pos lo) (pos hi) ≡ ok (take (hi - lo) (drop lo items))
unfolding slice
slice_within items lo hi h k = ground arith

-- Where the next page starts, after a page of `limit` items from `offset`.
abbrev stop : ℕ → ℕ → ℕ → ℕ
stop limit offset total = if ltb (offset + limit) total then offset + limit else total

extract_list-ok : {Obj : Type 0} (l : ObjList Obj) → l.is_list ≡ true → extract_list l ≡ ok l.items
unfolding extract_list
extract_list-ok l h = rw h

not_empty : (s : Bytes) → s ≢ [] → str_empty s ≡ false
unfolding str_empty
not_empty [] h = absurd (h refl)
not_empty (c ∷ s) h = refl

token_ne_empty : (rv : Bytes) (offset : ℕ) → str_empty (encode_continue_token rv offset) ≡ false
unfolding encode_continue_token
token_ne_empty [] offset = not_empty _ (encode-cons-ne-nil 58 (format_uint offset))
token_ne_empty (c ∷ rv) offset = not_empty _ (encode-cons-ne-nil c (rv ++ 58 ∷ format_uint offset))

module _ {Obj : Type 0} (l : ObjList Obj) (sorted : List Obj) (rv : Bytes) where
  page : ℕ → ℕ → ObjList Obj
  page limit offset =
      let end = stop limit offset (length sorted) in
      build_page l rv (length sorted) (pos end) (take (end - offset) (drop offset sorted))

  cut_page-page :
      (limit offset : ℕ)
      → 0 < limit
      → offset ≤ length sorted
      → offset + limit ≤ max_i64
      → cut_page l sorted (pos limit) (pos offset) rv ≡ ok (page limit offset)
  unfolding cut_page page
  cut_page-page limit offset h within fits = rw (
    clamp_within offset (length sorted) within,
    page_end-eq limit offset (length sorted) h fits,
    slice_within sorted offset (stop limit offset (length sorted)) (ground arith) (ground arith),
  )

  token_page :
      (k : Accessor Obj) (limit offset : ℕ)
      → l.is_list ≡ true
      → sort_by_name k l.items ≡ sorted
      → All IsTokenByte rv
      → 0 < limit
      → offset ≤ length sorted
      → offset + limit ≤ max_i64
      → paginate_list k l (pos limit) (encode_continue_token rv offset) rv ≡ ok (page limit offset)
  unfolding paginate_list token_offset
  token_page k limit offset is_list e plain h within fits =
      let nz : (leb limit 0) ≡ false = ground arith in
      rw
        (
          nz,
          extract_list-ok l is_list,
          e,
          token_ne_empty rv offset,
          decode-encode_continue_token rv offset plain (omega arith),
          str_eq_refl rv,
        )
        (cut_page-page limit offset h within fits)

  first_page :
      (k : Accessor Obj) (limit : ℕ)
      → l.is_list ≡ true
      → sort_by_name k l.items ≡ sorted
      → 0 < limit
      → limit ≤ max_i64
      → paginate_list k l (pos limit) [] rv ≡ ok (page limit 0)
  unfolding paginate_list token_offset str_empty
  first_page k limit is_list e h fits =
      let nz : (leb limit 0) ≡ false = ground arith in
      rw (nz, extract_list-ok l is_list, e) (cut_page-page limit 0 h (omega arith) (omega arith))

module _ {Obj : Type 0} (l : ObjList Obj) (sorted : List Obj) (rv : Bytes) where
  page_last :
      (limit offset : ℕ)
      → ltb (offset + limit) (length sorted) ≡ false
      → ((page l sorted rv limit offset).continue_token ≡ [])
        × ((page l sorted rv limit offset).items ≡ drop offset sorted)
  unfolding page build_page
  page_last limit offset e =
      let same : ltb (length sorted + 0) (length sorted + 0) ≡ false = ground arith in
      (
        rw (e, same),
        rw e (
            take_all (length sorted - offset) (drop offset sorted)
              (omega (arith, length-drop {0} offset sorted))),
      )

  page_more :
      (limit offset : ℕ)
      → ltb (offset + limit) (length sorted) ≡ true
      → ((page l sorted rv limit offset).continue_token ≡ encode_continue_token rv (offset + limit))
        × ((page l sorted rv limit offset).items ++ drop (offset + limit) sorted
            ≡ drop offset sorted)
  unfolding page build_page
  page_more limit offset e =
      let more : ltb (offset + limit + 0) (length sorted + 0) ≡ true = ground arith in
      let width : offset + limit - offset ≡ limit = omega arith in
      (
        rw (e, more),
        rw (e, width, ← drop-drop offset limit sorted)
            (take-append-drop limit (drop offset sorted)),
      )

module _ {Obj : Type 0} (k : Accessor Obj) (l : ObjList Obj) (limit : ℕ) (rv : Bytes) where
  -- A client that asks for the page behind a token until a page has none, and joins the pages.
  rest_of : ℕ → ObjList Obj → Result (List Obj)
  rest_of zero p = err internal
  rest_of (suc f) p =
      let rest = paginate_list k l (pos limit) p.continue_token rv >>= λ q.
      rest_of f q >>= λ more. ok (p.items ++ more) in
      if str_empty p.continue_token then ok p.items else rest

  pub follow_pages : ℕ → Result (List Obj)
  unfolding rest_of
  follow_pages fuel = paginate_list k l (pos limit) [] rv >>= rest_of fuel

module _ {Obj : Type 0} (k : Accessor Obj) (l : ObjList Obj) (limit : ℕ) (rv : Bytes)
    (is_list : l.is_list ≡ true) (plain : All IsTokenByte rv) (positive : 0 < limit)
    (fits : length l.items + limit ≤ max_i64) where
  rest_of-page :
      (f offset : ℕ)
      → offset ≤ length (sort_by_name k l.items)
      → length (sort_by_name k l.items) - offset < f
      → rest_of k l limit rv f (page l (sort_by_name k l.items) rv limit offset)
        ≡ ok (drop offset (sort_by_name k l.items))
  unfolding rest_of
  rest_of-page zero offset within h = absurd (omega arith)
  rest_of-page (suc f) offset within h =
      elim (Bool-cases (ltb (offset + limit) (length (sort_by_name k l.items)))) [
        | inl e ↦
            let (token, items) = page_more l (sort_by_name k l.items) rv limit offset e in
            rw (
              token,
              token_ne_empty rv (offset + limit),
              token_page l (sort_by_name k l.items) rv k limit (offset + limit) is_list refl plain
                  positive (ground arith)
                  (omega (
                    arith,
                    length-sort_by_name k l.items,
                    ltb→lt (offset + limit) (length (sort_by_name k l.items)) e,
                  )),
              rest_of-page f (offset + limit) (ground arith) (ground arith),
              items,
            )
        | inr e ↦
            let (token, items) = page_last l (sort_by_name k l.items) rv limit offset e in
            rw (token, items) (unfold str_empty in refl)
      ]

  -- For every positive limit, a client that follows the tokens gets, in order, exactly the items of
  -- the list sorted by name: nothing twice, nothing left out; and as many rounds as there are items
  -- are enough. The resource version is free of colons, the limit and the length fit an int64.
  pub follow_pages_complete :
      follow_pages k l limit rv (suc (length l.items)) ≡ ok (sort_by_name k l.items)
  unfolding follow_pages
  follow_pages_complete =
      rw (first_page l (sort_by_name k l.items) rv k limit is_list refl positive (omega arith)) (
        rest_of-page (suc (length l.items)) 0 (omega arith)
          (omega (arith, length-sort_by_name k l.items)))
