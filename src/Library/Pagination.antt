-- ===== src/Library/Pagination.antt =====
-- runtime/library/pagination.go: pages of a list cut by a limit and a continue token.
-- Offsets and limits are 64-bit signed integers that wrap; a slice out of bounds panics.
pub mod Token
pub mod Sort
pub mod Pages
use aggexp.Prelude.{
  ℕ, ◌+◌, ◌-◌, ◌^◌, Bool, true, false, not, ◌&&◌, ◌||◌, List, [], ◌∷◌, ◌++◌, Option, none, some,
  ltb, leb, ◌==◌, length, take, drop, if◌then◌else◌,
}
use aggexp.Prelude.Int.{ℤ, pos, negsuc, pos_part, neg_part, ◌+ℤ◌, ltb_ℤ}
use aggexp.Text.{Bytes, str_eq, str_lt, str_empty}
use aggexp.Decimal.{format_uint, scan}
use aggexp.Base64.{encode, decode}
use aggexp.Kube.{
  Accessor, ObjList, Result, ok, err, bad_request, expired, internal, panicked, ◌>>=◌,
}
use aggexp.Library.Objects.{extract_list}

abbrev pub max_i64 : ℕ
max_i64 = 2 ^ 63 - 1

-- The value of an int64 sum: it wraps around.
unfoldable pub wrap_i64 : ℤ → ℤ
wrap_i64 (pos n) = if ltb max_i64 n then (pos n) +ℤ (negsuc (2 ^ 64 - 1)) else pos n
wrap_i64 (negsuc n) = if ltb max_i64 n then (negsuc n) +ℤ (pos (2 ^ 64)) else negsuc n

abbrev pub negate : Option ℕ → Option ℤ
negate none = none
negate (some n) = some (if n == 0 then pos 0 else negsuc (n - 1))

abbrev pub positive : Option ℕ → Option ℤ
positive none = none
positive (some n) = some (pos n)

abbrev unsigned : ℕ → Bytes → Option ℕ
unsigned limit [] = none
unsigned limit (c ∷ s) = scan limit 0 (c ∷ s)

-- strconv.Atoi: a sign and digits, within an int64.
unfoldable pub atoi : Bytes → Option ℤ
atoi [] = none
atoi (c ∷ s) =
    if c == 45
    then negate (unsigned (2 ^ 63) s)
    else if c == 43
    then positive (unsigned max_i64 s)
    else positive (unsigned max_i64 (c ∷ s))

-- strings.SplitN(s, ":", 2) when it has two parts.
unfoldable pub split_once : ℕ → Bytes → Option (Bytes × Bytes)
split_once sep [] = none
split_once sep (c ∷ s) =
    let rest = split_once sep s in
    if c == sep then some ([], s) else elim rest [ none ↦ none | some (a, b) ↦ some (c ∷ a, b) ]

unfoldable pub encode_continue_token : Bytes → ℕ → Bytes
encode_continue_token rv offset = encode (rv ++ 58 ∷ format_uint offset)

abbrev pub with_offset : Bytes → Option ℤ → Option (Bytes × ℤ)
with_offset rv none = none
with_offset rv (some offset) = some (rv, offset)

abbrev pub parse_raw : Option (Bytes × Bytes) → Option (Bytes × ℤ)
parse_raw none = none
parse_raw (some (rv, digits)) = with_offset rv (atoi digits)

abbrev pub parse_decoded : Option Bytes → Option (Bytes × ℤ)
parse_decoded none = none
parse_decoded (some raw) = parse_raw (split_once 58 raw)

-- `none` is any of its errors.
unfoldable pub decode_continue_token : Bytes → Option (Bytes × ℤ)
decode_continue_token token = parse_decoded (decode token)

module _ {Obj : Type 0} (k : Accessor Obj) where
  -- The `less` function: false when an object has no metadata.
  unfoldable pub name_less : Obj → Obj → Bool
  name_less a b = k.is_accessible a && k.is_accessible b && str_lt (k.name a) (k.name b)

  unfoldable pub insert_sorted : Obj → List Obj → List Obj
  insert_sorted a [] = a ∷ []
  insert_sorted a (b ∷ l) =
      let rest = insert_sorted a l in if name_less b a then b ∷ rest else a ∷ b ∷ l

  -- sort.Slice(items, less); the order of items with equal names is not specified by the package.
  unfoldable pub sort_by_name : List Obj → List Obj
  unfolding insert_sorted
  sort_by_name [] = []
  sort_by_name (a ∷ l) = insert_sorted a (sort_by_name l)

abbrev pub checked_offset : Bytes → Option (Bytes × ℤ) → Result ℤ
checked_offset current_rv none = err bad_request
checked_offset current_rv (some (rv, offset)) =
    if str_eq rv current_rv then ok offset else err expired

-- The offset that a continue token asks for.
unfoldable pub token_offset : Bytes → Bytes → Result ℤ
token_offset token current_rv =
    if str_empty token then ok (pos 0) else checked_offset current_rv (decode_continue_token token)

-- `items[lo:hi]`
unfoldable pub slice : {Obj : Type 0} → List Obj → ℤ → ℤ → Result (List Obj)
slice items (pos lo) (pos hi) =
    if leb lo hi && leb hi (length items) then ok (take (hi - lo) (drop lo items)) else err panicked
slice items (pos lo) (negsuc hi) = err panicked
slice items (negsuc lo) hi = err panicked

unfoldable pub clamp_offset : ℤ → ℕ → ℤ
clamp_offset offset total = if ltb_ℤ (pos total) offset then pos total else offset

unfoldable pub page_end : ℤ → ℤ → ℕ → ℤ
page_end limit offset total =
    if ltb_ℤ (pos 0) limit && ltb_ℤ (wrap_i64 (offset +ℤ limit)) (pos total)
    then wrap_i64 (offset +ℤ limit)
    else pos total

-- The list's page and its metadata.
unfoldable pub build_page : {Obj : Type 0} → ObjList Obj → Bytes → ℕ → ℤ → List Obj → ObjList Obj
build_page l current_rv total end items = record l {
  items = items;
  resource_version = current_rv;
  continue_token =
      if ltb_ℤ end (pos total) then encode_continue_token current_rv (pos_part end) else [];
  remaining = if ltb_ℤ end (pos total) then some (total - pos_part end) else none;
}

unfoldable pub cut_page :
    {Obj : Type 0} → ObjList Obj → List Obj → ℤ → ℤ → Bytes → Result (ObjList Obj)
cut_page l items limit offset current_rv =
    let total = length items in
    let start = clamp_offset offset total in
    let end = page_end limit start total in
    slice items start end >>= λ page. ok (build_page l current_rv total end page)

module _ {Obj : Type 0} (k : Accessor Obj) where
  unfoldable pub paginate_list : ObjList Obj → ℤ → Bytes → Bytes → Result (ObjList Obj)
  paginate_list l limit token current_rv =
      if leb (pos_part limit) 0 && leb (neg_part limit) 0 && str_empty token then ok l else do
        items ← extract_list l
        offset ← token_offset token current_rv
        cut_page l (sort_by_name k items) limit offset current_rv
