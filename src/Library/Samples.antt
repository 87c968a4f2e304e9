-- ===== src/Library/Samples.antt =====
-- A small backend to run the adapter on: objects in a list, found by name.
use aggexp.Prelude.{refl, Bool, true, false, List, [], ◌∷◌, ◌++◌, Option, none, some, if◌then◌else◌}
use aggexp.Prelude.Int.{pos}
use aggexp.Text.{Bytes, codes, str_eq}
use aggexp.Kube.{
  StringMap, Accessor, IsLawful, Result, ok, err, not_found, ListOptions, FieldSelector, ObjList,
}
use aggexp.Storage.{Backend, Writes}
use aggexp.Library.FieldSelector.{FieldSelectorConfig}
use aggexp.Library.Rest.{Options, Rest}
use aggexp.Library.Rest.Writing.{UpdateCall}

pub record Item : Type 0 where
  pub item_name : Bytes
  pub item_namespace : Bytes
  pub item_rv : Bytes
  pub item_uid : Bytes
  pub item_labels : StringMap
  pub item_annotations : StringMap

abbrev pub item : Bytes → Bytes → Item
item name rv = record {
  item_name = name;
  item_namespace = codes "ns";
  item_rv = rv;
  item_uid = [];
  item_labels = [];
  item_annotations = [];
}

abbrev pub items : Accessor Item
items = record {
  is_accessible = λ o. true;
  name = λ o. o.item_name;
  namespace = λ o. o.item_namespace;
  resource_version = λ o. o.item_rv;
  uid = λ o. o.item_uid;
  labels = λ o. o.item_labels;
  annotations = λ o. o.item_annotations;
  set_resource_version = λ o v. record o { item_rv = v };
  set_uid = λ o v. record o { item_uid = v };
  set_annotations = λ o v. record o { item_annotations = v };
}

pub items-IsLawful : IsLawful items
items-IsLawful = record {
  rv-set_rv = λ o v. refl;
  name-set_rv = λ o v. refl;
  namespace-set_rv = λ o v. refl;
  uid-set_rv = λ o v. refl;
  labels-set_rv = λ o v. refl;
  accessible-set_rv = λ o v. refl;
  uid-set_uid = λ o v. refl;
  name-set_uid = λ o v. refl;
  rv-set_uid = λ o v. refl;
  accessible-set_uid = λ o v. refl;
}

abbrev pub find_item : Bytes → List Item → Result Item
find_item name [] = err (not_found name)
find_item name (o ∷ l) =
    let rest = find_item name l in if str_eq o.item_name name then ok o else rest

abbrev pub replace_item : Item → List Item → List Item
replace_item o [] = []
replace_item o (x ∷ l) =
    let rest = replace_item o l in if str_eq x.item_name o.item_name then o ∷ l else x ∷ rest

abbrev pub remove_item : Bytes → List Item → List Item
remove_item name [] = []
remove_item name (x ∷ l) =
    let rest = remove_item name l in if str_eq x.item_name name then l else x ∷ rest

abbrev pub all_items : List Item → ObjList Item
all_items l = record {
  is_list = true;
  items = l;
  resource_version = [];
  continue_token = [];
  remaining = none;
}

abbrev pub item_backend : Backend Item (Unit {0}) (List Item)
item_backend = record {
  new_object = item [] [];
  get = λ s u name. find_item name s;
  list = λ s u sel. ok (all_items s);
}

abbrev pub removed_item : List Item → Bytes → Result Item → List Item × Result (Item × Bool)
removed_item s name (ok o) = (remove_item name s, ok (o, true))
removed_item s name (err e) = (s, err e)

abbrev pub item_writes : Writes Item (Unit {0}) (List Item)
item_writes = record {
  create = λ s u o. (s ++ o ∷ [], ok o);
  update = λ s u name o force. (replace_item o s, ok (o, false));
  delete = λ s u name. removed_item s name (find_item name s);
}

abbrev pub options : Bool → Option (FieldSelectorConfig Item) → Options Item (Unit {0}) (List Item)
options occ fields = record {
  backend = item_backend;
  writable = some item_writes;
  group_resource = record { group = codes "example.io"; resource = codes "items" };
  deterministic_uids = false;
  pagination = false;
  optimistic_concurrency = occ;
  bookmark = true;
  field_selectors = fields;
  sha256 = λ s. s;
}

-- An update that writes the given object, whatever is there.
abbrev pub writes_item : Item → UpdateCall Item
writes_item o = record {
  updated_object = λ current. ok o;
  create_validation = none;
  update_validation = none;
  force_allow_create = false;
}

abbrev pub no_options : ListOptions
no_options = record {
  label_selector = none;
  field_selector = none;
  limit = pos 0;
  continue_token = [];
  resource_version = [];
  allow_watch_bookmarks = true;
}

abbrev pub by_field : FieldSelector
by_field = record {
  is_empty = false;
  requirements =
      record { field = codes "metadata.name"; operator = codes "!="; value = codes "a" } ∷ [];
}

abbrev pub field_config : FieldSelectorConfig Item
field_config = record { selectable_fields = []; accessor = none }

abbrev pub a_at : Bytes → Item
a_at rv = item (codes "a") rv

abbrev pub b_at : Bytes → Item
b_at rv = item (codes "b") rv

-- An adapter that has created "a" under the version 2.
abbrev pub one_created : Rest Item (List Item)
one_created = record {
  rv = 2;
  occ = some ((codes "a", codes "2") ∷ []);
  published = [];
  store = a_at (codes "2") ∷ [];
}
