-- ===== src/Library/CrdStore/Tests.antt =====
-- The custom-resource store over a small host.
use aggexp.Prelude.{true, [], Option, none, some, if◌then◌else◌}
use aggexp.Text.{Bytes, codes, str_eq}
use aggexp.GoMap.{GoMap, lookup, insert, delete}
use aggexp.Kube.{Result, ok, err, not_found, already_exists, conflict}
use aggexp.Library.CrdStore.{CrdClient, CrdStore, create, update}
use aggexp.Library.CrdStore as CrdStore
use aggexp.Library.CrdStore.Host.{View}

record Widget : Type 0 where
  called : Bytes
  version : Bytes

abbrev Host : Type 0
Host = GoMap Widget

abbrev view : Host → View Widget
view w name = lookup name w

-- All but the version.
abbrev spec : Widget → Bytes
spec u = u.called

abbrev found : Bytes → Option Widget → Result Widget
found name none = err (not_found name)
found name (some u) = ok u

abbrev create_on : Host → Widget → Option Widget → Host × Result Widget
create_on w u none = (insert u.called u w, ok u)
create_on w u (some old) = (w, err (already_exists u.called))

abbrev update_at : Host → Widget → Option Widget → Host × Result Widget
update_at w u none = (w, err (not_found u.called))
update_at w u (some old) =
    if str_eq old.version u.version
    then (insert u.called u w, ok u)
    else (w, err (conflict u.called))

abbrev delete_at : Host → Bytes → Option Widget → Host × Result (Unit {0})
delete_at w name none = (w, err (not_found name))
delete_at w name (some old) = (delete name w, ok tt)

abbrev client : CrdClient Host Widget
client = record {
  get = λ w name. (w, found name (lookup name w));
  create = λ w u. create_on w u (lookup u.called w);
  update = λ w u. update_at w u (lookup u.called w);
  delete = λ w name. delete_at w name (lookup name w);
  lister_get = λ w name. found name (lookup name w);
  lister_list = λ w. ok [];
  cr_name = λ u. u.called;
  set_cr_name = λ u name. record u { called = name };
  cr_version = λ u. u.version;
  set_cr_version = λ u v. record u { version = v };
}

abbrev store : CrdStore Host Widget Widget
store = record {
  client = client;
  namespace = codes "ns";
  to_typed = λ u. u;
  to_unstructured = λ obj ns. obj;
  new_object = record { called = []; version = [] };
  new_list = record {
    is_list = true;
    items = [];
    resource_version = [];
    continue_token = [];
    remaining = none;
  };
  sink = none;
}

abbrev widget : Widget
widget = record { called = codes "w"; version = codes "1" }
