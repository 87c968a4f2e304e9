-- ===== src/Library/CrdStore.antt =====
-- runtime/library/crdstore.go: a backend that keeps its objects in a custom resource of the host. The dynamic
-- client, the informer's lister, the converter and the sink of events are parameters.
pub mod Host
pub mod Refines
mod Tests
use aggexp.Prelude.{Bool, true, false, List, [], ◌∷◌, Option, none, some, if◌then◌else◌}
use aggexp.Text.{Bytes, str_empty}
use aggexp.Kube.{
  Result, ok, err, internal, not_found, already_exists, is_not_found, is_already_exists,
  is_conflict, ObjList, LabelSelector, EventType, deleted,
}
use aggexp.Library.Objects.{set_list_rv}
use aggexp.Storage.{Backend, Writes}

-- `Cr` is the unstructured resource.
pub record CrdClient (World Cr : Type 0) : Type 0 where
  pub get : World → Bytes → World × Result Cr
  pub create : World → Cr → World × Result Cr
  pub update : World → Cr → World × Result Cr
  pub delete : World → Bytes → World × Result (Unit {0})
  pub lister_get : World → Bytes → Result Cr
  pub lister_list : World → Result (List Cr)
  pub cr_name : Cr → Bytes
  pub set_cr_name : Cr → Bytes → Cr
  pub cr_version : Cr → Bytes
  pub set_cr_version : Cr → Bytes → Cr

-- The event sink has a state in the world; it is set before the start.
pub record Sink (World Obj : Type 0) : Type 0 where
  pub action : World → EventType → Obj → World
  pub current_resource_version : World → Bytes
  pub set_current_resource_version : World → Bytes → World

pub record CrdStore (World Cr Obj : Type 0) : Type 0 where
  pub client : CrdClient World Cr
  pub namespace : Bytes
  pub to_typed : Cr → Obj
  pub to_unstructured : Obj → Bytes → Cr
  pub new_object : Obj
  pub new_list : ObjList Obj
  pub sink : Option (Sink World Obj)

module _ {World Cr Obj : Type 0} (s : CrdStore World Cr Obj) where
  abbrev pub notify : Option (Sink World Obj) → World → EventType → Cr → World
  notify none w et u = w
  notify (some k) w et u =
      k.action (k.set_current_resource_version w (s.client.cr_version u)) et (s.to_typed u)

  unfoldable pub handle_event : World → EventType → Cr → World
  handle_event w et u = notify s.sink w et u

  unfoldable pub handle_delete : World → Cr → World
  handle_delete w u = handle_event w deleted u

  abbrev pub typed_get : Bytes → Result Cr → Result Obj
  typed_get name (ok u) = ok (s.to_typed u)
  typed_get name (err e) = if is_not_found e then err (not_found name) else err internal

  unfoldable pub get : World → Bytes → Result Obj
  get w name = typed_get name (s.client.lister_get w name)

  abbrev pub typed_all : List Cr → List Obj
  typed_all [] = []
  typed_all (u ∷ l) = s.to_typed u ∷ typed_all l

  abbrev pub with_rv : Option (Sink World Obj) → World → ObjList Obj → ObjList Obj
  with_rv none w l = l
  with_rv (some k) w l = set_list_rv l (k.current_resource_version w)

  abbrev pub typed_list : World → Result (List Cr) → Result (ObjList Obj)
  typed_list w (err e) = err internal
  typed_list w (ok l) = ok (with_rv s.sink w (record (s.new_list) { items = typed_all l }))

  unfoldable pub list : World → Result (ObjList Obj)
  list w = typed_list w (s.client.lister_list w)

  abbrev pub created : Bytes → World × Result Cr → World × Result Obj
  created name (w, ok u) = (w, ok (s.to_typed u))
  created name (w, err e) =
      (w, if is_already_exists e then err (already_exists name) else err internal)

  unfoldable pub create : World → Obj → World × Result Obj
  create w obj =
      let u = s.to_unstructured obj s.namespace in
      created (s.client.cr_name u) (s.client.create w u)

  abbrev pub named : Bytes → Cr → Cr
  named name u = if str_empty (s.client.cr_name u) then s.client.set_cr_name u name else u

  abbrev pub created_by_update : World × Result Cr → World × Result (Obj × Bool)
  created_by_update (w, ok u) = (w, ok (s.to_typed u, true))
  created_by_update (w, err e) = (w, err internal)

  abbrev pub updated : World × Result Cr → World × Result (Obj × Bool)
  updated (w, ok u) = (w, ok (s.to_typed u, false))
  updated (w, err e) = (w, if is_conflict e then err e else err internal)

  abbrev pub update_on : Bytes → Cr → Bool → World × Result Cr → World × Result (Obj × Bool)
  update_on name u force_create (w, ok existing) =
      updated (s.client.update w (s.client.set_cr_version u (s.client.cr_version existing)))
  update_on name u force_create (w, err e) =
      if is_not_found e
      then (if force_create
          then created_by_update (s.client.create w u)
          else (w, err (not_found name)))
      else (w, err internal)

  -- On the version that is read here, whatever version the object carries.
  unfoldable pub update : World → Bytes → Obj → Bool → World × Result (Obj × Bool)
  update w name obj force_create =
      update_on name (named name (s.to_unstructured obj s.namespace)) force_create
        (s.client.get w name)

  abbrev pub deleted_as : Bytes → Obj → World × Result (Unit {0}) → World × Result (Obj × Bool)
  deleted_as name obj (w, ok done) = (w, ok (obj, true))
  deleted_as name obj (w, err e) =
      (w, if is_not_found e then err (not_found name) else err internal)

  abbrev pub delete_on : Bytes → World × Result Cr → World × Result (Obj × Bool)
  delete_on name (w, ok existing) = deleted_as name (s.to_typed existing) (s.client.delete w name)
  delete_on name (w, err e) = (w, if is_not_found e then err (not_found name) else err internal)

  unfoldable pub delete : World → Bytes → World × Result (Obj × Bool)
  delete w name = delete_on name (s.client.get w name)

  -- The store as a backend of the adapter; it does not look at the user.
  abbrev pub backend : {User : Type 0} → Backend Obj User World
  backend = record {
    new_object = s.new_object;
    get = λ w u name. get w name;
    list = λ w u sel. list w;
  }

  abbrev pub writes : {User : Type 0} → Writes Obj User World
  writes = record {
    create = λ w u obj. create w obj;
    update = λ w u name obj force. update w name obj force;
    delete = λ w u name. delete w name;
  }
