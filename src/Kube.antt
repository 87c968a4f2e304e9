-- ===== src/Kube.antt =====
-- What the code uses of the Kubernetes API machinery: errors, object metadata, lists, selectors and
-- watch events. Objects and their accessors are parameters, with the laws of `metav1.Object`.
use aggexp.Prelude.{ℕ, ◌≡◌, Bool, true, false, List, Option}
use aggexp.Prelude.Int.{ℤ}
use aggexp.Text.{Bytes}

-- The status errors of `apierrors`, without their messages; `upstream` is any other error, and
-- `panicked` a run-time panic.
pub data ApiError : Type 0 where
  bad_request expired internal panicked : ApiError
  not_found already_exists conflict method_not_supported upstream : Bytes → ApiError

unfoldable pub is_not_found : ApiError → Bool
is_not_found (not_found n) = true
is_not_found _ = false

unfoldable pub is_conflict : ApiError → Bool
is_conflict (conflict n) = true
is_conflict _ = false

unfoldable pub is_already_exists : ApiError → Bool
is_already_exists (already_exists n) = true
is_already_exists _ = false

infixl 5 ◌>>◌ ◌>>=◌
-- What `(T, error)` returns.
pub data Result {ℓ} (T : Type ℓ) : Type ℓ where
  err : ApiError → Result T
  ok : T → Result T

-- The rest of a function behind `if err != nil { return }`.
abbrev pub ◌>>=◌ {ℓ₁ ℓ₂} : {S : Type ℓ₁} {T : Type ℓ₂} → Result S → (S → Result T) → Result T
err e >>= next = err e
ok x >>= next = next x

abbrev pub ◌>>◌ {ℓ} : {T : Type ℓ} → Result (Unit {0}) → Result T → Result T
check >> rest = check >>= λ _. rest

abbrev pub StringMap : Type 0
StringMap = List (Bytes × Bytes)

-- `meta.Accessor` and the getters and setters of `metav1.Object`.
pub record Accessor (Obj : Type 0) : Type 0 where
  pub is_accessible : Obj → Bool
  pub name : Obj → Bytes
  pub namespace : Obj → Bytes
  pub resource_version : Obj → Bytes
  pub uid : Obj → Bytes
  pub labels : Obj → StringMap
  pub annotations : Obj → StringMap
  pub set_resource_version : Obj → Bytes → Obj
  pub set_uid : Obj → Bytes → Obj
  pub set_annotations : Obj → StringMap → Obj

-- A setter sets its field and no other.
pub record IsLawful {Obj : Type 0} (k : Accessor Obj) : Type 0 where
  pub rv-set_rv : (o : Obj) (v : Bytes) → k.resource_version (k.set_resource_version o v) ≡ v
  pub name-set_rv : (o : Obj) (v : Bytes) → k.name (k.set_resource_version o v) ≡ k.name o
  pub namespace-set_rv :
      (o : Obj) (v : Bytes) → k.namespace (k.set_resource_version o v) ≡ k.namespace o
  pub uid-set_rv : (o : Obj) (v : Bytes) → k.uid (k.set_resource_version o v) ≡ k.uid o
  pub labels-set_rv : (o : Obj) (v : Bytes) → k.labels (k.set_resource_version o v) ≡ k.labels o
  pub accessible-set_rv :
      (o : Obj) (v : Bytes) → k.is_accessible (k.set_resource_version o v) ≡ k.is_accessible o
  pub uid-set_uid : (o : Obj) (v : Bytes) → k.uid (k.set_uid o v) ≡ v
  pub name-set_uid : (o : Obj) (v : Bytes) → k.name (k.set_uid o v) ≡ k.name o
  pub rv-set_uid : (o : Obj) (v : Bytes) → k.resource_version (k.set_uid o v) ≡ k.resource_version o
  pub accessible-set_uid :
      (o : Obj) (v : Bytes) → k.is_accessible (k.set_uid o v) ≡ k.is_accessible o

-- A list object: `meta.ExtractList` succeeds on it when `is_list`.
pub record ObjList (Obj : Type 0) : Type 0 where
  pub is_list : Bool
  pub items : List Obj
  pub resource_version : Bytes
  pub continue_token : Bytes
  pub remaining : Option ℕ

-- `labels.Selector`: `Empty` and `Matches`.
pub record LabelSelector : Type 0 where
  pub is_empty : Bool
  pub matches : StringMap → Bool

-- `fields.Requirement` and `fields.Selector`.
pub record Requirement : Type 0 where
  pub field : Bytes
  pub operator : Bytes
  pub value : Bytes

pub record FieldSelector : Type 0 where
  pub is_empty : Bool
  pub requirements : List Requirement

pub data EventType : Type 0 where
  added modified deleted bookmark : EventType

pub record Event (Obj : Type 0) : Type 0 where
  pub event_type : EventType
  pub object : Obj

-- The fields of `metainternalversion.ListOptions` that the adapters read.
pub record ListOptions : Type 0 where
  pub label_selector : Option LabelSelector
  pub field_selector : Option FieldSelector
  pub limit : ℤ
  pub continue_token : Bytes
  pub resource_version : Bytes
  pub allow_watch_bookmarks : Bool
