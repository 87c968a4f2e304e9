-- ===== src/Storage.antt =====
-- runtime/storage/backend.go: the contract of a resource's data plane. A backend is a parameter: a
-- state, reads that leave it alone and writes that may change it, each at the request's user.
use aggexp.Prelude.{Bool, Option}
use aggexp.Text.{Bytes}
use aggexp.Kube.{ObjList, LabelSelector, Result}

pub record Backend (Obj User Store : Type 0) : Type 0 where
  pub new_object : Obj
  pub get : Store → Option User → Bytes → Result Obj
  pub list : Store → Option User → LabelSelector → Result (ObjList Obj)

-- What `WritableBackend` adds. The flags are "created" and "deleted".
pub record Writes (Obj User Store : Type 0) : Type 0 where
  pub create : Store → Option User → Obj → Store × Result Obj
  pub update : Store → Option User → Bytes → Obj → Bool → Store × Result (Obj × Bool)
  pub delete : Store → Option User → Bytes → Store × Result (Obj × Bool)
