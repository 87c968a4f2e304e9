-- ===== src/Library/Locker/Tests.antt =====
-- The leases of runtime/library/locker.go at concrete inputs.
use aggexp.Prelude.{true, false, ◌≡◌, refl, [], Option, none, some, arith}
use aggexp.Text.{Bytes, codes}
use aggexp.Kube.{Result, ok, err, already_exists}
use aggexp.Library.Objects.{GroupResource}
use aggexp.Storage.{Writes}
use aggexp.Library.Samples.{Item, item}
use aggexp.Library.Locker
use aggexp.Library.Locker.Guarded.{Guarded}
use aggexp.Library.Locker.{per_object, Lease, LeaseApi, LockedBackend, lock_name, acquire}
use aggexp.Library.Locker.Names.{lock_name-injective}
use aggexp.Library.Locker.Holding.{IsLeasing, Leaves, Shows, Acquired, acquire-Acquired}

abbrev group : GroupResource
group = record { group = codes "g"; resource = codes "items" }

lock_name-injective_example : (codes "ns" ≡ codes "ns") × (codes "a.b" ≡ codes "a.b")
lock_name-injective_example =
    lock_name-injective (λ s. s) group (codes "ns") (codes "ns") (codes "a.b") (codes "a.b")
      (omega arith) (omega arith) (refl, (refl, tt)) (refl, (refl, tt)) refl

-- A world with one lease, or none.
abbrev lease_get : Option Lease → Option Lease × Result Lease
lease_get none = (none, err (already_exists []))
lease_get (some l) = (some l, ok l)

abbrev lease_create : Option Lease → Lease → Option Lease × Result Lease
lease_create none l = (some l, ok l)
lease_create (some old) l = (some old, err (already_exists []))

abbrev leases : LeaseApi (Option Lease)
leases = record {
  create = λ w name l. lease_create w l;
  get = λ w name. lease_get w;
  update = λ w name l. (some l, ok l);
  delete = λ w name. (none, ok tt);
  now = λ w. 5;
}

abbrev held_by : Option Lease → Bytes → Option Bytes
held_by none name = none
held_by (some l) name = l.holder_identity

leases-create :
    (w : Option Lease) (name : Bytes) (l : Lease)
    → Leaves leases held_by name l.holder_identity (lease_create w l)
leases-create none name l = refl
leases-create (some old) name l = tt

leases-get : (w : Option Lease) (name : Bytes) → Shows leases held_by name (lease_get w)
leases-get none name = tt
leases-get (some l) name = refl

leases-IsLeasing : IsLeasing leases held_by
leases-IsLeasing = record {
  create-Leaves = leases-create;
  update-Leaves = λ w name l. refl;
  get-Shows = leases-get;
}

abbrev backend : LockedBackend
backend = record {
  mode = per_object;
  identity = codes "pod-0";
  gr = group;
  lease_duration = 15;
  lock_namespace = codes "locks";
}

-- An expired lease of another replica.
abbrev old_lease : Lease
old_lease = record {
  version = [];
  holder_identity = some (codes "pod-1");
  lease_duration_seconds = some 0;
  acquire_time = some 0;
  renew_time = some 0;
}

acquire-Acquired_example :
    Acquired leases held_by leases-IsLeasing backend
      (codes "x")
      (acquire leases backend (codes "x") (some old_lease))
acquire-Acquired_example =
    acquire-Acquired leases held_by leases-IsLeasing backend (codes "x") (some old_lease)

abbrev echo : Writes Item (Unit {0}) (Option Lease)
echo = record {
  create = λ w u o. (w, ok o);
  update = λ w u name o force. (w, ok (o, false));
  delete = λ w u name. (w, ok (item name [], true));
}
