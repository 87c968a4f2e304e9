-- ===== src/Gc/Tests.antt =====
-- Sweeps of runtime/component/v2/gc at concrete inputs.
use aggexp.Prelude.{inl, ◌≡◌, refl, ap, List, [], ◌∷◌, none, some, arith, All, ◌*◌}
use aggexp.Text.{Bytes, codes}
use aggexp.Kube.{ok}
use aggexp.Gc.{Ref, MetaRecord, Services, Config, sweep, second}
use aggexp.Gc.Survival.{IsKeeping, sweep-stored}

abbrev named : Bytes → Ref
named n = record { namespace = codes "ns"; name = n }

abbrev meta_of : Bytes → List Bytes → MetaRecord
meta_of n finalizers = record {
  ref = named n;
  creation_timestamp = some 0;
  finalizers = finalizers;
  owner_references = [];
  deletion_timestamp = none;
}

-- Three records: "a" has its object, "b" and "c" are orphans, "c" with a finalizer.
abbrev three : List MetaRecord
three = meta_of (codes "b") [] ∷ meta_of (codes "a") [] ∷ meta_of (codes "c") (codes "f" ∷ []) ∷ []

-- The world is the list of the references deleted so far.
abbrev services : Services (List Ref)
services = record {
  records = λ w. (w, ok three);
  objects = λ w. (w, ok (named (codes "a") ∷ []));
  delete = λ w r. (r ∷ w, ok tt);
  now = λ w. 60 * second;
  record_name = λ r. r.name;
}

abbrev config : Config
config = record { interval = 300 * second; min_age = 30 * second; initial_delay = 10 * second }

-- A record is stored as long as its reference is not among the deleted ones.
abbrev Stored : List Ref → MetaRecord → Type 0
Stored w rec = All (λ r. ¬ (rec.ref ≡ r)) w

services-IsKeeping : IsKeeping services config Stored
services-IsKeeping = record {
  delete-stored = λ w r rec h ne. (ne, h);
  records-stored = λ w rec h. h;
  objects-stored = λ w rec h. h;
}

sweep-stored_example : Stored (sweep services config []).0 (meta_of (codes "a") [])
sweep-stored_example =
    sweep-stored services config Stored services-IsKeeping (meta_of (codes "a") []) [] [] [] three
      (named (codes "a") ∷ []) refl refl (inl (inl refl))
      (
        (λ e. absurd (ground (arith, ap (λ r. r.name) e))),
        ((λ e. refl), ((λ e. absurd (ground (arith, ap (λ r. r.name) e))), tt)),
      )
      tt
