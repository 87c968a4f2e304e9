-- ===== src/Gc.antt =====
-- runtime/component/v2/gc/gc.go: the sweep that deletes metadata records without a backend object. The
-- metadata store and the backend are parameters; the timer and the HTTP handlers are not modelled.
pub mod Sweeps
pub mod Survival
mod Tests
use aggexp.Prelude.{
  ℕ, suc, ◌+◌, ◌*◌, ◌^◌, Bool, true, false, not, ◌&&◌, List, [], ◌∷◌, ◌++◌, Option, none, some, ltb,
  leb, keep, length, if◌then◌else◌,
}
use aggexp.Text.{Bytes, str_eq, str_lt}
use aggexp.Kube.{ApiError, Result, ok, err}

pub record Ref : Type 0 where
  pub namespace : Bytes
  pub name : Bytes

-- The fields of `metadatastore.Record` that the sweep reads: the owner references are raw JSON, times are
-- in nanoseconds, `none` when unset.
pub record MetaRecord : Type 0 where
  pub ref : Ref
  pub creation_timestamp : Option ℕ
  pub finalizers : List Bytes
  pub owner_references : Bytes
  pub deletion_timestamp : Option ℕ

-- Group and resource are fixed; `objects` gives namespace and name of every listed backend object,
-- both empty for one that does not decode.
pub record Services (World : Type 0) : Type 0 where
  pub records : World → World × Result (List MetaRecord)
  pub objects : World → World × Result (List Ref)
  pub delete : World → Ref → World × Result (Unit {0})
  pub now : World → ℕ
  pub record_name : Ref → Bytes

pub record Config : Type 0 where
  pub interval : ℕ
  pub min_age : ℕ
  pub initial_delay : ℕ

abbrev pub second : ℕ
second = 10 ^ 9

abbrev or_default : ℕ → ℕ → ℕ
or_default d n = if leb n 0 then d else n

-- `New`: the defaults of unset durations.
unfoldable pub new_config : Config → Config
new_config c = record {
  interval = or_default (300 * second) c.interval;
  min_age = or_default (30 * second) c.min_age;
  initial_delay = or_default (10 * second) c.initial_delay;
}

pub data Reason : Type 0 where
  too_young has_finalizers has_owners being_deleted : Reason
  delete_error : ApiError → Reason

pub record Skipped : Type 0 where
  pub name : Bytes
  pub reason : Reason

pub data Failure : Type 0 where
  store_list backend_list : ApiError → Failure

pub record RunResult : Type 0 where
  pub seen : ℕ
  pub backend : ℕ
  pub orphans : ℕ
  pub deleted : ℕ
  pub skipped : List Skipped
  pub deletions : List Bytes
  pub error : Option Failure

abbrev pub no_result : RunResult
no_result = record {
  seen = 0;
  backend = 0;
  orphans = 0;
  deleted = 0;
  skipped = [];
  deletions = [];
  error = none;
}

unfoldable pub key : Ref → Bytes
key r = r.namespace ++ 47 ∷ r.name

unfoldable pub has_key : Bytes → List Bytes → Bool
has_key k [] = false
has_key k (x ∷ l) = if str_eq k x then true else has_key k l

-- The keys of the map `backendByKey`, each once.
unfoldable pub backend_keys : List Ref → List Bytes
backend_keys [] = []
backend_keys (r ∷ l) =
    let rest = backend_keys l in if has_key (key r) rest then rest else key r ∷ rest

unfoldable pub is_orphan : List Bytes → MetaRecord → Bool
is_orphan keys rec = not (has_key (key rec.ref) keys)

unfoldable pub insert_by_name : MetaRecord → List MetaRecord → List MetaRecord
insert_by_name a [] = a ∷ []
insert_by_name a (b ∷ l) =
    let rest = insert_by_name a l in if str_lt b.ref.name a.ref.name then b ∷ rest else a ∷ b ∷ l

-- `sort.Slice` by name.
unfoldable pub by_name : List MetaRecord → List MetaRecord
by_name [] = []
by_name (a ∷ l) = insert_by_name a (by_name l)

abbrev pub younger : Option ℕ → ℕ → ℕ → Bool
younger none min_age now = false
younger (some created) min_age now = ltb now (created + min_age)

abbrev pub is_set : Option ℕ → Bool
is_set none = false
is_set (some t) = true

-- `none` is `decideDelete`.
unfoldable pub decide : Config → MetaRecord → ℕ → Option Reason
decide c rec now =
    if younger rec.creation_timestamp c.min_age now
    then some too_young
    else if ltb 0 (length rec.finalizers)
    then some has_finalizers
    else if ltb 0 (length rec.owner_references)
    then some has_owners
    else if is_set rec.deletion_timestamp
    then some being_deleted
    else none

pub record Reconciler : Type 0 where
  pub cfg : Config
  pub running : Bool
  pub last_run : Option RunResult

module _ {World : Type 0} (s : Services World) (c : Config) where
  abbrev pub skip : MetaRecord → Reason → RunResult → RunResult
  skip rec reason res = record res {
    skipped = res.skipped ++ record { name = s.record_name rec.ref; reason = reason } ∷ [];
  }

  abbrev pub after_delete : MetaRecord → RunResult → World × Result (Unit {0}) → World × RunResult
  after_delete rec res (w, err e) = (w, skip rec (delete_error e) res)
  after_delete rec res (w, ok done) = (
    w,
    record res {
      deletions = res.deletions ++ s.record_name rec.ref ∷ [];
      deleted = res.deleted + 1;
    },
  )

  abbrev pub apply_decision : MetaRecord → RunResult → World → Option Reason → World × RunResult
  apply_decision rec res w none = after_delete rec res (s.delete w rec.ref)
  apply_decision rec res w (some reason) = (w, skip rec reason res)

  -- The loop over the orphans, with the time read before it.
  unfoldable pub collect : ℕ → List MetaRecord → World → RunResult → World × RunResult
  collect now [] w res = (w, res)
  collect now (rec ∷ l) w res =
      let out = apply_decision rec res w (decide c rec now) in collect now l out.0 out.1

  abbrev pub with_objects :
      List MetaRecord → RunResult → World × Result (List Ref) → World × RunResult
  with_objects records res (w, err e) = (w, record res { error = some (backend_list e) })
  with_objects records res (w, ok objs) =
      let keys = backend_keys objs in
      let orphans = by_name (keep (is_orphan keys) records) in
      collect (s.now w) orphans w (record res { backend = length keys; orphans = length orphans })

  abbrev pub with_records : World × Result (List MetaRecord) → World × RunResult
  with_records (w, err e) = (w, record no_result { error = some (store_list e) })
  with_records (w, ok records) =
      with_objects records (record no_result { seen = length records }) (s.objects w)

  unfoldable pub sweep : World → World × RunResult
  sweep w = with_records (s.records w)

module _ {World : Type 0} (s : Services World) where
  -- `runOnce`; `none` while another sweep is running.
  unfoldable pub run_once : Reconciler → World → (Reconciler × World) × Option RunResult
  run_once r w =
      if r.running
      then ((r, w), none)
      else let out = sweep s r.cfg w in
        ((record r { running = false; last_run = some out.1 }, out.0), some out.1)
