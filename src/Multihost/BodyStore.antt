-- ===== src/Multihost/BodyStore.antt =====
-- runtime/library/multihost/bodystore.go: bodies in a shared custom resource, and who may see them. The
-- host's API server and the informer's cache are parameters; the cache maps resource names to resources.
pub mod Subscriptions
pub mod RoundTrip
pub mod Visible
pub mod Gate
pub mod Hash
use aggexp.Prelude.{
  ℕ, ◌+◌, Bool, true, false, not, ◌&&◌, ◌||◌, List, [], ◌∷◌, ◌++◌, Option, none, some, ltb, leb,
  keep, length, take, if◌then◌else◌,
}
use aggexp.Text.{Bytes, codes, str_eq, str_lt, str_empty, contains}
use aggexp.GoMap.{GoMap, lookup, insert, delete}
use aggexp.Kube.{Result, ok, err, ApiError, is_not_found}
use aggexp.Multihost.Ref.{User, Value, text, other, Body, IdentityGate, body_name}

-- The body resource: its version, `spec.resourceRef` and the map `spec.body`.
pub record BodyCr (Json : Type 0) : Type 0 where
  pub version : Bytes
  pub ref_namespace : Bytes
  pub ref_name : Bytes
  pub body_map : GoMap (Value Json)

pub record BodyRef (Json : Type 0) : Type 0 where
  pub namespace : Bytes
  pub name : Bytes
  pub body : Body Json

abbrev pub owner_key : Bytes
owner_key = codes "owner"

abbrev pub text_of : {Json : Type 0} → Option (Value Json) → Bytes
text_of none = []
text_of (some (text s)) = s
text_of (some (other j)) = []

module _ {Json : Type 0} where
  -- The fields are written over what is there, `owner` included.
  unfoldable pub insert_fields : GoMap (Value Json) → GoMap (Value Json) → GoMap (Value Json)
  insert_fields [] m = m
  insert_fields ((k, v) ∷ l) m = insert k v (insert_fields l m)

  unfoldable pub encode_body : Bytes → Bytes → Body Json → BodyCr Json
  encode_body namespace name b = record {
    version = [];
    ref_namespace = namespace;
    ref_name = name;
    body_map = insert_fields b.fields ((owner_key, text b.owner) ∷ []);
  }

  unfoldable pub body_from : BodyCr Json → Body Json
  body_from u = record {
    owner = text_of (lookup owner_key u.body_map);
    fields = delete owner_key u.body_map;
  }

  abbrev pub ref_from : BodyCr Json → BodyRef Json
  ref_from u = record { namespace = u.ref_namespace; name = u.ref_name; body = body_from u }

  unfoldable pub body_ref_less : BodyRef Json → BodyRef Json → Bool
  body_ref_less a b =
      if not (str_eq a.namespace b.namespace)
      then str_lt a.namespace b.namespace
      else str_lt a.name b.name

  unfoldable pub insert_ref : BodyRef Json → List (BodyRef Json) → List (BodyRef Json)
  insert_ref a [] = a ∷ []
  insert_ref a (b ∷ l) =
      let rest = insert_ref a l in if body_ref_less b a then b ∷ rest else a ∷ b ∷ l

  -- sort.Slice
  unfoldable pub sort_body_refs : List (BodyRef Json) → List (BodyRef Json)
  unfolding insert_ref
  sort_body_refs [] = []
  sort_body_refs (a ∷ l) = insert_ref a (sort_body_refs l)

  abbrev pub in_namespace : Bytes → BodyRef Json → Bool
  in_namespace namespace r = str_empty namespace || str_eq r.namespace namespace

  abbrev pub refs_of : List (BodyCr Json) → List (BodyRef Json)
  refs_of [] = []
  refs_of (u ∷ l) = ref_from u ∷ refs_of l

abbrev pub system_prefixed : Bytes → Bool
system_prefixed n =
    str_eq (take 12 n) (codes "system:node:") || str_eq (take 22 n) (codes "system:serviceaccount:")

unfoldable pub default_identity_gate : IdentityGate
default_identity_gate none owner = true
default_identity_gate (some u) owner =
    contains u.groups (codes "system:masters")
    || (str_eq u.user_name (codes "system:kube-aggregator")
        || (str_eq u.user_name (codes "system:apiserver")
            || (system_prefixed u.user_name || str_eq owner u.user_name)))

abbrev pub all_probe : Bytes
all_probe = 0 ∷ codes "multihost-all-probe"

-- The caller's name, and whether the gate admits it to every owner.
unfoldable pub owner_of : IdentityGate → Option User → Bytes × Bool
owner_of gate none = ([], true)
owner_of gate (some u) = (u.user_name, gate (some u) all_probe)

-- The lister's cache by resource name.
module _ {Json : Type 0} (sha256 : Bytes → List ℕ) (gate : IdentityGate)
    (cache : GoMap (BodyCr Json)) where
  abbrev pub decoded : Option (BodyCr Json) → Option (Body Json)
  decoded none = none
  decoded (some u) = some (body_from u)

  -- `Get` and `cacheGet`.
  unfoldable pub cache_get : Bytes → Bytes → Option (Body Json)
  cache_get namespace name = decoded (lookup (body_name sha256 namespace name) cache)

  abbrev pub visible_to : Option User → Option (Body Json) → Option (Body Json)
  visible_to u none = none
  visible_to u (some b) = if gate u b.owner then some b else none

  unfoldable pub get_for : Option User → Bytes → Bytes → Option (Body Json)
  get_for u namespace name = visible_to u (cache_get namespace name)

  abbrev pub cached : GoMap (BodyCr Json) → List (BodyCr Json)
  cached [] = []
  cached ((k, u) ∷ l) = u ∷ cached l

  unfoldable pub cache_list : Bytes → (Body Json → Bool) → List (BodyRef Json)
  cache_list namespace wanted =
      sort_body_refs
        (keep (λ r. in_namespace namespace r && wanted r.body) (refs_of (cached cache)))

  unfoldable pub list_for : Option User → Bytes → List (BodyRef Json)
  list_for u namespace = cache_list namespace (λ b. gate u b.owner)

  unfoldable pub list : Bytes → List (BodyRef Json)
  list namespace = cache_list namespace (λ b. true)

-- The dynamic client on the body resources.
pub record BodyApi (World Json : Type 0) : Type 0 where
  pub get : World → Bytes → World × Result (BodyCr Json)
  pub list : World → World × Result (List (BodyCr Json))
  pub create : World → Bytes → BodyCr Json → World × Result (BodyCr Json)
  pub update : World → Bytes → BodyCr Json → World × Result (BodyCr Json)
  pub delete : World → Bytes → World × Result (Unit {0})
  pub now : World → ℕ

-- The negative cache: until when a key counts as absent.
pub record NegCache : Type 0 where
  pub enabled : Bool
  pub ttl : ℕ
  pub entries : GoMap ℕ

unfoldable pub set_neg_cache : Bool → NegCache → NegCache
set_neg_cache on n = record n { enabled = on; entries = [] }

abbrev pub neg_key : Bytes → Bytes → Bytes
neg_key namespace name = namespace ++ 47 ∷ name

unfoldable pub invalidate_neg : NegCache → Bytes → Bytes → NegCache
invalidate_neg n namespace name =
    if n.enabled then record n { entries = delete (neg_key namespace name) n.entries } else n

abbrev pub unexpired : ℕ → Option ℕ → Bool
unexpired now none = false
unexpired now (some until) = ltb now until

module _ {World Json : Type 0} (sha256 : Bytes → List ℕ) (api : BodyApi World Json) where
  abbrev pub after_write :
      NegCache
      → Bytes
      → Bytes
      → World × Result (BodyCr Json)
      → World × (NegCache × Result (Unit {0}))
  after_write n namespace name (w, err e) = (w, (n, err e))
  after_write n namespace name (w, ok u) = (w, (invalidate_neg n namespace name, ok tt))

  abbrev pub put_on :
      NegCache
      → Bytes
      → Bytes
      → Body Json
      → World × Result (BodyCr Json)
      → World × (NegCache × Result (Unit {0}))
  put_on n namespace name b (w, err e) =
      if is_not_found e
      then after_write n namespace name
          (api.create w (body_name sha256 namespace name) (encode_body namespace name b))
      else (w, (n, err e))
  put_on n namespace name b (w, ok existing) = after_write n namespace name (
      api.update w (body_name sha256 namespace name)
        (record (encode_body namespace name b) { version = existing.version }))

  -- Create or update, on the version that is read first.
  unfoldable pub put :
      World → NegCache → Bytes → Bytes → Body Json → World × (NegCache × Result (Unit {0}))
  put w n namespace name b = put_on n namespace name b (api.get w (body_name sha256 namespace name))

  abbrev pub absent_ok : World × Result (Unit {0}) → World × Result (Unit {0})
  absent_ok (w, ok done) = (w, ok tt)
  absent_ok (w, err e) = (w, if is_not_found e then ok tt else err e)

  unfoldable pub delete_body : World → Bytes → Bytes → World × Result (Unit {0})
  delete_body w namespace name = absent_ok (api.delete w (body_name sha256 namespace name))

  abbrev pub found_body : World × Result (BodyCr Json) → World × Option (Body Json)
  found_body (w, err e) = (w, none)
  found_body (w, ok u) = (w, some (body_from u))

  -- Any error reads as absent.
  unfoldable pub get_direct : World → Bytes → Bytes → World × Option (Body Json)
  get_direct w namespace name = found_body (api.get w (body_name sha256 namespace name))

  abbrev pub remember :
      NegCache → Bytes → World × Result (BodyCr Json) → World × (NegCache × Option (Body Json))
  remember n key (w, err e) = (
    w,
    (
      if is_not_found e && n.enabled
          then record n { entries = insert key (api.now w + n.ttl) n.entries }
          else n,
      none,
    ),
  )
  remember n key (w, ok u) = (
    w,
    (if n.enabled then record n { entries = delete key n.entries } else n, some (body_from u)),
  )

  -- An expired entry is dropped before the read.
  abbrev pub read_through :
      World → NegCache → Bytes → Bytes → World × (NegCache × Option (Body Json))
  read_through w n namespace name =
      remember n (neg_key namespace name) (api.get w (body_name sha256 namespace name))

  unfoldable pub get_authoritative :
      World → NegCache → Bytes → Bytes → World × (NegCache × Option (Body Json))
  get_authoritative w n namespace name =
      if n.enabled
      then (if unexpired (api.now w) (lookup (neg_key namespace name) n.entries)
          then (w, (n, none))
          else read_through w (record n { entries = delete (neg_key namespace name) n.entries })
              namespace name)
      else read_through w n namespace name

  abbrev pub listed :
      Bytes → World × Result (List (BodyCr Json)) → World × Result (List (BodyRef Json))
  listed namespace (w, err e) = (w, err e)
  listed namespace (w, ok us) =
      (w, ok (sort_body_refs (keep (in_namespace namespace) (refs_of us))))

  unfoldable pub list_authoritative : World → Bytes → World × Result (List (BodyRef Json))
  list_authoritative w namespace = listed namespace (api.list w)
