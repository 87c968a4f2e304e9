-- ===== src/Multihost/Signature.antt =====
-- `Record` and `VisibleSignature` of runtime/library/multihost/metastore.go. Times are `ℕ`, in seconds
-- their RFC 3339 text is a parameter.
use aggexp.Prelude.{ℕ, List, [], ◌∷◌, ◌++◌, Option, none, some, if◌then◌else◌}
use aggexp.Text.{Bytes, codes, str_lt, str_empty, join}
use aggexp.Kube.{StringMap}
use aggexp.Multihost.Ref.{ResourceRef}
use aggexp.Multihost.MetaStore.{LockState}

-- `Record`; raw JSON is kept as its text, and a zero or nil time is `none`.
pub record MetaRecord : Type 0 where
  pub ref : ResourceRef
  pub record_uid : Bytes
  pub record_rv : Bytes
  pub uid : Bytes
  pub creation_timestamp : Option ℕ
  pub deletion_timestamp : Option ℕ
  pub labels : StringMap
  pub annotations : StringMap
  pub finalizers : List Bytes
  pub managed_fields : Bytes
  pub owner_references : Bytes
  pub body_hash : Bytes
  pub lock : Option LockState

unfoldable pub insert_string : Bytes → List Bytes → List Bytes
insert_string a [] = a ∷ []
insert_string a (b ∷ l) = let rest = insert_string a l in if str_lt b a then b ∷ rest else a ∷ b ∷ l

-- sort.Strings
unfoldable pub sort_strings : List Bytes → List Bytes
sort_strings [] = []
sort_strings (a ∷ l) = insert_string a (sort_strings l)

-- The entries in the order of their keys; a map has a key once.
unfoldable pub insert_entry : Bytes → Bytes → StringMap → StringMap
insert_entry k v [] = (k, v) ∷ []
insert_entry k v ((j, w) ∷ m) =
    let rest = insert_entry k v m in if str_lt j k then (j, w) ∷ rest else (k, v) ∷ (j, w) ∷ m

unfoldable pub by_key : StringMap → StringMap
by_key [] = []
by_key ((k, v) ∷ m) = insert_entry k v (by_key m)

abbrev pub entries_text : StringMap → Bytes
entries_text [] = []
entries_text ((k, v) ∷ m) = k ++ 61 ∷ (v ++ 44 ∷ entries_text m)

unfoldable pub stable_map : StringMap → Bytes
stable_map m = entries_text (by_key m)

abbrev pub del_part : (ℕ → Bytes) → Option ℕ → Bytes
del_part rfc3339 none = []
del_part rfc3339 (some t) = codes ";del=" ++ rfc3339 t

abbrev pub owners_part : Bytes → Bytes
owners_part s = if str_empty s then [] else codes ";owners=" ++ s

unfoldable pub visible_signature : (ℕ → Bytes) → MetaRecord → Bytes
visible_signature rfc3339 r =
    codes "bh="
    ++ (r.body_hash
        ++ (codes ";uid="
            ++ (r.uid
                ++ (del_part rfc3339 r.deletion_timestamp
                    ++ (codes ";labels="
                        ++ (stable_map r.labels
                            ++ (codes ";anns="
                                ++ (stable_map r.annotations
                                    ++ (codes ";fin="
                                        ++ (join 44 (sort_strings r.finalizers)
                                            ++ owners_part r.owner_references))))))))))
