-- ===== src/Multihost/BodyStore/Hash.antt =====
-- `HashBody` of runtime/library/multihost/bodystore.go. sha256 is a parameter, and so is the text that
-- `%v` gives of a value that is no string.
use aggexp.Prelude.{ℕ, List, [], ◌∷◌, ◌++◌, Option, none, some}
use aggexp.Text.{Bytes, codes}
use aggexp.GoMap.{GoMap, lookup}
use aggexp.Library.Objects.{hex}
use aggexp.Multihost.Ref.{Value, text, other, Body}
use aggexp.Multihost.Signature.{sort_strings}

module _ {Json : Type 0} (sha256 : Bytes → List ℕ) (show : Json → Bytes) where
  abbrev pub value_text : Option (Value Json) → Bytes
  value_text none = codes "<nil>"
  value_text (some (text s)) = s
  value_text (some (other j)) = show j

  abbrev pub keys_of : GoMap (Value Json) → List Bytes
  keys_of [] = []
  keys_of ((k, v) ∷ m) = k ∷ keys_of m

  abbrev pub fields_text : GoMap (Value Json) → List Bytes → Bytes
  fields_text m [] = []
  fields_text m (k ∷ ks) = 59 ∷ (k ++ 61 ∷ (value_text (lookup k m) ++ fields_text m ks))

  unfoldable pub hash_body : Body Json → Bytes
  hash_body b = hex (
      sha256
        (codes "owner=" ++ (b.owner ++ fields_text b.fields (sort_strings (keys_of b.fields)))))
