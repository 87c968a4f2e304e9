-- ===== src/Library/CrdStore/Refines.antt =====
-- The custom-resource store against a map from names to resources.
use aggexp.Prelude.{◌≡◌, Bool, true, false, none, some, ◌⊎◌}
use aggexp.Text.{Bytes}
use aggexp.Kube.{not_found, Result, ok, err}
use aggexp.Library.CrdStore.{CrdStore}
use aggexp.Library.CrdStore.Host.{View, Put, Same, Fails}

module _ {World Cr Obj Spec : Type 0} (s : CrdStore World Cr Obj) (view : World → View Cr)
    (spec : Cr → Spec) where
  -- What is written for the object.
  abbrev pub written : Obj → Spec
  written obj = spec (s.to_unstructured obj s.namespace)

  abbrev pub Updates : World → Bytes → Spec → Bool → World × Result (Obj × Bool) → Type 0
  Updates w name sent force (v, ok (obj, was_created)) =
      (u : Cr) × (Put (view w) (view v) name (some u)
        × ((spec u ≡ sent)
            × ((s.to_typed u ≡ obj)
                × (((was_created ≡ true) × ((view w name ≡ none) × (force ≡ true)))
                    ⊎ ((was_created ≡ false) × ¬ (view w name ≡ none))))))
  Updates w name sent force (v, err e) =
      Same (view w) (view v)
      × (((e ≡ not_found name) × ((view w name ≡ none) × (force ≡ false)))
          ⊎ Fails s.client view spec name)

  abbrev pub Creates : World → Bytes → Spec → World × Result Obj → Type 0
  Creates w name sent (v, ok obj) =
      (u : Cr) × ((view w name ≡ none)
        × (Put (view w) (view v) name (some u) × ((spec u ≡ sent) × (s.to_typed u ≡ obj))))
  Creates w name sent (v, err e) = Same (view w) (view v) × Fails s.client view spec name

  abbrev pub Deletes : World → Bytes → World × Result (Obj × Bool) → Type 0
  Deletes w name (v, ok (obj, gone)) =
      (u : Cr) × ((view w name ≡ some u) × (Put (view w) (view v) name none × (s.to_typed u ≡ obj)))
  Deletes w name (v, err e) =
      Same (view w) (view v)
      × (((e ≡ not_found name) × (view w name ≡ none)) ⊎ Fails s.client view spec name)

  -- The client's writes of a resource with the name.
  abbrev Stored : World → Bytes → Spec → World × Result Cr → Type 0
  Stored w name sent (v, ok u) = Put (view w) (view v) name (some u) × (spec u ≡ sent)
  Stored w name sent (v, err e) = Same (view w) (view v) × Fails s.client view spec name

  Fresh : World → Bytes → World × Result Cr → Type 0
  Fresh w name (v, ok u) = view w name ≡ none
  Fresh w name (v, err e) = Unit
