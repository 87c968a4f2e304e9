-- ===== src/Library/CrdStore/Host.antt =====
-- What the custom-resource store of runtime/library/crdstore.go relies on: a host that is a map.
use aggexp.Prelude.{◌≡◌, true, false, Option, none, some, ◌⊎◌, if◌then◌else◌}
use aggexp.Text.{Bytes, str_eq}
use aggexp.Kube.{ApiError, Result, ok, err, is_not_found}
use aggexp.Library.CrdStore.{CrdClient}

abbrev pub View : Type 0 → Type 0
View Cr = Bytes → Option Cr

-- What a host does: a write that succeeds changes the one name, and stores and returns what it was sent but for
-- what `spec` leaves out, such as the version; a create that succeeds found nothing; one that fails, and a read,
-- change nothing; a read finds what is there, or says that nothing is.
abbrev pub Put : {Cr : Type 0} → View Cr → View Cr → Bytes → Option Cr → Type 0
Put before after name o = (j : Bytes) → after j ≡ (if str_eq name j then o else before j)

abbrev pub Same : {Cr : Type 0} → View Cr → View Cr → Type 0
Same before after = (j : Bytes) → after j ≡ before j

module _ {World Cr Spec : Type 0} (c : CrdClient World Cr) (view : World → View Cr)
    (spec : Cr → Spec) where
  abbrev pub Reads : World → Bytes → World × Result Cr → Type 0
  Reads w name (v, ok u) = Same (view w) (view v) × (view w name ≡ some u)
  Reads w name (v, err e) = Same (view w) (view v) × (is_not_found e ≡ true → view w name ≡ none)

  abbrev pub Stores : World → Cr → World × Result Cr → Type 0
  Stores w sent (v, ok u) = Put (view w) (view v) (c.cr_name sent) (some u) × (spec u ≡ spec sent)
  Stores w sent (v, err e) = Same (view w) (view v)

  abbrev pub FindsNone : World → Cr → World × Result Cr → Type 0
  FindsNone w sent (v, ok u) = view w (c.cr_name sent) ≡ none
  FindsNone w sent (v, err e) = Unit

  abbrev pub Removes : World → Bytes → World × Result (Unit {0}) → Type 0
  Removes w name (v, ok done) = Put (view w) (view v) name none
  Removes w name (v, err e) = Same (view w) (view v)

  pub record IsHost : Type 0 where
    pub get_reads : (w : World) (name : Bytes) → Reads w name (c.get w name)
    pub create_stores : (w : World) (u : Cr) → Stores w u (c.create w u)
    pub create_fresh : (w : World) (u : Cr) → FindsNone w u (c.create w u)
    pub update_stores : (w : World) (u : Cr) → Stores w u (c.update w u)
    pub delete_removes : (w : World) (name : Bytes) → Removes w name (c.delete w name)
    pub name-set_version : (u : Cr) (v : Bytes) → c.cr_name (c.set_cr_version u v) ≡ c.cr_name u
    pub spec-set_version : (u : Cr) (v : Bytes) → spec (c.set_cr_version u v) ≡ spec u

  -- A call of the host on the name has failed: a read otherwise than by finding nothing, or a write.
  abbrev pub Fails : Bytes → Type 0
  Fails name =
      (w : World) × ((e : ApiError) × ((((c.get w name).1 ≡ err e) × (is_not_found e ≡ false))
          ⊎ (((c.delete w name).1 ≡ err e)
              ⊎ ((u : Cr) × ((c.cr_name u ≡ name)
                    × (((c.create w u).1 ≡ err e) ⊎ ((c.update w u).1 ≡ err e)))))))
