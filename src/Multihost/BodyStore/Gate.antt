-- ===== src/Multihost/BodyStore/Gate.antt =====
-- The push filter on owners against the gate of the reads.
use aggexp.Prelude.{◌≡◌, ◌≢◌, refl, sym, false, Option, none, some, arith}
use aggexp.Text.{str_eq, str_eq-false}
use aggexp.Multihost.Ref.{User}
use aggexp.Multihost.BodyStore.{default_identity_gate, owner_of, all_probe}
use aggexp.Multihost.BodyStore.Subscriptions.{BodyChange, Subscriber, wants}

-- The caller is not named like the probe of `ownerOf`.
abbrev pub IsNamed : Option User → Type 0
IsNamed none = Unit
IsNamed (some u) = u.user_name ≢ all_probe

module _ {Json : Type 0} where
  -- With the default gate, a caller's subscription is sent exactly the changes of the bodies that the
  -- reads show it.
  pub wants-default_identity_gate :
      (u : Option User) (s : Subscriber Json) (c : BodyChange Json)
      → IsNamed u
      → s.user ≡ (owner_of default_identity_gate u).0
      → s.all ≡ (owner_of default_identity_gate u).1
      → wants s c ≡ default_identity_gate u c.body.owner
  unfolding wants owner_of default_identity_gate
  wants-default_identity_gate none s c named user all = simp all refl
  wants-default_identity_gate (some u) s c named user all =
      let no_probe : str_eq all_probe u.user_name ≡ false =
        str_eq-false all_probe u.user_name (λ e. named (sym e)) in
      simp (all, user, no_probe) (ground arith)
