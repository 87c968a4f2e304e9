-- ===== src/Library/Locker/Names.antt =====
-- The names of the leases of runtime/library/locker.go.
use aggexp.Prelude.{
  ℕ, ◌≤◌, ◌≡◌, ◌≢◌, refl, sym, ◌∙◌, true, false, List, [], ◌∷◌, ◌++◌, ◌==◌, All, length, leb, arith,
}
use aggexp.Text.{Bytes}
use aggexp.Library.Objects.{GroupResource}
use aggexp.Library.Locker.{per_object, raw_name, lock_name}

abbrev pub DotFree : Bytes → Type 0
DotFree s = All (λ c. (c == 46) ≡ false) s

cancel_prefix : (p x y : Bytes) → p ++ x ≡ p ++ y → x ≡ y
cancel_prefix [] x y e = e
cancel_prefix (c ∷ p) x y e = cancel_prefix p x y (ground arith)

split_dot :
    (a b x y : Bytes) → DotFree a → DotFree b → a ++ 46 ∷ x ≡ b ++ 46 ∷ y → (a ≡ b) × (x ≡ y)
split_dot [] [] x y ha hb e = (refl, ground arith)
split_dot [] (c ∷ b) x y ha (hc, hb) e = absurd (ground arith)
split_dot (c ∷ a) [] x y (hc, ha) hb e = absurd (ground arith)
split_dot (c ∷ a) (d ∷ b) x y (hc, ha) (hd, hb) e =
    let (same, rest) = split_dot a b x y ha hb (ground arith) in
    let head : c ≡ d = ground arith in (rw (head, same) refl, rest)

short :
    (sha256 : Bytes → List ℕ) (gr : GroupResource) (ns name : Bytes)
    → length (raw_name gr ns name) ≤ 63
    → lock_name sha256 per_object gr ns name ≡ raw_name gr ns name
unfolding lock_name
short sha256 gr ns name h =
    let e : leb (length (raw_name gr ns name)) 63 ≡ true = ground arith in rw e refl

-- Two objects of one resource, in namespaces without dots, that share a per-object lease are the same
-- object, when the full names (group, resource, namespace and name) of both have at most 63 bytes, so that
-- neither is hashed.
pub lock_name-injective :
    (sha256 : Bytes → List ℕ) (gr : GroupResource) (ns ns' name name' : Bytes)
    → length (raw_name gr ns name) ≤ 63
    → length (raw_name gr ns' name') ≤ 63
    → DotFree ns
    → DotFree ns'
    → lock_name sha256 per_object gr ns name ≡ lock_name sha256 per_object gr ns' name'
    → (ns ≡ ns') × (name ≡ name')
lock_name-injective sha256 gr ns ns' name name' h h' dots dots' e =
    let raw : raw_name gr ns name ≡ raw_name gr ns' name' =
      sym (short sha256 gr ns name h) ∙ e ∙ short sha256 gr ns' name' h' in
    let front : Bytes = gr.resource ++ 46 ∷ (ns ++ 46 ∷ name) in
    let front' : Bytes = gr.resource ++ 46 ∷ (ns' ++ 46 ∷ name') in
    let behind_group = cancel_prefix gr.group (46 ∷ front) (46 ∷ front') raw in
    let behind_resource =
      cancel_prefix (46 ∷ gr.resource) (46 ∷ (ns ++ 46 ∷ name)) (46 ∷ (ns' ++ 46 ∷ name'))
        behind_group in
    let qualified = cancel_prefix (46 ∷ []) (ns ++ 46 ∷ name) (ns' ++ 46 ∷ name') behind_resource in
    split_dot ns ns' name name' dots dots' qualified

-- The per-object lease that a delete takes, under the empty namespace, is never the one that a create
-- or an update takes for the same name in a namespace (not empty and without dots), when both full
-- lease names have at most 63 bytes: they do not exclude each other.
pub lock_name-namespace_apart :
    (sha256 : Bytes → List ℕ) (gr : GroupResource) (ns name : Bytes)
    → ns ≢ []
    → DotFree ns
    → length (raw_name gr [] name) ≤ 63
    → length (raw_name gr ns name) ≤ 63
    → lock_name sha256 per_object gr [] name ≢ lock_name sha256 per_object gr ns name
lock_name-namespace_apart sha256 gr ns name nonempty dots h h' e =
    nonempty (sym (lock_name-injective sha256 gr [] ns name name h h' tt dots e).0)
