-- ===== src/Admission/Verdicts.antt =====
-- When the validations let an object pass.
use aggexp.Prelude.{
  ◌≡◌, refl, ap, ◌↔◌, true, false, List, [], ◌∷◌, ◌++◌, Option, arith, All, Bool-cases, inl, inr,
}
use aggexp.Text.{Bytes}
use aggexp.Admission.Values.{Fields}
use aggexp.Admission.{Outcome, failed, done, applies_to, Validation}
use aggexp.Admission.Engine.{
  Verdict, eval_error, not_bool, verdict, CompiledValidation, Engine, Failure, failures_of,
  validate_all, validate, validate_with, decode_old,
}

-- The rule does not apply to the operation, or its expression is true.
abbrev pub Passes : Bytes → Option Fields → Option (Option Fields) → CompiledValidation → Type 0
Passes op obj old v = applies_to v.rule.operations op ≡ true → v.program obj old ≡ verdict true

no_failures : (rule : Validation) (x : Verdict) → failures_of rule x ≡ [] → x ≡ verdict true
unfolding failures_of
no_failures rule (eval_error e) h = absurd (ground (arith, h))
no_failures rule (not_bool s) h = absurd (ground (arith, h))
no_failures rule (verdict true) h = refl
no_failures rule (verdict false) h = absurd (ground (arith, h))

no_failures_of-true : (rule : Validation) (x : Verdict) → x ≡ verdict true → failures_of rule x ≡ []
unfolding failures_of
no_failures_of-true rule x h = rw h refl

append_nil : (l m : List Failure) → (l ++ m ≡ []) → (l ≡ []) × (m ≡ [])
append_nil [] m h = (refl, h)
append_nil (x ∷ l) m h = absurd (ground (arith, h))

validate_all-Passes :
    (l : List CompiledValidation) (op : Bytes) (obj : Option Fields) (old : Option (Option Fields))
    → (validate_all l op obj old ≡ []) ↔ All (Passes op obj old) l
unfolding validate_all
validate_all-Passes [] op obj old = (λ h. tt, λ h. refl)
validate_all-Passes (v ∷ l) op obj old =
    let (to, from) = validate_all-Passes l op obj old in
    elim (Bool-cases (applies_to v.rule.operations op)) [
      | inl e ↦ rw e (
        λ h.
            let (none_here, none_there) = append_nil _ _ h in
            (λ _. no_failures v.rule (v.program obj old) none_here, to none_there),
        λ (p, ps). rw (no_failures_of-true v.rule (v.program obj old) (p refl)) (from ps),
      )
      | inr e ↦ rw e (λ h. (λ t. absurd (ground (arith, t)), to h), λ (p, ps). from ps)
    ]

-- An object that decodes, with an old one that decodes or is not given, passes the validation exactly when
-- the expression of each rule that applies to the operation is true: an error of its evaluation and a result
-- that is no Boolean deny.
pub validate-allows :
    (decode : Bytes → Outcome (Option Fields)) (e : Engine) (op raw old_raw : Bytes)
    (obj : Option Fields) (old : Option (Option Fields))
    → decode raw ≡ done obj
    → decode_old decode old_raw ≡ done old
    → (validate decode e op raw old_raw ≡ done []) ↔ All (Passes op obj old) e.validations
unfolding validate
validate-allows decode e op raw old_raw obj old decoded old_decoded = by_rules e.validations
  where
    done-eq : (a b : List Failure) → done a ≡ done b → a ≡ b
    done-eq a b q = ap (λ (o : Outcome (List Failure)). elim o [ failed x ↦ a | done c ↦ c ]) q

    by_rules :
        (l : List CompiledValidation)
        → (validate_with decode l op raw old_raw ≡ done []) ↔ All (Passes op obj old) l
    by_rules [] = (λ h. tt, λ h. refl)
    by_rules (v ∷ l) =
        let (to, from) = validate_all-Passes (v ∷ l) op obj old in
        rw (decoded, old_decoded) (λ h. to (done-eq _ _ h), λ h. ap done (from h))
