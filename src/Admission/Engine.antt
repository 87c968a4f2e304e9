-- ===== src/Admission/Engine.antt =====
-- `New`, `Mutate` and `Validate` of runtime/component/v2/admission/admission.go.
use aggexp.Prelude.{
  Bool, true, false, not, ◌&&◌, ◌||◌, List, [], ◌∷◌, ◌++◌, Option, none, some, if◌then◌else◌,
}
use aggexp.Text.{Bytes, codes, str_eq, str_empty}
use aggexp.Admission.Values.{Fields}
use aggexp.Admission.{
  Outcome, failed, done, empty_path, unknown_op, panicked, Mutation, Validation, Config, normalize,
  applies_to, split_path, mutate_path,
}

-- What a compiled expression returns: an error's text, a value that is no Boolean, or a Boolean.
pub data Verdict : Type 0 where
  eval_error not_bool : Bytes → Verdict
  verdict : Bool → Verdict

-- The program takes the object and, on an update, the old one.
abbrev pub Program : Type 0
Program = Option Fields → Option (Option Fields) → Verdict

pub record CompiledValidation : Type 0 where
  pub rule : Validation
  pub program : Program

pub record Engine : Type 0 where
  pub mutations : List Mutation
  pub validations : List CompiledValidation

pub record Failure : Type 0 where
  pub message : Bytes
  pub field_path : Bytes

abbrev pub add_compiled :
    Validation
    → Outcome Program
    → Outcome (List CompiledValidation)
    → Outcome (List CompiledValidation)
add_compiled v (failed e) rest = failed e
add_compiled v (done p) (failed e) = failed e
add_compiled v (done p) (done l) = done (record { rule = v; program = p } ∷ l)

-- `compile` also refuses an expression that is not Boolean.
unfoldable pub compile_all :
    (Bytes → Outcome Program) → List Validation → Outcome (List CompiledValidation)
compile_all compile [] = done []
compile_all compile (v ∷ l) = add_compiled v (compile v.expression) (compile_all compile l)

abbrev pub engine_of : List Mutation → Outcome (List CompiledValidation) → Outcome Engine
engine_of ms (failed e) = failed e
engine_of ms (done vs) = done (record { mutations = ms; validations = vs })

unfoldable pub new : (Bytes → Outcome Program) → Config → Outcome Engine
new compile c = let n = normalize c in engine_of n.mutations (compile_all compile n.validations)

-- JSON `null` decodes to a nil map, which is `none`: a write to it panics.
abbrev pub is_single : List Bytes → Bool
is_single (p ∷ []) = true
is_single _ = false

abbrev pub mutate_nil : Mutation → Outcome (Option Fields)
mutate_nil m =
    if str_empty m.json_path
    then failed empty_path
    else if is_single (split_path m.json_path)
        && not (str_eq m.op (codes "set") || str_eq m.op (codes "default"))
    then failed unknown_op
    else failed panicked

abbrev pub present : Outcome Fields → Outcome (Option Fields)
present (failed e) = failed e
present (done m) = done (some m)

abbrev pub mutate_one : Mutation → Option Fields → Outcome (Option Fields)
mutate_one m none = mutate_nil m
mutate_one m (some obj) = present (mutate_path obj m.json_path m.op m.value)

module _ (decode : Bytes → Outcome (Option Fields)) (encode : Option Fields → Bytes) where
  abbrev pub and_then :
      (Option Fields → Bool → Outcome (Option Fields × Bool))
      → Bool
      → Option Fields
      → Outcome (Option Fields)
      → Outcome (Option Fields × Bool)
  and_then rest changed before (failed e) = failed e
  and_then rest changed before (done after) =
      rest after (changed || not (str_eq (encode before) (encode after)))

  -- Whether a mutation changed something is seen in the encodings.
  unfoldable pub mutate_all :
      List Mutation → Bytes → Option Fields → Bool → Outcome (Option Fields × Bool)
  mutate_all [] op obj changed = done (obj, changed)
  mutate_all (m ∷ l) op obj changed =
      if applies_to m.operations op
      then and_then (mutate_all l op) changed obj (mutate_one m obj)
      else mutate_all l op obj changed

  abbrev pub encoded : Outcome (Option Fields × Bool) → Outcome (Bytes × Bool)
  encoded (failed e) = failed e
  encoded (done (obj, changed)) = done (encode obj, changed)

  abbrev pub mutate_decoded :
      List Mutation → Bytes → Outcome (Option Fields) → Outcome (Bytes × Bool)
  mutate_decoded ms op (failed e) = failed e
  mutate_decoded ms op (done obj) = encoded (mutate_all ms op obj false)

  abbrev pub mutate_with : List Mutation → Bytes → Bytes → Outcome (Bytes × Bool)
  mutate_with [] op raw = done (raw, false)
  mutate_with (m ∷ l) op raw = mutate_decoded (m ∷ l) op (decode raw)

  unfoldable pub mutate : Engine → Bytes → Bytes → Outcome (Bytes × Bool)
  mutate e op raw = mutate_with e.mutations op raw

abbrev pub failure : Bytes → Validation → List Failure
failure message rule = record { message = message; field_path = rule.field_path } ∷ []

abbrev pub denial_message : Validation → Bytes
denial_message rule =
    if str_empty rule.message then codes "validation failed: " ++ rule.expression else rule.message

-- An error, and a result that is no Boolean, deny.
unfoldable pub failures_of : Validation → Verdict → List Failure
failures_of rule (eval_error e) =
    failure (rule.message ++ (codes " [cel eval error: " ++ (e ++ codes "]"))) rule
failures_of rule (not_bool v) =
    failure (rule.message ++ (codes " [non-bool result: " ++ (v ++ codes "]"))) rule
failures_of rule (verdict true) = []
failures_of rule (verdict false) = failure (denial_message rule) rule

unfoldable pub validate_all :
    List CompiledValidation → Bytes → Option Fields → Option (Option Fields) → List Failure
validate_all [] op obj old = []
validate_all (v ∷ l) op obj old =
    let rest = validate_all l op obj old in
    if applies_to v.rule.operations op then failures_of v.rule (v.program obj old) ++ rest else rest

module _ (decode : Bytes → Outcome (Option Fields)) where
  abbrev pub decode_old : Bytes → Outcome (Option (Option Fields))
  decode_old [] = done none
  decode_old (c ∷ s) = old (decode (c ∷ s))
    where
      old : Outcome (Option Fields) → Outcome (Option (Option Fields))
      old (failed e) = failed e
      old (done m) = done (some m)

  abbrev pub validate_decoded :
      List CompiledValidation
      → Bytes
      → Outcome (Option Fields)
      → Outcome (Option (Option Fields))
      → Outcome (List Failure)
  validate_decoded vs op (failed e) old = failed e
  validate_decoded vs op (done obj) (failed e) = failed e
  validate_decoded vs op (done obj) (done old) = done (validate_all vs op obj old)

  abbrev pub validate_with :
      List CompiledValidation → Bytes → Bytes → Bytes → Outcome (List Failure)
  validate_with [] op raw old_raw = done []
  validate_with (v ∷ l) op raw old_raw =
      validate_decoded (v ∷ l) op (decode raw) (decode_old old_raw)

  -- No failures means allowed.
  unfoldable pub validate : Engine → Bytes → Bytes → Bytes → Outcome (List Failure)
  validate e op raw old_raw = validate_with e.validations op raw old_raw
