-- ===== src/Condition.antt =====
-- internal/condition/condition.go: the typed parameters of a condition. Its evaluation, by a CEL
-- program, is not modelled.
use mongopenfga.Prelude.{
  ◌≡◌, inl, inr, Option-cases, List-cases, Bool, true, false, ◌&&◌, ◌||◌, Option, none, some, [],
  ◌∷◌, Text, text_eq, text_beq, text_beq_iff, arith,
}
use mongopenfga.Storage.GoMap.{GoMap, lookup, insert, lookup-insert}
use mongopenfga.Storage.Iterators.Defs.{Answer, answer, failure}

-- EvaluableCondition, of which only the name and the parameters are read
pub record EvaluableCondition (Ref : Type 0) : Type 0 where
  pub name : Text
  pub parameters : GoMap Ref

-- internal/condition/types: DecodeParameterType, and ConvertValue of the type that it returns, with
-- `none` for an error
pub record ParameterTypes (Ref VarType Value Param : Type 0) : Type 0 where
  pub decode_parameter_type : Ref → Option VarType
  pub convert_value : VarType → Value → Option Param

-- ParameterTypeError, with the parameter at which the conversion ends
pub data ParameterTypeError : Type 0 where
  no_parameters : ParameterTypeError
  failed_to_decode failed_to_convert : Text → ParameterTypeError

module _ {Ref VarType Value Param : Type 0} (types : ParameterTypes Ref VarType Value Param) where
  -- the loop over the parameters of the condition
  unfoldable pub cast_loop :
      GoMap Ref → GoMap Value → GoMap Param → Answer ParameterTypeError (GoMap Param)
  cast_loop [] context converted = answer converted
  cast_loop ((key, ref) ∷ rest) context converted = elim (lookup context key) [
    | none ↦ cast_loop rest context converted
    | some value ↦ elim (types.decode_parameter_type ref) [
      | none ↦ failure (failed_to_decode key)
      | some var_type ↦ elim (types.convert_value var_type value) [
        | none ↦ failure (failed_to_convert key)
        | some param ↦ cast_loop rest context (insert converted key param)
      ]
    ]
  ]

  -- CastContextToTypedParameters
  unfoldable pub cast_context_to_typed_parameters :
      EvaluableCondition Ref → GoMap Value → Answer ParameterTypeError (GoMap Param)
  unfolding cast_loop
  cast_context_to_typed_parameters c [] = answer []
  cast_context_to_typed_parameters c (field ∷ fields) = elim c.parameters [
    | [] ↦ failure no_parameters
    | p ∷ ps ↦ cast_loop (p ∷ ps) (field ∷ fields) []
  ]

abbrev pub is_some : {A : Type 0} → Option A → Bool
is_some none = false
is_some (some a) = true

abbrev pub has_key : {V : Type 0} → GoMap V → Text → Bool
has_key m key = is_some (lookup m key)

module _ {Ref VarType Value Param : Type 0} (types : ParameterTypes Ref VarType Value Param) where
  has_key-insert :
      (m : GoMap Param) (key : Text) (p : Param) (k : Text)
      → has_key (insert m key p) k ≡ (text_beq key k || has_key m k)
  has_key-insert m key p k = ground (arith, lookup-insert m key p k)

  cast_loop-keys :
      (ps : GoMap Ref) (context : GoMap Value) (converted m : GoMap Param) (k : Text)
      → cast_loop types ps context converted ≡ answer m
      → has_key m k ≡ (has_key converted k || has_key ps k && has_key context k)
  unfolding cast_loop lookup
  cast_loop-keys [] context converted m k h = ground (arith, h)
  cast_loop-keys ((key, ref) ∷ rest) context converted m k h =
      elim (Option-cases (lookup context key)) [
        | inl none_given ↦
            ground (arith, h, text_beq_iff key k, cast_loop-keys rest context converted m k)
        | inr (value, given) ↦ elim (Option-cases (types.decode_parameter_type ref)) [
          | inl undecoded ↦ absurd (ground (arith, h))
          | inr (var_type, decoded) ↦ elim (Option-cases (types.convert_value var_type value)) [
            | inl unconverted ↦ absurd (ground (arith, h))
            | inr (param, converts) ↦ ground (
              arith,
              h,
              text_beq_iff key k,
              has_key-insert converted key param k,
              cast_loop-keys rest context (insert converted key param) m k,
            )
          ]
        ]
      ]

  -- If the conversion of a context succeeds, its result has exactly the fields of the context that are
  -- parameters of the condition.
  pub cast-keys :
      (c : EvaluableCondition Ref) (context : GoMap Value) (m : GoMap Param) (k : Text)
      → cast_context_to_typed_parameters types c context ≡ answer m
      → has_key m k ≡ (has_key c.parameters k && has_key context k)
  unfolding cast_context_to_typed_parameters lookup
  cast-keys c [] m k h = ground (arith, h)
  cast-keys c (field ∷ fields) m k h = elim (List-cases c.parameters) [
    | inl e ↦ absurd (ground (arith, h))
    | inr (p, ps, e) ↦ ground (arith, h, cast_loop-keys (p ∷ ps) (field ∷ fields) [] m k)
  ]
