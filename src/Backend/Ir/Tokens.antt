-- ===== src/Backend/Ir/Tokens.antt =====
-- compiler/semantic/operations.py: operators from their tokens, and the kinds of casts and type tests.
use niflheim.Shared.{
  ◌≡◌, refl, Bool, ◌&&◌, ◌||◌, String, Option, none, some, List, [], ◌∷◌, map, ◌==◌, string_eq,
  if◌then◌else◌,
}
use niflheim.Shared.Dict.{Dict, lookup}
use niflheim.Backend.Ir.Ops.{
  UnaryOpKind, UnaryOpFlavor, SemanticUnaryOp, BinaryOpKind, BinaryOpFlavor, SemanticBinaryOp,
  CastSemanticsKind, TypeTestSemanticsKind,
}
use niflheim.Backend.Ir.Types.{
  SemanticTypeRef, semantic_type_canonical_name, semantic_type_is_interface,
  semantic_type_is_reference,
}

abbrev pub unary_op_text : UnaryOpKind → String
unary_op_text UnaryOpKind.negate = "-"
unary_op_text UnaryOpKind.bitwise_not = "~"
unary_op_text UnaryOpKind.logical_not = "!"

abbrev pub binary_op_text : BinaryOpKind → String
binary_op_text BinaryOpKind.add = "+"
binary_op_text BinaryOpKind.subtract = "-"
binary_op_text BinaryOpKind.multiply = "*"
binary_op_text BinaryOpKind.divide = "/"
binary_op_text BinaryOpKind.remainder = "%"
binary_op_text BinaryOpKind.power = "**"
binary_op_text BinaryOpKind.bitwise_and = "&"
binary_op_text BinaryOpKind.bitwise_or = "|"
binary_op_text BinaryOpKind.bitwise_xor = "^"
binary_op_text BinaryOpKind.shift_left = "<<"
binary_op_text BinaryOpKind.shift_right = ">>"
binary_op_text BinaryOpKind.logical_and = "&&"
binary_op_text BinaryOpKind.logical_or = "||"
binary_op_text BinaryOpKind.equal = "=="
binary_op_text BinaryOpKind.not_equal = "!="
binary_op_text BinaryOpKind.less_than = "<"
binary_op_text BinaryOpKind.less_equal = "<="
binary_op_text BinaryOpKind.greater_than = ">"
binary_op_text BinaryOpKind.greater_equal = ">="

-- The dictionary `{text: kind for kind, text in …}`, in the order of the keys.
abbrev pub by_text {ℓ} : {K : Type ℓ} → (K → String) → List K → Dict String K
by_text text = map (λ k. (text k, k))

abbrev pub unary_kind_by_text : Dict String UnaryOpKind
unary_kind_by_text =
    by_text unary_op_text
      (UnaryOpKind.negate ∷ UnaryOpKind.bitwise_not ∷ UnaryOpKind.logical_not ∷ [])

abbrev pub binary_kinds : List BinaryOpKind
binary_kinds =
    BinaryOpKind.add ∷ BinaryOpKind.subtract ∷ BinaryOpKind.multiply ∷ BinaryOpKind.divide
    ∷ BinaryOpKind.remainder ∷ BinaryOpKind.power ∷ BinaryOpKind.bitwise_and
    ∷ BinaryOpKind.bitwise_or ∷ BinaryOpKind.bitwise_xor ∷ BinaryOpKind.shift_left
    ∷ BinaryOpKind.shift_right ∷ BinaryOpKind.logical_and ∷ BinaryOpKind.logical_or
    ∷ BinaryOpKind.equal ∷ BinaryOpKind.not_equal ∷ BinaryOpKind.less_than ∷ BinaryOpKind.less_equal
    ∷ BinaryOpKind.greater_than ∷ BinaryOpKind.greater_equal ∷ []

abbrev pub binary_kind_by_text : Dict String BinaryOpKind
binary_kind_by_text = by_text binary_op_text binary_kinds

abbrev pub is_integer_name : String → Bool
is_integer_name name = name == "i64" || name == "u64" || name == "u8"

unfoldable pub unary_flavor : UnaryOpKind → String → UnaryOpFlavor
unary_flavor UnaryOpKind.logical_not name = UnaryOpFlavor.bool
unary_flavor UnaryOpKind.bitwise_not name = UnaryOpFlavor.integer
unary_flavor UnaryOpKind.negate name =
    if name == "double" then UnaryOpFlavor.float else UnaryOpFlavor.integer

-- `none` where the source raises an error.
unfoldable pub semantic_unary_op_from_token : String → SemanticTypeRef → Option SemanticUnaryOp
semantic_unary_op_from_token text operand = elim (lookup text unary_kind_by_text) [
  | none ↦ none
  | some k ↦
      some (record { kind = k; flavor = unary_flavor k (semantic_type_canonical_name operand) })
]

unfoldable pub equality_flavor : String → String → BinaryOpFlavor
equality_flavor l r =
    if l == "bool" && r == "bool"
    then BinaryOpFlavor.bool_comparison
    else if l == "double" && r == "double"
    then BinaryOpFlavor.float_comparison
    else if is_integer_name l && is_integer_name r
    then BinaryOpFlavor.integer_comparison
    else BinaryOpFlavor.identity_comparison

unfoldable pub order_flavor : String → BinaryOpFlavor
order_flavor l =
    if l == "double" then BinaryOpFlavor.float_comparison else BinaryOpFlavor.integer_comparison

unfoldable pub binary_flavor : BinaryOpKind → String → String → BinaryOpFlavor
binary_flavor BinaryOpKind.logical_and l r = BinaryOpFlavor.bool_logical
binary_flavor BinaryOpKind.logical_or l r = BinaryOpFlavor.bool_logical
binary_flavor BinaryOpKind.equal l r = equality_flavor l r
binary_flavor BinaryOpKind.not_equal l r = equality_flavor l r
binary_flavor BinaryOpKind.less_than l r = order_flavor l
binary_flavor BinaryOpKind.less_equal l r = order_flavor l
binary_flavor BinaryOpKind.greater_than l r = order_flavor l
binary_flavor BinaryOpKind.greater_equal l r = order_flavor l
binary_flavor _ l r = if l == "double" then BinaryOpFlavor.float else BinaryOpFlavor.integer

unfoldable pub semantic_binary_op_from_token :
    String → SemanticTypeRef → SemanticTypeRef → Option SemanticBinaryOp
semantic_binary_op_from_token text l r = elim (lookup text binary_kind_by_text) [
  | none ↦ none
  | some k ↦ some (record {
    kind = k;
    flavor = binary_flavor k (semantic_type_canonical_name l) (semantic_type_canonical_name r);
  })
]

unfoldable pub semantic_cast_kind : SemanticTypeRef → SemanticTypeRef → CastSemanticsKind
semantic_cast_kind source target =
    let name = semantic_type_canonical_name target in
    if semantic_type_canonical_name source == name
    then CastSemanticsKind.identity
    else if name == "bool"
    then CastSemanticsKind.to_bool
    else if name == "double"
    then CastSemanticsKind.to_double
    else if is_integer_name name
    then CastSemanticsKind.to_integer
    else CastSemanticsKind.reference_compatibility

unfoldable pub semantic_type_test_kind : SemanticTypeRef → Option TypeTestSemanticsKind
semantic_type_test_kind target =
    if semantic_type_is_interface target
    then some TypeTestSemanticsKind.interface_compatibility
    else if semantic_type_is_reference target
    then some TypeTestSemanticsKind.class_compatibility
    else none

binary_kind_lookup : (k : BinaryOpKind) → lookup (binary_op_text k) binary_kind_by_text ≡ some k
unfolding lookup
binary_kind_lookup BinaryOpKind.add = refl
binary_kind_lookup BinaryOpKind.subtract = refl
binary_kind_lookup BinaryOpKind.multiply = refl
binary_kind_lookup BinaryOpKind.divide = refl
binary_kind_lookup BinaryOpKind.remainder = refl
binary_kind_lookup BinaryOpKind.power = refl
binary_kind_lookup BinaryOpKind.bitwise_and = refl
binary_kind_lookup BinaryOpKind.bitwise_or = refl
binary_kind_lookup BinaryOpKind.bitwise_xor = refl
binary_kind_lookup BinaryOpKind.shift_left = refl
binary_kind_lookup BinaryOpKind.shift_right = refl
binary_kind_lookup BinaryOpKind.logical_and = refl
binary_kind_lookup BinaryOpKind.logical_or = refl
binary_kind_lookup BinaryOpKind.equal = refl
binary_kind_lookup BinaryOpKind.not_equal = refl
binary_kind_lookup BinaryOpKind.less_than = refl
binary_kind_lookup BinaryOpKind.less_equal = refl
binary_kind_lookup BinaryOpKind.greater_than = refl
binary_kind_lookup BinaryOpKind.greater_equal = refl

-- The text of an operator is read as an operator of the same kind, whatever the operand types.
pub semantic_binary_op_from_token-binary_op_text :
    (k : BinaryOpKind) (l r : SemanticTypeRef)
    → (op : SemanticBinaryOp) × (semantic_binary_op_from_token (binary_op_text k) l r ≡ some op)
      × (op.kind ≡ k)
unfolding semantic_binary_op_from_token
semantic_binary_op_from_token-binary_op_text k l r =
    let op : SemanticBinaryOp = record {
      kind = k;
      flavor = binary_flavor k (semantic_type_canonical_name l) (semantic_type_canonical_name r);
    } in
    (op, rw (binary_kind_lookup k, semantic_binary_op_from_token), refl)
