-- ===== src/Backend/Ir/Ops.antt =====
-- compiler/semantic/operations.py: the operators that instructions carry.
pub data UnaryOpKind : Type 0 where
  negate bitwise_not logical_not : UnaryOpKind

pub data UnaryOpFlavor : Type 0 where
  integer float bool : UnaryOpFlavor

pub record SemanticUnaryOp : Type 0 where
  pub kind : UnaryOpKind
  pub flavor : UnaryOpFlavor

pub data BinaryOpKind : Type 0 where
  add subtract multiply divide remainder power : BinaryOpKind
  bitwise_and bitwise_or bitwise_xor shift_left shift_right : BinaryOpKind
  logical_and logical_or : BinaryOpKind
  equal not_equal less_than less_equal greater_than greater_equal : BinaryOpKind

pub data BinaryOpFlavor : Type 0 where
  integer float bool_logical bool_comparison : BinaryOpFlavor
  integer_comparison float_comparison identity_comparison : BinaryOpFlavor

pub record SemanticBinaryOp : Type 0 where
  pub kind : BinaryOpKind
  pub flavor : BinaryOpFlavor

pub data CastSemanticsKind : Type 0 where
  identity to_bool to_double to_integer reference_compatibility : CastSemanticsKind

pub data TypeTestSemanticsKind : Type 0 where
  class_compatibility interface_compatibility : TypeTestSemanticsKind
