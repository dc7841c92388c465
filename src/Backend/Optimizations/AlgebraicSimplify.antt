-- ===== src/Backend/Optimizations/AlgebraicSimplify.antt =====
-- compiler/backend/optimizations/algebraic_simplify.py: the rewriting of one block. `_wrap_integer` is
-- the function of the same text in constant_fold.py.
pub mod Facts
pub mod Comparisons
pub mod Sound
pub mod Integers
pub mod Binary
pub mod Negations
pub mod Blocks
pub mod Types
pub mod Callable
pub mod Bitwise
use niflheim.Shared.{
  ℕ, ◌-◌, ◌^◌, Bool, true, false, not, ◌&&◌, ◌||◌, String, Option, none, some, List, [], ◌∷◌, ◌==◌,
  if◌then◌else◌,
}
use niflheim.Shared.Dict.{Dict, lookup, insert}
use niflheim.Shared.Int.{ℤ, pos, negsuc, int_beq}
use niflheim.Backend.Ir.Ids.{RegId, reg_id_eq}
use niflheim.Backend.Ir.Ops.{
  UnaryOpKind, UnaryOpFlavor, SemanticUnaryOp, BinaryOpKind, BinaryOpFlavor, SemanticBinaryOp,
}
use niflheim.Backend.Ir.Model.{
  IntTypeName, i64, u64, u8, Constant, int_const, bool_const, Operand, reg_operand, const_operand,
  InstructionBase, Instruction, const_inst, copy_inst, unary_inst, binary_inst, Block,
}
use niflheim.Backend.Semantics.Operands.{instruction_def_reg}
use niflheim.Backend.Optimizations.ConstantFold.Arith.{wrap_integer}
use niflheim.Backend.Optimizations.ConstantFold.Folding.{integer_type_of_name}

-- `register_type_name_by_reg_id`
abbrev pub TypeNames : Type 0
TypeNames = Dict RegId String

abbrev pub all_ones : IntTypeName → ℤ
all_ones i64 = negsuc 0
all_ones u64 = pos (2 ^ 64 - 1)
all_ones u8 = pos (2 ^ 8 - 1)

unfoldable pub bool_constant_value : Operand → Option Bool
bool_constant_value (const_operand (bool_const b)) = some b
bool_constant_value _ = none

unfoldable pub integer_constant_value : Operand → Option ℤ
integer_constant_value (const_operand (int_const t v)) = some v
integer_constant_value _ = none

abbrev pub is_bool : Option Bool → Bool → Bool
is_bool none b = false
is_bool (some true) b = b
is_bool (some false) b = not b

abbrev pub is_int : Option ℤ → ℤ → Bool
is_int none z = false
is_int (some v) z = int_beq v z

abbrev pub named_integer_type : Option String → Option IntTypeName
named_integer_type none = none
named_integer_type (some name) = integer_type_of_name name

-- The integer type of one operand. The error for a register without a declared type is in `Types`.
unfoldable pub operand_integer_type : Operand → TypeNames → Option IntTypeName
operand_integer_type (const_operand (int_const t v)) types = some t
operand_integer_type (reg_operand r) types = named_integer_type (lookup r types)
operand_integer_type _ types = none

unfoldable pub integer_operand_type_name : Operand → Operand → TypeNames → Option IntTypeName
integer_operand_type_name l r types = elim (operand_integer_type l types) [
  | some t ↦ some t
  | none ↦ operand_integer_type r types
]

abbrev pub int_type_beq : IntTypeName → IntTypeName → Bool
int_type_beq i64 i64 = true
int_type_beq u64 u64 = true
int_type_beq u8 u8 = true
int_type_beq _ _ = false

-- `left == right`, where one of the two has an integer type.
unfoldable pub same_operand : Operand → Operand → Bool
same_operand (reg_operand r) (reg_operand s) = r == s
same_operand (const_operand (int_const t v)) (const_operand (int_const u w)) =
    int_type_beq t u && int_beq v w
same_operand _ _ = false

abbrev pub logical_not_op : SemanticUnaryOp
logical_not_op = record { kind = UnaryOpKind.logical_not; flavor = UnaryOpFlavor.bool }

module _ (b : InstructionBase) (d : RegId) where
  abbrev pub copy_like : Operand → Instruction
  copy_like = copy_inst b d

  abbrev pub logical_not_like : Operand → Instruction
  logical_not_like = unary_inst b d logical_not_op

  abbrev pub bool_const_like : Bool → Instruction
  bool_const_like v = const_inst b d (bool_const v)

  abbrev pub int_const_like : IntTypeName → ℤ → Instruction
  int_const_like t v = const_inst b d (int_const t (wrap_integer v t))

  unfoldable pub simplify_bool_logical : SemanticBinaryOp → Operand → Operand → Instruction
  simplify_bool_logical op l r =
      let left = bool_constant_value l in
      let right = bool_constant_value r in
      elim op.kind [
        | BinaryOpKind.logical_and ↦
            if is_bool left false || is_bool right false
            then bool_const_like false
            else if is_bool left true
            then copy_like r
            else if is_bool right true
            then copy_like l
            else binary_inst b d op l r
        | BinaryOpKind.logical_or ↦
            if is_bool left true || is_bool right true
            then bool_const_like true
            else if is_bool left false
            then copy_like r
            else if is_bool right false
            then copy_like l
            else binary_inst b d op l r
        | _ ↦ binary_inst b d op l r
      ]

  -- The comparison with `same` gives the other operand, that with its opposite negates it.
  unfoldable pub compare_with : Bool → SemanticBinaryOp → Operand → Operand → Instruction
  compare_with same op l r =
      let left = bool_constant_value l in
      let right = bool_constant_value r in
      if is_bool left same
      then copy_like r
      else if is_bool right same
      then copy_like l
      else if is_bool left (not same)
      then logical_not_like r
      else if is_bool right (not same)
      then logical_not_like l
      else binary_inst b d op l r

  unfoldable pub simplify_bool_comparison : SemanticBinaryOp → Operand → Operand → Instruction
  simplify_bool_comparison op l r = elim op.kind [
    | BinaryOpKind.equal ↦ compare_with true op l r
    | BinaryOpKind.not_equal ↦ compare_with false op l r
    | _ ↦ binary_inst b d op l r
  ]

  unfoldable pub simplify_identity : SemanticBinaryOp → Operand → Operand → ℤ → Instruction
  simplify_identity op l r identity =
      if is_int (integer_constant_value l) identity
      then copy_like r
      else if is_int (integer_constant_value r) identity
      then copy_like l
      else binary_inst b d op l r

  -- The instruction, with the constant `value` instead where the test holds.
  abbrev pub absorbing : Bool → IntTypeName → ℤ → Instruction → Instruction
  absorbing test t v i = if test then int_const_like t v else i

  abbrev pub copy_left_if : Bool → SemanticBinaryOp → Operand → Operand → Instruction
  copy_left_if test op l r = if test then copy_like l else binary_inst b d op l r

  unfoldable pub simplify_typed_integer :
      IntTypeName → SemanticBinaryOp → Operand → Operand → Instruction
  simplify_typed_integer t op l r =
      let left_is = is_int (integer_constant_value l) in
      let right_is = is_int (integer_constant_value r) in
      let ones = all_ones t in
      elim op.kind [
        | BinaryOpKind.add ↦ simplify_identity op l r (pos 0)
        | BinaryOpKind.subtract ↦ copy_left_if (right_is (pos 0)) op l r
        | BinaryOpKind.multiply ↦
            absorbing (left_is (pos 0) || right_is (pos 0)) t (pos 0)
              (simplify_identity op l r (pos 1))
        | BinaryOpKind.divide ↦ copy_left_if (right_is (pos 1)) op l r
        | BinaryOpKind.remainder ↦ absorbing (right_is (pos 1)) t (pos 0) (binary_inst b d op l r)
        | BinaryOpKind.power ↦
            absorbing (right_is (pos 0)) t (pos 1) (copy_left_if (right_is (pos 1)) op l r)
        | BinaryOpKind.bitwise_and ↦
            absorbing (left_is (pos 0) || right_is (pos 0)) t (pos 0)
              (simplify_identity op l r ones)
        | BinaryOpKind.bitwise_or ↦
            absorbing (left_is ones || right_is ones) t ones (simplify_identity op l r (pos 0))
        | BinaryOpKind.bitwise_xor ↦
            absorbing (same_operand l r) t (pos 0) (simplify_identity op l r (pos 0))
        | BinaryOpKind.shift_left ↦ copy_left_if (right_is (pos 0)) op l r
        | BinaryOpKind.shift_right ↦ copy_left_if (right_is (pos 0)) op l r
        | _ ↦ binary_inst b d op l r
      ]

  unfoldable pub simplify_integer : TypeNames → SemanticBinaryOp → Operand → Operand → Instruction
  simplify_integer types op l r = elim (integer_operand_type_name l r types) [
    | none ↦ binary_inst b d op l r
    | some t ↦ simplify_typed_integer t op l r
  ]

  unfoldable pub simplify_binary : TypeNames → SemanticBinaryOp → Operand → Operand → Instruction
  simplify_binary types op l r = elim op.flavor [
    | BinaryOpFlavor.bool_logical ↦ simplify_bool_logical op l r
    | BinaryOpFlavor.bool_comparison ↦ simplify_bool_comparison op l r
    | BinaryOpFlavor.integer ↦ simplify_integer types op l r
    | _ ↦ binary_inst b d op l r
  ]

-- `unary_by_reg`: the operator and the operand of the unary instruction that defined the register.
abbrev pub UnaryFacts : Type 0
UnaryFacts = Dict RegId (SemanticUnaryOp × Operand)

abbrev pub is_logical_not : UnaryOpKind → Bool
is_logical_not UnaryOpKind.logical_not = true
is_logical_not _ = false

-- What the operand is the logical negation of, if that is known.
unfoldable pub negated_operand : UnaryFacts → Operand → Option Operand
negated_operand facts (reg_operand r) = elim (lookup r facts) [
  | none ↦ none
  | some (op, o) ↦ if is_logical_not op.kind then some o else none
]
negated_operand facts _ = none

unfoldable pub simplify_unary :
    InstructionBase → RegId → UnaryFacts → SemanticUnaryOp → Operand → Instruction
simplify_unary b d facts op o =
    if is_logical_not op.kind
    then elim (negated_operand facts o) [ none ↦ unary_inst b d op o | some p ↦ copy_inst b d p ]
    else unary_inst b d op o

unfoldable pub simplify_instruction : Instruction → UnaryFacts → TypeNames → Instruction
simplify_instruction (unary_inst b d op o) facts types = simplify_unary b d facts op o
simplify_instruction (binary_inst b d op l r) facts types = simplify_binary b d types op l r
simplify_instruction i facts types = i

unfoldable pub operand_mentions_reg : Operand → RegId → Bool
operand_mentions_reg (reg_operand r) d = r == d
operand_mentions_reg _ d = false

unfoldable pub invalidate_unary_facts : UnaryFacts → RegId → UnaryFacts
unfolding operand_mentions_reg
invalidate_unary_facts [] d = []
invalidate_unary_facts ((r, (op, o)) ∷ facts) d =
    let rest = invalidate_unary_facts facts d in
    if r == d || operand_mentions_reg o d then rest else (r, (op, o)) ∷ rest

unfoldable pub invalidate_definition : UnaryFacts → Option RegId → UnaryFacts
invalidate_definition facts none = facts
invalidate_definition facts (some d) = invalidate_unary_facts facts d

unfoldable pub record_unary : Instruction → UnaryFacts → UnaryFacts
record_unary (unary_inst b d op o) facts = insert d (op, o) facts
record_unary _ facts = facts

-- The loop over the instructions.
unfoldable pub simplify_instructions : UnaryFacts → TypeNames → List Instruction → List Instruction
simplify_instructions facts types [] = []
simplify_instructions facts types (i ∷ is) =
    let i' = simplify_instruction i facts types in
    let known = record_unary i' (invalidate_definition facts (instruction_def_reg i')) in
    i' ∷ simplify_instructions known types is

-- The simplified block; where nothing changes, the block itself.
unfoldable pub simplify_block : Block → TypeNames → Block
simplify_block block types = record block {
  instructions = simplify_instructions [] types block.instructions;
}
