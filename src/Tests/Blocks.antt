-- ===== src/Tests/Blocks.antt =====
-- A small callable to run the passes of compiler/backend/optimizations on.
use niflheim.Shared.{
  true, false, none, ℕ, ◌+◌, ◌*◌, ◌-◌, some, List, [], ◌∷◌, ◌==◌, nat_eq, ltb, leb,
}
use niflheim.Shared.Int.{pos, pos_part}
use niflheim.Symbols.{CallableId, SourcePos, SourceSpan}
use niflheim.Backend.Ir.Ids.{BlockId, RegId}
use niflheim.Backend.Ir.Ops.{BinaryOpKind, BinaryOpFlavor, SemanticBinaryOp}
use niflheim.Backend.Ir.Model.{
  bool_const, branch, CallableKind, CallableDecl, IntTypeName, Constant, int_const, unit_const,
  reg_operand, const_operand, InstructionBase, Instruction, const_inst, copy_inst, binary_inst,
  return, Block,
}
use niflheim.Backend.Optimizations.SimplifyCfg.{Targets}
use niflheim.Backend.Ir.Types.{SemanticTypeKind, SemanticTypeRef, type_ref, absent, nil}
use niflheim.Backend.Semantics.{Registers, constant, Machine, continues}
use niflheim.Backend.Optimizations.ConstantFold.Arith.{FloatOps}

abbrev pub owner : CallableId
owner = CallableId.function (record { module_path = "main" ∷ []; name = "main" })

abbrev pub reg : ℕ → RegId
reg n = record { owner_id = owner; ordinal = n }

abbrev pub start : SourcePos
start = record { path = "main.nif"; offset = 0; line = 1; column = 1 }

abbrev pub span : SourceSpan
span = record { start = start; end = start }

abbrev pub at : ℕ → InstructionBase
at n = record { inst_id = record { owner_id = owner; ordinal = n }; span = span }

abbrev pub number : ℕ → Constant
number n = int_const IntTypeName.i64 (pos n)

abbrev pub add_op : SemanticBinaryOp
add_op = record { kind = BinaryOpKind.add; flavor = BinaryOpFlavor.integer }

-- r0 = 2; r1 = r0; r2 = r1 + 3; r1 = r1; return r1
abbrev pub instructions : List Instruction
instructions =
    const_inst (at 0) (reg 0) (number 2)
    ∷ copy_inst (at 1) (reg 1) (reg_operand (reg 0))
    ∷ binary_inst (at 2) (reg 2) add_op (reg_operand (reg 1)) (const_operand (number 3))
    ∷ copy_inst (at 3) (reg 1) (reg_operand (reg 1))
    ∷ []

abbrev pub block : Block
block = record {
  block_id = record { owner_id = owner; ordinal = 0 };
  debug_name = "entry";
  instructions = instructions;
  terminator = return span (some (reg_operand (reg 1)));
  span = span;
}

-- Every register holds the unit value.
abbrev pub units : Registers
units = λ r. constant unit_const

-- A machine that counts what it executes, and whose results are the unit value.
abbrev pub counting : Machine ℕ
counting = record { exec = λ i vs w. continues (constant unit_const) (w + 1) }

-- A machine that does nothing.
abbrev pub idle : Machine ℕ
idle = record { exec = λ i vs w. continues (constant unit_const) w }

-- Operations on bit patterns that stand in for those on doubles.
abbrev pub bit_floats : FloatOps
bit_floats = record {
  float_neg = λ x. x;
  float_add = λ x y. x + y;
  float_sub = λ x y. x - y;
  float_mul = λ x y. x * y;
  float_div = λ x y. x;
  float_eq = λ x y. x == y;
  float_lt = ltb;
  float_le = leb;
  is_zero = λ x. x == 0;
  float_of_int = pos_part;
  trunc = λ x. some (pos x);
}

abbrev pub label : ℕ → BlockId
label n = record { owner_id = owner; ordinal = n }

-- A block that branches on a constant.
abbrev pub branching : BlockId → BlockId → Block
branching t f = record block { terminator = branch span (const_operand (bool_const true)) t f }

-- The block 0 goes to block 1, and block 1 returns.
abbrev pub main_callable : CallableDecl
main_callable = record {
  callable_id = owner;
  kind = CallableKind.function;
  signature = record { param_types = []; return_type = none };
  is_export = false;
  is_extern = false;
  is_static = none;
  is_private = none;
  registers = [];
  param_regs = [];
  receiver_reg = none;
  entry_block_id = some (label 0);
  blocks = branching (label 1) (label 0) ∷ record block { block_id = label 1 } ∷ [];
  span = span;
}

-- Jumps from 0 over 1 to 2, and between 3 and 4.
abbrev pub jumps : Targets
jumps = (label 0, label 1) ∷ (label 1, label 2) ∷ (label 3, label 4) ∷ (label 4, label 3) ∷ []

abbrev pub i64_type : SemanticTypeRef
i64_type = type_ref SemanticTypeKind.primitive "i64" "i64" none none absent nil absent
