-- ===== src/Tests/Machines.antt =====
-- Machines to run the passes on.
use niflheim.Shared.{◌≡◌, ℕ, none, some, List, [], ◌∷◌, nat_eq}
use niflheim.Shared.Int.{◌+ℤ◌}
use niflheim.Backend.Ir.Ids.{RegId, reg_id_eq}
use niflheim.Backend.Ir.Model.{
  Operand, InstructionBase, const_operand, Constant, int_const, unit_const, Instruction,
  binary_inst,
}
use niflheim.Backend.Optimizations.ConstantFold.Folding.{fold_unary}
use niflheim.Backend.Ir.Ids.{RegId}
use niflheim.Backend.Ir.Model.{
  unary_inst, bool_const, double_const, null_const, InstructionBase, Operand,
}
use niflheim.Backend.Semantics.{Value, constant, Machine, Effect, continues, traps}
use niflheim.Backend.Optimizations.ConstantFold.Arith.{fold_integer_binary}
use niflheim.Backend.Optimizations.ConstantFold.Wrap.{wrap_integer_unique}
use niflheim.Backend.Optimizations.ConstantFold.Meaning.{EvalBinary}
use niflheim.Backend.Optimizations.ConstantFold.Folding.{
  fold_unary, fold_binary, fold_integer_constants,
}
use niflheim.Backend.Optimizations.ConstantFold.Known.{Computes}
use niflheim.Tests.Blocks.{at, reg, add_op, bit_floats}
use niflheim.Backend.Optimizations.AlgebraicSimplify.{logical_not_like}

-- A machine that adds and negates as the language says.
abbrev pub sum_of : Instruction → List Value → ℕ → Effect ℕ
sum_of (binary_inst b d op l r) (constant x ∷ constant y ∷ []) w =
    elim (fold_binary bit_floats op x y) [ some c ↦ continues (constant c) w | none ↦ traps w ]
sum_of (unary_inst b d op o) (constant a ∷ []) w = elim (fold_unary bit_floats op.kind a) [
  | some c ↦ continues (constant c) w
  | none ↦ traps w
]
sum_of i vs w = continues (constant unit_const) w

abbrev pub adding : Machine ℕ
adding = record { exec = sum_of }

pub adding-Computes :
    (x y c : Constant) (w : ℕ)
    → EvalBinary bit_floats add_op x y c
    → sum_of
        (binary_inst (at 2) (reg 2) add_op (const_operand unit_const) (const_operand unit_const))
        (constant x ∷ constant y ∷ [])
        w
      ≡ continues (constant c) w
unfolding fold_binary fold_integer_constants fold_integer_binary
adding-Computes (int_const t l) (int_const s r) c w (v, e, word) =
    cc (wrap_integer_unique (l +ℤ r) t v word)
adding-Computes _ _ c w h = absurd h

pub adding-Computes_not :
    (b : InstructionBase) (d : RegId) (o : Operand)
    → Computes bit_floats adding (logical_not_like b d o)
unfolding fold_unary
adding-Computes_not b d o (bool_const x) c w e = cc
adding-Computes_not b d o (int_const t v) c w e = absurd e
adding-Computes_not b d o (double_const v) c w e = absurd e
adding-Computes_not b d o null_const c w e = absurd e
adding-Computes_not b d o unit_const c w e = absurd e
