-- ===== src/Tests/Merge.antt =====
-- The theorem on `_intersect_constant_maps` of constant_fold.py at concrete inputs.
use niflheim.Shared.{refl, [], ◌∷◌, nat_eq, nat_beq_iff}
use niflheim.Backend.Semantics.{Registers, constant}
use niflheim.Backend.Optimizations.ConstantFold.Folding.{ConstantMap}
use niflheim.Backend.Optimizations.ConstantFold.Known.{Holds}
use niflheim.Backend.Optimizations.ConstantFold.Merge.{
  EqualsAreSame, intersect_constant_maps, intersect_constant_maps-Holds,
}
use niflheim.Tests.Blocks.{bit_floats, number, reg}

pub bits_same : EqualsAreSame bit_floats
bits_same x y h nonzero = (nat_beq_iff x y).0 h

abbrev then_branch : ConstantMap
then_branch = (reg 0, number 7) ∷ (reg 1, number 3) ∷ []

abbrev else_branch : ConstantMap
else_branch = (reg 0, number 7) ∷ []

-- Every register holds 7.
abbrev sevens : Registers
sevens = λ r. constant (number 7)

intersect_constant_maps-Holds_example :
    Holds sevens (intersect_constant_maps bit_floats (then_branch ∷ else_branch ∷ []))
intersect_constant_maps-Holds_example =
    intersect_constant_maps-Holds bit_floats then_branch (else_branch ∷ []) 1 else_branch sevens
      bits_same (tt, (tt, tt)) refl (refl, tt)
