-- ===== src/Backend/Optimizations/ConstantFold/Known.antt =====
-- What constant folding takes to be true: the constants that registers are known to hold, and what
-- a machine computes on constants.
use niflheim.Shared.{
  ◌≡◌, refl, sym, false, Option, none, some, [], ◌∷◌, Option-cases, inl, inr, All, arith,
}
use niflheim.Shared.Dict.{lookup, insert, erase}
use niflheim.Backend.Ir.Ids.{RegId, reg_id_eq, reg_id_beq_iff}
use niflheim.Backend.Ir.Types.{semantic_type_canonical_name}
use niflheim.Backend.Ir.Model.{
  Constant, Operand, reg_operand, const_operand, data_operand, callable_operand, Instruction,
  unary_inst, binary_inst, cast_inst,
}
use niflheim.Backend.Semantics.{Value, constant, Registers, value, Machine, write, continues}
use niflheim.Backend.Semantics.Operands.{skeleton}
use niflheim.Backend.Optimizations.ConstantFold.Arith.{FloatOps}
use niflheim.Backend.Optimizations.ConstantFold.Meaning.{EvalUnary, EvalBinary, EvalCast}
use niflheim.Backend.Optimizations.ConstantFold.Folding.{
  ConstantMap, resolve_constant, integer_type_of_name,
}
use niflheim.Backend.Optimizations.ConstantFold.Pass.{rewrite_operand, forget_definition}

module _ (f : FloatOps) {W : Type 0} (m : Machine W) where
  -- On constants the machine gives what the language says, and does not touch the world.
  abbrev pub Computes : Instruction → Type 0
  Computes (unary_inst b d op o) =
      (a c : Constant) (w : W)
      → EvalUnary f op.kind a c
      → m.exec (skeleton (unary_inst b d op o)) (constant a ∷ []) w ≡ continues (constant c) w
  Computes (binary_inst b d op l r) =
      (x y c : Constant) (w : W)
      → EvalBinary f op x y c
      → m.exec (skeleton (binary_inst b d op l r)) (constant x ∷ constant y ∷ []) w
        ≡ continues (constant c) w
  Computes (cast_inst b d k o t false) =
      (a c : Constant) (w : W)
      → EvalCast f k (integer_type_of_name (semantic_type_canonical_name t)) a c
      → m.exec (skeleton (cast_inst b d k o t false)) (constant a ∷ []) w ≡ continues (constant c) w
  Computes _ = Unit

-- In the registers `ρ` every known constant is true.
abbrev pub Holds : Registers → ConstantMap → Type 0
Holds ρ constants = All (λ b. ρ b.0 ≡ constant b.1) constants

pub lookup-Holds :
    (ρ : Registers) (constants : ConstantMap) (r : RegId) (c : Constant)
    → Holds ρ constants
    → lookup r constants ≡ some c
    → ρ r ≡ constant c
unfolding lookup
lookup-Holds ρ [] r c h e = cc
lookup-Holds ρ ((j, p) ∷ constants) r c h e =
    ground (arith, reg_id_beq_iff r j, lookup-Holds ρ constants r c h.1)

pub insert-Holds :
    (ρ : Registers) (r : RegId) (c : Constant) (constants : ConstantMap)
    → ρ r ≡ constant c
    → Holds ρ constants
    → Holds ρ (insert r c constants)
unfolding insert
insert-Holds ρ r c [] e h = (e, tt)
insert-Holds ρ r c ((j, p) ∷ constants) e h =
    ground (arith, reg_id_beq_iff r j, insert-Holds ρ r c constants e h.1)

erase-Holds :
    (ρ : Registers) (d : RegId) (constants : ConstantMap)
    → Holds ρ constants
    → Holds ρ (erase d constants)
unfolding erase
erase-Holds ρ d [] h = tt
erase-Holds ρ d ((j, p) ∷ constants) h = ground (arith, erase-Holds ρ d constants h.1)

erase-write-Holds :
    (ρ : Registers) (d : RegId) (v : Value) (constants : ConstantMap)
    → Holds ρ constants
    → Holds (write (some d) v ρ) (erase d constants)
unfolding erase
erase-write-Holds ρ d v [] h = tt
erase-write-Holds ρ d v ((j, p) ∷ constants) h =
    ground (arith, reg_id_beq_iff d j, reg_id_beq_iff j d, erase-write-Holds ρ d v constants h.1)

pub forget-Holds :
    (ρ : Registers) (d : Option RegId) (constants : ConstantMap)
    → Holds ρ constants
    → Holds ρ (forget_definition d constants)
unfolding forget_definition
forget-Holds ρ none constants h = h
forget-Holds ρ (some d) constants h = erase-Holds ρ d constants h

pub forget-write-Holds :
    (ρ : Registers) (d : Option RegId) (v : Value) (constants : ConstantMap)
    → Holds ρ constants
    → Holds (write d v ρ) (forget_definition d constants)
unfolding forget_definition
forget-write-Holds ρ none v constants h = h
forget-write-Holds ρ (some d) v constants h = erase-write-Holds ρ d v constants h

abbrev pub by_constants : ConstantMap → Operand → Operand
by_constants constants o = (rewrite_operand o constants).0

pub value-by_constants :
    (ρ : Registers) (constants : ConstantMap)
    → Holds ρ constants
    → (o : Operand) → value ρ (by_constants constants o) ≡ value ρ o
unfolding rewrite_operand
value-by_constants ρ constants h (reg_operand r) = elim (Option-cases (lookup r constants)) [
  | inl missing ↦ rw (value, rewrite_operand, missing)
  | inr (c, found) ↦ rw (value, rewrite_operand, found) (sym (lookup-Holds ρ constants r c h found))
]
value-by_constants ρ constants h _ = refl

-- A resolved operand has the value that was resolved.
pub resolve-value :
    (ρ : Registers) (constants : ConstantMap) (o : Operand) (c : Constant)
    → Holds ρ constants
    → resolve_constant o constants ≡ some c
    → value ρ o ≡ constant c
unfolding resolve_constant
resolve-value ρ constants (const_operand d) c h e = cc
resolve-value ρ constants (reg_operand r) c h e = lookup-Holds ρ constants r c h e
resolve-value ρ constants (data_operand d) c h e = cc
resolve-value ρ constants (callable_operand g t) c h e = cc
