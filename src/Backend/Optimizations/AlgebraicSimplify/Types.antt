-- ===== src/Backend/Optimizations/AlgebraicSimplify/Types.antt =====
-- compiler/backend/optimizations/algebraic_simplify.py: the reads of `register_type_name_by_reg_id` in
-- `_integer_operand_type_name`, and the `KeyError` of a register that the callable does not declare.
use niflheim.Shared.{◌≡◌, refl, Option-cases, none, some, String, List, [], ◌∷◌, All, inl, inr}
use niflheim.Shared.Dict.{lookup}
use niflheim.Shared.Result.{Result, ok, err, ◌>>=◌}
use niflheim.Backend.Ir.Ids.{RegId, reg_id_eq}
use niflheim.Backend.Ir.Ops.{BinaryOpFlavor}
use niflheim.Backend.Ir.Model.{Operand, reg_operand, Instruction, binary_inst}
use niflheim.Backend.Optimizations.AlgebraicSimplify.{TypeNames, operand_integer_type}

pub data SimplifyError : Type 0 where
  undeclared_operand : RegId → SimplifyError

-- `register_type_name_by_reg_id[operand.reg_id]`
unfoldable pub read_operand_type : Operand → TypeNames → Result SimplifyError (Unit {0})
read_operand_type (reg_operand r) types = elim (lookup r types) [
  | none ↦ err (undeclared_operand r)
  | some name ↦ ok tt
]
read_operand_type _ types = ok tt

-- The right operand is only looked at where the left one has no integer type.
unfoldable pub read_operand_types : Operand → Operand → TypeNames → Result SimplifyError (Unit {0})
read_operand_types l r types = read_operand_type l types >>= λ _.
    elim (operand_integer_type l types) [ some t ↦ ok tt | none ↦ read_operand_type r types ]

unfoldable pub read_instruction_types : TypeNames → Instruction → Result SimplifyError (Unit {0})
read_instruction_types types (binary_inst b d op l r) = elim op.flavor [
  | BinaryOpFlavor.integer ↦ read_operand_types l r types
  | _ ↦ ok tt
]
read_instruction_types types _ = ok tt

unfoldable pub read_block_operand_types :
    TypeNames → List Instruction → Result SimplifyError (Unit {0})
read_block_operand_types types [] = ok tt
read_block_operand_types types (i ∷ is) =
    read_instruction_types types i >>= λ _. read_block_operand_types types is

-- The callable declares the register, if the operand is one.
abbrev pub IsDeclaredOperand : TypeNames → Operand → Type 0
IsDeclaredOperand types (reg_operand r) = (name : String) × (lookup r types ≡ some name)
IsDeclaredOperand types _ = Unit

abbrev pub HasDeclaredOperands : TypeNames → Instruction → Type 0
HasDeclaredOperands types (binary_inst b d op l r) =
    IsDeclaredOperand types l × IsDeclaredOperand types r
HasDeclaredOperands types _ = Unit

read_operand_type-declared :
    (types : TypeNames) (o : Operand)
    → IsDeclaredOperand types o
    → read_operand_type o types ≡ ok tt
unfolding read_operand_type
read_operand_type-declared types (reg_operand r) (name, h) = rw (h, read_operand_type) refl
read_operand_type-declared types _ h = refl

read_operand_types-declared :
    (types : TypeNames) (l r : Operand)
    → IsDeclaredOperand types l
    → IsDeclaredOperand types r
    → read_operand_types l r types ≡ ok tt
unfolding read_operand_types
read_operand_types-declared types l r hl hr =
    rw (read_operand_type-declared types l hl) (elim (Option-cases (operand_integer_type l types)) [
      | inl none_here ↦ rw none_here (read_operand_type-declared types r hr)
      | inr (t, found) ↦ rw found refl
    ])

read_instruction_types-declared :
    (types : TypeNames) (i : Instruction)
    → HasDeclaredOperands types i
    → read_instruction_types types i ≡ ok tt
unfolding read_instruction_types
read_instruction_types-declared types (binary_inst b d op l r) (hl, hr) = of_flavor op.flavor
  where
    of_flavor :
        (flavor : BinaryOpFlavor)
        → elim flavor [ BinaryOpFlavor.integer ↦ read_operand_types l r types | _ ↦ ok tt ] ≡ ok tt
    of_flavor BinaryOpFlavor.integer = read_operand_types-declared types l r hl hr
    of_flavor _ = refl
read_instruction_types-declared types _ h = refl

pub read_block_operand_types-declared :
    (types : TypeNames) (is : List Instruction)
    → All (HasDeclaredOperands types) is
    → read_block_operand_types types is ≡ ok tt
unfolding read_block_operand_types
read_block_operand_types-declared types [] h = refl
read_block_operand_types-declared types (i ∷ is) (here, h) =
    rw (read_instruction_types-declared types i here) (read_block_operand_types-declared types is h)
