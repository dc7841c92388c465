-- ===== src/Backend/Optimizations/ConstantFold/Declared.antt =====
-- The reads of types in constant folding have no error where destinations are declared.
use niflheim.Shared.{◌≡◌, refl, Option, none, some, String, List, [], ◌∷◌, nat_eq, All}
use niflheim.Shared.Dict.{lookup}
use niflheim.Shared.Result.{ok}
use niflheim.Backend.Ir.Ids.{RegId, reg_id_eq, block_id_eq}
use niflheim.Backend.Ir.Model.{Constant, Instruction, binary_inst}
use niflheim.Backend.Optimizations.DeadPure.{TypeNames}
use niflheim.Backend.Optimizations.ConstantFold.Arith.{FloatOps}
use niflheim.Backend.Optimizations.ConstantFold.Folding.{ConstantMap, resolve_constant}
use niflheim.Backend.Optimizations.ConstantFold.Incoming.{read_type, destination_type, read_types}

-- The callable declares the register that the instruction writes, if it is a binary operation.
abbrev pub IsDeclared : TypeNames → Instruction → Type 0
IsDeclared types (binary_inst b d op l r) = (name : String) × (lookup d types ≡ some name)
IsDeclared types _ = Unit

read_type-declared :
    (types : TypeNames) (d : RegId) (name : String) (x y : Option Constant)
    → lookup d types ≡ some name
    → read_type types d x y ≡ ok tt
read_type-declared types d name (some x) (some y) h = rw h refl
read_type-declared types d name (some x) none h = refl
read_type-declared types d name none (some y) h = refl
read_type-declared types d name none none h = refl

destination_type-declared :
    (types : TypeNames) (i : Instruction) (constants : ConstantMap)
    → IsDeclared types i
    → destination_type types i constants ≡ ok tt
unfolding destination_type
destination_type-declared types (binary_inst b d op l r) constants (name, h) =
    read_type-declared types d name (resolve_constant l constants) (resolve_constant r constants) h
destination_type-declared types _ constants h = refl

pub read_types-declared :
    (f : FloatOps) (types : TypeNames) (is : List Instruction) (constants : ConstantMap)
    → All (IsDeclared types) is
    → read_types f types is constants ≡ ok tt
unfolding read_types
read_types-declared f types [] constants h = refl
read_types-declared f types (i ∷ is) constants (here, h) =
    rw (destination_type-declared types i _ here) (read_types-declared f types is _ h)
