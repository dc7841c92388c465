-- ===== src/Symbols.antt =====
-- compiler/semantic/symbols.py: the names of functions, classes, methods and constructors, with
-- Python's field by field equality. compiler/common/span.py: source positions.
use niflheim.Shared.{
  ℕ, String, ◌≡◌, ◌↔◌, Bool, false, true, ◌&&◌, List, arith, Eq, ◌==◌, string_eq, list_eq, nat_eq,
  list_beq_iff, nat_beq_iff,
}
use text.Mathlib.TextEquality.{eq_iff}

abbrev pub ModulePath : Type 0
ModulePath = List String

pub record FunctionId : Type 0 where
  pub module_path : ModulePath
  pub name : String

pub record ClassId : Type 0 where
  pub module_path : ModulePath
  pub name : String

pub record MethodId : Type 0 where
  pub module_path : ModulePath
  pub class_name : String
  pub name : String

pub record InterfaceId : Type 0 where
  pub module_path : ModulePath
  pub name : String

pub record InterfaceMethodId : Type 0 where
  pub module_path : ModulePath
  pub interface_name : String
  pub name : String

pub record ConstructorId : Type 0 where
  pub module_path : ModulePath
  pub class_name : String
  pub ordinal : ℕ

-- `BackendCallableId`, which is also `LocalOwnerId`.
pub data CallableId : Type 0 where
  function : FunctionId → CallableId
  method : MethodId → CallableId
  constructor : ConstructorId → CallableId

pub record LocalId : Type 0 where
  pub owner_id : CallableId
  pub ordinal : ℕ

unfoldable pub class_id_beq : ClassId → ClassId → Bool
class_id_beq a b = a.module_path == b.module_path && a.name == b.name

pub class_id_beq_iff : (a b : ClassId) → (class_id_beq a b ≡ true) ↔ (a ≡ b)
unfolding class_id_beq
class_id_beq_iff a b =
    ground (arith, list_beq_iff a.module_path b.module_path, eq_iff a.name b.name)

instance abbrev pub class_id_eq : Eq ClassId
class_id_eq = record { beq = class_id_beq; beq_iff = class_id_beq_iff }

unfoldable pub callable_id_beq : CallableId → CallableId → Bool
callable_id_beq (function a) (function b) = a.module_path == b.module_path && a.name == b.name
callable_id_beq (method a) (method b) =
    a.module_path == b.module_path && (a.class_name == b.class_name && a.name == b.name)
callable_id_beq (constructor a) (constructor b) =
    a.module_path == b.module_path && (a.class_name == b.class_name && a.ordinal == b.ordinal)
callable_id_beq _ _ = false

pub callable_id_beq_iff : (a b : CallableId) → (callable_id_beq a b ≡ true) ↔ (a ≡ b)
unfolding callable_id_beq
callable_id_beq_iff (function a) (function b) =
    ground (arith, list_beq_iff a.module_path b.module_path, eq_iff a.name b.name)
callable_id_beq_iff (method a) (method b) = ground (
  arith,
  list_beq_iff a.module_path b.module_path,
  eq_iff a.class_name b.class_name,
  eq_iff a.name b.name,
)
callable_id_beq_iff (constructor a) (constructor b) = ground (
  arith,
  list_beq_iff a.module_path b.module_path,
  eq_iff a.class_name b.class_name,
  nat_beq_iff a.ordinal b.ordinal,
)
callable_id_beq_iff _ _ = ground arith

instance abbrev pub callable_id_eq : Eq CallableId
callable_id_eq = record { beq = callable_id_beq; beq_iff = callable_id_beq_iff }

pub record SourcePos : Type 0 where
  pub path : String
  pub offset : ℕ
  pub line : ℕ
  pub column : ℕ

pub record SourceSpan : Type 0 where
  pub start : SourcePos
  pub end : SourcePos
