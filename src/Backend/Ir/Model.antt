-- ===== src/Backend/Ir/Model.antt =====
-- compiler/backend/ir/model.py: constants, operands, instructions, terminators, blocks, callables
-- and programs. A Python float is kept as its 64-bit pattern.
use niflheim.Shared.{ℕ, String, Bool, Option, List}
use niflheim.Shared.Int.{ℤ}
use niflheim.Symbols.{
  FunctionId, ClassId, MethodId, InterfaceId, InterfaceMethodId, ConstructorId, CallableId, LocalId,
  SourceSpan,
}
use niflheim.Backend.Ir.Ids.{RegId, BlockId, InstId, DataId}
use niflheim.Backend.Ir.Ops.{
  SemanticUnaryOp, SemanticBinaryOp, CastSemanticsKind, TypeTestSemanticsKind,
}
use niflheim.Backend.Ir.Types.{SemanticTypeRef}

pub data IntTypeName : Type 0 where
  i64 u64 u8 : IntTypeName

-- The bit pattern of an IEEE 754 double.
abbrev pub Double : Type 0
Double = ℕ

pub data Constant : Type 0 where
  int_const : IntTypeName → ℤ → Constant
  bool_const : Bool → Constant
  double_const : Double → Constant
  null_const unit_const : Constant

pub data Operand : Type 0 where
  reg_operand : RegId → Operand
  const_operand : Constant → Operand
  data_operand : DataId → Operand
  callable_operand : CallableId → SemanticTypeRef → Operand

pub record Effects : Type 0 where
  pub reads_memory : Bool
  pub writes_memory : Bool
  pub may_gc : Bool
  pub may_trap : Bool
  pub is_noreturn : Bool
  pub needs_safepoint_hooks : Bool

pub data CallTarget : Type 0 where
  direct_call : CallableId → CallTarget
  runtime_call : (name : String) → (ref_arg_indices : List ℕ) → CallTarget
  indirect_call : (callee : Operand) → CallTarget
  virtual_call : (slot_owner : ClassId) → (method_name : String) → MethodId → CallTarget
  interface_call : InterfaceId → InterfaceMethodId → CallTarget

pub record Signature : Type 0 where
  pub param_types : List SemanticTypeRef
  pub return_type : Option SemanticTypeRef

pub data ArrayRuntimeKind : Type 0 where
  i64 u64 u8 bool double ref : ArrayRuntimeKind

pub record InstructionBase : Type 0 where
  pub inst_id : InstId
  pub span : SourceSpan

pub data Instruction : Type 0 where
  const_inst : InstructionBase → (dest : RegId) → Constant → Instruction
  copy_inst : InstructionBase → (dest : RegId) → (source : Operand) → Instruction
  unary_inst : InstructionBase → (dest : RegId) → SemanticUnaryOp → Operand → Instruction
  binary_inst :
      InstructionBase → (dest : RegId) → SemanticBinaryOp → (left right : Operand) → Instruction
  cast_inst :
      InstructionBase
      → (dest : RegId) → CastSemanticsKind
      → Operand
      → SemanticTypeRef
      → (trap_on_failure : Bool) → Instruction
  type_test_inst :
      InstructionBase
      → (dest : RegId) → TypeTestSemanticsKind
      → Operand
      → SemanticTypeRef
      → Instruction
  alloc_object_inst : InstructionBase → (dest : RegId) → ClassId → Effects → Instruction
  field_load_inst :
      InstructionBase → (dest : RegId) → (object_ref : Operand) → ClassId → String → Instruction
  field_store_inst :
      InstructionBase → (object_ref : Operand) → ClassId → String → (value : Operand) → Instruction
  array_alloc_inst :
      InstructionBase
      → (dest : RegId) → ArrayRuntimeKind
      → (length : Operand) → Effects
      → Instruction
  array_length_inst : InstructionBase → (dest : RegId) → (array_ref : Operand) → Instruction
  array_load_inst :
      InstructionBase
      → (dest : RegId) → ArrayRuntimeKind
      → (array_ref index : Operand) → Instruction
  array_store_inst :
      InstructionBase → ArrayRuntimeKind → (array_ref index value : Operand) → Instruction
  array_slice_inst :
      InstructionBase
      → (dest : RegId) → ArrayRuntimeKind
      → (array_ref begin end : Operand) → Effects
      → Instruction
  array_slice_store_inst :
      InstructionBase → ArrayRuntimeKind → (array_ref begin end value : Operand) → Instruction
  null_check_inst : InstructionBase → (value : Operand) → Instruction
  bounds_check_inst : InstructionBase → (array_ref index : Operand) → Instruction
  call_inst :
      InstructionBase
      → (dest : Option RegId) → CallTarget
      → (args : List Operand) → Signature
      → Effects
      → Instruction

pub data TrapKind : Type 0 where
  bad_cast bounds null_deref panic unreachable : TrapKind

pub data Terminator : Type 0 where
  jump : SourceSpan → (target : BlockId) → Terminator
  branch : SourceSpan → (condition : Operand) → (if_true if_false : BlockId) → Terminator
  return : SourceSpan → Option Operand → Terminator
  trap : SourceSpan → TrapKind → Option String → Terminator

pub record Block : Type 0 where
  pub block_id : BlockId
  pub debug_name : String
  pub instructions : List Instruction
  pub terminator : Terminator
  pub span : SourceSpan

pub data RegisterOriginKind : Type 0 where
  receiver param local helper temp synthetic : RegisterOriginKind

pub record Register : Type 0 where
  pub reg_id : RegId
  pub type_ref : SemanticTypeRef
  pub debug_name : String
  pub origin_kind : RegisterOriginKind
  pub semantic_local_id : Option LocalId
  pub span : Option SourceSpan

pub data CallableKind : Type 0 where
  function method constructor : CallableKind

pub record CallableDecl : Type 0 where
  pub callable_id : CallableId
  pub kind : CallableKind
  pub signature : Signature
  pub is_export : Bool
  pub is_extern : Bool
  pub is_static : Option Bool
  pub is_private : Option Bool
  pub registers : List Register
  pub param_regs : List RegId
  pub receiver_reg : Option RegId
  pub entry_block_id : Option BlockId
  pub blocks : List Block
  pub span : SourceSpan

pub record FieldDecl : Type 0 where
  pub owner_class_id : ClassId
  pub name : String
  pub type_ref : SemanticTypeRef
  pub is_private : Bool
  pub is_final : Bool

pub record ClassDecl : Type 0 where
  pub class_id : ClassId
  pub superclass_id : Option ClassId
  pub implemented_interfaces : List InterfaceId
  pub fields : List FieldDecl
  pub methods : List MethodId
  pub constructors : List ConstructorId

pub record InterfaceDecl : Type 0 where
  pub interface_id : InterfaceId
  pub methods : List InterfaceMethodId

pub data DataBlobContentKind : Type 0 where
  raw string : DataBlobContentKind

pub record DataBlob : Type 0 where
  pub data_id : DataId
  pub debug_name : String
  pub alignment : ℕ
  pub bytes_hex : String
  pub readonly : Bool
  pub content_kind : DataBlobContentKind

pub record Program : Type 0 where
  pub schema_version : String
  pub entry_callable_id : FunctionId
  pub data_blobs : List DataBlob
  pub interfaces : List InterfaceDecl
  pub classes : List ClassDecl
  pub callables : List CallableDecl
