-- ===== src/Backend/Ir/Types.antt =====
-- compiler/semantic/types.py: a type reference, which holds an element type, parameter types and
-- a return type of its own kind.
use niflheim.Shared.{String, Bool, true, false, ◌||◌, Option}
use niflheim.Symbols.{ClassId, InterfaceId}

pub data SemanticTypeKind : Type 0 where
  primitive null reference interface callable : SemanticTypeKind

mutual
  pub data SemanticTypeRef : Type 0 where
    type_ref :
        (kind : SemanticTypeKind) (canonical_name display_name : String)
        → Option ClassId
        → Option InterfaceId
        → (element_type : OptionalTypeRef) → (param_types : TypeRefs)
        → (return_type : OptionalTypeRef) → SemanticTypeRef

  pub data OptionalTypeRef : Type 0 where
    absent : OptionalTypeRef
    present : SemanticTypeRef → OptionalTypeRef

  pub data TypeRefs : Type 0 where
    nil : TypeRefs
    cons : SemanticTypeRef → TypeRefs → TypeRefs

abbrev pub semantic_type_canonical_name : SemanticTypeRef → String
semantic_type_canonical_name (type_ref _ name _ _ _ _ _ _) = name

abbrev pub kind_is_reference : SemanticTypeKind → Bool
kind_is_reference SemanticTypeKind.reference = true
kind_is_reference _ = false

abbrev pub kind_is_interface : SemanticTypeKind → Bool
kind_is_interface SemanticTypeKind.interface = true
kind_is_interface _ = false

abbrev pub semantic_type_is_reference : SemanticTypeRef → Bool
semantic_type_is_reference (type_ref kind _ _ _ _ _ _ _) = kind_is_reference kind

abbrev pub semantic_type_is_interface : SemanticTypeRef → Bool
semantic_type_is_interface (type_ref kind _ _ _ _ _ _ _) = kind_is_interface kind

abbrev pub semantic_type_is_array : SemanticTypeRef → Bool
semantic_type_is_array (type_ref _ _ _ _ _ absent _ _) = false
semantic_type_is_array (type_ref _ _ _ _ _ (present _) _ _) = true

unfoldable pub is_reference_type_ref : SemanticTypeRef → Bool
is_reference_type_ref t =
    semantic_type_is_reference t || (semantic_type_is_interface t || semantic_type_is_array t)
