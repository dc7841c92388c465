-- ===== src/Backend/Semantics/Operands.antt =====
-- The operands that an instruction reads, in the order of its fields, the register that it writes,
-- and the instruction with its operands taken out.
use niflheim.Shared.{◌≡◌, refl, ap, ◌∙◌, Option, none, some, List, [], ◌∷◌, ◌++◌, map}
use niflheim.Backend.Ir.Ids.{RegId}
use niflheim.Backend.Ir.Model.{
  Operand, const_operand, unit_const, CallTarget, direct_call, runtime_call, indirect_call,
  virtual_call, interface_call, Instruction, const_inst, copy_inst, unary_inst, binary_inst,
  cast_inst, type_test_inst, alloc_object_inst, field_load_inst, field_store_inst, array_alloc_inst,
  array_length_inst, array_load_inst, array_store_inst, array_slice_inst, array_slice_store_inst,
  null_check_inst, bounds_check_inst, call_inst,
}

abbrev pub target_operands : CallTarget → List Operand
target_operands (indirect_call callee) = callee ∷ []
target_operands _ = []

abbrev pub operands : Instruction → List Operand
operands (const_inst b d c) = []
operands (copy_inst b d o) = o ∷ []
operands (unary_inst b d op o) = o ∷ []
operands (binary_inst b d op l r) = l ∷ r ∷ []
operands (cast_inst b d k o t f) = o ∷ []
operands (type_test_inst b d k o t) = o ∷ []
operands (alloc_object_inst b d c e) = []
operands (field_load_inst b d o c n) = o ∷ []
operands (field_store_inst b o c n v) = o ∷ v ∷ []
operands (array_alloc_inst b d k n e) = n ∷ []
operands (array_length_inst b d a) = a ∷ []
operands (array_load_inst b d k a i) = a ∷ i ∷ []
operands (array_store_inst b k a i v) = a ∷ i ∷ v ∷ []
operands (array_slice_inst b d k a i j e) = a ∷ i ∷ j ∷ []
operands (array_slice_store_inst b k a i j v) = a ∷ i ∷ j ∷ v ∷ []
operands (null_check_inst b v) = v ∷ []
operands (bounds_check_inst b a i) = a ∷ i ∷ []
operands (call_inst b d t xs s e) = xs ++ target_operands t

-- The instruction that reads `f o` where `i` reads `o`.
abbrev pub map_target : (Operand → Operand) → CallTarget → CallTarget
map_target f (indirect_call callee) = indirect_call (f callee)
map_target f (direct_call c) = direct_call c
map_target f (runtime_call n r) = runtime_call n r
map_target f (virtual_call c n m) = virtual_call c n m
map_target f (interface_call c m) = interface_call c m

abbrev pub map_operands : (Operand → Operand) → Instruction → Instruction
map_operands f (const_inst b d c) = const_inst b d c
map_operands f (copy_inst b d o) = copy_inst b d (f o)
map_operands f (unary_inst b d op o) = unary_inst b d op (f o)
map_operands f (binary_inst b d op l r) = binary_inst b d op (f l) (f r)
map_operands f (cast_inst b d k o t g) = cast_inst b d k (f o) t g
map_operands f (type_test_inst b d k o t) = type_test_inst b d k (f o) t
map_operands f (alloc_object_inst b d c e) = alloc_object_inst b d c e
map_operands f (field_load_inst b d o c n) = field_load_inst b d (f o) c n
map_operands f (field_store_inst b o c n v) = field_store_inst b (f o) c n (f v)
map_operands f (array_alloc_inst b d k n e) = array_alloc_inst b d k (f n) e
map_operands f (array_length_inst b d a) = array_length_inst b d (f a)
map_operands f (array_load_inst b d k a i) = array_load_inst b d k (f a) (f i)
map_operands f (array_store_inst b k a i v) = array_store_inst b k (f a) (f i) (f v)
map_operands f (array_slice_inst b d k a i j e) = array_slice_inst b d k (f a) (f i) (f j) e
map_operands f (array_slice_store_inst b k a i j v) =
    array_slice_store_inst b k (f a) (f i) (f j) (f v)
map_operands f (null_check_inst b v) = null_check_inst b (f v)
map_operands f (bounds_check_inst b a i) = bounds_check_inst b (f a) (f i)
map_operands f (call_inst b d t xs s e) = call_inst b d (map_target f t) (map f xs) s e

abbrev pub hide : Operand → Operand
hide _ = const_operand unit_const

abbrev pub skeleton : Instruction → Instruction
skeleton = map_operands hide

abbrev pub instruction_def_reg : Instruction → Option RegId
instruction_def_reg (const_inst b d c) = some d
instruction_def_reg (copy_inst b d o) = some d
instruction_def_reg (unary_inst b d op o) = some d
instruction_def_reg (binary_inst b d op l r) = some d
instruction_def_reg (cast_inst b d k o t f) = some d
instruction_def_reg (type_test_inst b d k o t) = some d
instruction_def_reg (alloc_object_inst b d c e) = some d
instruction_def_reg (field_load_inst b d o c n) = some d
instruction_def_reg (field_store_inst b o c n v) = none
instruction_def_reg (array_alloc_inst b d k n e) = some d
instruction_def_reg (array_length_inst b d a) = some d
instruction_def_reg (array_load_inst b d k a i) = some d
instruction_def_reg (array_store_inst b k a i v) = none
instruction_def_reg (array_slice_inst b d k a i j e) = some d
instruction_def_reg (array_slice_store_inst b k a i j v) = none
instruction_def_reg (null_check_inst b v) = none
instruction_def_reg (bounds_check_inst b a i) = none
instruction_def_reg (call_inst b d t xs s e) = d

map-map-hide : (f : Operand → Operand) (os : List Operand) → map hide (map f os) ≡ map hide os
map-map-hide f [] = refl
map-map-hide f (o ∷ os) = ap (λ (r : List Operand). hide o ∷ r) (map-map-hide f os)

map_target-hide :
    (f : Operand → Operand) (t : CallTarget) → map_target hide (map_target f t) ≡ map_target hide t
map_target-hide f (indirect_call c) = refl
map_target-hide f _ = refl

pub skeleton-map_operands :
    (f : Operand → Operand) (i : Instruction) → skeleton (map_operands f i) ≡ skeleton i
skeleton-map_operands f (call_inst b d t xs s e) =
    λ i. call_inst b d (map_target-hide f t i) (map-map-hide f xs i) s e
skeleton-map_operands f _ = refl

target_operands-map :
    (f : Operand → Operand) (t : CallTarget)
    → target_operands (map_target f t) ≡ map f (target_operands t)
target_operands-map f (indirect_call c) = refl
target_operands-map f _ = refl

map-append_operands :
    (f : Operand → Operand) (os ps : List Operand) → map f os ++ map f ps ≡ map f (os ++ ps)
map-append_operands f [] ps = refl
map-append_operands f (o ∷ os) ps = ap (λ (r : List Operand). f o ∷ r) (map-append_operands f os ps)

pub operands-map_operands :
    (f : Operand → Operand) (i : Instruction) → operands (map_operands f i) ≡ map f (operands i)
operands-map_operands f (call_inst b d t xs s e) =
    ap (λ (r : List Operand). map f xs ++ r) (target_operands-map f t)
    ∙ map-append_operands f xs (target_operands t)
operands-map_operands f _ = refl

pub instruction_def_reg-map_operands :
    (f : Operand → Operand) (i : Instruction)
    → instruction_def_reg (map_operands f i) ≡ instruction_def_reg i
instruction_def_reg-map_operands f (const_inst b d c) = refl
instruction_def_reg-map_operands f _ = refl
