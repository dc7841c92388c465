-- ===== src/Backend/Optimizations/ConstantFold/Growth.antt =====
-- Larger maps of constants: what `_transfer_block_constants` and `_intersect_constant_maps` make of them
-- is larger too, and a dictionary that is not equal to a smaller one is longer.
use niflheim.Shared.{
  ◌≤◌, ◌≡◌, refl, ap, ◌∙◌, Option, none, some, Option-cases, Bool-cases, List, [], ◌∷◌, arith, ◌==◌,
  nat_eq, inl, inr, beq_refl,
}
use niflheim.Shared.Dict.{lookup, insert, erase, keys, lookup-insert, lookup-erase}
use niflheim.Shared.DictOrder.{HasDistinctKeys, insert-HasDistinctKeys}
use niflheim.Shared.Count.{count}
use niflheim.Backend.Ir.Ids.{RegId, reg_id_eq, reg_id_beq_iff, block_id_eq}
use niflheim.Backend.Ir.Model.{
  Constant, Operand, reg_operand, const_operand, Instruction, const_inst, copy_inst, unary_inst,
  binary_inst, cast_inst,
}
use niflheim.Backend.Semantics.Operands.{instruction_def_reg}
use niflheim.Backend.Optimizations.ConstantFold.Arith.{FloatOps}
use niflheim.Backend.Optimizations.ConstantFold.Folding.{
  ConstantMap, with_constant, resolve_constant, folded_constant,
}
use niflheim.Backend.Optimizations.ConstantFold.Pass.{
  forget_definition, record_constant, const_like, transfer_constant, transfer_block_constants,
}

-- Whatever is known on the left is known on the right.
abbrev pub Extends : ConstantMap → ConstantMap → Type 0
Extends a b = (r : RegId) (c : Constant) → lookup r a ≡ some c → lookup r b ≡ some c

resolve-Extends :
    (o : Operand) (a b : ConstantMap) (c : Constant)
    → Extends a b
    → resolve_constant o a ≡ some c
    → resolve_constant o b ≡ some c
unfolding resolve_constant
resolve-Extends (const_operand k) a b c h e = e
resolve-Extends (reg_operand r) a b c h e = h r c e
resolve-Extends _ a b c h e = e

with_constant-some :
    (o : Option Constant) (g : Constant → Option Constant) (c : Constant)
    → with_constant o g ≡ some c
    → (x : Constant) × (o ≡ some x) × (g x ≡ some c)
with_constant-some none g c e = cc
with_constant-some (some x) g c e = (x, refl, e)

with_constant-Extends :
    (o o' : Option Constant) (g g' : Constant → Option Constant) (c : Constant)
    → ((x : Constant) → o ≡ some x → o' ≡ some x)
    → ((x : Constant) → g x ≡ some c → g' x ≡ some c)
    → with_constant o g ≡ some c
    → with_constant o' g' ≡ some c
with_constant-Extends o o' g g' c h k e =
    let (x, found, applied) = with_constant-some o g c e in rw (h x found) (k x applied)

erase-Extends : (d : RegId) (a b : ConstantMap) → Extends a b → Extends (erase d a) (erase d b)
erase-Extends d a b h r c e = ground (arith, lookup-erase r d a, lookup-erase r d b, h r c)

forget-Extends :
    (d : Option RegId) (a b : ConstantMap)
    → Extends a b
    → Extends (forget_definition d a) (forget_definition d b)
unfolding forget_definition
forget-Extends none a b h = h
forget-Extends (some d) a b h = erase-Extends d a b h

insert-Extends :
    (d : RegId) (k : Constant) (a b : ConstantMap)
    → Extends a b
    → Extends (insert d k a) (insert d k b)
insert-Extends d k a b h r c e = ground (arith, lookup-insert r d k a, lookup-insert r d k b, h r c)

-- A map that knows nothing of the register extends no less far.
added-Extends :
    (d : RegId) (k : Constant) (a b : ConstantMap)
    → lookup d a ≡ none
    → Extends a b
    → Extends a (insert d k b)
added-Extends d k a b fresh h r c e = elim (Bool-cases (r == d)) [
  | inl same ↦ let gone = ap (λ (x : RegId). lookup x a) ((reg_id_beq_iff r d).0 same) in cc
  | inr other ↦ lookup-insert r d k b ∙ rw other (h r c e)
]

forgotten : (d : RegId) (a : ConstantMap) → lookup d (erase d a) ≡ none
forgotten d a = lookup-erase d d a ∙ rw (beq_refl d)

record-Extends :
    (i : Instruction) (a b : ConstantMap)
    → Extends a b
    → Extends (record_constant i a) (record_constant i b)
unfolding record_constant
record-Extends (const_inst b d k) x y h = insert-Extends d k x y h
record-Extends _ x y h = h

count-erase :
    (d : RegId) (a : ConstantMap) (k : RegId) → count k (keys (erase d a)) ≤ count k (keys a)
unfolding erase count
count-erase d [] k = omega arith
count-erase d ((r, c) ∷ a) k = ground (arith, count-erase d a k)

erase-HasDistinctKeys :
    (d : RegId) (a : ConstantMap) → HasDistinctKeys a → HasDistinctKeys (erase d a)
erase-HasDistinctKeys d a h k = omega (arith, h k, count-erase d a k)

forget-HasDistinctKeys :
    (d : Option RegId) (a : ConstantMap)
    → HasDistinctKeys a
    → HasDistinctKeys (forget_definition d a)
unfolding forget_definition
forget-HasDistinctKeys none a h = h
forget-HasDistinctKeys (some d) a h = erase-HasDistinctKeys d a h

record-HasDistinctKeys :
    (i : Instruction) (a : ConstantMap) → HasDistinctKeys a → HasDistinctKeys (record_constant i a)
unfolding record_constant
record-HasDistinctKeys (const_inst b d k) a h = insert-HasDistinctKeys d k a h
record-HasDistinctKeys _ a h = h

module _ (f : FloatOps) where
  folded-Extends :
      (i : Instruction) (a b : ConstantMap) (c : Constant)
      → Extends a b
      → folded_constant f i a ≡ some c
      → folded_constant f i b ≡ some c
  unfolding folded_constant
  folded-Extends (copy_inst x d o) a b c h e = resolve-Extends o a b c h e
  folded-Extends (unary_inst x d op o) a b c h e =
      with_constant-Extends _ (resolve_constant o b) _ _ c (λ y. resolve-Extends o a b y h)
        (λ y k. k) e
  folded-Extends (binary_inst x d op l r) a b c h e =
      with_constant-Extends _ (resolve_constant l b) _ _ c (λ y. resolve-Extends l a b y h)
        (λ y.
          with_constant-Extends _ (resolve_constant r b) _ _ c (λ z. resolve-Extends r a b z h)
            (λ z k. k))
        e
  folded-Extends (cast_inst x d k o t trap_on_failure) a b c h e =
      with_constant-Extends _ (resolve_constant o b) _ _ c (λ y. resolve-Extends o a b y h)
        (λ y k. k) e
  folded-Extends _ a b c h e = cc

  -- A constant that is only found with more knowledge is for a register of which nothing was known.
  found-Extends :
      (i : Instruction) (a b : ConstantMap) (c : Constant)
      → Extends a b
      → folded_constant f i b ≡ some c
      → ((d : RegId) → instruction_def_reg i ≡ some d → lookup d a ≡ none)
      → Extends (record_constant i a) (record_constant (const_like i c) b)
  unfolding folded_constant record_constant const_like
  found-Extends (copy_inst x d o) a b c h e fresh = added-Extends d c a b (fresh d refl) h
  found-Extends (unary_inst x d op o) a b c h e fresh = added-Extends d c a b (fresh d refl) h
  found-Extends (binary_inst x d op l r) a b c h e fresh = added-Extends d c a b (fresh d refl) h
  found-Extends (cast_inst x d k o t trap_on_failure) a b c h e fresh =
      added-Extends d c a b (fresh d refl) h
  found-Extends _ a b c h e fresh = cc

  fresh_after_forget :
      (o : Option RegId) (a : ConstantMap) (d : RegId)
      → o ≡ some d
      → lookup d (forget_definition o a) ≡ none
  unfolding forget_definition
  fresh_after_forget none a d e = cc
  fresh_after_forget (some r) a d e = let same : r ≡ d = cc in rw same (forgotten d a)

  transfer_constant-Extends :
      (i : Instruction) (a b : ConstantMap)
      → Extends a b
      → ((d : RegId) → instruction_def_reg i ≡ some d → lookup d a ≡ none)
      → Extends
          (transfer_constant f i (folded_constant f i a) a)
          (transfer_constant f i (folded_constant f i b) b)
  unfolding transfer_constant
  transfer_constant-Extends i a b h fresh = elim (Option-cases (folded_constant f i a)) [
    | inr (c, found) ↦
        rw found (rw (folded-Extends i a b c h found) (record-Extends (const_like i c) a b h))
    | inl missing ↦ elim (Option-cases (folded_constant f i b)) [
      | inr (c, found) ↦ rw missing (rw found (found-Extends i a b c h found fresh))
      | inl missing' ↦ rw missing (rw missing' (record-Extends i a b h))
    ]
  ]

  -- The constants at the end of a block grow with those at its start.
  pub transfer-Extends :
      (is : List Instruction) (a b : ConstantMap)
      → Extends a b
      → Extends (transfer_block_constants f is a) (transfer_block_constants f is b)
  unfolding transfer_block_constants
  transfer-Extends [] a b h = h
  transfer-Extends (i ∷ is) a b h =
      let d = instruction_def_reg i in
      transfer-Extends is _ _ (
        transfer_constant-Extends i (forget_definition d a) (forget_definition d b)
          (forget-Extends d a b h) (fresh_after_forget d a))

  transfer_constant-HasDistinctKeys :
      (i : Instruction) (o : Option Constant) (a : ConstantMap)
      → HasDistinctKeys a
      → HasDistinctKeys (transfer_constant f i o a)
  unfolding transfer_constant
  transfer_constant-HasDistinctKeys i none a h = record-HasDistinctKeys i a h
  transfer_constant-HasDistinctKeys i (some c) a h = record-HasDistinctKeys (const_like i c) a h

  pub transfer-HasDistinctKeys :
      (is : List Instruction) (a : ConstantMap)
      → HasDistinctKeys a
      → HasDistinctKeys (transfer_block_constants f is a)
  unfolding transfer_block_constants
  transfer-HasDistinctKeys [] a h = h
  transfer-HasDistinctKeys (i ∷ is) a h =
      transfer-HasDistinctKeys is _ (
        transfer_constant-HasDistinctKeys i _ _
          (forget-HasDistinctKeys (instruction_def_reg i) a h))
