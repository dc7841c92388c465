-- ===== src/Backend/Optimizations/AlgebraicSimplify/Sound.antt =====
-- Simplified operations on Booleans do what the operations do.
use niflheim.Shared.{
  ◌≡◌, refl, sym, ap, Bool, true, false, not, ◌&&◌, ◌||◌, some, if◌then◌else◌, ◌⊎◌, inl, inr, arith,
}
use niflheim.Backend.Ir.Ids.{RegId}
use niflheim.Backend.Ir.Ops.{BinaryOpKind, BinaryOpFlavor, SemanticBinaryOp}
use niflheim.Backend.Ir.Model.{
  Constant, bool_const, Operand, InstructionBase, Instruction, const_inst, copy_inst, binary_inst,
}
use niflheim.Backend.Semantics.{constant, Registers, value, Machine, running, write, step}
use niflheim.Backend.Optimizations.ConstantFold.Arith.{FloatOps}
use niflheim.Backend.Optimizations.ConstantFold.Meaning.{EvalBinary}
use niflheim.Backend.Optimizations.ConstantFold.Known.{Computes}
use niflheim.Backend.Optimizations.AlgebraicSimplify.{
  bool_constant_value, is_bool, logical_not_like, simplify_bool_logical, compare_with,
  simplify_bool_comparison,
}
use niflheim.Backend.Optimizations.AlgebraicSimplify.Comparisons.{
  compare, compared_left, compared_right, negated_left, negated_right,
}
use niflheim.Backend.Optimizations.AlgebraicSimplify.Facts.{bool_constant_known}

pub or_cases : (a b : Bool) → (a || b) ≡ true → (a ≡ true) ⊎ (b ≡ true)
or_cases true b h = inl refl
or_cases false b h = inr h

module _ (f : FloatOps) {W : Type 0} (m : Machine W) where
  pub step-if :
      (test : Bool) (i j k : Instruction) (ρ : Registers) (w : W)
      → (test ≡ true → step m i ρ w ≡ step m k ρ w)
      → (test ≡ false → step m j ρ w ≡ step m k ρ w)
      → step m (if test then i else j) ρ w ≡ step m k ρ w
  step-if true i j k ρ w chosen other = chosen refl
  step-if false i j k ρ w chosen other = other refl

  -- An operation on constants writes the result that the language gives.
  pub step-binary :
      (b : InstructionBase) (d : RegId) (op : SemanticBinaryOp) (l r : Operand) (x y c : Constant)
      (ρ : Registers) (w : W)
      → Computes f m (binary_inst b d op l r)
      → value ρ l ≡ constant x
      → value ρ r ≡ constant y
      → EvalBinary f op x y c
      → step m (binary_inst b d op l r) ρ w ≡ running (write (some d) (constant c) ρ) w
  unfolding step
  step-binary b d op l r x y c ρ w computes left right eval =
      rw (left, right) (rw (computes x y c w eval))

  pub copy_same :
      (b : InstructionBase) (d : RegId) (o : Operand) (c : Constant) (k : Instruction)
      (ρ : Registers) (w : W)
      → value ρ o ≡ constant c
      → step m k ρ w ≡ running (write (some d) (constant c) ρ) w
      → step m (copy_inst b d o) ρ w ≡ step m k ρ w
  unfolding step
  copy_same b d o c k ρ w h e = rw h (sym e)

  pub const_same :
      (b : InstructionBase) (d : RegId) (c : Constant) (k : Instruction) (ρ : Registers) (w : W)
      → step m k ρ w ≡ running (write (some d) (constant c) ρ) w
      → step m (const_inst b d c) ρ w ≡ step m k ρ w
  unfolding step
  const_same b d c k ρ w e = sym e

  not_same :
      (b : InstructionBase) (d : RegId) (o : Operand) (x : Bool) (k : Instruction) (ρ : Registers)
      (w : W)
      → Computes f m (logical_not_like b d o)
      → value ρ o ≡ constant (bool_const x)
      → step m k ρ w ≡ running (write (some d) (constant (bool_const (not x))) ρ) w
      → step m (logical_not_like b d o) ρ w ≡ step m k ρ w
  unfolding step
  not_same b d o x k ρ w computes h e =
      rw h (rw (computes (bool_const x) (bool_const (not x)) w refl) (sym e))

module _ (f : FloatOps) {W : Type 0} (m : Machine W) (b : InstructionBase) (d : RegId)
    (l r : Operand) (ρ : Registers) (w : W) (x y : Bool)
    (left : value ρ l ≡ constant (bool_const x)) (right : value ρ r ≡ constant (bool_const y)) where
  known_left : (c : Bool) → is_bool (bool_constant_value l) c ≡ true → x ≡ c
  known_left c h = cc (bool_constant_known ρ l c h)

  known_right : (c : Bool) → is_bool (bool_constant_value r) c ≡ true → y ≡ c
  known_right c h = cc (bool_constant_known ρ r c h)

  abbrev logical : BinaryOpKind → SemanticBinaryOp
  logical k = record { kind = k; flavor = BinaryOpFlavor.bool_logical }

  and_sound :
      Computes f m (binary_inst b d (logical BinaryOpKind.logical_and) l r)
      → step m (simplify_bool_logical b d (logical BinaryOpKind.logical_and) l r) ρ w
        ≡ step m (binary_inst b d (logical BinaryOpKind.logical_and) l r) ρ w
  unfolding simplify_bool_logical
  and_sound computes =
      let op = logical BinaryOpKind.logical_and in
      let k = binary_inst b d op l r in
      let L = is_bool (bool_constant_value l) in
      let R = is_bool (bool_constant_value r) in
      let result : (z : Bool)
          → z ≡ (x && y)
          → step m k ρ w ≡ running (write (some d) (constant (bool_const z)) ρ) w =
        λ z e.
          step-binary f m b d op l r (bool_const x) (bool_const y) (bool_const z) ρ w computes left
            right (ap bool_const e) in
      step-if f m (L false || R false) _ _ k ρ w
        (λ h.
          const_same f m b d (bool_const false) k ρ w
            (result false (ground (arith, known_left false, known_right false))))
        (λ _.
          step-if f m (L true) _ _ k ρ w
            (λ h.
              copy_same f m b d r (bool_const y) k ρ w right
                (result y (ground (arith, known_left true h))))
            (λ _.
              step-if f m (R true) _ _ k ρ w
                (λ h.
                  copy_same f m b d l (bool_const x) k ρ w left
                    (result x (ground (arith, known_right true h))))
                (λ _. refl)))

  or_sound :
      Computes f m (binary_inst b d (logical BinaryOpKind.logical_or) l r)
      → step m (simplify_bool_logical b d (logical BinaryOpKind.logical_or) l r) ρ w
        ≡ step m (binary_inst b d (logical BinaryOpKind.logical_or) l r) ρ w
  unfolding simplify_bool_logical
  or_sound computes =
      let op = logical BinaryOpKind.logical_or in
      let k = binary_inst b d op l r in
      let L = is_bool (bool_constant_value l) in
      let R = is_bool (bool_constant_value r) in
      let result : (z : Bool)
          → z ≡ (x || y)
          → step m k ρ w ≡ running (write (some d) (constant (bool_const z)) ρ) w =
        λ z e.
          step-binary f m b d op l r (bool_const x) (bool_const y) (bool_const z) ρ w computes left
            right (ap bool_const e) in
      step-if f m (L true || R true) _ _ k ρ w
        (λ h.
          const_same f m b d (bool_const true) k ρ w
            (result true (ground (arith, known_left true, known_right true))))
        (λ _.
          step-if f m (L false) _ _ k ρ w
            (λ h.
              copy_same f m b d r (bool_const y) k ρ w right
                (result y (ground (arith, known_left false h))))
            (λ _.
              step-if f m (R false) _ _ k ρ w
                (λ h.
                  copy_same f m b d l (bool_const x) k ρ w left
                    (result x (ground (arith, known_right false h))))
                (λ _. refl)))

  pub bool_logical_sound :
      (k : BinaryOpKind)
      → Computes f m (binary_inst b d (logical k) l r)
      → step m (simplify_bool_logical b d (logical k) l r) ρ w
        ≡ step m (binary_inst b d (logical k) l r) ρ w
  unfolding simplify_bool_logical
  bool_logical_sound BinaryOpKind.logical_and computes = and_sound computes
  bool_logical_sound BinaryOpKind.logical_or computes = or_sound computes
  bool_logical_sound _ computes = refl

  abbrev comparison : BinaryOpKind → SemanticBinaryOp
  comparison k = record { kind = k; flavor = BinaryOpFlavor.bool_comparison }

  -- The comparison gives `same` on equal operands.
  compare_sound :
      (same : Bool) (op : SemanticBinaryOp)
      → ((z : Bool)
          → z ≡ compare same x y
          → step m (binary_inst b d op l r) ρ w
            ≡ running (write (some d) (constant (bool_const z)) ρ) w)
      → Computes f m (logical_not_like b d r)
      → Computes f m (logical_not_like b d l)
      → step m (compare_with b d same op l r) ρ w ≡ step m (binary_inst b d op l r) ρ w
  unfolding compare_with
  compare_sound same op result not_r not_l =
      let k = binary_inst b d op l r in
      let L = is_bool (bool_constant_value l) in
      let R = is_bool (bool_constant_value r) in
      step-if f m (L same) _ _ k ρ w
        (λ h.
          copy_same f m b d r (bool_const y) k ρ w right
            (result y (compared_left same x y (known_left same h))))
        (λ _.
          step-if f m (R same) _ _ k ρ w
            (λ h.
              copy_same f m b d l (bool_const x) k ρ w left
                (result x (compared_right same x y (known_right same h))))
            (λ _.
              step-if f m (L (not same)) _ _ k ρ w
                (λ h.
                  not_same f m b d r y k ρ w not_r right
                    (result (not y) (negated_left same x y (known_left (not same) h))))
                (λ _.
                  step-if f m (R (not same)) _ _ k ρ w
                    (λ h.
                      not_same f m b d l x k ρ w not_l left
                        (result (not x) (negated_right same x y (known_right (not same) h))))
                    (λ _. refl))))

  pub bool_comparison_sound :
      (k : BinaryOpKind)
      → Computes f m (binary_inst b d (comparison k) l r)
      → Computes f m (logical_not_like b d r)
      → Computes f m (logical_not_like b d l)
      → step m (simplify_bool_comparison b d (comparison k) l r) ρ w
        ≡ step m (binary_inst b d (comparison k) l r) ρ w
  unfolding simplify_bool_comparison
  bool_comparison_sound BinaryOpKind.equal computes not_r not_l =
      compare_sound true (comparison BinaryOpKind.equal)
        (λ z e.
          step-binary f m b d (comparison BinaryOpKind.equal) l r (bool_const x) (bool_const y)
            (bool_const z) ρ w computes left right (ap bool_const e))
        not_r not_l
  bool_comparison_sound BinaryOpKind.not_equal computes not_r not_l =
      compare_sound false (comparison BinaryOpKind.not_equal)
        (λ z e.
          step-binary f m b d (comparison BinaryOpKind.not_equal) l r (bool_const x) (bool_const y)
            (bool_const z) ρ w computes left right (ap bool_const e))
        not_r not_l
  bool_comparison_sound _ computes not_r not_l = refl
