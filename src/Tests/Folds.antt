-- ===== src/Tests/Folds.antt =====
-- The theorems on constant_fold.py over a callable at a callable of four blocks.
use niflheim.Shared.{◌≡◌, refl, true, All}
use niflheim.Shared.Result.{ok}
use niflheim.Backend.Ir.Ids.{RegId, reg_id_eq}
use niflheim.Backend.Ir.Model.{const_inst, unit_const, bool_const, Constant, CallableDecl}
use niflheim.Backend.Semantics.Callables.{run_from}
use niflheim.Backend.Analysis.Cfg.WellFormed.{IsWellFormed}
use niflheim.Backend.Optimizations.ConstantFold.Known.{Computes}
use niflheim.Backend.Optimizations.ConstantFold.Invariant.{KeepsKnown, insert-AllKnown}
use niflheim.Backend.Optimizations.ConstantFold.Declared.{IsDeclared}
use niflheim.Backend.Optimizations.ConstantFold.Joins.{IsNumber}
use niflheim.Backend.Optimizations.ConstantFold.Merge.{IsNonZero}
use niflheim.Backend.Optimizations.DeadPure.Callable.{register_type_names}
use niflheim.Backend.Optimizations.ConstantFold.Incoming.{fold_callable}
use niflheim.Backend.Optimizations.ConstantFold.Kept.{fold_callable-IsWellFormed}
use niflheim.Backend.Optimizations.ConstantFold.Runs.{run_from-fold_callable}
use niflheim.Tests.Blocks.{at, reg, number, label, units, bit_floats}
use niflheim.Tests.Machines.{adding}
use niflheim.Tests.Merge.{bits_same}
use niflheim.Tests.Cfg.{setting, dead_copy, branching_callable, branching-IsWellFormed}

-- What the constants of the callable have in common.
abbrev Plain : RegId → Constant → Type 0
Plain r k = IsNonZero bit_floats k × IsNumber bit_floats k

setting-KeepsKnown : KeepsKnown bit_floats Plain setting
unfolding niflheim.Backend.Optimizations.ConstantFold.Pass.transfer_constant
    niflheim.Backend.Optimizations.ConstantFold.Pass.record_constant
    niflheim.Backend.Optimizations.ConstantFold.Folding.folded_constant
    niflheim.Backend.Optimizations.ConstantFold.Merge.constants_equal
setting-KeepsKnown known h =
    insert-AllKnown bit_floats Plain (reg 0) (bool_const true) known (tt, refl) h

dead_copy-KeepsKnown : KeepsKnown bit_floats Plain dead_copy
unfolding niflheim.Backend.Optimizations.ConstantFold.Pass.transfer_constant
    niflheim.Backend.Optimizations.ConstantFold.Pass.record_constant
    niflheim.Backend.Optimizations.ConstantFold.Pass.const_like
    niflheim.Backend.Optimizations.ConstantFold.Folding.folded_constant
    niflheim.Backend.Optimizations.ConstantFold.Folding.resolve_constant
    niflheim.Backend.Optimizations.ConstantFold.Merge.constants_equal
dead_copy-KeepsKnown known h =
    insert-AllKnown bit_floats Plain (reg 3) unit_const known (tt, refl) h

five-KeepsKnown : KeepsKnown bit_floats Plain (const_inst (at 2) (reg 1) (number 5))
unfolding niflheim.Backend.Optimizations.ConstantFold.Pass.transfer_constant
    niflheim.Backend.Optimizations.ConstantFold.Pass.record_constant
    niflheim.Backend.Optimizations.ConstantFold.Folding.folded_constant
    niflheim.Backend.Optimizations.ConstantFold.Merge.constants_equal
five-KeepsKnown known h = insert-AllKnown bit_floats Plain (reg 1) (number 5) known (tt, refl) h

branching-KeepsKnown :
    All (λ b. All (KeepsKnown bit_floats Plain) b.instructions) branching_callable.blocks
branching-KeepsKnown =
    (tt, ((setting-KeepsKnown, (dead_copy-KeepsKnown, tt)), ((five-KeepsKnown, tt), (tt, tt))))

branching-IsDeclared :
    All
      (λ b. All (IsDeclared (register_type_names branching_callable)) b.instructions)
      branching_callable.blocks
branching-IsDeclared = (tt, ((tt, (tt, tt)), ((tt, tt), (tt, tt))))

branching-Computes :
    All (λ b. All (Computes bit_floats adding) b.instructions) branching_callable.blocks
branching-Computes = (tt, ((tt, (tt, tt)), ((tt, tt), (tt, tt))))

folded_branching :
    (c' : CallableDecl) × (fold_callable bit_floats branching_callable ≡ ok c') × IsWellFormed c'
folded_branching =
    fold_callable-IsWellFormed bit_floats Plain branching_callable refl branching-IsWellFormed
      (λ r k h. h.1) branching-KeepsKnown branching-IsDeclared

run_from-fold_callable_example :
    run_from adding folded_branching.0.blocks 5 (label 0) units 0
    ≡ run_from adding branching_callable.blocks 5 (label 0) units 0
run_from-fold_callable_example =
    run_from-fold_callable bit_floats adding Plain branching_callable folded_branching.0 (label 0) 5
      units 0 bits_same (λ r k h. h.0) branching-Computes branching-KeepsKnown refl
      folded_branching.1
