-- ===== src/Backend/Optimizations/AlgebraicSimplify/Comparisons.antt =====
-- Comparing a Boolean with a constant gives the Boolean or its negation.
use niflheim.Shared.{◌≡◌, refl, Bool, true, false, not, if◌then◌else◌}
use niflheim.Backend.Optimizations.ConstantFold.Meaning.{bool_eq}

-- Whether the Booleans are equal, or different if `same` is false.
abbrev pub compare : Bool → Bool → Bool → Bool
compare same x y = if same then bool_eq x y else not (bool_eq x y)

pub compared_left : (same x y : Bool) → x ≡ same → y ≡ compare same x y
compared_left true true true h = refl
compared_left true true false h = refl
compared_left true false true h = cc
compared_left true false false h = cc
compared_left false true true h = cc
compared_left false true false h = cc
compared_left false false true h = refl
compared_left false false false h = refl

pub compared_right : (same x y : Bool) → y ≡ same → x ≡ compare same x y
compared_right true true true h = refl
compared_right true true false h = cc
compared_right true false true h = refl
compared_right true false false h = cc
compared_right false true true h = cc
compared_right false true false h = refl
compared_right false false true h = cc
compared_right false false false h = refl

pub negated_left : (same x y : Bool) → x ≡ not same → not y ≡ compare same x y
negated_left true true true h = cc
negated_left true true false h = cc
negated_left true false true h = refl
negated_left true false false h = refl
negated_left false true true h = refl
negated_left false true false h = refl
negated_left false false true h = cc
negated_left false false false h = cc

pub negated_right : (same x y : Bool) → y ≡ not same → not x ≡ compare same x y
negated_right true true true h = cc
negated_right true true false h = refl
negated_right true false true h = cc
negated_right true false false h = refl
negated_right false true true h = refl
negated_right false true false h = cc
negated_right false false true h = refl
negated_right false false false h = cc
