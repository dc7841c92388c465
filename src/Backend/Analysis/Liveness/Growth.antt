-- ===== src/Backend/Analysis/Liveness/Growth.antt =====
-- One round of the iteration makes no set smaller, and the sets stay within the registers that the
-- blocks use.
use niflheim.Shared.{
  ◌≡◌, true, Option, none, some, List, [], ◌∷◌, ◌++◌, arith, ◌==◌, elem, if◌then◌else◌, Bool-cases,
  inl, inr, elem-same,
}
use niflheim.Shared.Dict.{lookup, insert, lookup-insert}
use niflheim.Shared.Count.{elem-append}
use niflheim.Backend.Ir.Ids.{RegId, reg_id_eq, BlockId, block_id_eq, block_id_beq_iff}
use niflheim.Backend.Ir.Model.{Instruction, Terminator, Block}
use niflheim.Backend.Semantics.Operands.{instruction_def_reg}
use niflheim.Backend.Analysis.RegSet.{RegSet, update, elem-update, elem-discard}
use niflheim.Backend.Analysis.Cfg.{BlockIndex}
use niflheim.Backend.Analysis.Liveness.{
  instruction_use_regs, terminator_use_regs, remove_definition, transfer_instruction_live_set,
  transfer_terminator_live_set, instructions_live_in, block_live_in,
}
use niflheim.Backend.Analysis.Liveness.Sound.{Within, transfer_instruction-Within}
use niflheim.Backend.Analysis.Liveness.Fixpoint.{
  LiveSets, live_at, subset, same_set, live_out_of, set_live, instructions_uses, blocks_uses,
}

pub subset-eq_true : (s t : RegSet) → subset s t ≡ true → Within s t
unfolding subset elem
subset-eq_true [] t h r l = cc
subset-eq_true (x ∷ s) t h r l =
    ground (arith, elem-same r x t, subset-eq_true s t (ground arith) r)

pub same_set-eq_true : (s t : RegSet) → same_set s t ≡ true → (r : RegId) → elem r s ≡ elem r t
unfolding same_set
same_set-eq_true s t h r =
    let left = subset-eq_true s t (ground arith) r in
    let right = subset-eq_true t s (ground arith) r in ground arith

pub live_at-insert :
    (id k : BlockId) (s : RegSet) (live : LiveSets)
    → live_at (insert k s live) id ≡ (if id == k then s else live_at live id)
unfolding live_at
live_at-insert id k s live = ground (arith, lookup-insert id k s live)

-- Whichever way the test goes, the set has the new elements, and the other sets are untouched.
pub elem-set_live :
    (id k : BlockId) (next : RegSet) (live : LiveSets) (r : RegId)
    → elem r (live_at (set_live k next live).0 id)
      ≡ (if id == k then elem r next else elem r (live_at live id))
unfolding set_live
elem-set_live id k next live r = elim (Bool-cases (same_set (live_at live k) next)) [
  | inl same ↦
      rw (same, set_live)
        (ground (arith, same_set-eq_true (live_at live k) next same r, block_id_beq_iff id k))
  | inr other ↦ rw (other, set_live) (ground (arith, live_at-insert id k next live))
]

-- Each of the sets on the left lies within the one on the right.
abbrev pub Below : LiveSets → LiveSets → Type 0
Below live live' = (id : BlockId) → Within (live_at live id) (live_at live' id)

pub live_out_of-Within :
    (live live' : LiveSets) (ts : List BlockId)
    → Below live live'
    → Within (live_out_of live ts) (live_out_of live' ts)
unfolding live_out_of
live_out_of-Within live live' [] h r l = l
live_out_of-Within live live' (t ∷ ts) h r l = ground (
  arith,
  elem-update r (live_out_of live ts) (live_at live t),
  elem-update r (live_out_of live' ts) (live_at live' t),
  h t r,
  live_out_of-Within live live' ts h r,
)

instructions_live_in-Within :
    (is : List Instruction) (s t : RegSet)
    → Within s t
    → Within (instructions_live_in is s) (instructions_live_in is t)
unfolding instructions_live_in
instructions_live_in-Within [] s t h = h
instructions_live_in-Within (i ∷ is) s t h =
    transfer_instruction-Within i (instructions_live_in is s) (instructions_live_in is t)
      (instructions_live_in-Within is s t h)

pub block_live_in-Within :
    (is : List Instruction) (t : Terminator) (s s' : RegSet)
    → Within s s'
    → Within (block_live_in is t s) (block_live_in is t s')
unfolding block_live_in transfer_terminator_live_set
block_live_in-Within is t s s' h =
    instructions_live_in-Within is (update s (terminator_use_regs t))
      (update s' (terminator_use_regs t))
      (λ r l. ground (
        arith,
        elem-update r s (terminator_use_regs t),
        elem-update r s' (terminator_use_regs t),
        h r,
      ))

remove_definition-smaller : (d : Option RegId) (s : RegSet) → Within (remove_definition d s) s
unfolding remove_definition
remove_definition-smaller none s r l = l
remove_definition-smaller (some d) s r l = ground (arith, elem-discard r d s)

instructions_live_in-uses :
    (is : List Instruction) (live all : RegSet)
    → Within live all
    → Within (instructions_uses is) all
    → Within (instructions_live_in is live) all
unfolding instructions_live_in instructions_uses transfer_instruction_live_set
instructions_live_in-uses [] live all l u r h = l r h
instructions_live_in-uses (i ∷ is) live all l u r h =
    let behind = instructions_live_in is live in
    let rest = instructions_live_in-uses is live all l (λ x k.
      u x (ground (arith, elem-append x (instruction_use_regs i) (instructions_uses is)))) in
    ground (
      arith,
      elem-update r (remove_definition (instruction_def_reg i) behind) (instruction_use_regs i),
      remove_definition-smaller (instruction_def_reg i) behind r,
      rest r,
      u r,
      elem-append r (instruction_use_regs i) (instructions_uses is),
    )

block_uses-Within :
    (id : BlockId) (index : BlockIndex) (b : Block)
    → lookup id index ≡ some b
    → Within
        (terminator_use_regs b.terminator ++ instructions_uses b.instructions)
        (blocks_uses index)
unfolding lookup blocks_uses
block_uses-Within id [] b h r l = cc
block_uses-Within id ((k, x) ∷ index) b h r l =
    let here = terminator_use_regs x.terminator ++ instructions_uses x.instructions in
    elim (Bool-cases (id == k)) [
      | inl same ↦
          let e : x ≡ b = cc in
          let l' : elem r here ≡ true = rw e l in
          ground (arith, elem-append r here (blocks_uses index))
      | inr other ↦
          let rest = block_uses-Within id index b (rw other at h) r l in
          ground (arith, elem-append r here (blocks_uses index))
    ]

-- The live set in front of a block holds live-out registers and registers that the blocks use.
pub block_live_in-uses :
    (id : BlockId) (index : BlockIndex) (b : Block) (live : RegSet)
    → lookup id index ≡ some b
    → Within live (blocks_uses index)
    → Within (block_live_in b.instructions b.terminator live) (blocks_uses index)
unfolding block_live_in transfer_terminator_live_set
block_live_in-uses id index b live found l =
    let uses = terminator_use_regs b.terminator in
    let here = block_uses-Within id index b found in
    instructions_live_in-uses b.instructions (update live uses) (blocks_uses index)
      (λ r h. ground (
        arith,
        elem-update r live uses,
        l r,
        here r,
        elem-append r uses (instructions_uses b.instructions),
      ))
      (λ r h. here r (ground (arith, elem-append r uses (instructions_uses b.instructions))))

pub live_out_of-uses :
    (live : LiveSets) (all : RegSet) (ts : List BlockId)
    → ((id : BlockId) → Within (live_at live id) all)
    → Within (live_out_of live ts) all
unfolding live_out_of elem
live_out_of-uses live all [] h r l = cc
live_out_of-uses live all (t ∷ ts) h r l = ground (
  arith,
  elem-update r (live_out_of live ts) (live_at live t),
  h t r,
  live_out_of-uses live all ts h r,
)
