-- ===== src/Lib.antt =====
-- The compiler of the niflheim language, in Python: compiler/frontend reads the source, compiler/typecheck
-- and compiler/semantic check and lower it, compiler/backend/lowering turns it into the backend IR,
-- compiler/backend/optimizations improves the IR, compiler/backend/analysis plans registers and root
-- slots, and compiler/backend/targets emits assembly. This library models the middle of the backend:
-- the IR, the analyses on it and the optimization passes, which have to keep the meaning of programs.
--
-- Which file models which code:
--   Symbols                    compiler/semantic/symbols.py (identifiers), compiler/common/span.py
--   Backend/Ir                 compiler/backend/ir/model.py, and the operators and types it carries from
--                              compiler/semantic/operations.py and compiler/semantic/types.py
--   Backend/Analysis/RegSet    sets of registers, and _sorted_reg_tuple of liveness.py
--   Backend/Analysis/Cfg       compiler/backend/analysis/cfg.py: the block index, successors, predecessors,
--                              reachable blocks, reverse postorder. Index and WellFormed are about what
--                              is accepted, Whole about the index as a whole, Changes about passes
--   Backend/Analysis/Liveness  compiler/backend/analysis/liveness.py: uses and transfer. Fixpoint holds the
--                              iteration over the blocks and the tables of its result, Runs what the
--                              result means for a pass
--   Backend/Analysis/RootSlots compiler/backend/analysis/root_slots.py:
--                              build_root_slot_plan_from_live_reg_sets and its helpers
--   Backend/Analysis/Safepoints  compiler/backend/analysis/safepoints.py, and analyze_callable_root_slots
--                              of root_slots.py; Spec says what has to get a slot, without the
--                              tests and sets of the code
--   Backend/Optimizations/TrivialCopy   trivial_copy_elimination.py: _rewrite_block and its helpers, and
--                              in DeadCopies the rest of the pass
--   Backend/Optimizations/DeadPure      dead_pure_definition_elimination.py: the loop over a block,
--                              instruction_is_dead_eliminable, _remove_unreferenced_registers, and in
--                              Callable the loop over rounds
--   Backend/Optimizations/ConstantFold  constant_fold.py: Arith and Folding hold the arithmetic and
--                              _try_fold_instruction, Pass holds _fold_block and
--                              _transfer_block_constants, Merge _intersect_constant_maps, Incoming
--                              the iteration over the blocks and the pass; Rising and Ends show
--                              that the iteration ends
--   Backend/Optimizations/SimplifyCfg   simplify_cfg.py: fold_constant_branches,
--                              fold_same_target_branches, simplify_trivial_jump_blocks,
--                              eliminate_unreachable_blocks
--   Backend/Optimizations/AlgebraicSimplify   algebraic_simplify.py: _simplify_block and its helpers,
--                              and in Callable the pass
--   Backend/Ir/Tokens          compiler/semantic/operations.py: operators from their tokens
--   Shared/Result              the exceptions that cfg.py raises, as values: each kind is a constructor of
--                              CfgError with the identifiers of its message
--   Shared/Sorting             sorted(…, key=…), which is stable
-- A function keeps its name without the leading underscore; a step of a loop that has no name in the
-- source is named for what it does. Dictionaries and sets are lists (Shared/Dict, Backend/Analysis/RegSet)
-- with Python's order of insertion where an order is read. Records of counters (_…Stats) only feed the
-- log and are left out.
--
-- Backend/Semantics is no model of code: it is the specification that the passes are measured against.
-- An instruction reads the values of its operands and the world, and then traps or writes its
-- destination. Copies and constants mean what they say; what the other instructions do is a parameter,
-- the machine, and a theorem that needs more of the machine says so in its hypotheses. A Python float
-- is its 64-bit pattern, and operations on floats are a parameter (FloatOps).
--
-- Numbers: integers are unbounded as Python's are, and wrapping to a width is written out as the code
-- does it. Loops are structural recursion on the list that the code iterates over, where there is one.
-- The others run on fuel. The two loops of simplify_cfg.py that follow jumps have one round for each
-- entry of the dictionary and one for the last look up. The loop over the stack of blocks has one for
-- the entry and one for each edge, and the recursion of the reverse postorder is as deep as there are
-- entries in the map. The iteration of liveness has two rounds for each pair of a block and a register
-- that is read, and one more: each round but the last adds a register to a live-in or live-out set.
-- The loop of dead definition elimination has one for each instruction and one more: each but the last
-- removes one.
-- The iteration of constant folding has two rounds for each pair of a block and a register that is
-- defined, and one more: each round but the last adds a register to what is known at the start or at
-- the end of a block. Where a constant is a double that is no number, no number of rounds is enough;
-- the source runs on, and the result is the error `unfinished`.
-- A run of a callable (Backend/Semantics/Callables) is bounded by a number of blocks, and its theorems
-- hold for every bound. The identifiers of a callable's instructions have to be different where a
-- pass looks up a table by them; ir/verify.py rejects other programs.
--
-- A look up that raises KeyError in the source where its key is missing, and whose key is never
-- missing, has the empty list as its result (targets_of, live_at).
--
-- Not modelled: the frontend, the type checker, semantic lowering and optimizations, backend lowering
-- and code generation, the serialization and the verifier of the IR, and the C runtime, which are
-- large parts of their own. In the backend, the fixed point of simplify_callable_cfg is left out, and
-- the homes of registers on the stack (stack_homes.py), the order of blocks, the pipelines of analyses
-- and of passes, and what is written to the log.
mod Shared
pub mod Symbols
pub mod Backend
pub mod Tests
