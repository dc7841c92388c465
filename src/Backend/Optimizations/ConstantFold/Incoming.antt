-- ===== src/Backend/Optimizations/ConstantFold/Incoming.antt =====
-- compiler/backend/optimizations/constant_fold.py: `_incoming_constants_by_block`, the iteration over the
-- blocks, `_fold_callable` and the pass over a program. The loop runs on fuel, one round for each pair
-- of a block and a register that is defined, twice, and one more. It need not stop: a double that is no
-- number is not equal to itself, and then the result is `unfinished`, where the source runs on. Python
-- takes one object for equal to itself whatever it is, here it is values that are compared.
use niflheim.Shared.{
  ℕ, zero, suc, ◌+◌, ◌*◌, ◌++◌, String, Bool, true, false, ◌||◌, ◌&&◌, Option, none, some, List, [],
  ◌∷◌, map, ◌==◌, nat_eq, if◌then◌else◌, length,
}
use niflheim.Shared.Dict.{Dict, lookup, insert, keys}
use niflheim.Shared.Result.{Result, ok, err, ◌>>=◌}
use niflheim.Backend.Ir.Ids.{RegId, BlockId, block_id_eq, reg_id_eq}
use niflheim.Backend.Ir.Model.{Constant, Instruction, binary_inst, Block, CallableDecl, Program}
use niflheim.Backend.Semantics.Operands.{instruction_def_reg}
use niflheim.Backend.Optimizations.DeadPure.{TypeNames}
use niflheim.Backend.Optimizations.DeadPure.Callable.{register_type_names}
use niflheim.Backend.Analysis.Cfg.{
  CfgError, BlockIndex, CallableCfg, targets_of, index_callable_cfg,
}
use niflheim.Backend.Analysis.Liveness.Fixpoint.{is_empty}
use niflheim.Backend.Optimizations.ConstantFold.Arith.{FloatOps}
use niflheim.Backend.Optimizations.ConstantFold.Folding.{
  ConstantMap, resolve_constant, folded_constant,
}
use niflheim.Backend.Optimizations.ConstantFold.Pass.{
  fold_block, forget_definition, transfer_constant, transfer_block_constants,
}
use niflheim.Backend.Optimizations.ConstantFold.Merge.{is_constant, intersect_constant_maps}

abbrev pub ConstantTable : Type 0
ConstantTable = Dict BlockId ConstantMap

-- `in_by_block` and `out_by_block`
pub record ConstantState : Type 0 where
  pub in_by_block : ConstantTable
  pub out_by_block : ConstantTable

-- `table.get(id, {})`
unfoldable pub constants_at : ConstantTable → BlockId → ConstantMap
constants_at table id = elim (lookup id table) [ none ↦ [] | some constants ↦ constants ]

abbrev pub is_entry : BlockId → Option BlockId → Bool
is_entry id none = false
is_entry id (some entry) = id == entry

-- What stops the pass: an error of the control flow graph, the `KeyError` for a destination that the
-- callable does not declare, or no end of the loop within its fuel.
pub data FoldError : Type 0 where
  cfg_error : CfgError → FoldError
  undeclared_destination : RegId → FoldError
  unfinished : FoldError

abbrev pub lift : {A : Type 0} → Result CfgError A → Result FoldError A
lift r = elim r [ ok a ↦ ok a | err e ↦ err (cfg_error e) ]

-- `register_type_name_by_reg_id[instruction.dest]`
abbrev pub declared_type : RegId → Option String → Result FoldError (Unit {0})
declared_type d none = err (undeclared_destination d)
declared_type d (some name) = ok tt

-- Read where both operands are constants.
abbrev pub read_type :
    TypeNames → RegId → Option Constant → Option Constant → Result FoldError (Unit {0})
read_type types d (some x) (some y) = declared_type d (lookup d types)
read_type types d _ _ = ok tt

unfoldable pub destination_type :
    TypeNames → Instruction → ConstantMap → Result FoldError (Unit {0})
destination_type types (binary_inst b d op l r) constants =
    read_type types d (resolve_constant l constants) (resolve_constant r constants)
destination_type types _ constants = ok tt

abbrev pub nothing_known : CallableCfg → ConstantTable
nothing_known cfg = map (λ id. (id, [])) (keys cfg.block_by_id)

abbrev pub first_state : CallableCfg → ConstantState
first_state cfg = record { in_by_block = nothing_known cfg; out_by_block = nothing_known cfg }

unfoldable pub instructions_defs : List Instruction → List RegId
instructions_defs [] = []
instructions_defs (i ∷ is) = elim (instruction_def_reg i) [
  | none ↦ instructions_defs is
  | some d ↦ d ∷ instructions_defs is
]

unfoldable pub blocks_defs : BlockIndex → List RegId
blocks_defs [] = []
blocks_defs ((id, b) ∷ index) = instructions_defs b.instructions ++ blocks_defs index

-- Each round but the last adds a register to what is known at the start or at the end of a block.
abbrev pub round_limit : CallableCfg → ℕ
round_limit cfg =
    let defs = length (blocks_defs cfg.block_by_id) in
    (defs + defs) * length cfg.reverse_postorder_ids + 1

module _ (f : FloatOps) where
  unfoldable pub all_equal : ConstantMap → ConstantMap → Bool
  all_equal [] b = true
  all_equal ((r, c) ∷ a) b = is_constant f (lookup r b) c && all_equal a b

  -- `==` of two dictionaries.
  unfoldable pub same_constants : ConstantMap → ConstantMap → Bool
  same_constants a b = length a == length b && all_equal a b

  -- The new table, and whether that changes it.
  unfoldable pub set_constants : BlockId → ConstantMap → ConstantTable → ConstantTable × Bool
  set_constants id constants table =
      if same_constants (constants_at table id) constants
      then (table, false)
      else (insert id constants table, true)

  unfoldable pub incoming_constants : CallableCfg → ConstantTable → BlockId → ConstantMap
  incoming_constants cfg out id =
      if is_entry id cfg.callable_decl.entry_block_id
      then []
      else intersect_constant_maps f
          (map (constants_at out) (targets_of cfg.predecessor_by_block id))

  unfoldable pub update_block :
      CallableCfg → BlockId → Option Block → ConstantState → ConstantState × Bool
  update_block cfg id none s = (s, false)
  update_block cfg id (some b) s =
      let incoming = incoming_constants cfg s.out_by_block id in
      let outgoing = transfer_block_constants f b.instructions incoming in
      let (ins, in_changed) = set_constants id incoming s.in_by_block in
      let (outs, out_changed) = set_constants id outgoing s.out_by_block in
      (record { in_by_block = ins; out_by_block = outs }, in_changed || out_changed)

  unfoldable pub update_blocks : CallableCfg → List BlockId → ConstantState → ConstantState × Bool
  update_blocks cfg [] s = (s, false)
  update_blocks cfg (id ∷ ids) s =
      let (next, changed) = update_block cfg id (lookup id cfg.block_by_id) s in
      let (last, more) = update_blocks cfg ids next in (last, changed || more)

  -- The reads of types in a block, with the constants of `_transfer_block_constants` and `_fold_block`.
  unfoldable pub read_types :
      TypeNames → List Instruction → ConstantMap → Result FoldError (Unit {0})
  read_types types [] constants = ok tt
  read_types types (i ∷ is) constants =
      let known = forget_definition (instruction_def_reg i) constants in
      destination_type types i known >>= λ _.
      read_types types is (transfer_constant f i (folded_constant f i known) known)

  -- The reads of types in a visit of a block, and in a round.
  unfoldable pub read_block_types :
      TypeNames → CallableCfg → BlockId → Option Block → ConstantState → Result FoldError (Unit {0})
  read_block_types types cfg id none s = ok tt
  read_block_types types cfg id (some b) s =
      read_types types b.instructions (incoming_constants cfg s.out_by_block id)

  unfoldable pub read_round_types :
      TypeNames → CallableCfg → List BlockId → ConstantState → Result FoldError (Unit {0})
  read_round_types types cfg [] s = ok tt
  read_round_types types cfg (id ∷ ids) s =
      let o = lookup id cfg.block_by_id in
      read_block_types types cfg id o s >>= λ _.
      read_round_types types cfg ids (update_block cfg id o s).0

  -- The `while changed` loop, on fuel.
  unfoldable pub iterate :
      TypeNames → CallableCfg → ℕ → ConstantState → Result FoldError ConstantState
  iterate types cfg zero s = err unfinished
  iterate types cfg (suc rounds) s =
      let (next, changed) = update_blocks cfg cfg.reverse_postorder_ids s in
      read_round_types types cfg cfg.reverse_postorder_ids s >>= λ _. elim changed [
        | true ↦ iterate types cfg rounds next
        | false ↦ ok next
      ]

  unfoldable pub constants_of_cfg : TypeNames → CallableCfg → Result FoldError ConstantTable
  constants_of_cfg types cfg =
      iterate types cfg (round_limit cfg) (first_state cfg) >>= λ last. ok last.in_by_block

  unfoldable pub incoming_constants_by_block :
      TypeNames → CallableDecl → Result FoldError ConstantTable
  incoming_constants_by_block types c =
      lift (index_callable_cfg c) >>= λ cfg. constants_of_cfg types cfg

  unfoldable pub fold_blocks :
      TypeNames → ConstantTable → List Block → Result FoldError (List Block × Bool)
  fold_blocks types table [] = ok ([], false)
  fold_blocks types table (b ∷ bs) =
      let known = constants_at table b.block_id in
      let (b', changed) = fold_block f b known in
      read_types types b.instructions known >>= λ _.
      fold_blocks types table bs >>= λ (rest, more). ok (b' ∷ rest, changed || more)

  unfoldable pub fold_callable : CallableDecl → Result FoldError CallableDecl
  fold_callable c =
      let types = register_type_names c in
      if c.is_extern || is_empty c.blocks
      then ok c
      else (incoming_constants_by_block types c >>= λ table.
          fold_blocks types table c.blocks >>= λ (blocks, changed).
          ok (if changed then record c { blocks = blocks } else c))

  unfoldable pub fold_callables : List CallableDecl → Result FoldError (List CallableDecl)
  fold_callables [] = ok []
  fold_callables (c ∷ cs) = fold_callable c >>= λ c'. fold_callables cs >>= λ cs'. ok (c' ∷ cs')

  unfoldable pub constant_fold : Program → Result FoldError Program
  constant_fold program = fold_callables program.callables >>= λ callables.
      ok (record program { callables = callables })
