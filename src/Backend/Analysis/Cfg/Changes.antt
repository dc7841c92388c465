-- ===== src/Backend/Analysis/Cfg/Changes.antt =====
-- Changes of the blocks that keep a callable well-formed.
use niflheim.Shared.{◌≡◌, refl, List, [], ◌∷◌, map, All}
use niflheim.Backend.Ir.Ids.{BlockId}
use niflheim.Backend.Ir.Model.{Block, CallableDecl}
use niflheim.Backend.Analysis.Cfg.Index.{block_ids, Owned}
use niflheim.Backend.Analysis.Cfg.WellFormed.{IsWellFormed, TargetsDeclared}

module _ (change : Block → Block) where
  pub All-map_blocks {ℓ} :
      (P : Block → Type ℓ) (bs : List Block)
      → ((b : Block) → P b → P (change b))
      → All P bs
      → All P (map change bs)
  All-map_blocks P [] keep h = tt
  All-map_blocks P (b ∷ bs) keep h = (keep b h.0, All-map_blocks P bs keep h.1)

  module _ (name : (b : Block) → (change b).block_id ≡ b.block_id) where
    block_ids-map : (bs : List Block) → block_ids (map change bs) ≡ block_ids bs
    block_ids-map [] = refl
    block_ids-map (b ∷ bs) = cc (name b, block_ids-map bs)

    -- It is enough that each block keeps its name and leads to declared blocks.
    pub map-IsWellFormed :
        (c : CallableDecl)
        → ((ids : List BlockId) (b : Block)
            → TargetsDeclared ids b.terminator
            → TargetsDeclared ids (change b).terminator)
        → IsWellFormed c
        → IsWellFormed (record c { blocks = map change c.blocks })
    map-IsWellFormed c leads fit =
        let ids = block_ids-map c.blocks in
        record {
          owned = All-map_blocks (Owned c.callable_id) c.blocks (λ b h. rw (name b) h) fit.owned;
          distinct = λ id. rw ids (fit.distinct id);
          entry = rw ids (fit.entry);
          targets = rw ids (
              All-map_blocks (λ b. TargetsDeclared (block_ids c.blocks) b.terminator) c.blocks
                (leads (block_ids c.blocks)) fit.targets);
        }
