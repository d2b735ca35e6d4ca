-- ===== src/Consensus/Engine.antt =====
-- `Engine` (internal/consensus/engine.go), the interface that internal/chain calls, and the
-- proof-of-work engine behind it.
use fairchain.Base.{ℕ, List, [], ◌∷◌, Option, Bool, Outcome, panic, err, ok}
use fairchain.Types.Hash.{Hash}
use fairchain.Types.Block.{BlockHeader, Block}
use fairchain.Crypto.Digest.{Sha256}
use fairchain.Params.{ChainParams}
use fairchain.Consensus.Structure.{StructureError, validate_block_structure}
use fairchain.Consensus.Pow.{PowError, validate_header, calc_next_bits, prepare_header, seal_header}

-- `E` is the error an engine reports.
pub record Engine (E : Type 0) : Type 0 where
  pub validate_header :
      BlockHeader → BlockHeader → ℕ → (ℕ → Option BlockHeader) → ChainParams → Outcome E (Unit {0})
  pub validate_block : Block → ℕ → ChainParams → Outcome E (Unit {0})
  pub calc_next_bits : BlockHeader → ℕ → (ℕ → Option BlockHeader) → ChainParams → Outcome E ℕ
  pub prepare_header :
      BlockHeader → BlockHeader → ℕ → (ℕ → Option BlockHeader) → ChainParams → Outcome E BlockHeader
  pub seal_header : BlockHeader → Hash → ℕ → BlockHeader × Bool
  pub name : List ℕ

pub data PowEngineError : Type 0 where
  pow_failed : PowError → PowEngineError
  structure_failed : StructureError → PowEngineError

module _ {ℓ} {E F : Type 0} {A : Type ℓ} where
  abbrev map_error : (E → F) → Outcome E A → Outcome F A
  map_error f panic = panic
  map_error f (err e) = err (f e)
  map_error f (ok v) = ok v

-- "pow"
abbrev pub pow_name : List ℕ
pow_name = 112 ∷ (111 ∷ (119 ∷ []))

unfoldable pub pow_engine : Sha256 → Engine PowEngineError
pow_engine sha = record {
  validate_header = λ header parent height get_ancestor p.
      map_error pow_failed (validate_header sha header parent height get_ancestor p);
  validate_block =
      λ block height p. map_error structure_failed (validate_block_structure sha block height p);
  calc_next_bits = λ tip tip_height get_ancestor p.
      map_error pow_failed (calc_next_bits tip tip_height get_ancestor p);
  prepare_header = λ header parent parent_height get_ancestor p.
      map_error pow_failed (prepare_header header parent parent_height get_ancestor p);
  seal_header = λ header target max_iterations. seal_header sha max_iterations header target;
  name = pow_name;
}
