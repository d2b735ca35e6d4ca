-- ===== src/Chain/Ancestors/Defs.antt =====
-- `getAncestorUnsafe` and `buildAncestorLookup` (internal/chain/chain.go).
use fairchain.Base.{
  ℕ, zero, suc, Bool, true, false, List, [], ◌∷◌, Option, none, some, ◌==◌, if◌then◌else◌,
}
use fairchain.Base.Bytes.{bytes_eq}
use fairchain.Types.Hash.{Hash, is_zero}
use fairchain.Types.Block.{BlockHeader}
use fairchain.Store.Interface.{BlockStore}
use fairchain.Chain.State.{HeightMap, hash_at}

-- `mainHash, ok := c.hashByHeight[h]; ok && mainHash == current`
abbrev pub on_main : HeightMap → ℕ → Hash → Bool
on_main m h current = elim (hash_at h m) [
  | none ↦ false
  | some main_hash ↦ bytes_eq main_hash current
]

abbrev pub Ancestors : Type 0
Ancestors = List (ℕ × BlockHeader)

unfoldable pub header_at : ℕ → Ancestors → Option BlockHeader
header_at height [] = none
header_at height (pair ∷ rest) = if pair.0 == height then some pair.1 else header_at height rest

module _ {S : Type 0} (db : BlockStore S) (s : S) (m : HeightMap) where
  unfoldable pub get_ancestor_unsafe : ℕ → Option BlockHeader
  get_ancestor_unsafe height = elim (hash_at height m) [
    | none ↦ none
    | some hash ↦ db.get_header s hash
  ]

  -- The loop, at `h` and below.
  unfoldable pub collect_ancestors : ℕ → Hash → Ancestors
  collect_ancestors zero current = elim (on_main m zero current) [
    | true ↦ []
    | false ↦ elim (db.get_header s current) [ none ↦ [] | some header ↦ (zero, header) ∷ [] ]
  ]
  collect_ancestors (suc h) current = elim (on_main m (suc h) current) [
    | true ↦ []
    | false ↦ elim (db.get_header s current) [
      | none ↦ []
      | some header ↦ (suc h, header) ∷ elim (is_zero header.prev_block) [
        | true ↦ []
        | false ↦ collect_ancestors h header.prev_block
      ]
    ]
  ]

  unfoldable pub lookup_ancestor : Ancestors → ℕ → Option BlockHeader
  lookup_ancestor ancestors height = elim (header_at height ancestors) [
    | some header ↦ some header
    | none ↦ get_ancestor_unsafe height
  ]

  abbrev pub build_ancestor_lookup : Hash → ℕ → ℕ → Option BlockHeader
  build_ancestor_lookup parent_hash parent_height =
      lookup_ancestor (collect_ancestors parent_height parent_hash)
