-- ===== src/Chain/Ancestors/Walk.antt =====
-- The lookup of `buildAncestorLookup` gives a block's own ancestors, on a side chain too.
use fairchain.Base.{
  ℕ, zero, suc, ◌-◌, ◌≤◌, ◌<◌, ◌≡◌, refl, ap, ◌∙◌, true, false, [], ◌∷◌, Option, none, some, ◌==◌,
  arith, Bool-cases, Option-cases, inl, inr,
}
use fairchain.Base.Bytes.{bytes_eq, bytes_eq_iff}
use fairchain.Types.Hash.{Hash, is_zero}
use fairchain.Types.Block.{BlockHeader}
use fairchain.Store.Interface.{BlockStore}
use fairchain.Chain.State.{HeightMap, hash_at}
use fairchain.Chain.Ancestors.Defs.{
  Ancestors, on_main, header_at, get_ancestor_unsafe, collect_ancestors, lookup_ancestor,
  build_ancestor_lookup,
}

module _ {S : Type 0} (db : BlockStore S) (s : S) where
  -- The header `n` parents above a block, by the links of the stored headers alone.
  unfoldable pub header_back : ℕ → Hash → Option BlockHeader
  header_back zero hash = db.get_header s hash
  header_back (suc n) hash = elim (db.get_header s hash) [
    | none ↦ none
    | some header ↦ elim (is_zero header.prev_block) [
      | true ↦ none
      | false ↦ header_back n header.prev_block
    ]
  ]

  -- The block that the index has above a height links to the block that it has at that height.
  abbrev pub Linked : HeightMap → Type 0
  Linked m =
      (h : ℕ) (hash : Hash) (header : BlockHeader)
      → hash_at (suc h) m ≡ some hash
      → db.get_header s hash ≡ some header
      → hash_at h m ≡ some header.prev_block

  header_back-link :
      (n : ℕ) (hash : Hash) {header : BlockHeader}
      → header_back (suc n) hash ≡ some header
      → (above : BlockHeader) × (db.get_header s hash ≡ some above)
        × (is_zero above.prev_block ≡ false)
        × (header_back n above.prev_block ≡ some header)
  unfolding header_back
  header_back-link n hash h = elim (Option-cases (db.get_header s hash)) [
    | inl missing ↦ absurd (cc (rw (missing, header_back) at h))
    | inr (above, stored) ↦ elim (Bool-cases (is_zero above.prev_block)) [
      | inl last ↦ absurd (cc (rw (stored, last, header_back) at h))
      | inr more ↦ (above, stored, more, rw (stored, more, header_back) at h)
    ]
  ]

  module _ (m : HeightMap) (linked : Linked m) where
    get_ancestor_unsafe-main :
        (n height : ℕ) (hash : Hash) {header : BlockHeader}
        → n ≤ height
        → hash_at height m ≡ some hash
        → header_back n hash ≡ some header
        → get_ancestor_unsafe db s m (height - n) ≡ some header
    unfolding header_back get_ancestor_unsafe
    get_ancestor_unsafe-main zero height hash le there h =
        let same : height - 0 ≡ height = omega arith in rw (same, there, get_ancestor_unsafe) h
    get_ancestor_unsafe-main (suc n) zero hash le there h = absurd (omega arith)
    get_ancestor_unsafe-main (suc n) (suc height) hash le there h =
        let (above, stored, _, rest) = header_back-link n hash h in
        let lower : suc height - suc n ≡ height - n = omega arith in
        rw lower (
          get_ancestor_unsafe-main n height above.prev_block (omega arith)
            (linked height hash above there stored) rest)

    collect_ancestors-on_main :
        (h : ℕ) (current : Hash)
        → on_main m h current ≡ true
        → collect_ancestors db s m h current ≡ []
    unfolding collect_ancestors
    collect_ancestors-on_main zero current on = rw (on, collect_ancestors) refl
    collect_ancestors-on_main (suc h) current on = rw (on, collect_ancestors) refl

    collect_ancestors-first :
        (h : ℕ) (current : Hash) (above : BlockHeader)
        → on_main m h current ≡ false
        → db.get_header s current ≡ some above
        → (rest : Ancestors) × (collect_ancestors db s m h current ≡ ((h, above) ∷ rest))
    unfolding collect_ancestors
    collect_ancestors-first zero current above off stored =
        ([], rw (off, stored, collect_ancestors) refl)
    collect_ancestors-first (suc h) current above off stored = (
      elim (is_zero above.prev_block) [
        | true ↦ []
        | false ↦ collect_ancestors db s m h above.prev_block
      ],
      rw (off, stored, collect_ancestors) refl,
    )

    -- One round of the loop that goes on.
    collect_ancestors-round :
        (h : ℕ) (current : Hash) (above : BlockHeader)
        → on_main m (suc h) current ≡ false
        → db.get_header s current ≡ some above
        → is_zero above.prev_block ≡ false
        → collect_ancestors db s m (suc h) current
          ≡ ((suc h, above) ∷ collect_ancestors db s m h above.prev_block)
    unfolding collect_ancestors
    collect_ancestors-round h current above off stored more =
        rw (off, stored, more, collect_ancestors) refl

    on_main-hash_at :
        (h : ℕ) (current : Hash) → on_main m h current ≡ true → hash_at h m ≡ some current
    on_main-hash_at h current on = elim (Option-cases (hash_at h m)) [
      | inl missing ↦ absurd (cc (rw (missing, on_main) at on))
      | inr (main_hash, there) ↦
          let same : bytes_eq main_hash current ≡ true = rw (there, on_main) at on in
          there ∙ ap (λ (x : Hash). some x) ((bytes_eq_iff main_hash current).0 same)
    ]

    lookup_ancestor-first :
        (h : ℕ) (above : BlockHeader) (rest : Ancestors)
        → lookup_ancestor db s m ((h, above) ∷ rest) h ≡ some above
    unfolding lookup_ancestor header_at
    lookup_ancestor-first h above rest =
        let same : (h == h) ≡ true = ground arith in rw (same, lookup_ancestor, header_at) refl

    lookup_ancestor-later :
        (h k : ℕ) (above : BlockHeader) (rest : Ancestors)
        → k < h
        → lookup_ancestor db s m ((h, above) ∷ rest) k ≡ lookup_ancestor db s m rest k
    unfolding lookup_ancestor header_at
    lookup_ancestor-later h k above rest lt =
        let other : (h == k) ≡ false = ground arith in rw (other, lookup_ancestor, header_at) refl

    lookup_ancestor-on_main :
        (n h : ℕ) (current : Hash) {header : BlockHeader}
        → n ≤ h
        → header_back n current ≡ some header
        → on_main m h current ≡ true
        → lookup_ancestor db s m (collect_ancestors db s m h current) (h - n) ≡ some header
    unfolding lookup_ancestor header_at
    lookup_ancestor-on_main n h current le back on =
        rw (collect_ancestors-on_main h current on)
          (get_ancestor_unsafe-main n h current le (on_main-hash_at h current on) back)

    lookup_ancestor-collect :
        (n h : ℕ) (current : Hash) {header : BlockHeader}
        → n ≤ h
        → header_back n current ≡ some header
        → lookup_ancestor db s m (collect_ancestors db s m h current) (h - n) ≡ some header
    unfolding header_back
    lookup_ancestor-collect zero h current {header} le back =
        elim (Bool-cases (on_main m h current)) [
          | inl on ↦ lookup_ancestor-on_main zero h current le back on
          | inr off ↦
              let (rest, e) = collect_ancestors-first h current header off back in
              let same : h - 0 ≡ h = omega arith in
              rw (same, e) (lookup_ancestor-first h header rest)
        ]
    lookup_ancestor-collect (suc n) zero current le back = absurd (omega arith)
    lookup_ancestor-collect (suc n) (suc h) current le back =
        elim (Bool-cases (on_main m (suc h) current)) [
          | inl on ↦ lookup_ancestor-on_main (suc n) (suc h) current le back on
          | inr off ↦
              let (above, stored, more, rest) = header_back-link n current back in
              let lower : suc h - suc n ≡ h - n = omega arith in
              rw (lower, collect_ancestors-round h current above off stored more)
                (lookup_ancestor-later (suc h) (h - n) above _ (omega arith)
                  ∙ lookup_ancestor-collect n h above.prev_block (omega arith) rest)
        ]

-- `buildAncestorLookup(parent, height)` gives at every height at or below the parent's the header that the
-- stored links lead to from the parent, on a side chain too, where the index of the main chain follows
-- the stored links.
pub build_ancestor_lookup-header_back :
    {S : Type 0} (db : BlockStore S) (s : S) (m : HeightMap)
    → Linked db s m
    → (parent_hash : Hash) (parent_height n : ℕ) {header : BlockHeader} → n ≤ parent_height
    → header_back db s n parent_hash ≡ some header
    → build_ancestor_lookup db s m parent_hash parent_height (parent_height - n) ≡ some header
build_ancestor_lookup-header_back db s m linked parent_hash parent_height n le back =
    lookup_ancestor-collect db s m linked n parent_height parent_hash le back
