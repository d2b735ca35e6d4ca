-- ===== src/Consensus/Timestamp/Defs.antt =====
-- `ValidateHeaderTimestamp` and `calcMedianTimePast` (internal/consensus/validation.go).
use fairchain.Base.{
  ℕ, zero, suc, ◌+◌, ◌-◌, ◌/◌, ◌%◌, ◌^◌, true, false, List, [], ◌∷◌, Option, none, some, reverse,
  length, get_or, ltb, leb, ◌==◌, if◌then◌else◌, Outcome, err, ◌>>◌, fail_if,
}
use fairchain.Base.Bytes.{bytes_eq}
use fairchain.Types.Block.{BlockHeader}
use fairchain.Params.{ChainParams, second}

pub data TimestampError : Type 0 where
  too_far_in_future not_after_parent not_after_median unknown_rule : TimestampError

abbrev pub median_count : ℕ
median_count = 11

-- The first loop: `none` from `getAncestor` ends it, and so does a height below the genesis block.
unfoldable pub collect_timestamps : ℕ → ℕ → ℕ → (ℕ → Option BlockHeader) → List ℕ
collect_timestamps zero i tip_height get_ancestor = []
collect_timestamps (suc left) i tip_height get_ancestor = elim (leb i tip_height) [
  | false ↦ []
  | true ↦ elim (get_ancestor (tip_height - i)) [
    | none ↦ []
    | some h ↦ h.timestamp ∷ collect_timestamps left (i + 1) tip_height get_ancestor
  ]
]

-- The inner loop of the insertion sort, on the sorted part with its last element first.
unfoldable pub insert_key : ℕ → List ℕ → List ℕ
insert_key key [] = key ∷ []
insert_key key (t ∷ sorted) =
    let rest = insert_key key sorted in if ltb key t then t ∷ rest else key ∷ (t ∷ sorted)

-- The outer loop: `sorted` is what stands before `i`, its last element first.
unfoldable pub sort_from : List ℕ → List ℕ → List ℕ
sort_from sorted [] = sorted
sort_from sorted (key ∷ rest) = sort_from (insert_key key sorted) rest

unfoldable pub sort_timestamps : List ℕ → List ℕ
sort_timestamps timestamps = reverse (sort_from [] timestamps)

unfoldable pub calc_median_time_past : ℕ → (ℕ → Option BlockHeader) → ℕ
calc_median_time_past tip_height get_ancestor =
    let timestamps = collect_timestamps median_count 0 tip_height get_ancestor in
    if length timestamps == 0
    then 0
    else get_or (sort_timestamps timestamps) (length timestamps / 2) 0

-- "prev+1"
abbrev pub prev_plus_1 : List ℕ
prev_plus_1 = b'p' ∷ (b'r' ∷ (b'e' ∷ (b'v' ∷ (b'+' ∷ (b'1' ∷ [])))))

-- "median-11"
abbrev pub median_11 : List ℕ
median_11 = b'm' ∷ (b'e' ∷ (b'd' ∷ (b'i' ∷ (b'a' ∷ (b'n' ∷ (b'-' ∷ (b'1' ∷ (b'1' ∷ []))))))))

-- The `switch` over the rules.
unfoldable pub check_rule :
    BlockHeader
    → BlockHeader
    → (ℕ → Option BlockHeader)
    → ℕ
    → ChainParams
    → Outcome TimestampError (Unit {0})
check_rule header parent get_ancestor tip_height p =
    if bytes_eq p.min_timestamp_rule prev_plus_1
    then fail_if (leb header.timestamp parent.timestamp) not_after_parent
    else if bytes_eq p.min_timestamp_rule median_11
    then fail_if (leb header.timestamp (calc_median_time_past tip_height get_ancestor))
        not_after_median
    else err unknown_rule

unfoldable pub validate_header_timestamp :
    BlockHeader
    → BlockHeader
    → ℕ
    → (ℕ → Option BlockHeader)
    → ℕ
    → ChainParams
    → Outcome TimestampError (Unit {0})
validate_header_timestamp header parent now_unix get_ancestor tip_height p = do
  fail_if (ltb ((now_unix + p.max_time_future_drift / second % 2 ^ 32) % 2 ^ 32) header.timestamp)
      too_far_in_future
  check_rule header parent get_ancestor tip_height p
