-- ===== src/Tests/Evidence.antt =====
-- The evidence collection (core/yield_rca_core/evidence_collection.py) on a small index, and its
-- theorems at it.
use autonomous_qwen_react.Prelude.{
  ℕ, String, true, not, ◌≡◌, ◌⊎◌, refl, List, [], ◌∷◌, map, any, All, get, put, values, Dict, none,
  some, ok, raise, ◌==◌, ==_iff, arith, eq_iff, ap,
}
use autonomous_qwen_react.Evidence.Collection.{
  Evidence, EvidenceError, add, add_all, merge, require, same_evidence, is_found,
}
use autonomous_qwen_react.Evidence.Merge.{IsIndex, Extends}
use autonomous_qwen_react.Evidence.Staging.{merge-Extends, merge-conflict, require-cases}

abbrev item : String → ℕ → Evidence ℕ
item name n = record { evidence_id = name; evidence_type = none; entities = []; payload = n }

abbrev index : Dict (Evidence ℕ)
index = ("E1", item "E1" 5) ∷ ("E2", item "E2" 6) ∷ []

index-IsIndex : IsIndex index
unfolding get
index-IsIndex = record {
  distinct = (refl, (refl, tt));
  filed = λ k e q. ground (arith, eq_iff "E1" k, eq_iff "E2" k, q);
}

merge-Extends_example :
    Extends index
      (item "E1" 5 ∷ item "E3" 7 ∷ [])
      (("E1", item "E1" 5) ∷ ("E2", item "E2" 6) ∷ ("E3", item "E3" 7) ∷ [])
    × (merge
          (λ a b. a == b)
          (("E1", item "E1" 5) ∷ ("E2", item "E2" 6) ∷ ("E3", item "E3" 7) ∷ [])
          (item "E1" 5 ∷ item "E3" 7 ∷ [])
        ≡ ok (("E1", item "E1" 5) ∷ ("E2", item "E2" 6) ∷ ("E3", item "E3" 7) ∷ []))
unfolding merge add_all add same_evidence get put values
merge-Extends_example =
    merge-Extends (λ a b. a == b) ==_iff index (item "E1" 5 ∷ item "E3" 7 ∷ []) index-IsIndex refl

merge-conflict_example :
    (err : EvidenceError) × (merge (λ a b. a == b) index (item "E3" 7 ∷ item "E1" 9 ∷ [])
      ≡ raise err)
unfolding get
merge-conflict_example =
    merge-conflict (λ a b. a == b) ==_iff index (item "E3" 7 ∷ []) [] (item "E1" 9) (item "E1" 5)
      index-IsIndex refl (λ q. ground (arith, ap (λ e. e.payload) q))

require-cases_example :
    ((es : List (Evidence ℕ)) × (require index ("E2" ∷ "E1" ∷ []) ≡ ok es)
      × (map (λ e. e.evidence_id) es ≡ "E2" ∷ "E1" ∷ [])
      × All (λ e. get e.evidence_id index ≡ some e) es)
    ⊎ ((err : EvidenceError) × (require index ("E2" ∷ "E1" ∷ []) ≡ raise err)
        × (any (λ i. not (is_found (get i index))) ("E2" ∷ "E1" ∷ []) ≡ true))
require-cases_example = require-cases index ("E2" ∷ "E1" ∷ []) index-IsIndex
