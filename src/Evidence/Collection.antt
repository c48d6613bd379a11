-- ===== src/Evidence/Collection.antt =====
-- `EvidenceCollection` of core/yield_rca_core/evidence_collection.py, an index of evidence by its
-- identifier that refuses two payloads under one identifier. `P` holds what the collection only
-- compares of `Evidence.to_dict`: the other entries, and the attributes of the entities; `same`
-- compares them.
use autonomous_qwen_react.Prelude.{
  String, Bool, true, false, not, ◌&&◌, List, [], ◌∷◌, filter, any, str_eq, Dict, get, put, values,
  Option, none, some, Result, ok, raise, ◌>>=◌, if◌then◌else◌,
}

pub record EntityRef : Type 0 where
  pub entity_type : String
  pub entity_id : String

pub record Evidence (P : Type 0) : Type 0 where
  pub evidence_id : String
  pub evidence_type : Option String
  pub entities : List EntityRef
  pub payload : P

-- The two errors of the collection: a conflicting payload, and identifiers that are unknown.
pub data EvidenceError : Type 0 where
  conflicting_payload : String → EvidenceError
  unknown_evidence_ids : List String → EvidenceError

abbrev pub same_type : Option String → Option String → Bool
same_type none none = true
same_type none (some b) = false
same_type (some a) none = false
same_type (some a) (some b) = str_eq a b

abbrev pub same_ref : EntityRef → EntityRef → Bool
same_ref a b = str_eq a.entity_type b.entity_type && str_eq a.entity_id b.entity_id

abbrev pub same_refs : List EntityRef → List EntityRef → Bool
same_refs [] [] = true
same_refs [] (b ∷ bs) = false
same_refs (a ∷ as') [] = false
same_refs (a ∷ as') (b ∷ bs) = same_ref a b && same_refs as' bs

-- `bool(index.get(key))`, for an index whose values are true.
abbrev pub is_found {ℓ} : {A : Type ℓ} → Option A → Bool
is_found none = false
is_found (some a) = true

module _ {P : Type 0} (same : P → P → Bool) where
  -- `a.to_dict() == b.to_dict()`
  unfoldable pub same_evidence : Evidence P → Evidence P → Bool
  same_evidence a b =
      str_eq a.evidence_id b.evidence_id
      && same_type a.evidence_type b.evidence_type
      && same_refs a.entities b.entities
      && same a.payload b.payload

  -- `add`
  unfoldable pub add : Dict (Evidence P) → Evidence P → Result EvidenceError (Dict (Evidence P))
  add by_id e = elim (get e.evidence_id by_id) [
    | none ↦ ok (put e.evidence_id e by_id)
    | some existing ↦
        if not (same_evidence existing e)
        then raise (conflicting_payload e.evidence_id)
        else ok by_id
  ]

  -- The loop of `merge`, on the staged collection.
  unfoldable pub add_all :
      Dict (Evidence P) → List (Evidence P) → Result EvidenceError (Dict (Evidence P))
  add_all staged [] = ok staged
  add_all staged (e ∷ es) = do next ← add staged e; add_all next es

  -- `merge`: the items are staged in a copy, which replaces the index when all of them were added.
  unfoldable pub merge :
      Dict (Evidence P) → List (Evidence P) → Result EvidenceError (Dict (Evidence P))
  merge by_id incoming = do staged ← add_all [] (values by_id); add_all staged incoming

module _ {P : Type 0} where
  -- `[self._by_id[evidence_id] for evidence_id in requested]`
  abbrev pub lookup_all : Dict (Evidence P) → List String → List (Evidence P)
  lookup_all by_id [] = []
  lookup_all by_id (i ∷ ids) =
      let rest = lookup_all by_id ids in elim (get i by_id) [ none ↦ rest | some e ↦ e ∷ rest ]

  -- `require`; the error holds the unknown identifiers in the order of the request (the message
  -- sorts them and drops repetitions).
  unfoldable pub require :
      Dict (Evidence P) → List String → Result EvidenceError (List (Evidence P))
  require by_id requested = elim (filter (λ i. not (is_found (get i by_id))) requested) [
    | [] ↦ ok (lookup_all by_id requested)
    | i ∷ ids ↦ raise (unknown_evidence_ids (i ∷ ids))
  ]

  -- `by_type`
  unfoldable pub by_type : Dict (Evidence P) → String → List (Evidence P)
  by_type by_id wanted = filter (λ e. same_type e.evidence_type (some wanted)) (values by_id)

  -- `by_entity`
  unfoldable pub by_entity : Dict (Evidence P) → String → Option String → List (Evidence P)
  by_entity by_id wanted_type entity_id = filter (λ e. any is_wanted e.entities) (values by_id)
    where
      is_wanted : EntityRef → Bool
      is_wanted r =
          str_eq r.entity_type wanted_type
          && elim entity_id [ none ↦ true | some i ↦ str_eq r.entity_id i ]
