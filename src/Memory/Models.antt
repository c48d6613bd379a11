-- ===== src/Memory/Models.antt =====
-- The records of core/yield_rca_core/memory_models.py. `C` holds the fields of a candidate that no
-- decision reads or changes (its title, summaries, recommendations, evidence and provenance).
use autonomous_qwen_react.Prelude.{
  ℕ, String, Bool, true, false, not, ◌&&◌, List, map, any, str_eq, non_empty, has_duplicates,
  Option, none, some, Result, ◌>>◌, raise_if,
}

pub data MemoryCandidateStatus : Type 0 where
  pending_approval published rejected : MemoryCandidateStatus

pub data KnowledgeIndexStatus : Type 0 where
  not_requested pending completed failed : KnowledgeIndexStatus

pub data ApprovalDecision : Type 0 where
  approve reject : ApprovalDecision

pub data EngineerRole : Type 0 where
  yield_engineer process_engineer equipment_engineer quality_engineer : EngineerRole

pub record MemoryApproval : Type 0 where
  pub approval_id : String
  pub candidate_id : String
  pub engineer_id : String
  pub engineer_role : EngineerRole
  pub decision : ApprovalDecision
  pub comment : String
  pub decided_at : String

pub record MemoryCandidate (C : Type 0) : Type 0 where
  pub candidate_id : String
  pub job_id : String
  pub status : MemoryCandidateStatus
  pub content : C
  pub requires_process_engineer_approval : Bool
  pub index_status : KnowledgeIndexStatus
  pub index_attempts : ℕ
  pub approvals : List MemoryApproval
  pub published_case_id : Option String
  pub updated_at : String

-- The exceptions of the approval: `MemoryCandidateNotFoundError`, `MemoryApprovalConflictError`,
-- `MemoryApprovalValidationError`, `ModelValidationError`, and `KeyError`.
pub data MemoryError : Type 0 where
  not_found approval_conflict approval_validation model_validation key_error : MemoryError

abbrev pub is_pending : MemoryCandidateStatus → Bool
is_pending MemoryCandidateStatus.pending_approval = true
is_pending _ = false

abbrev pub is_published : MemoryCandidateStatus → Bool
is_published MemoryCandidateStatus.published = true
is_published _ = false

abbrev pub is_approve : MemoryApproval → Bool
is_approve a = elim a.decision [ ApprovalDecision.approve ↦ true | ApprovalDecision.reject ↦ false ]

abbrev pub is_process_engineer : MemoryApproval → Bool
is_process_engineer a = elim a.engineer_role [ EngineerRole.process_engineer ↦ true | _ ↦ false ]

abbrev is_requested : KnowledgeIndexStatus → Bool
is_requested KnowledgeIndexStatus.not_requested = false
is_requested _ = true

abbrev is_given : Option String → Bool
is_given none = false
is_given (some s) = non_empty s

-- The checks of `MemoryCandidate.__post_init__` on the fields that a decision changes.
unfoldable pub check_candidate : {C : Type 0} → MemoryCandidate C → Result MemoryError (Unit {0})
check_candidate c = do
  raise_if (is_published c.status && not (is_given c.published_case_id))
      MemoryError.model_validation
  raise_if (not (is_published c.status) && is_requested c.index_status) MemoryError.model_validation
  raise_if (has_duplicates (map (λ a. a.engineer_id) c.approvals)) MemoryError.model_validation
  raise_if (any (λ a. not (str_eq a.candidate_id c.candidate_id)) c.approvals)
      MemoryError.model_validation
