-- ===== src/Memory/Approvals.antt =====
-- `_apply_decision` and `InMemoryMemoryStore` of backend/yield_rca_api/memory.py, without a
-- knowledge store. The lock makes each method one step.
use autonomous_qwen_react.Prelude.{
  ℕ, String, Bool, not, ◌&&◌, List, [], ◌∷◌, ◌++◌, ◌+◌, filter, any, length, leb, str_eq, joined,
  remove_prefix, non_empty, Dict, get, put, Option, none, some, Result, ok, raise, ◌>>=◌, ◌>>◌,
  if◌then◌else◌,
}
use autonomous_qwen_react.Memory.Models.{
  MemoryCandidateStatus, KnowledgeIndexStatus, ApprovalDecision, MemoryApproval, MemoryCandidate,
  MemoryError, is_pending, is_published, is_approve, is_process_engineer, check_candidate,
}

pub record AuditEvent : Type 0 where
  pub action : String
  pub job_id : String
  pub correlation_id : String
  pub actor : String
  pub candidate_id : String

-- What `_publication_payloads` makes, less the texts that it renders of the candidate's content.
pub record PublishedCase : Type 0 where
  pub case_id : String
  pub source_candidate_id : String
  pub approval_count : ℕ

pub record PublishedDocument : Type 0 where
  pub document_id : String
  pub case_id : String
  pub approvals : List MemoryApproval

abbrev pub case_id_of : String → String
case_id_of candidate_id = joined "RCA_MEMORY_" (remove_prefix "MEM_" candidate_id)

abbrev pub document_id_of : String → String
document_id_of candidate_id = joined "DOC_MEMORY_" (remove_prefix "MEM_" candidate_id)

-- The status after an approval, from the earlier approvals.
unfoldable pub next_status :
    Bool → List MemoryApproval → MemoryApproval → Result MemoryError MemoryCandidateStatus
next_status requires_process earlier a = elim a.decision [
  | ApprovalDecision.reject ↦ ok MemoryCandidateStatus.rejected
  | ApprovalDecision.approve ↦
      let approved = filter is_approve (earlier ++ a ∷ []) in
      if leb 2 (length approved)
      then (if requires_process && not (any is_process_engineer approved)
          then raise MemoryError.approval_validation
          else ok MemoryCandidateStatus.published)
      else ok MemoryCandidateStatus.pending_approval
]

module _ {C : Type 0} where
  -- `approval_count`
  abbrev pub approval_count : MemoryCandidate C → ℕ
  approval_count c = length (filter is_approve c.approvals)

  -- The candidate that `_apply_decision` builds.
  abbrev pub decided :
      MemoryCandidate C → MemoryApproval → MemoryCandidateStatus → MemoryCandidate C
  decided c a s = record c {
    status = s;
    approvals = c.approvals ++ a ∷ [];
    updated_at = a.decided_at;
    published_case_id = if is_published s then some (case_id_of c.candidate_id) else none;
    index_status =
        if is_published s then KnowledgeIndexStatus.pending else KnowledgeIndexStatus.not_requested;
  }

  -- The updated candidate of `_apply_decision`.
  unfoldable pub apply_decision :
      MemoryCandidate C → MemoryApproval → Result MemoryError (MemoryCandidate C)
  apply_decision c a =
      if not (is_pending c.status)
      then raise MemoryError.approval_conflict
      else if any (λ x. str_eq x.engineer_id a.engineer_id) c.approvals
      then raise MemoryError.approval_conflict
      else do
        s ← next_status c.requires_process_engineer_approval c.approvals a
        check_candidate (decided c a s)
        ok (decided c a s)

  -- Its audit events.
  abbrev pub decision_events : MemoryCandidate C → MemoryApproval → String → List AuditEvent
  decision_events c a correlation_id = event "MEMORY_APPROVAL_RECORDED" ∷ (elim c.status [
    | MemoryCandidateStatus.pending_approval ↦ []
    | MemoryCandidateStatus.published ↦ event "MEMORY_CANDIDATE_PUBLISHED" ∷ []
    | MemoryCandidateStatus.rejected ↦ event "MEMORY_CANDIDATE_REJECTED" ∷ []
  ])
    where
      event : String → AuditEvent
      event name = record {
        action = name;
        job_id = c.job_id;
        correlation_id = correlation_id;
        actor = a.engineer_id;
        candidate_id = c.candidate_id;
      }

-- A candidate that a job has, if its identifier is true.
abbrev pub linked : Option String → Option String
linked none = none
linked (some i) = if non_empty i then some i else none

pub record MemoryStore (C : Type 0) : Type 0 where
  pub candidates : Dict (MemoryCandidate C)
  pub job_candidates : Dict String
  pub published_cases : Dict PublishedCase
  pub published_documents : Dict PublishedDocument
  pub audit_events : List AuditEvent

abbrev pub empty : {C : Type 0} → MemoryStore C
empty = record {
  candidates = [];
  job_candidates = [];
  published_cases = [];
  published_documents = [];
  audit_events = [];
}

module _ {C : Type 0} where
  -- `create`; a job that has a candidate keeps it.
  unfoldable pub create :
      MemoryStore C → MemoryCandidate C → Result MemoryError (MemoryStore C × MemoryCandidate C)
  create s c = elim (linked (get c.job_id s.job_candidates)) [
    | some i ↦ elim (get i s.candidates) [
      | none ↦ raise MemoryError.key_error
      | some existing ↦ ok (s, existing)
    ]
    | none ↦ ok (
      (record s {
        candidates = put c.candidate_id c s.candidates;
        job_candidates = put c.job_id c.candidate_id s.job_candidates;
      }),
      c,
    )
  ]

  -- The index fields that `commit_decision` sets on a publication.
  abbrev pub indexed : MemoryCandidate C → MemoryCandidate C
  indexed c =
      if is_published c.status
      then record c {
        index_status = KnowledgeIndexStatus.completed;
        index_attempts = c.index_attempts + 1;
      }
      else c

  -- The store after `commit_decision` stored the updated candidate.
  abbrev pub committed : MemoryStore C → MemoryCandidate C → MemoryApproval → String → MemoryStore C
  committed s c a correlation_id = record s {
    candidates = put a.candidate_id (indexed c) s.candidates;
    published_cases =
        if is_published c.status
        then put (case_id_of c.candidate_id)
            (record {
              case_id = case_id_of c.candidate_id;
              source_candidate_id = c.candidate_id;
              approval_count = approval_count c;
            })
            s.published_cases
        else s.published_cases;
    published_documents =
        if is_published c.status
        then put (document_id_of c.candidate_id)
            (record {
              document_id = document_id_of c.candidate_id;
              case_id = case_id_of c.candidate_id;
              approvals = c.approvals;
            })
            s.published_documents
        else s.published_documents;
    audit_events = s.audit_events ++ decision_events c a correlation_id;
  }

  -- `commit_decision`; the service passes the candidate's identifier in the approval too.
  unfoldable pub commit_decision :
      MemoryStore C
      → MemoryApproval
      → String
      → Result MemoryError (MemoryStore C × MemoryCandidate C)
  commit_decision s a correlation_id = elim (get a.candidate_id s.candidates) [
    | none ↦ raise MemoryError.not_found
    | some current ↦ do
      updated ← apply_decision current a
      check_candidate (indexed updated)
      ok (committed s updated a correlation_id, indexed updated)
  ]
