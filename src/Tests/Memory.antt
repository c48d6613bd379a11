-- ===== src/Tests/Memory.antt =====
-- The approval of a memory (backend/yield_rca_api/memory.py) on a run of two engineers, and its
-- theorems at it.
use autonomous_qwen_react.Prelude.{
  String, true, ◌≡◌, refl, [], get, put, none, some, ok, raise, Result,
}
use autonomous_qwen_react.Memory.Models.{
  MemoryCandidateStatus, KnowledgeIndexStatus, ApprovalDecision, EngineerRole, MemoryApproval,
  MemoryCandidate, MemoryError, check_candidate,
}
use autonomous_qwen_react.Memory.Approvals.{
  MemoryStore, PublishedCase, empty, create, commit_decision, apply_decision, next_status,
}
use autonomous_qwen_react.Memory.DualControl.{IsDual}
use autonomous_qwen_react.Memory.Runs.{Reach, here, created, committed, IsNew}
use autonomous_qwen_react.Memory.Published.{published_cases-IsDual, Reach-decided}

abbrev candidate : MemoryCandidate String
candidate = record {
  candidate_id = "MEM_1";
  job_id = "JOB_1";
  status = MemoryCandidateStatus.pending_approval;
  content = "scratches of chamber 2";
  requires_process_engineer_approval = true;
  index_status = KnowledgeIndexStatus.not_requested;
  index_attempts = 0;
  approvals = [];
  published_case_id = none;
  updated_at = "2025-01-01";
}

abbrev approval : String → EngineerRole → MemoryApproval
approval engineer role = record {
  approval_id = "A";
  candidate_id = "MEM_1";
  engineer_id = engineer;
  engineer_role = role;
  decision = ApprovalDecision.approve;
  comment = "";
  decided_at = "2025-01-02";
}

-- The store of a call that returned.
abbrev store_of :
    Result MemoryError (MemoryStore String × MemoryCandidate String) → MemoryStore String
store_of (ok (s, c)) = s
store_of (raise e) = empty

abbrev candidate_of :
    Result MemoryError (MemoryStore String × MemoryCandidate String) → MemoryCandidate String
candidate_of (ok (s, c)) = c
candidate_of (raise e) = candidate

abbrev proposed_store : MemoryStore String
proposed_store = store_of (create empty candidate)

abbrev once_approved : MemoryStore String
once_approved =
    store_of (commit_decision proposed_store (approval "E1" EngineerRole.yield_engineer) "C")

abbrev twice_approved : MemoryStore String
twice_approved =
    store_of (commit_decision once_approved (approval "E2" EngineerRole.process_engineer) "C")

candidate-IsNew : IsNew empty candidate
unfolding get
candidate-IsNew = record { pending = refl; undecided = refl; unused = refl }

run : Reach empty twice_approved
unfolding create commit_decision apply_decision next_status check_candidate get put
run =
    committed (approval "E2" EngineerRole.process_engineer) "C"
      (committed (approval "E1" EngineerRole.yield_engineer) "C"
        (created candidate here candidate-IsNew refl) refl)
      refl

-- A second approval by the same engineer raises.
same_engineer :
    commit_decision once_approved (approval "E1" EngineerRole.process_engineer) "C"
    ≡ raise MemoryError.approval_conflict
unfolding create commit_decision apply_decision next_status check_candidate get put
same_engineer = refl

abbrev published_case : PublishedCase
published_case = record {
  case_id = "RCA_MEMORY_1";
  source_candidate_id = "MEM_1";
  approval_count = 2;
}

published_cases-IsDual_example :
    (c : MemoryCandidate String) × (get "MEM_1" twice_approved.candidates ≡ some c)
    × (c.status ≡ MemoryCandidateStatus.published)
    × IsDual c.approvals c.requires_process_engineer_approval
unfolding create commit_decision apply_decision next_status check_candidate get put
published_cases-IsDual_example =
    published_cases-IsDual twice_approved "RCA_MEMORY_1" published_case run refl

Reach-decided_example :
    get "MEM_1" twice_approved.candidates
    ≡ some (
        candidate_of
          (commit_decision once_approved (approval "E2" EngineerRole.process_engineer) "C"))
unfolding create commit_decision apply_decision next_status check_candidate get put
Reach-decided_example =
    Reach-decided twice_approved twice_approved "MEM_1"
      (candidate_of
        (commit_decision once_approved (approval "E2" EngineerRole.process_engineer) "C"))
      run here refl refl
