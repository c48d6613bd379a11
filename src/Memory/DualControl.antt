-- ===== src/Memory/DualControl.antt =====
-- One decision on a memory candidate (`_apply_decision` of backend/yield_rca_api/memory.py), and the
-- approvals that a status stands on.
use mathlib.Core.Path.{subst}
use autonomous_qwen_react.Prelude.{
  Bool, true, false, not, List, [], ◌∷◌, ◌++◌, any, all, length, leb, str_eq, ok, ◌≡◌, refl, sym,
  inl, inr, arith, Bool-cases, >>=-eq-ok, ok-injective,
}
use autonomous_qwen_react.Memory.Models.{
  MemoryCandidateStatus, MemoryApproval, MemoryCandidate, is_pending, is_approve,
  is_process_engineer, check_candidate,
}
use autonomous_qwen_react.Memory.Approvals.{next_status, decided, apply_decision}

-- Two engineers approved, and one of them is a process engineer if that is required.
pub record IsDual (as' : List MemoryApproval) (requires_process : Bool) : Type 0 where
  pub first : MemoryApproval
  pub second : MemoryApproval
  pub both : as' ≡ first ∷ second ∷ []
  pub first_approves : is_approve first ≡ true
  pub second_approves : is_approve second ≡ true
  pub different : str_eq first.engineer_id second.engineer_id ≡ false
  pub process : requires_process ≡ true → any is_process_engineer as' ≡ true

-- The approvals that a status stands on.
abbrev pub Standing : MemoryCandidateStatus → List MemoryApproval → Bool → Type 0
Standing MemoryCandidateStatus.pending_approval as' requires_process =
    (leb (length as') 1 ≡ true) × (all is_approve as' ≡ true)
Standing MemoryCandidateStatus.published as' requires_process = IsDual as' requires_process
Standing MemoryCandidateStatus.rejected as' requires_process =
    any (λ a. not (is_approve a)) as' ≡ true

next_status-Standing :
    (r : Bool) (earlier : List MemoryApproval) (a : MemoryApproval) (s : MemoryCandidateStatus)
    → leb (length earlier) 1 ≡ true
    → all is_approve earlier ≡ true
    → any (λ x. str_eq x.engineer_id a.engineer_id) earlier ≡ false
    → next_status r earlier a ≡ ok s
    → Standing s (earlier ++ a ∷ []) r
unfolding next_status
next_status-Standing r [] a MemoryCandidateStatus.pending_approval l p n e = ground arith
next_status-Standing r [] a MemoryCandidateStatus.published l p n e = ground arith
next_status-Standing r [] a MemoryCandidateStatus.rejected l p n e = ground arith
next_status-Standing r (x ∷ []) a MemoryCandidateStatus.pending_approval l p n e = ground arith
next_status-Standing r (x ∷ []) a MemoryCandidateStatus.published l p n e = record {
  first = x;
  second = a;
  both = refl;
  first_approves = ground arith;
  second_approves = ground arith;
  different = ground arith;
  process = λ t. ground arith;
}
next_status-Standing r (x ∷ []) a MemoryCandidateStatus.rejected l p n e = ground arith
next_status-Standing r (x ∷ y ∷ z) a s l p n e = absurd (ground (arith, l))

-- A candidate whose approvals carry its status.
abbrev pub IsSound : {C : Type 0} → MemoryCandidate C → Type 0
IsSound c = Standing c.status c.approvals c.requires_process_engineer_approval

module _ {C : Type 0} where
  -- A decision that returns was made on a pending candidate, and makes `decided` of it.
  pub apply_decision-eq-ok :
      (c : MemoryCandidate C) (a : MemoryApproval) {c' : MemoryCandidate C}
      → IsSound c
      → apply_decision c a ≡ ok c'
      → (c.status ≡ MemoryCandidateStatus.pending_approval)
        × ((s : MemoryCandidateStatus) × (c' ≡ decided c a s) × IsSound (decided c a s))
  unfolding apply_decision
  apply_decision-eq-ok c a {c'} h e = elim (Bool-cases (is_pending c.status)) [
    | inr p ↦ absurd (ground (arith, p, e))
    | inl p ↦ elim (Bool-cases (any (λ x. str_eq x.engineer_id a.engineer_id) c.approvals)) [
      | inl d ↦ absurd (ground (arith, p, d, e))
      | inr d ↦
          let (s, n, k) =
            >>=-eq-ok (next_status c.requires_process_engineer_approval c.approvals a) _
              (rw (p, d, apply_decision) at e) in
          let (_, _, q) = >>=-eq-ok (check_candidate (decided c a s)) _ k in
          let pending = is_pending→eq c.status p in
          let alone =
            subst (λ t. Standing t c.approvals c.requires_process_engineer_approval) pending h in
          (
            pending,
            (
              s,
              sym (ok-injective q),
              next_status-Standing c.requires_process_engineer_approval c.approvals a s alone.0
                  alone.1 d n,
            ),
          )
    ]
  ]
    where
      is_pending→eq :
          (s : MemoryCandidateStatus)
          → is_pending s ≡ true
          → s ≡ MemoryCandidateStatus.pending_approval
      is_pending→eq s p = ground arith
