-- ===== src/Memory/Runs.antt =====
-- Runs of `InMemoryMemoryStore` (backend/yield_rca_api/memory.py), and what a call does to the store.
use autonomous_qwen_react.Prelude.{
  String, false, [], str_eq, eq_iff, get, put, get-put, Every, none, some, some_inj, ok, ◌≡◌, refl,
  sym, ap, ◌∙◌, inl, inr, arith, Bool-cases, Option-cases, >>=-eq-ok, ok-injective,
}
use autonomous_qwen_react.Memory.Models.{
  MemoryCandidateStatus, MemoryApproval, MemoryCandidate, is_pending, check_candidate,
}
use autonomous_qwen_react.Memory.Approvals.{
  MemoryStore, decided, apply_decision, indexed, committed as after_commit, create, commit_decision,
  linked,
}
use autonomous_qwen_react.Memory.DualControl.{IsSound, apply_decision-eq-ok}

module _ {C : Type 0} where
  -- What a call does to the store.
  pub data Effect (s t : MemoryStore C) : Type 0 where
    idle : s ≡ t → Effect s t
    proposed :
        (c : MemoryCandidate C)
        → IsSound c
        → get c.candidate_id s.candidates ≡ none
        → put c.candidate_id c s.candidates ≡ t.candidates
        → s.published_cases ≡ t.published_cases
        → Effect s t
    settled :
        (c : MemoryCandidate C) (a : MemoryApproval) (x : String) (st : MemoryCandidateStatus)
        → get a.candidate_id s.candidates ≡ some c
        → c.status ≡ MemoryCandidateStatus.pending_approval
        → IsSound (decided c a st)
        → after_commit s (decided c a st) a x ≡ t
        → Effect s t

  -- A candidate as `build_memory_candidate` makes it, under a new `uuid4`.
  pub record IsNew (s : MemoryStore C) (c : MemoryCandidate C) : Type 0 where
    pub pending : c.status ≡ MemoryCandidateStatus.pending_approval
    pub undecided : c.approvals ≡ []
    pub unused : get c.candidate_id s.candidates ≡ none

  -- The stores that calls lead to.
  pub data Reach (s : MemoryStore C) : MemoryStore C → Type 0 where
    here : Reach s s
    created :
        {t u : MemoryStore C} (c : MemoryCandidate C) {d : MemoryCandidate C}
        → Reach s t
        → IsNew t c
        → create t c ≡ ok (u, d)
        → Reach s u
    committed :
        {t u : MemoryStore C} (a : MemoryApproval) (correlation_id : String) {d : MemoryCandidate C}
        → Reach s t
        → commit_decision t a correlation_id ≡ ok (u, d)
        → Reach s u

  abbrev pub Filed : MemoryStore C → Type 0
  Filed s = Every (λ i c. (c.candidate_id ≡ i) × IsSound c) s.candidates

  pub create-Effect :
      (s : MemoryStore C) (c : MemoryCandidate C) {t : MemoryStore C} {d : MemoryCandidate C}
      → IsNew s c
      → create s c ≡ ok (t, d)
      → Effect s t
  unfolding create
  create-Effect s c {t} n e = elim (Option-cases (linked (get c.job_id s.job_candidates))) [
    | inl f ↦
        let q = ap (λ p. p.0) (ok-injective (rw (f, create) at e)) in
        proposed c (rw (n.pending, n.undecided) (refl, refl)) n.unused (ap (λ u. u.candidates) q)
          (ap (λ u. u.published_cases) q)
    | inr (i, f) ↦ elim (Option-cases (get i s.candidates)) [
      | inl g ↦ absurd (ground (arith, f, g, e))
      | inr (x, g) ↦ idle (ap (λ p. p.0) (ok-injective (rw (f, g, create) at e)))
    ]
  ]

  pub commit_decision-Effect :
      (s : MemoryStore C) (a : MemoryApproval) (x : String) {t : MemoryStore C}
      {d : MemoryCandidate C}
      → Filed s
      → commit_decision s a x ≡ ok (t, d)
      → Effect s t
  unfolding commit_decision
  commit_decision-Effect s a x {t} h e = elim (Option-cases (get a.candidate_id s.candidates)) [
    | inl n ↦ absurd (ground (arith, n, e))
    | inr (c, f) ↦
        let (u, p, k) = >>=-eq-ok (apply_decision c a) _ (rw (f, commit_decision) at e) in
        let (_, _, q) = >>=-eq-ok (check_candidate (indexed u)) _ k in
        let (pending, (st, g, sound)) = apply_decision-eq-ok c a (h a.candidate_id c f).1 p in
        settled c a x st f pending sound
          (ap (λ v. after_commit s v a x) (sym g) ∙ ap (λ p. p.0) (ok-injective q))
  ]

  -- A decided candidate stays as it is.
  pub Effect-kept :
      {s t : MemoryStore C} (i : String) (c : MemoryCandidate C)
      → Effect s t
      → get i s.candidates ≡ some c
      → is_pending c.status ≡ false
      → get i t.candidates ≡ some c
  Effect-kept i c (idle e) f n = ap (λ u. get i u.candidates) (sym e) ∙ f
  Effect-kept {s} i c (proposed d h g q _) f n =
      ap (get i) (sym q)
      ∙ get-put d.candidate_id i d s.candidates
      ∙ ground (arith, eq_iff d.candidate_id i, f, g)
  Effect-kept {s} i c (settled d a x st g p h q) f n =
      ap (λ u. get i u.candidates) (sym q)
      ∙ get-put a.candidate_id i (indexed (decided d a st)) s.candidates
      ∙ elim (Bool-cases (str_eq a.candidate_id i)) [
        | inl b ↦
            let d≡c : d ≡ c =
              some_inj (sym g ∙ ap (λ j. get j s.candidates) ((eq_iff a.candidate_id i).0 b) ∙ f) in
            absurd (ground (arith, n, ap (λ y. y.status) d≡c, p))
        | inr b ↦ rw b f
      ]
