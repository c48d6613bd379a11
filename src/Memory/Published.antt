-- ===== src/Memory/Published.antt =====
-- What the runs of `InMemoryMemoryStore` (backend/yield_rca_api/memory.py) keep.
use mathlib.Core.Path.{subst}
use autonomous_qwen_react.Prelude.{
  String, true, false, get, put, get-put_self, Every, put-Every, some, ◌≡◌, refl, ap, ◌∙◌, arith,
}
use autonomous_qwen_react.Memory.Models.{
  MemoryCandidateStatus, MemoryApproval, MemoryCandidate, is_pending, is_published,
}
use autonomous_qwen_react.Memory.Approvals.{
  PublishedCase, MemoryStore, empty, decided, indexed, committed as after_commit, case_id_of,
}
use autonomous_qwen_react.Memory.DualControl.{IsDual, Standing, IsSound}
use autonomous_qwen_react.Memory.Runs.{
  Effect, idle, proposed, settled, Reach, here, created, committed, Filed, create-Effect,
  commit_decision-Effect, Effect-kept,
}

published→not_pending :
    (st : MemoryCandidateStatus) → is_published st ≡ true → is_pending st ≡ false
published→not_pending st h = ground arith

module _ {C : Type 0} where
  -- The candidate that a published case comes from is stored as published.
  abbrev IsSourced : MemoryStore C → String → PublishedCase → Type 0
  IsSourced s k p =
      (c : MemoryCandidate C) × (get p.source_candidate_id s.candidates ≡ some c)
      × (is_published c.status ≡ true)

  -- Every candidate is filed under its identifier and stands on its approvals, and every published
  -- case has its candidate.
  pub record Inv (s : MemoryStore C) : Type 0 where
    pub filed : Filed s
    pub sourced : Every (IsSourced s) s.published_cases

  indexed-kept :
      (c : MemoryCandidate C) (a : MemoryApproval) (st : MemoryCandidateStatus)
      → IsSound (decided c a st)
      → ((indexed (decided c a st)).candidate_id ≡ c.candidate_id)
        × IsSound (indexed (decided c a st))
        × ((indexed (decided c a st)).status ≡ st)
  indexed-kept c a MemoryCandidateStatus.pending_approval h = (refl, h, refl)
  indexed-kept c a MemoryCandidateStatus.published h = (refl, h, refl)
  indexed-kept c a MemoryCandidateStatus.rejected h = (refl, h, refl)

  Sourced-kept :
      (s t : MemoryStore C)
      → Effect s t
      → Every (IsSourced s) s.published_cases
      → Every (IsSourced t) s.published_cases
  Sourced-kept s t x h k p f =
      let (c, g, n) = h k p f in
      (c, Effect-kept p.source_candidate_id c x g (published→not_pending c.status n), n)

  after_commit-Sourced :
      (s : MemoryStore C) (c : MemoryCandidate C) (a : MemoryApproval) (x : String)
      (st : MemoryCandidateStatus)
      → c.candidate_id ≡ a.candidate_id
      → Every (IsSourced (after_commit s (decided c a st) a x)) s.published_cases
      → Every
          (IsSourced (after_commit s (decided c a st) a x))
          (after_commit s (decided c a st) a x).published_cases
  after_commit-Sourced s c a x MemoryCandidateStatus.pending_approval e h = h
  after_commit-Sourced s c a x MemoryCandidateStatus.rejected e h = h
  after_commit-Sourced s c a x MemoryCandidateStatus.published e h =
      put-Every (IsSourced (after_commit s (decided c a MemoryCandidateStatus.published) a x))
        (case_id_of c.candidate_id) _ s.published_cases h
        (
          indexed (decided c a MemoryCandidateStatus.published),
          ap
                (λ i. get i (
                  put a.candidate_id (indexed (decided c a MemoryCandidateStatus.published))
                    s.candidates))
                e
              ∙ get-put_self a.candidate_id _ s.candidates,
          refl,
        )

  Effect-Inv : {s t : MemoryStore C} → Inv s → Effect s t → Inv t
  Effect-Inv h (idle e) = subst Inv e h
  Effect-Inv {s} {t} h (proposed c g f q o) = record {
    filed = subst (Every (λ i d. (d.candidate_id ≡ i) × IsSound d)) q (
        put-Every (λ i d. (d.candidate_id ≡ i) × IsSound d) c.candidate_id c s.candidates h.filed
          (refl, g));
    sourced = subst (Every (IsSourced t)) o (Sourced-kept s t (proposed c g f q o) h.sourced);
  }
  Effect-Inv {s} {t} h (settled c a x st f p g q) =
      let (named, _) = h.filed a.candidate_id c f in
      let (same_id, sound, _) = indexed-kept c a st g in
      subst Inv q (record {
        filed =
            put-Every (λ i d. (d.candidate_id ≡ i) × IsSound d) a.candidate_id
              (indexed (decided c a st)) s.candidates h.filed (same_id ∙ named, sound);
        sourced =
            after_commit-Sourced s c a x st named
              (Sourced-kept s _ (settled c a x st f p g refl) h.sourced);
      })

  Reach-Inv : {s t : MemoryStore C} → Inv s → Reach s t → Inv t
  Reach-Inv h here = h
  Reach-Inv h (created {t = t'} c q n e) = Effect-Inv (Reach-Inv h q) (create-Effect t' c n e)
  Reach-Inv h (committed {t = t'} a x q e) =
      let i = Reach-Inv h q in Effect-Inv i (commit_decision-Effect t' a x i.filed e)

  empty-Inv : Inv (empty {C = C})
  unfolding get
  empty-Inv = record { filed = λ i c q. cc; sourced = λ k p q. cc }

  -- In every store that a run makes from the empty one, a published case comes from a stored candidate
  -- that is published and that exactly two engineers decided on: they are different, both approved,
  -- and one of them is a process engineer if the candidate requires that.
  pub published_cases-IsDual :
      (t : MemoryStore C) (k : String) (p : PublishedCase)
      → Reach empty t
      → get k t.published_cases ≡ some p
      → (c : MemoryCandidate C) × (get p.source_candidate_id t.candidates ≡ some c)
        × (c.status ≡ MemoryCandidateStatus.published)
        × IsDual c.approvals c.requires_process_engineer_approval
  published_cases-IsDual t k p q f =
      let i = Reach-Inv empty-Inv q in
      let (c, g, n) = i.sourced k p f in
      let status = is_published→eq c.status n in
      let (_, sound) = i.filed p.source_candidate_id c g in
      (
        c,
        g,
        status,
        subst (λ st. Standing st c.approvals c.requires_process_engineer_approval) status sound,
      )
    where
      is_published→eq :
          (st : MemoryCandidateStatus)
          → is_published st ≡ true
          → st ≡ MemoryCandidateStatus.published
      is_published→eq st h = ground arith

  -- From every store that a run makes from the empty one, a candidate that was published or rejected
  -- stays stored, exactly as it is, through any further run.
  pub Reach-decided :
      (s t : MemoryStore C) (i : String) (c : MemoryCandidate C)
      → Reach empty s
      → Reach s t
      → get i s.candidates ≡ some c
      → is_pending c.status ≡ false
      → get i t.candidates ≡ some c
  Reach-decided s t i c o here f n = f
  Reach-decided s t i c o (created {t = t'} d q m e) f n =
      Effect-kept i c (create-Effect t' d m e) (Reach-decided s t' i c o q f n) n
  Reach-decided s t i c o (committed {t = t'} a x q e) f n =
      Effect-kept i c (commit_decision-Effect t' a x (Reach-Inv (Reach-Inv empty-Inv o) q).filed e)
        (Reach-decided s t' i c o q f n) n
