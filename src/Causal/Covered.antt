-- ===== src/Causal/Covered.antt =====
-- The gaps of causal candidates (core/yield_rca_core/causal_evidence_gap.py): each open claim has one, and each
-- of them can be worked on.
use mathlib.Core.Path.{subst}
use autonomous_qwen_react.Prelude.{
  ℕ, suc, ◌+◌, zero, String, Bool, true, false, not, ◌&&◌, ◌||◌, List, [], ◌∷◌, any, all, filter,
  map, ◌==◌, str_eq, eq_iff, eq_refl, codes, codes_lt_asym, codes_lt_trans, Dict, get, none, All,
  All-map, All-append, if◌then◌else◌, ◌≡◌, refl, ◌∙◌, arith, inl, inr, Bool-cases,
}
use autonomous_qwen_react.Prelude.Sorting.{
  sorted, insert, sorted-All, sorted-any, sorted-Ordered, Ordered,
}
use autonomous_qwen_react.Policy.Kinds.{ActionKind, same_kind}
use autonomous_qwen_react.Questions.Kinds.{process_mechanism, occurs, is_some_item}
use autonomous_qwen_react.Questions.Registry.{capability_of, allows}
use autonomous_qwen_react.Questions.Fillable.{test-of_all, any_left, any_right}
use autonomous_qwen_react.Causal.Scores.{CausalClaimResult, CausalEvidenceMatrix}
use autonomous_qwen_react.Causal.Gaps.{
  CausalGap, claim_questions, claim_groups, question_for, expected_groups, allowed_actions_of,
  earlier_kind, is_expected, actions_for, gap_type_of, gap_priority, is_exempt, gap_before, gap_of,
  gaps_of_claims, gaps_of_matrices, build_causal_evidence_gaps,
}

-- The order of the gaps.
gap_before_asym : (a b : CausalGap) → gap_before a b ≡ true → gap_before b a ≡ false
gap_before_asym a b h = ground (arith, h, codes_lt_asym (codes a.claim) (codes b.claim))

gap_before_trans :
    (a b c : CausalGap) → gap_before a b ≡ false → gap_before b c ≡ false → gap_before a c ≡ false
gap_before_trans a b c h k =
    ground (arith, h, k, codes_lt_trans (codes a.claim) (codes b.claim) (codes c.claim))

-- The registry allows each action for the kind of question, and it contributes to an expected group, if there are any.
abbrev pub IsLegal : String → ActionKind → Type 0
IsLegal claim k =
    (allows (capability_of (question_for claim)) k ≡ true)
    × (is_expected (capability_of (question_for claim)) (expected_groups claim) k ≡ true)

same_kind_refl : (k : ActionKind) → same_kind k k ≡ true
same_kind_refl ActionKind.inspect_defect_pattern = refl
same_kind_refl ActionKind.validate_shared_defect_pattern = refl
same_kind_refl ActionKind.find_shared_exposure = refl
same_kind_refl ActionKind.assess_impact_scope = refl
same_kind_refl ActionKind.inspect_fdc_spc = refl
same_kind_refl ActionKind.inspect_recipe_change = refl
same_kind_refl ActionKind.validate_historical_case = refl
same_kind_refl ActionKind.run_rca_reasoning = refl
same_kind_refl ActionKind.conclude_inconclusive = refl

-- Each member of a list is found in it.
members :
    (ks : List ActionKind) (P : ActionKind → Type 0)
    → ((k : ActionKind) → any (same_kind k) ks ≡ true → P k)
    → All P ks
members [] P f = tt
members (k ∷ ks) P f =
    (f k (rw (same_kind_refl k) refl), members ks P (λ j h. f j (ground (arith, h))))

All-filter :
    (test : ActionKind → Bool) (ks : List ActionKind) (P : ActionKind → Type 0)
    → All P ks
    → All (λ k. P k × (test k ≡ true)) (filter test ks)
All-filter test [] P h = tt
All-filter test (k ∷ ks) P h = elim (Bool-cases (test k)) [
  | inl e ↦ rw e ((h.0, e), All-filter test ks P h.1)
  | inr e ↦ rw e (All-filter test ks P h.1)
]

actions_for-All : (claim : String) → All (IsLegal claim) (actions_for claim)
unfolding actions_for
actions_for-All claim =
    let d = capability_of (question_for claim) in
    let allowed : All (λ k. allows d k ≡ true) (allowed_actions_of d) =
      All-append (λ k. allows d k ≡ true) _ _
        (members d.direct_actions _ (λ k h. ground (arith, h)))
        (All-map (filter (λ k. not (any (same_kind k) d.direct_actions)) d.supporting_actions)
          (λ k p. p.0)
          (All-filter (λ k. not (any (same_kind k) d.direct_actions)) d.supporting_actions _
            (members d.supporting_actions _ (λ k h. ground (arith, h))))) in
    sorted-All earlier_kind (IsLegal claim) _
      (All-filter (is_expected d (expected_groups claim)) (allowed_actions_of d) _ allowed)

get-none :
    {V : Type 0} (k : String) (d : Dict V) → occurs k (map (λ e. e.0) d) ≡ false → get k d ≡ none
unfolding get
get-none k [] h = refl
get-none k ((j, v) ∷ d) h = ground (arith, h, eq_iff j k, eq_iff k j, get-none k d)

abbrev has_actions : String → Bool
has_actions claim = is_some_item (actions_for claim)

-- A claim without an entry of its own is a question about the mechanism, of any group.
unknown_claim :
    (claim : String)
    → occurs claim (map (λ e. e.0) claim_questions) ≡ false
    → (question_for claim ≡ process_mechanism) × (expected_groups claim ≡ [])
unfolding question_for expected_groups
unknown_claim claim h =
    (rw (get-none claim claim_questions h) refl, rw (get-none claim claim_groups h) refl)

-- There is always something to do.
actions_for-some : (claim : String) → has_actions claim ≡ true
unfolding actions_for question_for expected_groups capability_of get sorted insert
actions_for-some claim = elim (Bool-cases (occurs claim (map (λ e. e.0) claim_questions))) [
  | inl e ↦ test-of_all has_actions claim (map (λ e. e.0) claim_questions) refl e
  | inr e ↦ rw (get-none claim claim_questions e, get-none claim claim_groups e) refl
]

-- The claims of candidate `i`.
abbrev pub claims_at : ℕ → List CausalEvidenceMatrix → Dict CausalClaimResult
claims_at i [] = []
claims_at zero (m ∷ ms) = m.claims
claims_at (suc i) (m ∷ ms) = claims_at i ms

-- The claim, with its result, that the gap is about.
abbrev pub is_origin : CausalGap → String × CausalClaimResult → Bool
is_origin g e = str_eq e.0 g.claim && str_eq e.1.status g.status && not (is_exempt e.0 e.1)

-- What can be done about a gap.
abbrev pub IsWorkable : CausalGap → Type 0
IsWorkable g =
    (g.question_kind ≡ question_for g.claim)
    × (g.priority ≡ gap_priority (gap_type_of g.claim g.status))
    × (is_some_item g.allowed_actions ≡ true)
    × All (IsLegal g.claim) g.allowed_actions

All-unless :
    (b : Bool) (P : CausalGap → Type 0) (x : CausalGap) (xs : List CausalGap)
    → (b ≡ false → P x)
    → All P xs
    → All P (if b then xs else x ∷ xs)
All-unless true P x xs f h = h
All-unless false P x xs f h = (f refl, h)

IsGap : ℕ → List CausalEvidenceMatrix → CausalGap → Type 0
IsGap i ms g =
    (n : ℕ) × (g.candidate_index ≡ i + n)
    × (any (is_origin g) (claims_at n ms) ≡ true)
    × IsWorkable g

-- Every claim of these candidates, from `i` on, is exempt or has a gap.
abbrev pub all_covered : ℕ → List CausalEvidenceMatrix → List CausalGap → Bool
all_covered i [] gaps = true
all_covered i (m ∷ ms) gaps =
    all (λ e. is_exempt e.0 e.1 || any (λ g. g.candidate_index == i && is_origin g e) gaps) m.claims
    && all_covered (suc i) ms gaps

abbrev Finds : List CausalGap → List CausalGap → Type 0
Finds some_gaps gaps = (test : CausalGap → Bool) → any test some_gaps ≡ true → any test gaps ≡ true

-- What a gap has: a claim of its candidate that is neither the control nor supported, and actions for it, all of
-- which the registry allows for the kind of question, and which contribute to the groups that are expected.
abbrev pub IsGapOf : List CausalEvidenceMatrix → CausalGap → Type 0
IsGapOf ms g = (any (is_origin g) (claims_at g.candidate_index ms) ≡ true) × IsWorkable g

module _ (decimal : ℕ → String) where
  gaps_of_claims-All :
      (i : ℕ) (claims : Dict CausalClaimResult)
      → All
          (λ g. (g.candidate_index ≡ i) × (any (is_origin g) claims ≡ true) × IsWorkable g)
          (gaps_of_claims decimal i claims)
  gaps_of_claims-All i [] = tt
  gaps_of_claims-All i ((claim, r) ∷ claims) =
      let rest =
        All-map (gaps_of_claims decimal i claims)
          (λ g (at, found, works). (at, ground (arith, found), works))
          (gaps_of_claims-All i claims) in
      All-unless (is_exempt claim r) _ (gap_of decimal i claim r) (gaps_of_claims decimal i claims)
        (λ e. (
          refl,
          rw (e, eq_refl claim, eq_refl r.status) refl,
          (refl, refl, actions_for-some claim, actions_for-All claim),
        ))
        rest

  gaps_of_matrices-All :
      (i : ℕ) (ms : List CausalEvidenceMatrix) → All (IsGap i ms) (gaps_of_matrices decimal i ms)
  unfolding IsGap
  gaps_of_matrices-All i [] = tt
  gaps_of_matrices-All i (m ∷ ms) =
      All-append (IsGap i (m ∷ ms)) _ _
        (All-map (gaps_of_claims decimal i m.claims)
          (λ g (at, found, works). (0, omega (arith, at), found, works))
          (gaps_of_claims-All i m.claims))
        (All-map (gaps_of_matrices decimal (suc i) ms)
          (λ g (n, at, found, works). (suc n, omega (arith, at), found, works))
          (gaps_of_matrices-All (suc i) ms))

  claims-covered :
      (i : ℕ) (claims : Dict CausalClaimResult) (gaps : List CausalGap)
      → Finds (gaps_of_claims decimal i claims) gaps
      → all
          (λ e. is_exempt e.0 e.1 || any (λ g. g.candidate_index == i && is_origin g e) gaps)
          claims
        ≡ true
  claims-covered i [] gaps f = refl
  claims-covered i ((claim, r) ∷ claims) gaps f = elim (Bool-cases (is_exempt claim r)) [
    | inl e ↦ rw e (claims-covered i claims gaps (λ test h. f test (rw e h)))
    | inr e ↦
        let found : any (λ g. g.candidate_index == i && is_origin g (claim, r)) gaps ≡ true =
          f (λ g. g.candidate_index == i && is_origin g (claim, r))
            (rw (e, eq_refl claim, eq_refl r.status) (ground arith)) in
        rw found (
          ground
            (arith, claims-covered i claims gaps (λ test h. f test (rw e (ground (arith, h))))))
  ]

  matrices-covered :
      (i : ℕ) (ms : List CausalEvidenceMatrix) (gaps : List CausalGap)
      → Finds (gaps_of_matrices decimal i ms) gaps
      → all_covered i ms gaps ≡ true
  matrices-covered i [] gaps f = refl
  matrices-covered i (m ∷ ms) gaps f =
      rw
        (
          claims-covered i m.claims gaps
              (λ test h. f test (any_left test (gaps_of_claims decimal i m.claims) _ h)),
          matrices-covered (suc i) ms gaps
              (λ test h. f test (any_right test (gaps_of_claims decimal i m.claims) _ h)),
        )
        refl

  -- The gaps of the candidates, whatever their matrices are, are in the order of priority, candidate and claim.
  -- Each is about a claim of its candidate that is neither the control nor supported, and has
  -- actions that the registry allows for its question and that contribute to the expected groups; and
  -- every such claim of every candidate has a gap.
  pub build_causal_evidence_gaps-IsComplete :
      (ms : List CausalEvidenceMatrix)
      → Ordered gap_before (build_causal_evidence_gaps decimal ms)
        × All (IsGapOf ms) (build_causal_evidence_gaps decimal ms)
        × (all_covered 0 ms (build_causal_evidence_gaps decimal ms) ≡ true)
  unfolding build_causal_evidence_gaps IsGap
  build_causal_evidence_gaps-IsComplete ms = (
    sorted-Ordered gap_before gap_before_asym gap_before_trans (gaps_of_matrices decimal 0 ms),
    sorted-All gap_before (IsGapOf ms) (gaps_of_matrices decimal 0 ms) (
        All-map (gaps_of_matrices decimal 0 ms)
          (λ g (n, at, found, works). (
            subst (λ k. any (is_origin g) (claims_at k ms) ≡ true) (omega (arith, at)) found,
            works,
          ))
          (gaps_of_matrices-All 0 ms)),
    matrices-covered 0 ms (sorted gap_before (gaps_of_matrices decimal 0 ms))
        (λ test h. sorted-any gap_before test (gaps_of_matrices decimal 0 ms) ∙ h),
  )
