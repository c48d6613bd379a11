-- ===== src/Questions/Stuck.antt =====
-- The group that no evidence fills (core/yield_rca_core/question_evidence.py), and the questions that stay open for
-- want of it.
use mathlib.Core.Path.{subst}
use autonomous_qwen_react.Prelude.{
  String, Bool, true, false, not, ◌||◌, List, [], ◌∷◌, ◌++◌, any, all, find, str_eq, eq_iff, Dict,
  get, Option, none, some, ok, All, All-map, All-append, ◌≡◌, ◌≢◌, refl, sym, ap, ◌∙◌, arith, inl,
  inr, Bool-cases, some_inj, ok-injective,
}
use autonomous_qwen_react.Json.{Json}
use autonomous_qwen_react.Policy.Models.{ActionRecord}
use autonomous_qwen_react.Evidence.Collection.{Evidence}
use autonomous_qwen_react.Questions.Kinds.{tool_history, closed, occurs}
use autonomous_qwen_react.Questions.Registry.{capability_of, contribution_for}
use autonomous_qwen_react.Questions.Models.{
  InvestigationQuestion, QuestionEvidenceLink, QuestionUpdate,
}
use autonomous_qwen_react.Questions.Decisions.{PlannerDecisionOutcome, check_planner_decision}
use autonomous_qwen_react.Questions.Scope.{Texts, Typed, evidence_scope_matches_question}
use autonomous_qwen_react.Questions.Gate.{groups_or_none}
use autonomous_qwen_react.Questions.Links.{
  group_of_type, group_preferences, preferences, context_group, type_of, links_of_type,
  links_of_item, links_of_ids, is_applicable, resolve_each, resolve, matched_group, of_group, by_id,
}
use autonomous_qwen_react.Questions.Verdicts.{ReviewContext, existing_questions}
use autonomous_qwen_react.Questions.Review.{review_question_updates}
use autonomous_qwen_react.Questions.Justified.{IsJustified, IsAnswered, IsCovered, is_support}
use autonomous_qwen_react.Questions.Outcomes.{review_question_updates-IsReviewed}

-- Not the group that a question about the history of a tool waits for.
abbrev IsOther : String → Type 0
IsOther g = str_eq g "process_exposure" ≡ false

abbrev are_other : List String → Bool
are_other gs = all (λ g. not (str_eq g "process_exposure")) gs

All-of_are_other : (gs : List String) → are_other gs ≡ true → All IsOther gs
All-of_are_other [] h = tt
All-of_are_other (g ∷ gs) h = (ground (arith, h), All-of_are_other gs (ground (arith, h)))

found-are_other :
    (type : String) (d : Dict (List String))
    → all (λ (e : String × List String). are_other e.1) d ≡ true
    → are_other (groups_or_none (get type d)) ≡ true
unfolding get
found-are_other type [] h = refl
found-are_other type ((k, v) ∷ d) h = elim (Bool-cases (str_eq k type)) [
  | inl e ↦ rw e (ground (arith, h))
  | inr e ↦ rw e (found-are_other type d (ground (arith, h)))
]

preferences-IsOther : (type : String) → All IsOther (group_preferences type)
unfolding group_preferences
preferences-IsOther type = All-of_are_other _ (found-are_other type preferences refl)

find-IsOther :
    (test : String → Bool) (xs : List String) {x : String}
    → All IsOther xs
    → find test xs ≡ some x
    → IsOther x
find-IsOther test [] h e = cc
find-IsOther test (y ∷ ys) h e = elim (Bool-cases (test y)) [
  | inl b ↦ subst IsOther (some_inj (rw b at e)) h.0
  | inr b ↦ find-IsOther test ys h.1 (rw b at e)
]

group_of_type-IsOther :
    (type : String) (groups : List String) {g : String}
    → group_of_type type groups ≡ some g
    → IsOther g
unfolding group_of_type
group_of_type-IsOther type groups e =
    go (find (λ p. occurs p groups) (group_preferences type)) refl e
  where
    go :
        (o : Option String)
        → find (λ p. occurs p groups) (group_preferences type) ≡ o
        → {g : String}
        → (elim o [ none ↦ context_group groups | some preferred ↦ some preferred ]) ≡ some g
        → IsOther g
    go none f h = elim (Bool-cases (occurs "context" groups)) [
      | inl c ↦ subst IsOther (some_inj (rw c at h)) refl
      | inr c ↦ absurd (ground (arith, c, h))
    ]
    go (some p) f h = subst IsOther (some_inj h) (find-IsOther _ _ (preferences-IsOther type) f)

-- The actions of an investigation in their order, each with the questions and the evidence at that time.
abbrev pub Steps : Type 0
Steps = List (ActionRecord × List InvestigationQuestion × List (Evidence Typed))

module _ (t : Texts) where
  abbrev IsOtherLink : QuestionEvidenceLink → Type 0
  IsOtherLink l = IsOther l.matched_evidence_group

  of_group-All :
      (r : ActionRecord) (q : InvestigationQuestion) (e : Evidence Typed) (o : Option String)
      → ((g : String) → o ≡ some g → IsOther g)
      → All IsOtherLink (of_group t r q e o)
  of_group-All r q e none h = tt
  of_group-All r q e (some g) h = (h g refl, tt)

  links_of_item-All :
      (r : ActionRecord) (q : InvestigationQuestion) (o : Option (Evidence Typed))
      → All IsOtherLink (links_of_item t r q o)
  unfolding links_of_item links_of_type
  links_of_item-All r q none = tt
  links_of_item-All r q (some e) =
      let rest =
        of_group-All r q e
          (matched_group e (contribution_for (capability_of q.question_kind) r.action.kind))
          (λ g h. group_of_type-IsOther (type_of e) _ h) in
      elim (Bool-cases (not e.payload.is_typed || not (evidence_scope_matches_question t e q))) [
        | inl b ↦ rw b tt
        | inr b ↦ rw b (elim (Bool-cases (str_eq (type_of e) "data_missing")) [
          | inl d ↦ rw d (refl, tt)
          | inr d ↦
              rw d
                (elim (Bool-cases
                  (occurs (type_of e) (capability_of q.question_kind).accepted_evidence_types)) [
                    | inl a ↦ rw a rest
                    | inr a ↦ rw a tt
                  ])
        ])
      ]

  resolve-All :
      (r : ActionRecord) (qs : List InvestigationQuestion) (es : List (Evidence Typed))
      → All IsOtherLink (resolve t r qs es)
  unfolding resolve
  resolve-All r qs es = over_questions qs
    where
      over_ids :
          (q : InvestigationQuestion) (is : List String)
          → All IsOtherLink (links_of_ids t r q (by_id es []) is)
      over_ids q [] = tt
      over_ids q (i ∷ is) =
          All-append IsOtherLink _ _ (links_of_item-All r q (get i (by_id es []))) (over_ids q is)

      over_questions :
          (ps : List InvestigationQuestion) → All IsOtherLink (resolve_each t r (by_id es []) ps)
      over_questions [] = tt
      over_questions (q ∷ ps) = elim (Bool-cases (is_applicable t r q)) [
        | inl a ↦
            rw a
              (All-append IsOtherLink _ _ (over_ids q r.produced_evidence_ids) (over_questions ps))
        | inr a ↦ rw a (over_questions ps)
      ]

  -- The links that the supervisor has recorded after these actions.
  abbrev pub collected : Steps → List QuestionEvidenceLink
  collected [] = []
  collected ((r, qs, es) ∷ steps) = resolve t r qs es ++ collected steps

  collected-All : (steps : Steps) → All IsOtherLink (collected steps)
  collected-All [] = tt
  collected-All ((r, qs, es) ∷ steps) =
      All-append IsOtherLink _ _ (resolve-All r qs es) (collected-All steps)

  unsupported_group :
      (u : QuestionUpdate) (ls : List QuestionEvidenceLink)
      → All IsOtherLink ls
      → any (is_support u "process_exposure") ls ≡ false
  unsupported_group u [] h = refl
  unsupported_group u (l ∷ ls) h = ground (
    arith,
    eq_iff "process_exposure" l.matched_evidence_group,
    eq_iff l.matched_evidence_group "process_exposure",
    h.0,
    unsupported_group u ls h.1,
  )

  not_closed :
      (steps : Steps) (c : ReviewContext) (u : QuestionUpdate) (q : InvestigationQuestion)
      → c.question_evidence_links ≡ some (collected steps)
      → get q.question_id (existing_questions c.questions []) ≡ some q
      → q.question_kind ≡ tool_history
      → IsJustified c u
      → u.question_id ≡ q.question_id
      → u.status ≢ closed
  unfolding capability_of
  not_closed steps c u q links current kind justified same status =
      let there = justified.question in
      let answered : IsAnswered c there u closed =
        subst (IsAnswered c there u) status justified.is_answered in
      let covered : IsCovered there u (some (collected steps)) =
        subst (IsCovered there u) links answered.1 in
      let found : get q.question_id (existing_questions c.questions []) ≡ some there =
        subst (λ i. get i (existing_questions c.questions []) ≡ some there) same
          justified.is_current in
      let of_tool : there.question_kind ≡ tool_history =
        ap (λ (x : InvestigationQuestion). x.question_kind) (some_inj (sym found ∙ current))
        ∙ kind in
      let groups =
        subst
          (λ k.
            all (λ g. any (is_support u g) (collected steps))
              (capability_of k).closure_evidence_groups
            ≡ true)
          of_tool covered.1 in
      ground (arith, groups, unsupported_group u (collected steps) (collected-All steps))

  -- A question about the history of a tool is never closed on the links that were made of any actions and evidence:
  -- a review that knows these links accepts no closing update of it, whatever the language model
  -- proposes, since its kind asks for the group `process_exposure`, and no type of evidence fills that.
  pub tool_history_stays_open :
      (steps : Steps) (c : ReviewContext) (j : Json) (q : InvestigationQuestion)
      {o : PlannerDecisionOutcome}
      → check_planner_decision c.decision ≡ ok tt
      → c.decision.question_updates ≡ []
      → c.question_evidence_links ≡ some (collected steps)
      → get q.question_id (existing_questions c.questions []) ≡ some q
      → q.question_kind ≡ tool_history
      → review_question_updates c j ≡ ok o
      → All
          (λ (u : QuestionUpdate). u.question_id ≡ q.question_id → u.status ≢ closed)
          o.decision.question_updates
  tool_history_stays_open steps c j q checked clean links current kind e =
      let (p, r, _, rest) = review_question_updates-IsReviewed c checked clean j in
      subst
        (λ x.
          All (λ (u : QuestionUpdate). u.question_id ≡ q.question_id → u.status ≢ closed)
            x.decision.question_updates)
        (ok-injective (sym r ∙ e))
        (All-map p.decision.question_updates
          (λ u justified same status.
            not_closed steps c u q links current kind justified same status)
          rest.1)
