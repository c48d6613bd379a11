-- ===== src/Questions/Grounded.antt =====
-- What is behind a link from a question to a piece of evidence (core/yield_rca_core/question_evidence.py).
use mathlib.Core.Path.{subst}
use autonomous_qwen_react.Prelude.{
  String, Bool, true, false, not, ◌||◌, List, [], ◌∷◌, ◌++◌, find, str_eq, eq_iff, eq_refl, get,
  Option, none, some, All, All-map, All-append, ◌≡◌, refl, sym, ap, ◌∙◌, arith, inl, inr,
  Bool-cases, some_inj,
}
use autonomous_qwen_react.Json.{Json, null, number, text, instant, array, object}
use autonomous_qwen_react.Policy.Models.{ActionRecord}
use autonomous_qwen_react.Evidence.Collection.{Evidence}
use autonomous_qwen_react.Questions.Kinds.{
  supports, contradicts, context, no_data, is_unavailable, occurs, QuestionEvidenceRelation,
}
use autonomous_qwen_react.Questions.Registry.{capability_of, contribution_for}
use autonomous_qwen_react.Questions.Models.{InvestigationQuestion, QuestionEvidenceLink}
use autonomous_qwen_react.Questions.Scope.{Texts, Typed, evidence_scope_matches_question}
use autonomous_qwen_react.Questions.Links.{
  group_of_type, group_preferences, context_group, type_of, by_id, stated_relation, links_of_type,
  links_of_item, links_of_ids, is_applicable, resolve_each, resolve, matched_group, of_group,
}

-- What stands behind the relation and the group of a link of this question to this evidence.
abbrev pub IsGroupOf :
    ActionRecord
    → InvestigationQuestion
    → Evidence Typed
    → String
    → QuestionEvidenceRelation
    → Type 0
IsGroupOf r q e group no_data = (type_of e ≡ "data_missing") × (group ≡ "data_unavailable")
IsGroupOf r q e group relation =
    (occurs (type_of e) (capability_of q.question_kind).accepted_evidence_types ≡ true)
    × (occurs group (contribution_for (capability_of q.question_kind) r.action.kind) ≡ true)
    × (relation ≡ stated_relation (get "relation" e.payload.metadata))

-- `q in qs`, with its place.
abbrev pub IsAmong : InvestigationQuestion → List InvestigationQuestion → Type 0
IsAmong q qs =
    (before : List InvestigationQuestion) × (after : List InvestigationQuestion) × (qs
      ≡ before ++ q ∷ after)

-- A link of one of these questions: its action may answer the question, and its evidence was produced, is
-- filed, is typed, and fits the question.
pub record IsGrounded (t : Texts) (r : ActionRecord) (qs : List InvestigationQuestion)
    (evidence : List (Evidence Typed)) (l : QuestionEvidenceLink) : Type 0 where
  pub question : InvestigationQuestion
  pub item : Evidence Typed
  pub is_asked : IsAmong question qs
  pub has_question : l.question_id ≡ question.question_id
  pub has_action : l.action_id ≡ r.action.action_id
  pub is_applicable_action : is_applicable t r question ≡ true
  pub key : String
  pub is_produced : occurs key r.produced_evidence_ids ≡ true
  pub is_filed : get key (by_id evidence []) ≡ some item
  pub has_evidence : l.evidence_id ≡ item.evidence_id
  pub is_of_schema : item.payload.is_typed ≡ true
  pub is_in_scope : evidence_scope_matches_question t item question ≡ true
  pub is_group : IsGroupOf r question item l.matched_evidence_group l.relation

find-of :
    (test : String → Bool) (xs : List String) {x : String} → find test xs ≡ some x → test x ≡ true
find-of test [] e = cc
find-of test (y ∷ ys) e = elim (Bool-cases (test y)) [
  | inl h ↦ subst (λ z. test z ≡ true) (some_inj (rw h at e)) h
  | inr h ↦ find-of test ys (rw h at e)
]

-- A matched group is one of those that the action contributes to.
group_of_type-occurs :
    (type : String) (groups : List String) {g : String}
    → group_of_type type groups ≡ some g
    → occurs g groups ≡ true
unfolding group_of_type
group_of_type-occurs type groups e =
    go (find (λ p. occurs p groups) (group_preferences type)) refl e
  where
    go :
        (o : Option String)
        → find (λ p. occurs p groups) (group_preferences type) ≡ o
        → {g : String}
        → (elim o [ none ↦ context_group groups | some preferred ↦ some preferred ]) ≡ some g
        → occurs g groups ≡ true
    go none f h = elim (Bool-cases (occurs "context" groups)) [
      | inl c ↦ subst (λ x. occurs x groups ≡ true) (some_inj (rw c at h)) c
      | inr c ↦ absurd (ground (arith, c, h))
    ]
    go (some p) f h =
        subst (λ x. occurs x groups ≡ true) (some_inj h)
          (find-of (λ p. occurs p groups) (group_preferences type) f)

snoc-append {ℓ} :
    {A : Type ℓ} (xs : List A) (y : A) (ys : List A) → (xs ++ y ∷ []) ++ ys ≡ xs ++ y ∷ ys
snoc-append [] y ys = refl
snoc-append (x ∷ xs) y ys = ap (λ zs. x ∷ zs) (snoc-append xs y ys)

stated-available : (j : Option Json) → is_unavailable (stated_relation j) ≡ false
stated-available none = refl
stated-available (some (text s)) = elim (Bool-cases (str_eq s "contradicts")) [
  | inl e ↦ rw e refl
  | inr e ↦ rw e refl
]
stated-available (some null) = refl
stated-available (some (Json.bool b)) = refl
stated-available (some (number n)) = refl
stated-available (some (Json.float z p)) = refl
stated-available (some (instant i)) = refl
stated-available (some (array xs)) = refl
stated-available (some (object fs)) = refl

module _ (t : Texts) (r : ActionRecord) where
  -- What a link of a question to evidence has, whichever the question and the evidence are.
  record IsLinkOf (q : InvestigationQuestion) (e : Evidence Typed) (l : QuestionEvidenceLink)
      : Type 0 where
    of_question : l.question_id ≡ q.question_id
    of_action : l.action_id ≡ r.action.action_id
    of_evidence : l.evidence_id ≡ e.evidence_id
    typed : e.payload.is_typed ≡ true
    in_scope : evidence_scope_matches_question t e q ≡ true
    grouped : IsGroupOf r q e l.matched_evidence_group l.relation

  stated-IsGroupOf :
      (q : InvestigationQuestion) (e : Evidence Typed) (group : String)
      → occurs (type_of e) (capability_of q.question_kind).accepted_evidence_types ≡ true
      → occurs group (contribution_for (capability_of q.question_kind) r.action.kind) ≡ true
      → IsGroupOf r q e group (stated_relation (get "relation" e.payload.metadata))
  stated-IsGroupOf q e group a b =
      go (stated_relation (get "relation" e.payload.metadata)) refl
        (stated-available (get "relation" e.payload.metadata))
    where
      go :
          (relation : QuestionEvidenceRelation)
          → relation ≡ stated_relation (get "relation" e.payload.metadata)
          → is_unavailable relation ≡ false
          → IsGroupOf r q e group relation
      go supports h k = (a, b, h)
      go contradicts h k = (a, b, h)
      go context h k = (a, b, h)
      go no_data h k = cc

  links_of_type-IsLinkOf :
      (q : InvestigationQuestion) (e : Evidence Typed)
      → e.payload.is_typed ≡ true
      → evidence_scope_matches_question t e q ≡ true
      → All (IsLinkOf q e) (links_of_type t r q e)
  unfolding links_of_type
  links_of_type-IsLinkOf q e typed scope = elim (Bool-cases (str_eq (type_of e) "data_missing")) [
    | inl d ↦ rw d (
      record {
        of_question = refl;
        of_action = refl;
        of_evidence = refl;
        typed = typed;
        in_scope = scope;
        grouped = ((eq_iff (type_of e) "data_missing").0 d, refl);
      },
      tt,
    )
    | inr d ↦
        rw d
          (elim (Bool-cases
            (occurs (type_of e) (capability_of q.question_kind).accepted_evidence_types)) [
              | inr a ↦ rw a tt
              | inl a ↦ rw a (
                  go a
                    (matched_group e
                      (contribution_for (capability_of q.question_kind) r.action.kind))
                    refl)
            ])
  ]
    where
      go :
          occurs (type_of e) (capability_of q.question_kind).accepted_evidence_types ≡ true
          → (o : Option String)
          → matched_group e (contribution_for (capability_of q.question_kind) r.action.kind) ≡ o
          → All (IsLinkOf q e) (of_group t r q e o)
      go a none m = tt
      go a (some group) m = (
        record {
          of_question = refl;
          of_action = refl;
          of_evidence = refl;
          typed = typed;
          in_scope = scope;
          grouped = stated-IsGroupOf q e group a (group_of_type-occurs (type_of e) _ m);
        },
        tt,
      )

  links_of_item-IsLinkOf :
      (q : InvestigationQuestion) (e : Evidence Typed)
      → All (IsLinkOf q e) (links_of_item t r q (some e))
  unfolding links_of_item
  links_of_item-IsLinkOf q e =
      elim (Bool-cases (not e.payload.is_typed || not (evidence_scope_matches_question t e q))) [
        | inl b ↦ rw b tt
        | inr b ↦ rw b (links_of_type-IsLinkOf q e (ground (arith, b)) (ground (arith, b)))
      ]

  module _ (qs : List InvestigationQuestion) (evidence : List (Evidence Typed)) where
    link-IsGrounded :
        (q : InvestigationQuestion) (e : Evidence Typed) (key : String)
        → IsAmong q qs
        → is_applicable t r q ≡ true
        → occurs key r.produced_evidence_ids ≡ true
        → get key (by_id evidence []) ≡ some e
        → (l : QuestionEvidenceLink) → IsLinkOf q e l
        → IsGrounded t r qs evidence l
    link-IsGrounded q e key among applicable produced filed l h = record {
      question = q;
      item = e;
      is_asked = among;
      has_question = h.of_question;
      has_action = h.of_action;
      is_applicable_action = applicable;
      key = key;
      is_produced = produced;
      is_filed = filed;
      has_evidence = h.of_evidence;
      is_of_schema = h.typed;
      is_in_scope = h.in_scope;
      is_group = h.grouped;
    }

    found-All :
        (q : InvestigationQuestion) (key : String)
        → IsAmong q qs
        → is_applicable t r q ≡ true
        → occurs key r.produced_evidence_ids ≡ true
        → (o : Option (Evidence Typed)) → get key (by_id evidence []) ≡ o
        → All (IsGrounded t r qs evidence) (links_of_item t r q o)
    unfolding links_of_item
    found-All q key among applicable produced none e = tt
    found-All q key among applicable produced (some x) e =
        All-map (links_of_item t r q (some x)) (link-IsGrounded q x key among applicable produced e)
          (links_of_item-IsLinkOf q x)

    links_of_ids-All :
        (q : InvestigationQuestion) (ids : List String)
        → IsAmong q qs
        → is_applicable t r q ≡ true
        → ((i : String) → occurs i ids ≡ true → occurs i r.produced_evidence_ids ≡ true)
        → All (IsGrounded t r qs evidence) (links_of_ids t r q (by_id evidence []) ids)
    links_of_ids-All q [] among applicable produced = tt
    links_of_ids-All q (i ∷ is) among applicable produced =
        All-append (IsGrounded t r qs evidence) _ _
          (found-All q i among applicable (produced i (rw (eq_refl i) refl))
            (get i (by_id evidence [])) refl)
          (links_of_ids-All q is among applicable (λ j h. produced j (ground (arith, h))))

    resolve_each-All :
        (before after : List InvestigationQuestion)
        → qs ≡ before ++ after
        → All (IsGrounded t r qs evidence) (resolve_each t r (by_id evidence []) after)
    resolve_each-All before [] e = tt
    resolve_each-All before (q ∷ after) e =
        let rest =
          resolve_each-All (before ++ q ∷ []) after (e ∙ sym (snoc-append before q after)) in
        elim (Bool-cases (is_applicable t r q)) [
          | inl a ↦ rw a (
              All-append (IsGrounded t r qs evidence) _ _
                (links_of_ids-All q r.produced_evidence_ids (before, after, e) a (λ i h. h)) rest)
          | inr a ↦ rw a rest
        ]

    -- Every link that is made joins a question of those that are asked, which the action may answer, to a piece of
    -- evidence that the action produced, that is filed, typed and in the question's scope. It states
    -- a lack of data exactly for evidence of that type; otherwise the type is accepted for the question,
    -- the group is one that the action contributes to, and the relation is the evidence's.
    pub resolve-IsGrounded : All (IsGrounded t r qs evidence) (resolve t r qs evidence)
    unfolding resolve
    resolve-IsGrounded = resolve_each-All [] qs refl
