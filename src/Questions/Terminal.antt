-- ===== src/Questions/Terminal.antt =====
-- `_terminal_question_updates` of core/yield_rca_core/next_action_planner.py: the updates that Python itself
-- proposes when an investigation stops. Of the findings, it reads the summaries.
use autonomous_qwen_react.Prelude.{
  String, Bool, not, ◌&&◌, List, [], ◌∷◌, ◌++◌, filter, find, map, joined, str_eq, codes, codes_lt,
  Option, none, some, Result, ok, ◌>>=◌, ◌>>◌, non_empty, if◌then◌else◌,
}
use autonomous_qwen_react.Prelude.Sorting.{sorted}
use autonomous_qwen_react.Policy.Models.{PolicyError}
use autonomous_qwen_react.Questions.Kinds.{
  closed, unavailable, is_unavailable, occurs, is_subset, is_some_item,
}
use autonomous_qwen_react.Questions.Registry.{capability_of}
use autonomous_qwen_react.Questions.Models.{
  InvestigationQuestion, QuestionEvidenceLink, QuestionUpdate, check_update,
}
use autonomous_qwen_react.Questions.Scope.{Texts}
use autonomous_qwen_react.Questions.Verdicts.{linked_evidence_ids, satisfied_groups}

-- `set(xs)`
unfoldable pub unique_texts : List String → List String
unique_texts [] = []
unique_texts (x ∷ xs) = let rest = unique_texts xs in if occurs x xs then rest else x ∷ rest

abbrev pub earlier_text : String → String → Bool
earlier_text a b = codes_lt (codes a) (codes b)

-- `sorted(set(xs))`
unfoldable pub sorted_set : List String → List String
sorted_set xs = sorted earlier_text (unique_texts xs)

-- `separator.join(xs)`
abbrev pub join : String → List String → String
join separator [] = ""
join separator (x ∷ []) = x
join separator (x ∷ y ∷ xs) = joined x (joined separator (join separator (y ∷ xs)))

-- The links of a question but those that state a lack of data.
abbrev pub is_applicable_to : InvestigationQuestion → QuestionEvidenceLink → Bool
is_applicable_to q l = str_eq l.question_id q.question_id && not (is_unavailable l.relation)

abbrev pub lacks_data : InvestigationQuestion → QuestionEvidenceLink → Bool
lacks_data q l = str_eq l.question_id q.question_id && is_unavailable l.relation

-- `QuestionUpdate(...)`
abbrev pub built_update : QuestionUpdate → Result PolicyError (List QuestionUpdate)
built_update u = do check_update u; ok (u ∷ [])

abbrev pub closed_update : InvestigationQuestion → String → List String → QuestionUpdate
closed_update q answer evidence_ids = record {
  question_id = q.question_id;
  status = closed;
  answer = some answer;
  evidence_ids = evidence_ids;
  unavailable_reason = none;
}

abbrev pub unavailable_update : InvestigationQuestion → String → List String → QuestionUpdate
unavailable_update q reason evidence_ids = record {
  question_id = q.question_id;
  status = unavailable;
  answer = none;
  evidence_ids = evidence_ids;
  unavailable_reason = some reason;
}

abbrev pub by_lacking :
    InvestigationQuestion → Option QuestionEvidenceLink → Result PolicyError (List QuestionUpdate)
by_lacking q none = ok []
by_lacking q (some l) =
    built_update
      (unavailable_update q "The required Evidence source is unavailable." (l.evidence_id ∷ []))

-- The updates of the open questions, one after the other.
abbrev pub each_update :
    (InvestigationQuestion → Result PolicyError (List QuestionUpdate))
    → List InvestigationQuestion
    → Result PolicyError (List QuestionUpdate)
each_update update [] = ok []
each_update update (q ∷ qs) = do us ← update q; rest ← each_update update qs; ok (us ++ rest)

module _ (t : Texts) (summaries : List String) where
  abbrev pub summary_text : String
  summary_text = join " " (filter non_empty (map t.strip summaries))

  -- The summaries, or else this text.
  abbrev pub answer_or : String → String
  answer_or other = if non_empty summary_text then summary_text else other

  abbrev pub closing_of : InvestigationQuestion → List QuestionEvidenceLink → QuestionUpdate
  closing_of q applicable =
      let ids = sorted_set (linked_evidence_ids applicable) in
      closed_update q
        (answer_or (joined "The applicable Evidence supports this Question: " (join ", " ids))) ids

  -- One round of the loop over the open questions.
  unfoldable pub terminal_update :
      List QuestionEvidenceLink → InvestigationQuestion → Result PolicyError (List QuestionUpdate)
  terminal_update links q =
      let applicable = filter (is_applicable_to q) links in
      if is_subset (capability_of q.question_kind).closure_evidence_groups
          (satisfied_groups applicable)
        && is_some_item applicable
      then built_update (closing_of q applicable)
      else by_lacking q (find (lacks_data q) links)

  -- The update of a question when there are no links to go by.
  abbrev pub unlinked_update :
      List String → InvestigationQuestion → Result PolicyError (List QuestionUpdate)
  unlinked_update available q =
      if is_some_item available
      then built_update (
          closed_update q
            (answer_or (
              joined "The available observations are recorded by Evidence IDs "
                (joined (join ", " (sorted_set available)) ".")))
            (sorted_set available))
      else built_update (
          unavailable_update q
            "The deterministic investigation reached its stop boundary without any Evidence that can answer this question."
            [])

  -- `_terminal_question_updates`
  unfoldable pub terminal_question_updates :
      List InvestigationQuestion
      → List String
      → Option (List QuestionEvidenceLink)
      → Result PolicyError (List QuestionUpdate)
  terminal_question_updates open_questions available none =
      each_update (unlinked_update available) open_questions
  terminal_question_updates open_questions available (some links) =
      each_update (terminal_update links) open_questions
