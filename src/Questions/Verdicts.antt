-- ===== src/Questions/Verdicts.antt =====
-- The verdict of `review_question_updates` (core/yield_rca_core/question_update_review.py) on one update.
-- The updates that a language model proposes are JSON values.
use autonomous_qwen_react.Prelude.{
  String, Bool, true, false, not, ◌&&◌, List, [], ◌∷◌, any, map, filter, length, ltb, str_eq, Dict,
  get, put, Option, none, some, Result, ok, raise, if◌then◌else◌,
}
use autonomous_qwen_react.Json.{Json, Items, Fields, text, object, item, end}
use autonomous_qwen_react.Policy.Models.{PolicyError, is_filled}
use autonomous_qwen_react.Questions.Kinds.{
  EvidenceGapStatus, opened, closed, gap_status_value, question_kind_value, is_supporting,
  is_unavailable, occurs, is_subset, is_some_item, without,
}
use autonomous_qwen_react.Questions.Registry.{capability_of}
use autonomous_qwen_react.Questions.Models.{
  InvestigationQuestion, QuestionEvidenceLink, CapabilityNotice, QuestionUpdate, payload_get,
  update_from_dict,
}
use autonomous_qwen_react.Questions.Decisions.{
  PlannerDecision, QuestionUpdateReasonCode, malformed_update, non_terminal_status,
  duplicate_question, unknown_question, new_question_conflict, terminal_question, target_overlap,
  unknown_evidence, evidence_not_applicable, insufficient_evidence_coverage, unsupported_capability,
  missing_unavailability_evidence, question_ids, claims_terminal,
}

-- What the review knows, besides the updates themselves.
pub record ReviewContext : Type 0 where
  pub decision : PlannerDecision
  pub questions : List InvestigationQuestion
  pub available_evidence_ids : List String
  pub question_evidence_links : Option (List QuestionEvidenceLink)
  pub capability_notices : List CapabilityNotice

-- The verdict on one update, from which its review is made.
pub data Verdict : Type 0 where
  reject : QuestionUpdateReasonCode → Option String → Option String → Verdict
  accept : QuestionUpdate → Verdict

-- The links that bear on an update of a question: all but those that state a lack of data.
abbrev pub applicable : QuestionUpdate → QuestionEvidenceLink → Bool
applicable u l =
    str_eq l.question_id u.question_id
    && occurs l.evidence_id u.evidence_ids
    && not (is_unavailable l.relation)

abbrev pub applicable_links : QuestionUpdate → List QuestionEvidenceLink → List QuestionEvidenceLink
applicable_links u ls = filter (applicable u) ls

abbrev pub linked_evidence_ids : List QuestionEvidenceLink → List String
linked_evidence_ids ls = map (λ l. l.evidence_id) ls

abbrev pub satisfied_groups : List QuestionEvidenceLink → List String
satisfied_groups ls =
    map (λ l. l.matched_evidence_group) (filter (λ l. is_supporting l.relation) ls)

abbrev pub rejected_update : QuestionUpdateReasonCode → QuestionUpdate → Verdict
rejected_update code u = reject code (some u.question_id) (some (gap_status_value u.status))

-- Whether a notice says that the kind of the question is not supported.
abbrev pub has_unsupported_notice : ReviewContext → InvestigationQuestion → Bool
has_unsupported_notice c q =
    any (λ n. str_eq n.capability (question_kind_value q.question_kind) && not n.supported)
      c.capability_notices

-- A closed answer, against the links if there are any.
abbrev pub by_links :
    InvestigationQuestion → QuestionUpdate → Option (List QuestionEvidenceLink) → Verdict
by_links q u none = accept u
by_links q u (some links) =
    let ls = applicable_links u links in
    if is_some_item (without u.evidence_ids (linked_evidence_ids ls))
    then rejected_update evidence_not_applicable u
    else if is_some_item
        (without (capability_of q.question_kind).closure_evidence_groups (satisfied_groups ls))
    then rejected_update insufficient_evidence_coverage u
    else accept u

abbrev pub judge_closed : ReviewContext → InvestigationQuestion → QuestionUpdate → Verdict
judge_closed c q u =
    if has_unsupported_notice c q
    then rejected_update unsupported_capability u
    else by_links q u c.question_evidence_links

-- Whether a link says that the question's data is missing.
abbrev pub has_unavailable_link : QuestionUpdate → List QuestionEvidenceLink → Bool
has_unavailable_link u links =
    any (λ l. str_eq l.question_id u.question_id && is_unavailable l.relation) links

-- A question without an answer, against the links if there are any.
abbrev pub by_lack :
    ReviewContext
    → InvestigationQuestion
    → QuestionUpdate
    → Option (List QuestionEvidenceLink)
    → Verdict
by_lack c q u none = accept u
by_lack c q u (some links) =
    if not (has_unsupported_notice c q) && not (has_unavailable_link u links)
    then rejected_update missing_unavailability_evidence u
    else accept u

abbrev pub judge_unavailable : ReviewContext → InvestigationQuestion → QuestionUpdate → Verdict
judge_unavailable c q u = by_lack c q u c.question_evidence_links

abbrev pub judge_status :
    ReviewContext → InvestigationQuestion → QuestionUpdate → EvidenceGapStatus → Verdict
judge_status c q u closed = judge_closed c q u
judge_status c q u _ = judge_unavailable c q u

abbrev pub is_opened : EvidenceGapStatus → Bool
is_opened opened = true
is_opened _ = false

-- An update of a question that there is.
abbrev pub judge_current : ReviewContext → QuestionUpdate → InvestigationQuestion → Verdict
judge_current c u q =
    if not (is_opened q.status)
    then rejected_update terminal_question u
    else if occurs u.question_id c.decision.target_question_ids
    then rejected_update target_overlap u
    else if not (is_subset u.evidence_ids c.available_evidence_ids)
    then rejected_update unknown_evidence u
    else judge_status c q u u.status

-- `existing_questions`
unfoldable pub existing_questions :
    List InvestigationQuestion → Dict InvestigationQuestion → Dict InvestigationQuestion
existing_questions [] d = d
existing_questions (q ∷ qs) d = existing_questions qs (put q.question_id q d)

-- An update that passed its own checks.
unfoldable pub judge_update : ReviewContext → QuestionUpdate → Verdict
judge_update c u =
    if occurs u.question_id (question_ids c.decision.new_questions)
    then rejected_update new_question_conflict u
    else elim (get u.question_id (existing_questions c.questions [])) [
      | none ↦ rejected_update unknown_question u
      | some q ↦ judge_current c u q
    ]

-- `_optional_string` of an entry.
abbrev pub optional_string : Option Json → Option String
optional_string (some (text s)) = if is_filled s then some s else none
optional_string _ = none

abbrev pub id_entry : Option Json → List String → List String
id_entry (some (text s)) rest = s ∷ rest
id_entry _ rest = rest

-- The texts at `question_id`, as they are counted.
abbrev pub raw_ids : Items → List String
raw_ids end = []
raw_ids (item (object fs) xs) = id_entry (payload_get "question_id" fs) (raw_ids xs)
raw_ids (item _ xs) = raw_ids xs

-- `question_id in duplicate_question_ids`
abbrev pub is_duplicate : List String → Option String → Bool
is_duplicate ids none = false
is_duplicate ids (some i) = ltb 1 (length (filter (str_eq i) ids))

-- An update with a status, by what it is read as.
abbrev pub judge_read :
    ReviewContext → Option String → String → Result PolicyError QuestionUpdate → Verdict
judge_read c question_id status (raise e) = reject malformed_update question_id (some status)
judge_read c question_id status (ok u) = judge_update c u

abbrev pub judge_claim : ReviewContext → Fields → Option String → Option String → Verdict
judge_claim c fs question_id none = reject malformed_update question_id none
judge_claim c fs question_id (some status) =
    if not (claims_terminal (some status))
    then reject non_terminal_status question_id (some status)
    else judge_read c question_id status (update_from_dict fs)

abbrev pub judge_entries :
    ReviewContext → List String → Fields → Option String → Option String → Verdict
judge_entries c ids fs question_id status =
    if is_duplicate ids question_id
    then reject duplicate_question question_id status
    else judge_claim c fs question_id status

-- One round of the loop over the updates, up to its review.
unfoldable pub judge_raw : ReviewContext → List String → Json → Verdict
judge_raw c ids (object fs) =
    judge_entries c ids fs (optional_string (payload_get "question_id" fs))
      (optional_string (payload_get "status" fs))
judge_raw c ids _ = reject malformed_update none none
