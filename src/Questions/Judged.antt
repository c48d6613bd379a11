-- ===== src/Questions/Judged.antt =====
-- The verdicts of core/yield_rca_core/question_update_review.py on proposed updates: what each of them
-- carries.
use mathlib.Core.Path.{subst}
use autonomous_qwen_react.Prelude.{
  String, true, false, not, List, Option, none, some, Result, ok, raise, ◌>>◌, ◌≡◌, refl, sym, ap,
  arith, ◌⊎◌, inl, inr, Bool-cases, >>=-eq-ok, raise_if-eq-ok, ok-injective,
}
use autonomous_qwen_react.Json.{Json, Fields, null, number, text, instant, array, object}
use autonomous_qwen_react.Policy.Models.{PolicyError, is_filled, non_empty, string_list}
use autonomous_qwen_react.Questions.Kinds.{EvidenceGapStatus, opened, closed, unavailable}
use autonomous_qwen_react.Questions.Models.{
  QuestionUpdate, check_update, update_from_dict, payload_get, text_entry, status_entry,
  optional_entry, texts_entry, strict_object, check_terminal,
}
use autonomous_qwen_react.Questions.Decisions.{is_accepting, claims_terminal}
use autonomous_qwen_react.Questions.Verdicts.{
  ReviewContext, Verdict, reject, accept, judge_update, optional_string, is_duplicate, judge_read,
  judge_claim, judge_raw,
}
use autonomous_qwen_react.Questions.Justified.{
  IsJustified, FilledIfGiven, IsFair, judge_update-IsFair,
}

pub terminal_status :
    (u : QuestionUpdate)
    → check_terminal u u.status ≡ ok tt
    → (u.status ≡ closed) ⊎ (u.status ≡ unavailable)
terminal_status u h = go u.status refl
  where
    go : (s : EvidenceGapStatus) → u.status ≡ s → (u.status ≡ closed) ⊎ (u.status ≡ unavailable)
    go opened e = absurd (ground (arith, e, h))
    go closed e = inl e
    go unavailable e = inr e

text_entry-eq-ok : (j : Option Json) {s : String} → text_entry j ≡ ok s → j ≡ some (text s)
text_entry-eq-ok none e = cc
text_entry-eq-ok (some (text t)) e = ap (λ x. some (text x)) (ok-injective e)
text_entry-eq-ok (some null) e = cc
text_entry-eq-ok (some (Json.bool b)) e = cc
text_entry-eq-ok (some (number n)) e = cc
text_entry-eq-ok (some (Json.float z p)) e = cc
text_entry-eq-ok (some (instant t)) e = cc
text_entry-eq-ok (some (array xs)) e = cc
text_entry-eq-ok (some (object fs)) e = cc

-- An update that was read passed its checks, and its identifier is the one of the payload.
abbrev pub IsRead : Fields → QuestionUpdate → Type 0
IsRead fs u = (check_update u ≡ ok tt) × (payload_get "question_id" fs ≡ some (text u.question_id))

checked-IsRead :
    (fs : Fields) (w : QuestionUpdate) {u : QuestionUpdate}
    → payload_get "question_id" fs ≡ some (text w.question_id)
    → (check_update w >> ok w) ≡ ok u
    → IsRead fs u
checked-IsRead fs w p e =
    let (_, checked, q) = >>=-eq-ok (check_update w) _ e in
    subst (IsRead fs) (ok-injective q) (checked, p)

update_from_dict-IsRead :
    (fs : Fields) {u : QuestionUpdate} → update_from_dict fs ≡ ok u → IsRead fs u
unfolding update_from_dict
update_from_dict-IsRead fs e =
    let (_, _, e1) = >>=-eq-ok (strict_object _ _ fs) _ e in
    let (i, pi, e2) = >>=-eq-ok (text_entry (payload_get "question_id" fs)) _ e1 in
    let (s, _, e3) = >>=-eq-ok (status_entry (payload_get "status" fs)) _ e2 in
    let (a, _, e4) = >>=-eq-ok (optional_entry (payload_get "answer" fs)) _ e3 in
    let (es, _, e5) = >>=-eq-ok (texts_entry (payload_get "evidence_ids" fs)) _ e4 in
    let (r, _, e6) = >>=-eq-ok (optional_entry (payload_get "unavailable_reason" fs)) _ e5 in
    checked-IsRead fs _ (text_entry-eq-ok (payload_get "question_id" fs) pi) e6

pub check_update-eq-ok :
    (u : QuestionUpdate)
    → check_update u ≡ ok tt
    → (is_filled u.question_id ≡ true) × (check_terminal u u.status ≡ ok tt)
unfolding check_update non_empty
check_update-eq-ok u e =
    let (f, e1) = raise_if-eq-ok (not (is_filled u.question_id)) _ _ e in
    let (_, _, e2) = >>=-eq-ok (string_list u.evidence_ids) _ e1 in (ground (arith, f), e2)

-- The verdict on one proposed update, among those with these identifiers.
abbrev pub IsJudged : ReviewContext → List String → Json → Verdict → Type 0
IsJudged c ids x (reject code question_id status) =
    (is_accepting code ≡ false) × FilledIfGiven question_id × FilledIfGiven status
IsJudged c ids x (accept u) =
    (fs : Fields) × (x ≡ object fs)
    × IsRead fs u
    × (is_duplicate ids (some u.question_id) ≡ false)
    × IsJustified c u

optional_string-FilledIfGiven : (j : Option Json) → FilledIfGiven (optional_string j)
optional_string-FilledIfGiven none = tt
optional_string-FilledIfGiven (some (text t)) = elim (Bool-cases (is_filled t)) [
  | inl e ↦ rw e e
  | inr e ↦ rw e tt
]
optional_string-FilledIfGiven (some null) = tt
optional_string-FilledIfGiven (some (Json.bool b)) = tt
optional_string-FilledIfGiven (some (number n)) = tt
optional_string-FilledIfGiven (some (Json.float z p)) = tt
optional_string-FilledIfGiven (some (instant t)) = tt
optional_string-FilledIfGiven (some (array xs)) = tt
optional_string-FilledIfGiven (some (object fs)) = tt

module _ (c : ReviewContext) (ids : List String) (fs : Fields)
    (single : is_duplicate ids (optional_string (payload_get "question_id" fs)) ≡ false) where
  fair-IsJudged :
      (u : QuestionUpdate)
      → IsRead fs u
      → (v : Verdict) → IsFair c u v
      → IsJudged c ids (object fs) v
  fair-IsJudged u r (reject code question_id status) h = h
  fair-IsJudged u r (accept w) (e, h) =
      let filled = (check_update-eq-ok u r.0).0 in
      subst (λ w. IsJudged c ids (object fs) (accept w)) (sym e)
        (fs, refl, r, rw (r.1, filled) at single, h)

  judge_read-IsJudged :
      (status : String)
      → is_filled status ≡ true
      → (r : Result PolicyError QuestionUpdate) → update_from_dict fs ≡ r
      → IsJudged c ids
          (object fs)
          (judge_read c (optional_string (payload_get "question_id" fs)) status r)
  judge_read-IsJudged status f (raise e) q =
      (refl, optional_string-FilledIfGiven (payload_get "question_id" fs), f)
  judge_read-IsJudged status f (ok u) q =
      let read = update_from_dict-IsRead fs q in
      let (filled, terminal) = check_update-eq-ok u read.0 in
      fair-IsJudged u read (judge_update c u)
        (judge_update-IsFair c u filled (terminal_status u terminal))

  judge_claim-IsJudged :
      (status : Option String)
      → FilledIfGiven status
      → IsJudged c ids
          (object fs)
          (judge_claim c fs (optional_string (payload_get "question_id" fs)) status)
  judge_claim-IsJudged none f =
      (refl, optional_string-FilledIfGiven (payload_get "question_id" fs), tt)
  judge_claim-IsJudged (some s) f = elim (Bool-cases (not (claims_terminal (some s)))) [
    | inl e ↦ rw e (refl, optional_string-FilledIfGiven (payload_get "question_id" fs), f)
    | inr e ↦ rw e (judge_read-IsJudged s f (update_from_dict fs) refl)
  ]

pub judge_raw-IsJudged :
    (c : ReviewContext) (ids : List String) (x : Json) → IsJudged c ids x (judge_raw c ids x)
unfolding judge_raw
judge_raw-IsJudged c ids (object fs) =
    elim (Bool-cases (is_duplicate ids (optional_string (payload_get "question_id" fs)))) [
      | inl e ↦ rw e (
        refl,
        optional_string-FilledIfGiven (payload_get "question_id" fs),
        optional_string-FilledIfGiven (payload_get "status" fs),
      )
      | inr e ↦ rw e (
          judge_claim-IsJudged c ids fs e (optional_string (payload_get "status" fs))
            (optional_string-FilledIfGiven (payload_get "status" fs)))
    ]
judge_raw-IsJudged c ids null = (refl, tt, tt)
judge_raw-IsJudged c ids (Json.bool b) = (refl, tt, tt)
judge_raw-IsJudged c ids (number n) = (refl, tt, tt)
judge_raw-IsJudged c ids (Json.float z p) = (refl, tt, tt)
judge_raw-IsJudged c ids (text s) = (refl, tt, tt)
judge_raw-IsJudged c ids (instant t) = (refl, tt, tt)
judge_raw-IsJudged c ids (array xs) = (refl, tt, tt)
