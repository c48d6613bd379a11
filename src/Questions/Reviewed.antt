-- ===== src/Questions/Reviewed.antt =====
-- `review_question_updates` returns (core/yield_rca_core/question_update_review.py).
use autonomous_qwen_react.Prelude.{
  ℕ, zero, map, suc, ◌≤◌, String, true, false, List, [], ◌∷◌, all, filter, length, str_eq, eq_refl,
  Option, none, some, ok, All, ◌≡◌, refl, ap, ◌∙◌, arith, inl, inr, Bool-cases, >>=-ok,
  has_duplicates,
}
use autonomous_qwen_react.Json.{Json, Items, null, number, text, instant, array, object, item, end}
use autonomous_qwen_react.Policy.Models.{is_filled, non_empty}
use autonomous_qwen_react.Questions.Kinds.{
  EvidenceGapStatus, opened, closed, unavailable, gap_status_value, occurs,
}
use autonomous_qwen_react.Questions.Models.{QuestionUpdate, payload_get, check_terminal}
use autonomous_qwen_react.Questions.Decisions.{
  QuestionUpdateReview, check_review, non_empty_if_given, updated_ids, accepted_question_ids,
  claims_terminal,
}
use autonomous_qwen_react.Questions.Verdicts.{
  ReviewContext, Verdict, reject, accept, judge_raw, raw_ids, id_entry, is_duplicate,
}
use autonomous_qwen_react.Questions.Justified.{IsJustified, FilledIfGiven, filled_status}
use autonomous_qwen_react.Questions.Judged.{IsJudged, judge_raw-IsJudged, check_update-eq-ok}
use autonomous_qwen_react.Questions.Review.{
  review_of, build_review, accepted_update, review_each, items_length,
}

if_given-ok : (o : Option String) → FilledIfGiven o → non_empty_if_given o ≡ ok tt
unfolding non_empty
if_given-ok none f = refl
if_given-ok (some s) f = rw f refl

terminal-claims :
    (u : QuestionUpdate)
    → check_terminal u u.status ≡ ok tt
    → claims_terminal (some (gap_status_value u.status)) ≡ true
terminal-claims u h = go u.status h
  where
    go :
        (s : EvidenceGapStatus)
        → check_terminal u s ≡ ok tt
        → claims_terminal (some (gap_status_value s)) ≡ true
    go opened e = absurd (ground (arith, e))
    go closed e = refl
    go unavailable e = refl

-- An item adds at most one identifier, and takes none away.
raw_ids-item :
    (i : String) (x : Json) (xs : Items)
    → length (filter (str_eq i) (raw_ids xs)) ≤ length (filter (str_eq i) (raw_ids (item x xs)))
raw_ids-item i (object fs) xs = go (payload_get "question_id" fs)
  where
    go :
        (j : Option Json)
        → length (filter (str_eq i) (raw_ids xs))
          ≤ length (filter (str_eq i) (id_entry j (raw_ids xs)))
    go none = omega arith
    go (some (text s)) = ground arith
    go (some null) = omega arith
    go (some (Json.bool b)) = omega arith
    go (some (number n)) = omega arith
    go (some (Json.float z p)) = omega arith
    go (some (instant t)) = omega arith
    go (some (array ys)) = omega arith
    go (some (object gs)) = omega arith
raw_ids-item i null xs = omega arith
raw_ids-item i (Json.bool b) xs = omega arith
raw_ids-item i (number n) xs = omega arith
raw_ids-item i (Json.float z p) xs = omega arith
raw_ids-item i (text s) xs = omega arith
raw_ids-item i (instant t) xs = omega arith
raw_ids-item i (array ys) xs = omega arith

none_found :
    (i : String) (ys : List String) → length (filter (str_eq i) ys) ≤ 0 → occurs i ys ≡ false
none_found i [] h = refl
none_found i (y ∷ ys) h = elim (Bool-cases (str_eq i y)) [
  | inl e ↦ absurd (ground (arith, e, h))
  | inr e ↦ rw e (none_found i ys (ground (arith, e, h)))
]

-- What occurs once at most is no duplicate.
pub no_duplicates :
    (ys zs : List String)
    → ((i : String) → length (filter (str_eq i) ys) ≤ length (filter (str_eq i) zs))
    → All (λ i. length (filter (str_eq i) zs) ≤ 1) ys
    → has_duplicates ys ≡ false
no_duplicates [] zs f h = refl
no_duplicates (y ∷ ys) zs f h =
    rw (none_found y ys (ground (arith, eq_refl y, f y, h.0)))
      (no_duplicates ys zs (λ i. ground (arith, f i)) h.1)

-- `n` indices from `i` on.
abbrev pub indices : ℕ → ℕ → List (Option ℕ)
indices i zero = []
indices i (suc n) = some i ∷ indices (suc i) n

module _ (c : ReviewContext) (ids : List String) where
  -- The updates that the loop accepts, and its reviews.
  abbrev pub updates_of : Items → List QuestionUpdate
  updates_of end = []
  updates_of (item x xs) = accepted_update (judge_raw c ids x) (updates_of xs)

  abbrev pub reviews_of : ℕ → Items → List QuestionUpdateReview
  reviews_of i end = []
  reviews_of i (item x xs) =
      review_of c.decision (some i) (judge_raw c ids x) ∷ reviews_of (suc i) xs

module _ (c : ReviewContext) (ids : List String)
    (named : is_filled c.decision.decision_id ≡ true) where
  build_review-ok :
      (i : ℕ) (x : Json) (v : Verdict)
      → IsJudged c ids x v
      → build_review c.decision (some i) v ≡ ok (review_of c.decision (some i) v)
  unfolding build_review check_review non_empty
  build_review-ok i x (reject code question_id status) h =
      rw (named, if_given-ok question_id h.1, if_given-ok status h.2, h.0) refl
  build_review-ok i x (accept u) (fs, _, read, _, _) =
      let (filled, terminal) = check_update-eq-ok u read.0 in
      rw (named, filled, filled_status u.status, terminal-claims u terminal) refl

  pub review_each-ok :
      (i : ℕ) (xs : Items)
      → review_each c ids i xs ≡ ok (updates_of c ids xs, reviews_of c ids i xs)
  unfolding review_each
  review_each-ok i end = refl
  review_each-ok i (item x xs) =
      >>=-ok _ (build_review-ok i x (judge_raw c ids x) (judge_raw-IsJudged c ids x))
      ∙ >>=-ok _ (review_each-ok (suc i) xs)

  pub accepted_question_ids-reviews :
      (i : ℕ) (xs : Items)
      → accepted_question_ids (reviews_of c ids i xs) ≡ updated_ids (updates_of c ids xs)
  accepted_question_ids-reviews i end = refl
  accepted_question_ids-reviews i (item x xs) =
      go (judge_raw c ids x) (accepted_question_ids-reviews (suc i) xs)
    where
      go :
          (v : Verdict)
          → accepted_question_ids (reviews_of c ids (suc i) xs) ≡ updated_ids (updates_of c ids xs)
          → accepted_question_ids (review_of c.decision (some i) v ∷ reviews_of c ids (suc i) xs)
            ≡ updated_ids (accepted_update v (updates_of c ids xs))
      go (reject code question_id status) e = e
      go (accept u) e = ap (λ is. u.question_id ∷ is) e

  pub reviews-decision :
      (i : ℕ) (xs : Items)
      → all (λ r. str_eq r.decision_id c.decision.decision_id) (reviews_of c ids i xs) ≡ true
  reviews-decision i end = refl
  reviews-decision i (item x xs) = go (judge_raw c ids x) (reviews-decision (suc i) xs)
    where
      go :
          (v : Verdict)
          → all (λ r. str_eq r.decision_id c.decision.decision_id) (reviews_of c ids (suc i) xs)
            ≡ true
          → all
              (λ r. str_eq r.decision_id c.decision.decision_id)
              (review_of c.decision (some i) v ∷ reviews_of c ids (suc i) xs)
            ≡ true
      go (reject code question_id status) e = rw (eq_refl c.decision.decision_id) e
      go (accept u) e = rw (eq_refl c.decision.decision_id) e

  -- The reviews carry the indices of the updates, in their order.
  pub update_index-reviews :
      (i : ℕ) (xs : Items)
      → map (λ r. r.update_index) (reviews_of c ids i xs) ≡ indices i (items_length xs)
  update_index-reviews i end = refl
  update_index-reviews i (item x xs) = go (judge_raw c ids x) (update_index-reviews (suc i) xs)
    where
      go :
          (v : Verdict)
          → map (λ r. r.update_index) (reviews_of c ids (suc i) xs)
            ≡ indices (suc i) (items_length xs)
          → map
              (λ r. r.update_index)
              (review_of c.decision (some i) v ∷ reviews_of c ids (suc i) xs)
            ≡ some i ∷ indices (suc i) (items_length xs)
      go (reject code question_id status) e = ap (λ is. some i ∷ is) e
      go (accept u) e = ap (λ is. some i ∷ is) e

  pub length-reviews : (i : ℕ) (xs : Items) → length (reviews_of c ids i xs) ≡ items_length xs
  length-reviews i end = refl
  length-reviews i (item x xs) = ap suc (length-reviews (suc i) xs)

module _ (c : ReviewContext) (ids : List String) where
  -- Every accepted update is justified, and its identifier is proposed once.
  abbrev pub IsSingle : QuestionUpdate → Type 0
  IsSingle u = (is_duplicate ids (some u.question_id) ≡ false) × IsJustified c u

  pub updates-All : (xs : Items) → All IsSingle (updates_of c ids xs)
  updates-All end = tt
  updates-All (item x xs) = go (judge_raw c ids x) (judge_raw-IsJudged c ids x) (updates-All xs)
    where
      go :
          (v : Verdict)
          → IsJudged c ids x v
          → All IsSingle (updates_of c ids xs)
          → All IsSingle (accepted_update v (updates_of c ids xs))
      go (reject code question_id status) h k = k
      go (accept u) (fs, _, _, single, justified) k = ((single, justified), k)

  -- The accepted updates of a question are not more than its raw ones.
  pub updates-raw_ids :
      (i : String) (xs : Items)
      → length (filter (str_eq i) (updated_ids (updates_of c ids xs)))
        ≤ length (filter (str_eq i) (raw_ids xs))
  updates-raw_ids i end = omega arith
  updates-raw_ids i (item x xs) =
      go (judge_raw c ids x) (judge_raw-IsJudged c ids x) (updates-raw_ids i xs)
    where
      go :
          (v : Verdict)
          → IsJudged c ids x v
          → length (filter (str_eq i) (updated_ids (updates_of c ids xs)))
            ≤ length (filter (str_eq i) (raw_ids xs))
          → length (filter (str_eq i) (updated_ids (accepted_update v (updates_of c ids xs))))
            ≤ length (filter (str_eq i) (raw_ids (item x xs)))
      go (reject code question_id status) h k = ground (arith, k, raw_ids-item i x xs)
      go (accept u) (fs, e, read, _, _) k = rw (e, read.1) (ground (arith, k))
