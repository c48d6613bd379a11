-- ===== src/Queue/Histories.antt =====
-- Reading the events of a job back by `list_events` (backend/yield_rca_api/store.py).
use autonomous_qwen_react.Prelude.{
  ℕ, zero, suc, String, true, false, ◌+◌, ◌-◌, ◌≡◌, refl, sym, ap, ◌∙◌, List, [], ◌∷◌, ◌++◌, map,
  filter, length, drop, up_to, arith, ltb, leb, inl, inr, Bool-cases,
}
use autonomous_qwen_react.Queue.Records.{EventRecord}
use autonomous_qwen_react.Queue.Store.{Store, empty, events_of}
use autonomous_qwen_react.Queue.Clients.{list_events}
use autonomous_qwen_react.Queue.Invariant.{empty-Inv}
use autonomous_qwen_react.Queue.Runs.{Reach}
use autonomous_qwen_react.Queue.Lifecycle.{Reach-Inv}

-- m + 1, ..., m + n
range : ℕ → ℕ → List ℕ
range m zero = []
range m (suc n) = suc m ∷ range (suc m) n

range-snoc : (m n : ℕ) → range m (suc n) ≡ range m n ++ suc (m + n) ∷ []
unfolding range
range-snoc m zero = ap (λ k. suc k ∷ []) (omega arith)
range-snoc m (suc n) =
    ap (◌∷◌ (suc m)) (range-snoc (suc m) n ∙ ap (λ k. range (suc m) n ++ suc k ∷ []) (omega arith))

up_to-range : (n : ℕ) → up_to n ≡ range 0 n
unfolding range
up_to-range zero = refl
up_to-range (suc n) =
    ap (λ ns. ns ++ suc n ∷ []) (up_to-range n)
    ∙ ap (λ k. range 0 n ++ suc k ∷ []) (omega arith)
    ∙ sym (range-snoc 0 n)

drop-nil : (n : ℕ) → drop {A = EventRecord} n [] ≡ []
drop-nil zero = refl
drop-nil (suc n) = refl

head_eq : {a b : ℕ} {as' bs : List ℕ} → a ∷ as' ≡ b ∷ bs → a ≡ b
head_eq e = cc

tail_eq : {a b : ℕ} {as' bs : List ℕ} → a ∷ as' ≡ b ∷ bs → as' ≡ bs
tail_eq e = cc

filter-drop :
    (m n : ℕ) (es : List EventRecord)
    → map (λ e. e.sequence) es ≡ range m (length es)
    → filter (λ e. ltb n e.sequence) es ≡ drop (n - m) es
unfolding range
filter-drop m n [] h = sym (drop-nil (n - m))
filter-drop m n (e ∷ es) h = elim (Bool-cases (leb n m)) [
  | inl b ↦
      let test : ltb n e.sequence ≡ true = ground (arith, head_eq h) in
      let none_dropped : n - m ≡ zero = ground arith in
      let none_later : n - suc m ≡ zero = ground arith in
      rw (test, none_dropped)
        (ap (◌∷◌ e) (filter-drop (suc m) n es (tail_eq h) ∙ rw none_later refl))
  | inr b ↦
      let test : ltb n e.sequence ≡ false = ground (arith, head_eq h) in
      let one_dropped : n - m ≡ suc (n - suc m) = ground arith in
      rw (test, one_dropped) (filter-drop (suc m) n es (tail_eq h))
]

-- In every store that a run makes from the empty one, the events of a job are numbered 1, 2, ... in the order in which
-- they were appended, and `list_events` with `after_sequence = n` returns all of them but the first n.
pub list_events-drop :
    (s : Store) (j : String) (n : ℕ)
    → Reach empty s
    → (map (λ e. e.sequence) (events_of s j) ≡ up_to (length (events_of s j)))
      × (list_events s j n ≡ drop n (events_of s j))
unfolding list_events
list_events-drop s j n q = (
  counted,
  filter-drop 0 n (events_of s j) (counted ∙ up_to-range (length (events_of s j)))
      ∙ ap (λ i. drop i (events_of s j)) (omega arith),
)
  where
    counted : map (λ e. e.sequence) (events_of s j) ≡ up_to (length (events_of s j))
    counted = (Reach-Inv empty-Inv q).events_counted j
