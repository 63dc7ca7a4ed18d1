-- ===== src/Opinion/Settling.antt =====
-- When a question is settled, and that the two addons revisit a question alike.
use agu_odoo.Base.{
  ℕ, ◌+◌, ◌*◌, ◌-◌, ◌/◌, ◌≤◌, ◌<◌, ◌≡◌, refl, Bool, true, false, ◌&&◌, inl, inr, some, List, [],
  ◌∷◌, length, keep, map, count_if, leb, ltb, if◌then◌else◌, arith, Bool-cases,
}
use agu_odoo.Opinion.{
  Prediction, Question, is_agreement, settles, of_question, revisited, four_years, is_due,
  revisit_questions, revisit_question,
}

-- What a revisit is meant to do: settle a question if more than five sixths of its votes agree.
abbrev pub five_sixths : ℕ → List Prediction → Question → Question
five_sixths now votes q =
    if ltb 0 (length votes)
    then record q {
      is_settled = ltb (5 * length votes) (6 * count_if is_agreement votes);
      last_revisited = some now;
    }
    else q

abbrev pub revisited_if_due : ℕ → List Prediction → Question → Question
revisited_if_due now predictions q =
    if is_due now q then five_sixths now (keep (of_question q.id) predictions) q else q

settles-eq :
    (agreements total : ℕ)
    → 0 < total
    → total ≤ 2_000_000
    → settles agreements total ≡ ltb (5 * total) (6 * agreements)
settles-eq agreements total some_votes few = ground arith

length-keep : (p : Prediction → Bool) (xs : List Prediction) → length (keep p xs) ≤ length xs
length-keep p [] = omega arith
length-keep p (x ∷ xs) = elim (Bool-cases (p x)) [
  | inl h ↦ rw h (let rest = length-keep p xs in omega arith)
  | inr h ↦ rw h (let rest = length-keep p xs in omega arith)
]

revisited-eq :
    (now : ℕ) (votes : List Prediction) (q : Question)
    → length votes ≤ 2_000_000
    → revisited now votes q ≡ five_sixths now votes q
revisited-eq now votes q few = elim (Bool-cases (ltb 0 (length votes))) [
  | inl h ↦ rw (h, settles-eq (count_if is_agreement votes) (length votes) (ground arith) few) refl
  | inr h ↦ rw h refl
]

-- With at most two million predictions, `revisit_questions` changes exactly the questions that are four
-- years old, not settled and have votes: such a question gets the time, and it is settled if more than
-- five sixths of its votes agree. With exactly five sixths it is not.
pub revisit_questions-eq :
    (now : ℕ) (predictions : List Prediction) (questions : List Question)
    → length predictions ≤ 2_000_000
    → revisit_questions now predictions questions ≡ map (revisited_if_due now predictions) questions
unfolding revisit_questions
revisit_questions-eq now predictions [] few = refl
revisit_questions-eq now predictions (q ∷ questions) few =
    let fewer : length (keep (of_question q.id) predictions) ≤ 2_000_000 =
      let rest = length-keep (of_question q.id) predictions in omega arith in
    rw
      (
        revisited-eq now (keep (of_question q.id) predictions) q fewer,
        revisit_questions-eq now predictions questions few,
      )
      refl

and_true : (b : Bool) → (b && true) ≡ b
and_true true = refl
and_true false = refl

-- The two addons revisit a question that is not settled alike: counting whole days of its age, as one
-- does, or comparing the time four years ago, as the other one does, makes no difference.
pub revisit_question-eq :
    (now : ℕ) (predictions : List Prediction) (q : Question)
    → q.is_settled ≡ false
    → revisit_questions now predictions (q ∷ []) ≡ revisit_question now predictions q ∷ []
unfolding revisit_questions revisit_question
revisit_question-eq now predictions q unsettled =
    let same : leb (q.created_at + four_years) now ≡ leb 1460 ((now - q.created_at) / 86_400) =
      ground arith in
    rw (unsettled, same, and_true (leb 1460 ((now - q.created_at) / 86_400))) refl
