-- ===== src/Opinion/Tests.antt =====
-- Votes on an old question: exactly five sixths agree.
use agu_odoo.Base.{◌≡◌, refl, true, false, none, List, [], ◌∷◌, arith, map}
use agu_odoo.Opinion.{
  Prediction, Question, Answer, agree, do_not_disagree, disagree, revisit_questions,
  compute_reputation, update_reputation,
}
use agu_odoo.Opinion.Settling.{revisited_if_due, revisit_questions-eq}

abbrev vote : Answer → Prediction
vote a = record { user_id = 7; question_id = 1; answer = a; is_correct = true }

abbrev five_of_six : List Prediction
five_of_six =
    vote agree ∷ vote agree ∷ vote agree ∷ vote agree ∷ vote do_not_disagree ∷ vote disagree ∷ []

abbrev question : Question
question = record { id = 1; created_at = 0; is_settled = false; last_revisited = none }

five_sixths_do_not_settle :
    map (λ (q : Question). q.is_settled) (revisit_questions 130_000_000 five_of_six (question ∷ []))
    ≡ false ∷ []
unfolding revisit_questions
five_sixths_do_not_settle = refl

six_of_seven_settle :
    map
      (λ (q : Question). q.is_settled)
      (revisit_questions 130_000_000 (vote agree ∷ five_of_six) (question ∷ []))
    ≡ true ∷ []
unfolding revisit_questions
six_of_seven_settle = refl

same_reputation :
    update_reputation 7 five_of_six (compute_reputation []) ≡ compute_reputation five_of_six
unfolding update_reputation compute_reputation
same_reputation = refl

revisit_questions-eq_example :
    revisit_questions 130_000_000 five_of_six (question ∷ [])
    ≡ map (revisited_if_due 130_000_000 five_of_six) (question ∷ [])
revisit_questions-eq_example =
    revisit_questions-eq 130_000_000 five_of_six (question ∷ []) (omega arith)
