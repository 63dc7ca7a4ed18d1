-- ===== src/Opinion.antt =====
-- odoo_custom_addons/opinion_reputation_system/models/question.py and user.py, and the other version of
-- them in opinion_reputation_nostr/models/opinion_reputation.py: questions that are settled by votes, and
-- the reputation of a user. Times are seconds; a quotient of floats is compared as a fraction.
pub mod Settling
pub mod Tests
use agu_odoo.Base.{
  ℕ, ◌+◌, ◌*◌, ◌-◌, ◌/◌, Bool, true, false, not, ◌&&◌, Option, none, some, List, [], ◌∷◌, length,
  keep, count_if, leb, ltb, ◌==◌, if◌then◌else◌, map,
}

pub data Answer : Type 0 where
  agree do_not_disagree do_not_agree disagree : Answer

-- `opinion.prediction`
pub record Prediction : Type 0 where
  pub user_id : ℕ
  pub question_id : ℕ
  pub answer : Answer
  pub is_correct : Bool

-- `opinion.question`
pub record Question : Type 0 where
  pub id : ℕ
  pub created_at : ℕ
  pub is_settled : Bool
  pub last_revisited : Option ℕ

-- `p.answer in ['agree', 'do_not_disagree']`
abbrev pub is_agreement : Prediction → Bool
is_agreement p = elim p.answer [
  | agree ↦ true
  | do_not_disagree ↦ true
  | do_not_agree ↦ false
  | disagree ↦ false
]

-- `agreements / total >= 0.8333334`
abbrev pub settles : ℕ → ℕ → Bool
settles agreements total = leb (8_333_334 * total) (10_000_000 * agreements)

abbrev pub of_question : ℕ → Prediction → Bool
of_question id p = p.question_id == id

-- The body of both loops, for the predictions of the question
abbrev pub revisited : ℕ → List Prediction → Question → Question
revisited now votes q =
    if ltb 0 (length votes)
    then record q {
      is_settled = settles (count_if is_agreement votes) (length votes);
      last_revisited = some now;
    }
    else q

-- Four years of 365 days
abbrev pub four_years : ℕ
four_years = 126_144_000

abbrev pub is_due : ℕ → Question → Bool
is_due now q = leb (q.created_at + four_years) now && not q.is_settled

-- `revisit_questions`
unfoldable pub revisit_questions : ℕ → List Prediction → List Question → List Question
revisit_questions now predictions [] = []
revisit_questions now predictions (q ∷ questions) =
    (if is_due now q then revisited now (keep (of_question q.id) predictions) q else q)
    ∷ revisit_questions now predictions questions

-- `revisit_question` of opinion_reputation_nostr: a day is 86400 seconds, and a question of the future
-- is of no age.
unfoldable pub revisit_question : ℕ → List Prediction → Question → Question
revisit_question now predictions q =
    if leb 1460 ((now - q.created_at) / 86_400)
    then revisited now (keep (of_question q.id) predictions) q
    else q

-- A fraction of hundredths
pub record Reputation : Type 0 where
  pub hundredths : ℕ
  pub total : ℕ

abbrev pub is_right : Prediction → Bool
is_right p = p.is_correct

abbrev pub of_user : ℕ → Prediction → Bool
of_user id p = p.user_id == id

-- `_compute_reputation`, of the predictions of the user
unfoldable pub compute_reputation : List Prediction → Reputation
compute_reputation predictions =
    if ltb 0 (length predictions)
    then record { hundredths = count_if is_right predictions * 100; total = length predictions }
    else record { hundredths = 0; total = 1 }

-- `update_reputation` of opinion_reputation_nostr
unfoldable pub update_reputation : ℕ → List Prediction → Reputation → Reputation
update_reputation user_id predictions r =
    let own = keep (of_user user_id) predictions in
    if ltb 0 (length own)
    then record { hundredths = count_if is_right own * 100; total = length own }
    else r
