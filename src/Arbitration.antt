-- ===== src/Arbitration.antt =====
-- src/dir_core/arbitration.py: the winner among the proposals of parallel agents. Python's `min` with
-- a key returns the first of the minimal items.
pub mod Winner
use decision_intelligence_ru.Prelude.{
  List, Option, [], if◌then◌else◌, ltb_ℤ, none, or_else, pos, some, ℤ, ◌∷◌,
}
use decision_intelligence_ru.Dict
use decision_intelligence_ru.Dict.{Dict}
use decision_intelligence_ru.Models.{PolicyProposal}

unfoldable pub default_priority_matrix : Dict ℤ
default_priority_matrix =
    ("RISK_ALERT", pos 1)
    ∷ ("CLOSE_LONG", pos 2)
    ∷ ("CLOSE", pos 2)
    ∷ ("OPEN_LONG", pos 3)
    ∷ ("TAKE_PROFIT", pos 3)
    ∷ ("ADJUST_STOP", pos 4)
    ∷ ("SENTIMENT_BULLISH", pos 4)
    ∷ ("SENTIMENT_BEARISH", pos 4)
    ∷ ("RISK_OK", pos 5)
    ∷ ("OPEN_POSITION", pos 5)
    ∷ ("NEWS_QUALIFIED", pos 6)
    ∷ ("SENTIMENT_NEUTRAL", pos 7)
    ∷ ("HOLD", pos 10)
    ∷ []

-- `priority_matrix or DEFAULT_PRIORITY_MATRIX`: an empty matrix is false
unfoldable pub matrix_or_default : Option (Dict ℤ) → Dict ℤ
matrix_or_default none = default_priority_matrix
matrix_or_default (some []) = default_priority_matrix
matrix_or_default (some (item ∷ matrix)) = item ∷ matrix

-- `min(best :: rest, key=key)`
unfoldable pub min_by {ℓ} : {A : Type ℓ} → (A → ℤ) → A → List A → A
min_by key best [] = best
min_by key best (x ∷ rest) =
    if ltb_ℤ (key x) (key best) then min_by key x rest else min_by key best rest

module _ {F : Type 0} where
  unfoldable pub get_priority : Dict ℤ → PolicyProposal F → ℤ
  get_priority matrix proposal = or_else (Dict.get proposal.policy_kind matrix) (pos 10)

  unfoldable pub select_winner :
      List (PolicyProposal F) → Option (Dict ℤ) → Option (PolicyProposal F)
  select_winner [] priority_matrix = none
  select_winner (proposal ∷ rest) priority_matrix =
      some (min_by (get_priority (matrix_or_default priority_matrix)) proposal rest)
