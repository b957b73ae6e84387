-- ===== src/Setup/Frontend.antt =====
-- setup/frontend.py: the port that an interactive front-end implements.
use arch_installer.Prelude.{String, Bool, List, Option}
use arch_installer.Config.Value.{Value}
use arch_installer.Install.Questions.{Choice, ChooseOne, ChooseMany, EnterText, EnterSecret, Switch}
use arch_installer.Setup.Ui.{Ui}

pub record Inherited (A : Type 0) : Type 0 where
  pub value : A
  pub source : String

pub record SummaryRow : Type 0 where
  pub step : String
  pub label : String
  pub value : String
  pub source : String

pub record SetupFrontend : Type 0 where
  pub switch : String → Switch → Option (Inherited Bool) → Ui Bool
  pub choose_one : String → ChooseOne → List Choice → Option (Inherited Value) → Ui Value
  pub choose_many : String → ChooseMany → Option (Inherited (List Value)) → Ui (List Value)
  pub enter_text : String → EnterText → Option (Inherited String) → Ui String
  pub keep_secret : String → EnterSecret → String → Ui Bool
  pub enter_secret : String → EnterSecret → Ui String
  pub review : List SummaryRow → Ui Bool
