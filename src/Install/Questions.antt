-- ===== src/Install/Questions.antt =====
-- install_steps/questions.py: the questions of the interactive setup. The facts about the machine are
-- the disks that it lists.
use arch_installer.Prelude.{String, Bool, List}
use arch_installer.Config.Value.{Value}

pub record Choice : Type 0 where
  pub value : Value
  pub label : String

pub record Disk : Type 0 where
  pub path : String
  pub model : String
  pub size : String

-- `tuple[Choice, ...] | ChoiceSource`: a source computes them from the inherited value, or asks the
-- machine for its disks too
pub data Choices : Type 0 where
  fixed : List Choice → Choices
  computed : (Value → List Choice) → Choices
  from_disks : (Value → List Disk → List Choice) → Choices

pub record ChooseOne : Type 0 where
  pub label : String
  pub choices : Choices
  pub description : String
  pub typed_prompt : String

pub record ChooseMany : Type 0 where
  pub label : String
  pub choices : List Choice
  pub description : String

pub record EnterText : Type 0 where
  pub label : String
  pub prompt : String

pub record EnterSecret : Type 0 where
  pub label : String
  pub prompt : String
  pub confirm : Bool

pub record Switch : Type 0 where
  pub label : String
  pub on_label : String
  pub off_label : String
  pub description : String

pub data Question : Type 0 where
  choose_one : ChooseOne → Question
  choose_many : ChooseMany → Question
  enter_text : EnterText → Question
  enter_secret : EnterSecret → Question
  switch : Switch → Question

-- `question.label`
abbrev pub question_label : Question → String
question_label (choose_one q) = q.label
question_label (choose_many q) = q.label
question_label (enter_text q) = q.label
question_label (enter_secret q) = q.label
question_label (switch q) = q.label
