-- ===== src/Setup/Run.antt =====
-- setup/session.py: `run_setup`, the values of the session, and its summary. `str` stands for Python's, of
-- a value.
use arch_installer.Prelude.{
  String, ◌==◌, join, Bool, true, false, Option, none, some, List, [], ◌∷◌, ◌++◌, map,
  if◌then◌else◌,
}
use arch_installer.Prelude.Dict
use arch_installer.Prelude.Dict.{Dict}
use arch_installer.Errors.{Result, ok, err, keyboard_interrupt, key_error, ◌>>=◌ as ◌then◌}
use arch_installer.Config.Value.{Value, truthy, py_eq}
use arch_installer.Config.ValuePrecedence.{SettingValue, apply_tui_choices}
use arch_installer.Install.Questions.{
  Choice, Question, choose_one, choose_many, enter_text, enter_secret, switch, question_label,
}
use arch_installer.Install.Steps.{InstallStep, run_order, step_text}
use arch_installer.Install.Wiring.{StepSetting}
use arch_installer.Install.Registry.{step_settings}
use arch_installer.Setup.Talk.{Talk, pure, raise, or_raise, on_screen, ◌>>=◌}
use arch_installer.Setup.Frontend.{SummaryRow, SetupFrontend}
use arch_installer.Setup.Session.{SetupSession, source_text, list_of, value_or_null}
use arch_installer.Setup.Questions.{ask}

abbrev pub answer_or : Option Value → Option SettingValue → Value
answer_or (some v) inherited = v
answer_or none inherited = value_or_null inherited

-- `SetupSession.value`: the answer, else the inherited value, else None
unfoldable pub current_value : Dict SettingValue → Dict Value → String → Result Value
current_value inherited answers setting_path =
    ok (answer_or (Dict.lookup setting_path answers) (Dict.lookup setting_path inherited))

abbrev pub has_question : Option Question → Bool
has_question none = false
has_question (some question) = true

-- `setting.question is not None and setting.asked_when(session.value)`
unfoldable pub is_asked : Dict SettingValue → StepSetting → Dict Value → Result Bool
is_asked inherited setting answers =
    if has_question setting.question
    then setting.asked_when (current_value inherited answers)
    else ok false

abbrev pub setting_or_key_error : Option SettingValue → Result SettingValue
setting_or_key_error none = err key_error
setting_or_key_error (some setting) = ok setting

abbrev pub offers_of : Option (List Choice) → List Choice
offers_of none = []
offers_of (some choices) = choices

-- the label of the first choice with the value
unfoldable pub label_of : List Choice → Value → String → String
label_of [] v default = default
label_of (choice ∷ choices) v default =
    let rest = label_of choices v default in if py_eq choice.value v then choice.label else rest

abbrev pub joined_or_none : List String → String
joined_or_none texts = let shown = join ", " texts in if shown == "" then "none" else shown

module _ (str : Value → String) where
  unfoldable pub shown : Dict (List Choice) → String → Question → Value → Result String
  shown offers setting_path (enter_secret question) v = ok (if truthy v then "set" else "not set")
  shown offers setting_path (switch question) v =
      ok (if truthy v then question.on_label else question.off_label)
  shown offers setting_path (choose_many question) v =
      list_of v then λ items. ok (joined_or_none (map str items))
  shown offers setting_path (choose_one question) v =
      ok (label_of (offers_of (Dict.lookup setting_path offers)) v (str v))
  shown offers setting_path (enter_text question) v = ok (str v)

  -- the row of a setting that has a question
  abbrev pub rows_of :
      Dict (List Choice)
      → Dict SettingValue
      → String
      → StepSetting
      → Option Question
      → Result (List SummaryRow)
  rows_of offers final step setting none = ok []
  rows_of offers final step setting (some question) =
      setting_or_key_error (Dict.lookup setting.path final) then λ chosen.
      shown offers setting.path question chosen.value then λ value. ok (
        record {
          step = step;
          label = question_label question;
          value = value;
          source = source_text chosen.source;
        }
        ∷ [])

  unfoldable pub summary_rows :
      Dict (List Choice)
      → Dict SettingValue
      → List (String × StepSetting)
      → Result (List SummaryRow)
  summary_rows offers final [] = ok []
  summary_rows offers final ((step, setting) ∷ asked) =
      rows_of offers final step setting setting.question then λ row.
      summary_rows offers final asked then λ rows. ok (row ++ rows)

  unfoldable pub summary : Dict SettingValue → SetupSession → Result (List SummaryRow)
  summary inherited session =
      summary_rows session.offered_choices (apply_tui_choices inherited session.answers)
        session.asked

  module _ (frontend : SetupFrontend) (inherited : Dict SettingValue) where
    -- the settings of one step that are left
    unfoldable pub ask_settings : String → List StepSetting → SetupSession → Talk SetupSession
    ask_settings step [] session = pure session
    ask_settings step (setting ∷ settings) session = do
      asked ← or_raise (is_asked inherited setting session.answers)
      session' ← (if asked then ask str frontend inherited step setting session else pure session)
      ask_settings step settings session'

    unfoldable pub ask_steps : List InstallStep → SetupSession → Talk SetupSession
    ask_steps [] session = pure session
    ask_steps (step ∷ steps) session = do
      session' ← ask_settings (step_text step) (step_settings step) session
      ask_steps steps session'

    abbrev pub new_session : SetupSession
    new_session = record { asked = []; offered_choices = []; answers = [] }

    unfoldable pub run_setup : Talk (Dict Value)
    run_setup = do
      session ← ask_steps run_order new_session
      rows ← or_raise (summary inherited session)
      confirmed ← on_screen (frontend.review rows)
      if confirmed
          then pure session.answers
          else raise (keyboard_interrupt "installation cancelled by user")
