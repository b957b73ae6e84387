-- ===== src/Setup/Questions.antt =====
-- setup/session.py: one question asked, through the front-end. `str` stands for Python's, of a value.
use arch_installer.Prelude.{String, false, Option, none, some, List, [], ◌∷◌, ◌++◌, if◌then◌else◌}
use arch_installer.Prelude.Dict
use arch_installer.Prelude.Dict.{Dict}
use arch_installer.Errors.{ok, type_error}
use arch_installer.Config.Value.{Value, bool, text, truthy}
use arch_installer.Config.ValuePrecedence.{SettingValue}
use arch_installer.Install.Questions.{
  Choice, Choices, fixed, computed, from_disks, ChooseOne, ChooseMany, EnterSecret, Question,
  choose_one, choose_many, enter_text, enter_secret, switch,
}
use arch_installer.Install.Wiring.{StepSetting}
use arch_installer.Setup.Ui.{Ui, pure, or_raise, ◌>>=◌}
use arch_installer.Setup.Talk
use arch_installer.Setup.Talk.{Talk, on_screen, on_machine, ◌>>=◌ as ◌then◌}
use arch_installer.Setup.Machine
use arch_installer.Setup.Frontend.{SetupFrontend}
use arch_installer.Setup.Session.{
  SetupSession, source_text, list_of, value_or_null, inherited_as, inherited_text, kept_or_chosen,
}

-- the choices of a question, asked of the machine if need be
unfoldable pub offered : Choices → Option SettingValue → Talk (List Choice)
offered (fixed choices) inherited = Talk.pure choices
offered (computed choices) inherited = Talk.pure (choices (value_or_null inherited))
offered (from_disks choices) inherited =
    on_machine Machine.disks then λ disks. Talk.pure (choices (value_or_null inherited) disks)

abbrev pub inherited_path : Dict SettingValue → String → Option SettingValue
inherited_path inherited setting_path = Dict.lookup setting_path inherited

module _ (str : Value → String) (frontend : SetupFrontend) where
  -- `_choose_one`, once the choices are known: typed as text where there are none
  unfoldable pub choose_among :
      String
      → String
      → ChooseOne
      → Option SettingValue
      → List Choice
      → Dict (List Choice)
      → Ui (Value × Dict (List Choice))
  choose_among step setting_path question inherited [] offers = do
    typed ←
        frontend.enter_text step (record { label = question.label; prompt = question.typed_prompt })
          (inherited_text str inherited)
    pure (text typed, offers)
  choose_among step setting_path question inherited (choice ∷ choices) offers = do
    shown ← or_raise (inherited_as inherited (λ v. ok v))
    chosen ← frontend.choose_one step question (choice ∷ choices) shown
    pure (chosen, Dict.insert setting_path (choice ∷ choices) offers)

  unfoldable pub choose_some : String → ChooseMany → Option SettingValue → Ui Value
  choose_some step question inherited = do
    shown ← or_raise (inherited_as inherited list_of)
    chosen ← frontend.choose_many step question shown
    or_raise (kept_or_chosen str inherited chosen)

  -- `_secret`, of a setting that has a value or none
  unfoldable pub secret : String → EnterSecret → Option SettingValue → Ui Value
  secret step question none = frontend.enter_secret step question >>= λ typed. pure (text typed)
  secret step question (some setting) = do
    kept ←
        (if truthy setting.value
          then frontend.keep_secret step question (source_text setting.source)
          else pure false)
    if kept
        then pure setting.value
        else (frontend.enter_secret step question >>= λ typed. pure (text typed))

  unfoldable pub answer :
      String
      → String
      → Option Question
      → Option SettingValue
      → Dict (List Choice)
      → Talk (Value × Dict (List Choice))
  answer step setting_path none inherited offers = Talk.raise type_error
  answer step setting_path (some (switch question)) inherited offers = on_screen (do
    switch_state ← or_raise (inherited_as inherited (λ v. ok (truthy v)))
    chosen ← frontend.switch step question switch_state
    pure (bool chosen, offers))
  answer step setting_path (some (choose_one question)) inherited offers =
      offered question.choices inherited then λ choices.
      on_screen (choose_among step setting_path question inherited choices offers)
  answer step setting_path (some (choose_many question)) inherited offers =
      on_screen (choose_some step question inherited >>= λ v. pure (v, offers))
  answer step setting_path (some (enter_text question)) inherited offers = on_screen (do
    typed ← frontend.enter_text step question (inherited_text str inherited)
    pure (text typed, offers))
  answer step setting_path (some (enter_secret question)) inherited offers =
      on_screen (secret step question inherited >>= λ v. pure (v, offers))

  unfoldable pub ask : Dict SettingValue → String → StepSetting → SetupSession → Talk SetupSession
  ask inherited step setting session =
      answer step setting.path setting.question (Dict.lookup setting.path inherited)
        session.offered_choices
      then λ (v, offers). Talk.pure (record {
        asked = session.asked ++ ((step, setting) ∷ []);
        offered_choices = offers;
        answers = Dict.insert setting.path v session.answers;
      })
