-- ===== src/Cli/Prompts.antt =====
-- cli.py: the secrets that are typed without echo.
use arch_installer.Prelude.{
  String, ◌<>◌, ◌==◌, Bool, not, ◌||◌, Option, none, some, List, [], ◌∷◌, if◌then◌else◌,
}
use arch_installer.Prelude.Dict.{Dict}
use arch_installer.Errors.{Error, configuration_error, keyboard_interrupt, Result, ok, err}
use arch_installer.Config.Environment.{raw}
use arch_installer.Cli.Terminal.{
  Entry, typed, end_of_input, interrupt, Console, Outcome, waiting, failed, ended, Terminal, pure,
  or_raise, ◌>>=◌,
}
use arch_installer.Core.Exec.{Event}

abbrev pub no_terminal : String → Error
no_terminal label = configuration_error (label <> " is needed but there is no terminal to ask on")

-- the rounds of `_ask_secret`; the entry to repeat, where one is asked for again
unfoldable pub ask_rounds :
    String → Bool → List Event → Console → Option String → List Entry → Outcome String
ask_rounds label confirm tr console first [] = waiting tr
ask_rounds label confirm tr console first (end_of_input ∷ entries) = failed (no_terminal label) tr
ask_rounds label confirm tr console first (interrupt ∷ entries) = failed (keyboard_interrupt "") tr
ask_rounds label confirm tr console none (typed secret ∷ entries) =
    let again = ask_rounds label confirm tr console (some secret) entries in
    if not confirm || secret == ""
    then ended secret tr (record console { entries = entries })
    else again
ask_rounds label confirm tr console (some secret) (typed repeated ∷ entries) =
    let anew = ask_rounds label confirm tr console none entries in
    if repeated == secret then ended secret tr (record console { entries = entries }) else anew

unfoldable pub ask_secret : String → Bool → Terminal String
unfolding ask_rounds
ask_secret label confirm tr console = ask_rounds label confirm tr console none console.entries

unfoldable pub secret_from_environment_or_prompt :
    Dict String → String → String → Bool → Terminal String
secret_from_environment_or_prompt variables variable label confirm =
    if raw variables variable == "" then ask_secret label confirm else pure (raw variables variable)

abbrev pub key_or_raise : String → Result String
key_or_raise secrets_key =
    if secrets_key == ""
    then err (configuration_error "A secrets key is required (ARCH_INSTALLER_SECRETS_KEY)")
    else ok secrets_key

unfoldable pub required_secrets_key : Dict String → Bool → Terminal String
unfolding secret_from_environment_or_prompt
required_secrets_key variables confirm = do
  secrets_key ←
      secret_from_environment_or_prompt variables "ARCH_INSTALLER_SECRETS_KEY" "Secrets key" confirm
  or_raise (key_or_raise secrets_key)
