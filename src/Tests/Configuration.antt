-- ===== src/Tests/Configuration.antt =====
-- The configuration: its longest correction, and a store that keeps the text it is given.
use open_switcher.Prelude.{
  ℕ, ◌≤◌, ◌≡◌, refl, arith, true, List, [], ◌∷◌, none, some, Result, ok, sym, ap,
}
use open_switcher.Model.Schedule.{estimated_correction_schedule_ms}
use open_switcher.Model.Settings
use open_switcher.Config.{
  AppConfigFile, ConfigError, ConfigCommitOutcome, committed, File, validate, default_config,
  to_file, save_to_path, load_or_create,
}
use open_switcher.Config.Budget.{estimated-within}
use open_switcher.Config.Storage.{kept, load_or_create-save_to_path}

default_valid : validate default_config ≡ ok tt
unfolding validate default_config Settings.validate estimated_correction_schedule_ms
default_valid = refl

estimated-within_example :
    (ms : ℕ) × (estimated_correction_schedule_ms 128 1 default_config.layout.delay_ms
        default_config.delays.backspace_ms default_config.delays.typing_ms true
      ≡ some ms)
    × (ms ≤ 4000)
estimated-within_example =
    estimated-within default_config tt 128 1 true default_valid (omega arith) (omega arith)
      (omega arith)

-- A store that keeps what it is given, and a printer and a parser of one configuration.
abbrev print_default : AppConfigFile → Result (List ℕ) ConfigError
print_default f = ok (1 ∷ [])

abbrev parse_default : List ℕ → Result AppConfigFile ConfigError
parse_default content = ok (to_file default_config)

abbrev keep : File → List ℕ → File × Result ConfigCommitOutcome ConfigError
keep file content = (some content, ok committed)

abbrev read_all : List ℕ → Result (List ℕ) ConfigError
read_all content = ok content

default_saved :
    save_to_path print_default parse_default keep read_all none default_config
    ≡ (some (1 ∷ []), ok committed)
unfolding save_to_path
default_saved = rw (save_to_path, default_valid) refl

load_or_create-save_to_path_example :
    load_or_create print_default parse_default keep read_all (some (1 ∷ []))
    ≡ (some (1 ∷ []), ok (kept default_config))
load_or_create-save_to_path_example =
    load_or_create-save_to_path print_default parse_default keep read_all
      (λ file written content o h. sym (ap (λ x. x.0) h)) (λ content. refl) none (some (1 ∷ []))
      default_config committed (λ content e. refl) default_saved
