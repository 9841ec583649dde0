-- ===== src/Config/Storage.antt =====
-- A configuration that is saved and loaded again.
use open_switcher.Prelude.{
  ℕ, ◌≡◌, refl, sym, ap, ◌∙◌, subst, Bool, true, false, List, none, some, Result, ok, Result-cases,
  inl, inr, if◌then◌else◌, arith,
}
use open_switcher.Model.Settings
use open_switcher.Model.Settings.{
  LayoutSwitchSource, unknown_source, manual, auto_detected, auto_fallback,
  AutoDetectedLayoutSwitch, ValidationError,
}
use open_switcher.Model.Validation.{validate-accepts}
use open_switcher.Config.Budget.{after_ok}
use open_switcher.Config.{
  AppConfig, AppConfigFile, ConfigError, ConfigCommitOutcome, File, settings, validate,
  check_delays, to_file, from_file, save_to_path, load_or_create, is_automatic, config_of,
  default_auto_detected, or_default, checked_config, Checked, delay_fields, check_schedule, or_max,
  longest_schedule, ◌>>=◌, ◌>>◌, write_content,
}

-- A configuration as the file keeps it: what was detected counts only when the source is automatic.
abbrev pub kept : AppConfig → AppConfig
kept c = record c {
  layout = record c.layout {
    auto_detected =
        if is_automatic c.layout.switch_source
        then c.layout.auto_detected
        else default_auto_detected;
  };
}

abbrev with_auto_detected : AppConfig → AutoDetectedLayoutSwitch → AppConfig
with_auto_detected c a = record c { layout = record c.layout { auto_detected = a } }

auto_detected-kept :
    (automatic : Bool) (a : AutoDetectedLayoutSwitch)
    → or_default (if automatic then some a else none)
      ≡ (if automatic then a else default_auto_detected)
auto_detected-kept true a = refl
auto_detected-kept false a = refl

file-kept : (c : AppConfig) → config_of (to_file c) c.layout.switch_combo ≡ kept c
unfolding to_file
file-kept c =
    ap (with_auto_detected c)
      (auto_detected-kept (is_automatic c.layout.switch_source) c.layout.auto_detected)

validate-kept : (c : AppConfig) (u : Unit {0}) → validate c ≡ ok u → validate (kept c) ≡ ok u
unfolding validate settings
validate-kept c u h =
    let rest : Checked =
      check_delays (delay_fields c) >> check_schedule (or_max (longest_schedule c)) in
    let first = after_ok (Settings.validate (settings c)) (λ _. rest) u h in
    let valid = (validate-accepts (settings c) first.0).0 first.1 in
    let again : Settings.validate (settings (kept c)) ≡ ok (settings (kept c)) =
      (validate-accepts (settings (kept c)) (settings (kept c))).1 (refl, valid.1, valid.2) in
    ap (λ r. r >>= λ _. rest) again ∙ first.2

from_file-to_file :
    (c : AppConfig) (u : Unit {0}) → validate c ≡ ok u → from_file (to_file c) ≡ ok (kept c)
unfolding from_file to_file
from_file-to_file c u h =
    ap (λ x. checked_config x (validate x)) (file-kept c)
    ∙ ap (checked_config (kept c)) (validate-kept c u h)

module _ (print : AppConfigFile → Result (List ℕ) ConfigError)
    (parse : List ℕ → Result AppConfigFile ConfigError)
    (replace : File → List ℕ → File × Result ConfigCommitOutcome ConfigError)
    (read : List ℕ → Result (List ℕ) ConfigError)
    (replaced : (file written : File) (content : List ℕ) (o : ConfigCommitOutcome)
      → replace file content ≡ (written, ok o)
      → written ≡ some content)
    (reads : (content : List ℕ) → read content ≡ ok content) where
  written-found :
      (file written : File) (c : AppConfig) (o : ConfigCommitOutcome)
      → write_content print parse replace read file (print (to_file c)) ≡ (written, ok o)
      → (content : List ℕ) × (print (to_file c) ≡ ok content) × (written ≡ some content)
  written-found file written c o h = elim (Result-cases (print (to_file c))) [
    | inl (content, e) ↦ (content, e, replaced file written content o (rw (e) at h))
    | inr (e, bad) ↦ absurd (ground (arith, bad, h))
  ]

  loaded :
      (c : AppConfig) (u : Unit {0}) (content : List ℕ)
      → validate c ≡ ok u
      → parse content ≡ ok (to_file c)
      → load_or_create print parse replace read (some content) ≡ (some content, ok (kept c))
  unfolding load_or_create
  loaded c u content h e =
      ap (λ r. (some content, r >>= λ a. parse a >>= from_file)) (reads content)
      ∙ ap (λ r. (some content, r >>= from_file)) e
      ∙ ap (λ r. (some content, r)) (from_file-to_file c u h)

  -- When a text that the TOML library prints for a configuration is parsed as what was printed, the file
  -- holds what replaced it, and it can be read: a configuration that was saved
  -- without an error is loaded again, and differs at most in what was detected of the layout switch,
  -- which is the default unless the source is automatic.
  pub load_or_create-save_to_path :
      (file written : File) (c : AppConfig) (o : ConfigCommitOutcome)
      → ((content : List ℕ) → print (to_file c) ≡ ok content → parse content ≡ ok (to_file c))
      → save_to_path print parse replace read file c ≡ (written, ok o)
      → load_or_create print parse replace read written ≡ (written, ok (kept c))
  unfolding save_to_path
  load_or_create-save_to_path file written c o parses h = elim (Result-cases (validate c)) [
    | inl (u, valid) ↦
        let found = written-found file written c o (rw (save_to_path, valid) at h) in
        subst (λ w. load_or_create print parse replace read w ≡ (w, ok (kept c))) (sym found.2)
          (loaded c u found.0 valid (parses found.0 found.1))
    | inr (e, bad) ↦ absurd (ground (arith, bad, h))
  ]
