-- ===== src/Tests/Imports.antt =====
-- An import of two rows by internal/cli: one for a saved connection, and one for a new one.
use data_mate.Base.{
  all, ◌≡◌, refl, sym, ap, ◌∙◌, true, false, none, some, All, text_eq, if◌then◌else◌, List, [], ◌∷◌,
  Text, bytes, Option, some-injective,
}
use data_mate.Config.Profile.{Profile, Profiles}
use data_mate.Config.Profiles.{Codec}
use data_mate.Config.Database.{Revision}
use data_mate.Cli.Rows.{
  value, refused, add, update, value-injective, HostPin, Row, Item, canceled, failure, no_profile,
}
use data_mate.Cli.Plan.{plan_import}
use data_mate.Cli.Plan.Projected.{PlanEnds, document_of, plan_import-PlanEnds}
use data_mate.Cli.Secrets.{Prompts, complete_secrets}
use data_mate.Cli.Secrets.Added.{complete_secrets_complete, is_served}
use data_mate.Cli.Submit.{Turn, submit_import, enroll_rows}
use data_mate.Cli.Submit.Ended.{Chained}
use data_mate.Cli.Submit.Chain.{IsComplete, submit_import-Chained, submit_import-IsComplete}
use data_mate.Cli.Submit.Enrolled.{endpoints, once, HasPin, enroll_rows-pinned}

abbrev named : Text → Text → Profile
named id alias = record no_profile {
  id = id;
  alias = alias;
  transport = record {
    tls = record { mode = []; ca_file = [] };
    ssh = some (record { host = bytes "h"; port = 22; user = bytes "u"; auth = bytes "password" });
    proxy = none;
  };
}

abbrev saved_main : Profile
saved_main = record no_profile { id = bytes "1"; alias = bytes "main" }

abbrev row_of : Text → Row
row_of alias = record { profile = named (bytes "0") alias; secrets = []; key_file = [] }

abbrev rows : List (Option Text × Row)
rows = (none, row_of (bytes "main")) ∷ (some (bytes "2"), row_of (bytes "extra")) ∷ []

abbrev projected : List Profile
projected = named (bytes "1") (bytes "main") ∷ named (bytes "2") (bytes "extra") ∷ []

-- A codec that knows this document only.
abbrev one_document : Codec
one_document = record {
  parse = λ _. some (document_of projected);
  print = λ _. [];
  parse_profile = λ _. none;
  print_profile = λ _. [];
  digest = λ _. [];
}

plan_import-PlanEnds_example :
    PlanEnds one_document
      (saved_main ∷ [])
      (plan_import one_document (bytes "update") (saved_main ∷ []) rows)
unfolding data_mate.Cli.Plan.plan_rows data_mate.Cli.Plan.plan_row data_mate.Cli.Plan.saved_as
    data_mate.Base.text_eq data_mate.Config.Same.same_profile data_mate.Config.Same.same_pointed
plan_import-PlanEnds_example =
    plan_import-PlanEnds one_document (bytes "update") (saved_main ∷ []) rows
      (λ items last e q f. sym (some-injective f) ∙ ap (λ p. document_of p.1) (value-injective e))

abbrev main_item : Item
main_item = record {
  profile = named (bytes "1") (bytes "main");
  secrets = [];
  key_file = [];
  action = update;
  required = bytes "ssh_password" ∷ [];
  pin = none;
}

abbrev extra_item : Item
extra_item = record main_item {
  profile = named (bytes "2") (bytes "extra");
  action = add;
  required = bytes "password" ∷ bytes "ssh_password" ∷ [];
}

abbrev answers : Prompts
answers = record { key_file = none; ask = λ k. value (bytes "s"); passphrase = value [] }

abbrev main_done : Item
main_done = record main_item { secrets = (bytes "ssh_password", bytes "s") ∷ [] }

abbrev extra_done : Item
extra_done = record extra_item {
  secrets = (bytes "password", bytes "s") ∷ (bytes "ssh_password", bytes "s") ∷ [];
}

complete_secrets_complete_example : all is_served (main_done ∷ extra_done ∷ []) ≡ true
unfolding plan_import data_mate.Cli.Plan.plan_row data_mate.Cli.Plan.saved_as text_eq
    data_mate.Config.Same.same_profile data_mate.Config.Same.same_pointed
    data_mate.Config.Profiles.decode_profiles data_mate.Config.Profiles.canonical
    data_mate.Config.Profiles.is_duplicate data_mate.Base.contains data_mate.Config.Profiles.lowered
    data_mate.Base.to_lower data_mate.Config.Profiles.has_bad_ca data_mate.Config.Profiles.mark
    complete_secrets data_mate.Vault.Secrets.has data_mate.Cli.Secrets.validate_candidate
    data_mate.Base.is_abs data_mate.Base.text_lt data_mate.Base.any data_mate.Base.all
    data_mate.Vault.Secrets.valid_secret data_mate.Cli.Secrets.has_prefix
    data_mate.Cli.Secrets.assign
complete_secrets_complete_example =
    complete_secrets_complete one_document (bytes "update") (saved_main ∷ []) rows (λ _. true) true
      true ((answers, main_item) ∷ (answers, extra_item) ∷ []) (main_done ∷ extra_done ∷ []) refl
      refl refl

abbrev at_start : Revision
at_start = record { digest = bytes "a"; generation = 0 }

abbrev at_main : Revision
at_main = record { digest = bytes "b"; generation = 0 }

abbrev at_extra : Revision
at_extra = record { digest = bytes "c"; generation = 0 }

-- The profiles at the revisions.
abbrev shown : Revision → Profiles
shown r =
    if text_eq r.digest (bytes "a")
    then document_of (saved_main ∷ [])
    else document_of (named (bytes "1") (bytes "main") ∷ [])

abbrev saves : Revision → Revision → Turn
saves before after = record {
  context = false;
  preview = value (shown before, before);
  service = true;
  reply = record {
    outcome =
        some
          (record { revision = some after; profiles_saved = true; publication_uncertain = false });
    error = none;
  };
  done = false;
  trouble = failure;
  written = true;
}

abbrev turns : List (Turn × Item)
turns = (saves at_start at_main, main_done) ∷ (saves at_main at_extra, extra_done) ∷ []

submit_import-Chained_example :
    let w = (submit_import turns at_start).1 in Chained shown (some at_start) w.sent w.last
submit_import-Chained_example = submit_import-Chained shown turns at_start (refl, (refl, tt))

submit_import-IsComplete_example : IsComplete turns (submit_import turns at_start).1
unfolding submit_import data_mate.Config.Database.revision_eq text_eq
submit_import-IsComplete_example =
    submit_import-IsComplete shown turns at_start (refl, (refl, tt)) refl

abbrev pin : HostPin
pin = record { address = bytes "h"; key = bytes "k" }

enroll_rows-pinned_example :
    (once (endpoints ((bytes "h", pin) ∷ [])) ≡ true)
    × All
        (HasPin (λ h p. h) ((bytes "h", pin) ∷ []))
        (record main_done { pin = some pin } ∷ record extra_done { pin = some pin } ∷ [])
unfolding enroll_rows text_eq
enroll_rows-pinned_example =
    enroll_rows-pinned (λ h p. h) ((value pin, main_done) ∷ (refused canceled, extra_done) ∷ [])
      (record main_done { pin = some pin } ∷ record extra_done { pin = some pin } ∷ [])
      ((bytes "h", pin) ∷ []) refl
