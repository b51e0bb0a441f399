-- ===== src/Cli/Submit/Chain.antt =====
-- The chain of the requests of an import.
use data_mate.Base.{◌≡◌, refl, false, Option, none, some, List, [], if◌then◌else◌, arith}
use data_mate.Config.Profile.{Profiles}
use data_mate.Config.Database.{Revision}
use data_mate.Cli.Rows.{Trouble, failure, Item}
use data_mate.Cli.Submit.{Turn, Progress, submit_rows, start, submit_import}
use data_mate.Cli.Submit.Ended.{
  AllSettled, Chained, has_error, items_of, enter, Ended, AllShown, submit_rows-Ended,
}

-- The service published what each request asked for, and the import's rows were sent in order.
pub record IsComplete (rows : List (Turn × Item)) (w : Progress) : Type 0 where
  pub in_order : items_of w.sent ≡ enter rows []
  pub without_error : has_error w.sent ≡ false
  pub settled : AllSettled w.sent

module _ (shown : Revision → Profiles) (rows : List (Turn × Item)) (r : Revision) where
  submit_rows-start :
      AllShown shown rows → Ended shown (some r) (enter rows []) (submit_rows rows (start r))
  submit_rows-start s =
      submit_rows-Ended shown (some r) rows (start r) s
        (record { chained = refl; settled = tt; failed = refl })

  -- However an import ends, where every revision shows one state of the profiles: each request expects the revision
  -- that the request before it left, the first the revision that the import was planned at; it is for the profiles
  -- that this revision shows with the row's connection put into them; and a request followed a reply only where
  -- the service had published the change or had rejected it cleanly.
  pub submit_import-Chained :
      AllShown shown rows → let w = (submit_import rows r).1 in Chained shown (some r) w.sent w.last
  unfolding submit_import
  submit_import-Chained s = by_end (submit_rows rows (start r)) (submit_rows-start s)
    where
      by_end :
          (o : Option Trouble × Progress)
          → Ended shown (some r) (enter rows []) o
          → let w =
              (elim o.0 as (λ _. Option Trouble × Progress) [
                | some e ↦ (some e, o.1)
                | none ↦ (if o.1.failed then some failure else none, o.1)
              ]).1 in
            Chained shown (some r) w.sent w.last
      by_end (none, w) g = g.0.chained
      by_end (some e, w) g = g

  -- An import that returns no error sent every row that is added or updated, in order, and the service
  -- replied to each that it is published.
  pub submit_import-IsComplete :
      AllShown shown rows
      → (submit_import rows r).0 ≡ none
      → IsComplete rows (submit_import rows r).1
  unfolding submit_import
  submit_import-IsComplete s = by_end (submit_rows rows (start r)) (submit_rows-start s)
    where
      by_end :
          (o : Option Trouble × Progress)
          → Ended shown (some r) (enter rows []) o
          → let end = elim o.0 as (λ _. Option Trouble × Progress) [
            | some e ↦ (some e, o.1)
            | none ↦ (if o.1.failed then some failure else none, o.1)
          ] in
            end.0 ≡ none → IsComplete rows end.1
      by_end (some e, w) g h = cc
      by_end (none, w) g h = record {
        in_order = g.1;
        without_error = ground (arith, g.0.failed);
        settled = g.0.settled;
      }
