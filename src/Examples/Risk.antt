-- ===== src/Examples/Risk.antt =====
-- Risk records after a change of the thresholds, and beside the digest.
use mathlib.Core.List.{Memᴰ, ◌++◌}
use league_table.Prelude.{
  ◌≡◌, ◌≢◌, refl, false, none, some, [], ◌∷◌, arith, find, filter, map, ◌===◌, count_text,
}
use league_table.Number.Fixed.{Fixed, fixed_number, print_fixed}
use league_table.Model.{Class, Student}
use league_table.Risk.Types.{Level, merge_thresholds}
use league_table.Api.Types.{ok, RiskPatch, RiskSettings, Snapshot, ApiState}
use league_table.Api.Load.{load}
use league_table.Api.Weeks.{evaluation_week}
use league_table.Api.Writes.{save_risk_settings}
use league_table.Api.Standing.{
  RiskRecord, Standing, risk_record_of, history_of, help_text, get_risk_record, get_my_standing,
}
use league_table.Api.Standing.Agrees.{get_my_standing-same}
use league_table.Api.Standing.History.{IsBy, save_risk_settings-rewrites}
use league_table.Api.Digest.{DigestRow, DigestGroup, digest_group}
use league_table.Api.Digest.Flagged.{digest_group-Repeats}
use league_table.Api.Digest.Listed.{Repeats}
use league_table.Store.{ToyStore, get_risk_settings, toy_app_store}
use league_table.Store as Store
use league_table.Store.ReadBack.{toy_app_store-KeepsSettings}
use league_table.Examples.Fixtures.{
  n, no_patch, source, snapshot, cached, env_at, instructor, ada, entry, entries, by_length,
}

-- the class with all of its second week
abbrev two_weeks : Snapshot Fixed
two_weeks = record snapshot {
  entries = entries ++ (entry "e8" "s01" "homework" "w2" (some 8) ∷ []);
}

abbrev before : ApiState Fixed (ToyStore Fixed)
before = record cached { caches = ("c1", two_weeks) ∷ [] }

-- 95 % of attendance are asked for
abbrev stricter : RiskPatch Fixed
stricter = record {
  thresholds = some (record no_patch { attendance_pct = some (n 95) });
  active = none;
}

abbrev saved :
    (settings : RiskSettings Fixed) × ((save_risk_settings source toy_app_store "c1" stricter
        before).0
      ≡ ok settings)
unfolding save_risk_settings Store.save_risk_settings merge_thresholds
saved = (_, refl)

abbrev after : ApiState Fixed (ToyStore Fixed)
unfolding save_risk_settings Store.save_risk_settings merge_thresholds
after = (save_risk_settings source toy_app_store "c1" stricter before).1

abbrev read :
    (r : RiskRecord Fixed) × ((get_risk_record source toy_app_store
        (env_at 120000)
        "c1"
        "s01"
        instructor
        after).0
      ≡ ok r)
unfolding get_risk_record load evaluation_week get_risk_settings risk_record_of history_of
    print_fixed count_text after Store.list_notes
read = (_, refl)

-- the second week is past the check of the attendance
one_line : map (λ l. l.week_number) read.0.history ≡ 2 ∷ []
unfolding read
one_line = refl

save_risk_settings-rewrites_example :
    (snap : Snapshot Fixed) × (student : Student) × ((load source toy_app_store
        (env_at 120000)
        "c1"
        false
        after).0
      ≡ ok snap)
    × (find (λ t. t.id === "s01") snap.students ≡ some student)
    × IsBy saved.0 snap student read.0
unfolding save_risk_settings after
save_risk_settings-rewrites_example =
    save_risk_settings-rewrites source toy_app_store toy_app_store-KeepsSettings (env_at 120000)
      "c1" "s01" instructor stricter before saved.0 read.0 saved.1 read.1

abbrev klass : Class
klass = record { id = "c1"; instructor_id = "i1"; name = "Class 1"; term_id = "t1" }

abbrev digest :
    (g : DigestGroup) × ((digest_group source toy_app_store by_length
        (env_at 130000)
        klass
        none
        "i1"
        after).0
      ≡ ok g)
unfolding digest_group load evaluation_week get_risk_settings print_fixed count_text after
    Store.list_notes
digest = (_, refl)

-- one signal is on
flagged : read.0.level ≢ Level.not_flagged
unfolding read
flagged e = cc

digest_group-Repeats_example :
    (digest.0.week ≡ read.0.week)
    × (row : DigestRow) × Memᴰ row digest.0.rows
    × Repeats "s01" read.0 row
unfolding after
digest_group-Repeats_example =
    digest_group-Repeats by_length source toy_app_store (env_at 120000) (env_at 130000) klass "s01"
      "i1" instructor after two_weeks read.0 digest.0 refl (omega arith) (omega arith) read.1
      flagged digest.1

abbrev standing :
    (own : Standing Fixed) × ((get_my_standing source toy_app_store
        (env_at 130000)
        "c1"
        "s01"
        ada
        after).0
      ≡ ok own)
unfolding get_my_standing get_risk_record load evaluation_week get_risk_settings risk_record_of
    history_of print_fixed count_text after Store.list_notes
standing = (_, refl)

get_my_standing-same_example : standing.0 ≡ record {
  student_id = read.0.student_id;
  display_name = read.0.display_name;
  week = read.0.week;
  level = read.0.level;
  signals = filter (λ s. s.on) read.0.signals;
  metrics = read.0.metrics;
  help = help_text;
}
unfolding after
get_my_standing-same_example =
    get_my_standing-same source toy_app_store (env_at 130000) (env_at 120000) "c1" "s01" ada
      instructor after two_weeks standing.0 read.0 refl (omega arith) (omega arith) standing.1
      read.1
