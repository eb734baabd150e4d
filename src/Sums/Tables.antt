-- ===== src/Sums/Tables.antt =====
-- Lists as the tables of the store of checked sums, for its examples.
use text.Mathlib.Text.{◌==◌ as ◌===◌}
use text.Mathlib.TextEquality.{eq_iff}
use text.Mathlib.TextPositions.{eq_refl}
use rust_experiments.Prelude.{◌≡◌, refl, some, Bool, true, false, ◌==◌, ==→eq, eq→==}
use rust_experiments.Machine.{Build}
use rust_experiments.Store.ListTable.{list_table}
use rust_experiments.Sums.Defs.{JournalEntry, Services}

unfoldable pub same_bool : Bool → Bool → Bool
same_bool true true = true
same_bool false false = true
same_bool _ _ = false

pub same_bool-eq : (j k : Bool) → same_bool j k ≡ true → j ≡ k
unfolding same_bool
same_bool-eq true true e = refl
same_bool-eq true false e = cc
same_bool-eq false true e = cc
same_bool-eq false false e = refl

pub same_bool_refl : (k : Bool) → same_bool k k ≡ true
unfolding same_bool
same_bool_refl true = refl
same_bool_refl false = refl

abbrev pub services : Services
services = record {
  Bytes = JournalEntry;
  to_vec = λ entry. entry;
  from_slice = some;
  from_slice-to_vec = λ entry. refl;
  counters_table = list_table same_bool same_bool-eq same_bool_refl;
  strings_table = list_table (λ j k. j == k) ==→eq (λ k. eq→== k k refl);
  ids_table = list_table (λ j k. j === k) (λ j k e. (eq_iff j k).0 e) eq_refl;
  journal_table = list_table (λ j k. j == k) ==→eq (λ k. eq→== k k refl);
  meta_table = list_table (λ j k. j === k) (λ j k e. (eq_iff j k).0 e) eq_refl;
}

abbrev pub checked_build : Build
checked_build = record { test = false; overflow_checks = true }
