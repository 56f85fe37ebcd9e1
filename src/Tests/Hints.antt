-- ===== src/Tests/Hints.antt =====
-- A store with two hints for one target, over a disk that is a list of files.
use Prim.Native.String
use mathlib.Core.List.{lookup}
use dfs_go.Common.{
  ◌≡◌, refl, String, List, [], ◌∷◌, Bool, true, false, some, string_discrete, arith, test, total,
  All, contains, inl,
}
use dfs_go.Handoff.{not_exist, Hint, Os, Store, hints_of, add_hint, delete_hint, deliver_pending}
use dfs_go.Handoff.Accounting.{IsSound, Step, Steps, Steps-IsSound}
use dfs_go.Handoff.Deliver.{outcome, deliver_pending-outcome}

abbrev Files : Type 0
Files = List (String × List Hint)

abbrev files : Os Files (List Hint)
files = record {
  mkdir_all = λ disk dir. some disk;
  write_file = λ disk path text. ((path, text) ∷ disk, true);
  remove = λ disk path. disk;
  read_dir = λ disk dir. inl not_exist;
  read_file = λ disk path. lookup string_discrete path disk;
  marshal = λ hs. some hs;
  unmarshal = λ hs. some hs;
  join = λ dir name. String.◌++◌ dir name;
  has_suffix = λ name suffix. false;
}

abbrev first : Hint
first = record { key = "k1"; target_addr = "t"; data_size = 10; created_at = 1; attempts = 0 }

abbrev second : Hint
second = record { key = "k2"; target_addr = "t"; data_size = 20; created_at = 2; attempts = 1 }

abbrev third : Hint
third = record { key = "k3"; target_addr = "t"; data_size = 5; created_at = 3; attempts = 0 }

abbrev store : Store Files
store = record {
  hints = ("t", first ∷ second ∷ []) ∷ [];
  disk = [];
  dir = "hints/";
  max_hints = 2;
  max_age = 100;
  total_data_size = 30;
  max_data_size = 40;
}

store-IsSound : IsSound store
store-IsSound = record {
  some_hint = omega arith;
  bounded = omega arith;
  capped = (omega arith, tt);
  counted = unfold total in omega arith;
  in_budget = omega arith;
}

abbrev added : Store Files
added = (add_hint files store third).0

Steps-IsSound_example : IsSound (delete_hint files added "t" "k2").0
Steps-IsSound_example =
    Steps-IsSound files
      (Steps.next
        (Steps.next (Steps.done store) (Step.added store third (omega arith) (omega arith)))
        (Step.deleted added "t" "k2"))
      store-IsSound

-- only the first hint arrives
abbrev deliver : Hint → Bool
deliver h = test (string_discrete h.key "k1")

filed : All (λ h. h.target_addr ≡ "t") (hints_of store "t")
unfolding hints_of lookup string_discrete
filed = (refl, (refl, tt))

deliver_pending-outcome_example :
    (hints_of (deliver_pending files deliver "t" store) "t" ≡ outcome deliver (hints_of store "t"))
    × ((q : String)
        → ¬ ("t" ≡ q)
        → hints_of (deliver_pending files deliver "t" store) q ≡ hints_of store q)
deliver_pending-outcome_example = deliver_pending-outcome files deliver "t" store filed (
    unfold hints_of in
    unfold lookup in unfold contains in unfold string_discrete in (refl, (refl, tt)))
