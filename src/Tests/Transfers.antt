-- ===== src/Tests/Transfers.antt =====
-- A registry with two downloads.
use mathlib.Core.List.{lookup}
use dfs_go.Common.{
  ℕ, ◌≡◌, ◌≢◌, refl, String, [], true, false, some, none, contains, ℕ_discrete, string_discrete,
  decimal, inr, ne_of_test,
}
use dfs_go.Common.Assoc.{insert}
use dfs_go.Transfer.{
  download, Manager, Tracked, Speeds, new_manager, register, find, pause, resume, cancel,
  with_status, active, queued,
}
use dfs_go.Transfer.Pausing.{Step, Reach, pause_isolated, resume-pause}

-- whole bytes per second
abbrev whole : Speeds ℕ
whole = record {
  zero_speed = 0;
  rate = λ bytes before time. bytes;
  average = λ instant old. instant;
  is_positive = λ speed. true;
}

abbrev one : Manager ℕ
one = (register decimal whole new_manager download "k" "name" "path" 10 false false true 5).0

abbrev two : Manager ℕ
two = (register decimal whole one download "l" "other" "path" 20 false false true 6).0

abbrev entry : String → String → String → ℕ → ℕ → ℕ → Tracked ℕ
entry id key name size now context = record {
  info = record {
    id = id;
    direction = download;
    status = queued;
    key = key;
    name = name;
    size = size;
    is_dir = false;
    encrypted = false;
    public = true;
    completed_chunks = 0;
    total_chunks = 0;
    bytes_done = 0;
    speed = 0;
    started_at = now;
    error = "";
    file_path = "path";
    output_dir = "";
    dek = [];
  };
  context = context;
  last_bytes = 0;
  last_time = none;
}

two-Reach : Reach decimal whole two
two-Reach =
    Reach.next
      (Reach.next Reach.start (Step.registered download "k" "name" "path" 10 false false true 5))
      (Step.registered download "l" "other" "path" 20 false false true 6)

first_found : find two "1" ≡ some (entry "1" "k" "name" 10 5 0)
unfolding find lookup register new_manager insert string_discrete decimal
first_found = refl

second_found : find two "2" ≡ some (entry "2" "l" "other" 20 6 1)
unfolding find lookup register new_manager insert string_discrete decimal
second_found = refl

abbrev id_one : String
id_one = "1"

abbrev id_two : String
id_two = "2"

apart : id_one ≢ id_two
apart = ne_of_test id_one id_two refl

pause_isolated_example :
    (contains ℕ_discrete (pause two "1").0.cancelled 0 ≡ true)
    × (contains ℕ_discrete (cancel two "1").0.cancelled 0 ≡ true)
    × (contains ℕ_discrete (pause two "1").0.cancelled 1 ≡ contains ℕ_discrete two.cancelled 1)
    × (contains ℕ_discrete (cancel two "1").0.cancelled 1 ≡ contains ℕ_discrete two.cancelled 1)
pause_isolated_example =
    pause_isolated decimal whole two "1" "2" (entry "1" "k" "name" 10 5 0)
      (entry "2" "l" "other" 20 6 1) two-Reach first_found second_found apart

resume-pause_example :
    ((resume (pause two "1").0 "1").1 ≡ inr two.contexts)
    × (find (resume (pause two "1").0 "1").0 "1"
        ≡ some (record (with_status active "" (entry "1" "k" "name" 10 5 0)) {
          context = two.contexts;
        }))
    × ((q : String) → "1" ≢ q → find (resume (pause two "1").0 "1").0 q ≡ find two q)
resume-pause_example = resume-pause two "1" (entry "1" "k" "name" 10 5 0) first_found
