-- ===== src/Transfer.antt =====
-- Server/transfer/transfer.go: the registry of transfers. A context is a number, and `cancelled`
-- lists those whose cancel function was called. `%08x` and the floating-point speed are parameters;
-- times are in nanoseconds. The two mutexes make each method one step.
pub mod Sound
pub mod Pausing
use mathlib.Core.List.{lookup}
use dfs_go.Common.{
  ℕ, ◌+◌, ◌-◌, ◌*◌, ◌%◌, ◌^◌, String, List, [], ◌∷◌, Bool, true, false, ◌&&◌, Option, none, some,
  ltb, if◌then◌else◌, string_discrete, map, ◌⊎◌, inl, inr,
}
use dfs_go.Common.Assoc.{insert, delete}

pub data Direction : Type 0 where
  upload download : Direction

pub data Status : Type 0 where
  queued active paused completed failed : Status

-- `String` of a direction and of a status
unfoldable pub direction_text : Direction → String
direction_text upload = "upload"
direction_text download = "download"

unfoldable pub status_text : Status → String
status_text queued = "queued"
status_text active = "active"
status_text paused = "paused"
status_text completed = "completed"
status_text failed = "failed"

unfoldable pub is_paused : Status → Bool
is_paused paused = true
is_paused _ = false

pub record TransferInfo (Speed : Type 0) : Type 0 where
  pub id : String
  pub direction : Direction
  pub status : Status
  pub key : String
  pub name : String
  pub size : ℕ
  pub is_dir : Bool
  pub encrypted : Bool
  pub public : Bool
  pub completed_chunks : ℕ
  pub total_chunks : ℕ
  pub bytes_done : ℕ
  pub speed : Speed
  pub started_at : ℕ
  pub error : String
  pub file_path : String
  pub output_dir : String
  pub dek : List ℕ

-- `last_time` is `none` for the zero time
pub record Tracked (Speed : Type 0) : Type 0 where
  pub info : TransferInfo Speed
  pub context : ℕ
  pub last_bytes : ℕ
  pub last_time : Option ℕ

pub record Manager (Speed : Type 0) : Type 0 where
  pub transfers : List (String × Tracked Speed)
  pub counter : ℕ
  pub contexts : ℕ
  pub cancelled : List ℕ

pub data Error : Type 0 where
  not_found : String → Error
  not_paused : String → Status → Error

-- What `UpdateProgress` computes in float64: bytes per second over a time, the moving average of
-- two speeds, and the test for a speed above 0.
pub record Speeds (Speed : Type 0) : Type 0 where
  pub zero_speed : Speed
  pub rate : (bytes before time : ℕ) → Speed
  pub average : (instant old : Speed) → Speed
  pub is_positive : Speed → Bool

module _ {Speed : Type 0} where
  unfoldable pub new_manager : Manager Speed
  new_manager = record { transfers = []; counter = 0; contexts = 0; cancelled = [] }

  -- `m.transfers[id]`
  unfoldable pub find : Manager Speed → String → Option (Tracked Speed)
  find m id = lookup string_discrete id m.transfers

  -- a change through the pointer that the map holds, if it holds one
  unfoldable pub modify : Manager Speed → String → (Tracked Speed → Tracked Speed) → Manager Speed
  modify m id change = elim (find m id) [
    | none ↦ m
    | some t ↦ record m { transfers = insert string_discrete id (change t) m.transfers }
  ]

  -- a call of a context's cancel function
  unfoldable pub cancel_context : Manager Speed → ℕ → Manager Speed
  cancel_context m c = record m { cancelled = c ∷ m.cancelled }

  unfoldable pub with_status : Status → String → Tracked Speed → Tracked Speed
  with_status status error t = record t { info = record t.info { status = status; error = error } }

  unfoldable pub set_status : Manager Speed → String → Status → String → Manager Speed
  set_status m id status error = modify m id (with_status status error)

  unfoldable pub cancel : Manager Speed → String → Manager Speed × Option Error
  cancel m id = elim (find m id) [
    | none ↦ (m, some (not_found id))
    | some t ↦ (
      cancel_context (record m { transfers = delete string_discrete id m.transfers }) t.context,
      none,
    )
  ]

  unfoldable pub pause : Manager Speed → String → Manager Speed × Option Error
  pause m id = elim (find m id) [
    | none ↦ (m, some (not_found id))
    | some t ↦ (
      cancel_context (modify m id (λ u. record u { info = record u.info { status = paused } }))
          t.context,
      none,
    )
  ]

  -- the new context, or the error
  unfoldable pub resume : Manager Speed → String → Manager Speed × (Error ⊎ ℕ)
  resume m id = elim (find m id) [
    | none ↦ (m, inl (not_found id))
    | some t ↦
        if is_paused t.info.status
        then (
          record (modify m id (λ u. record (with_status active "" u) { context = m.contexts })) {
            contexts = m.contexts + 1;
          },
          inr m.contexts,
        )
        else (m, inl (not_paused id t.info.status))
  ]

  unfoldable pub set_output_dir : Manager Speed → String → String → Manager Speed
  set_output_dir m id dir =
      modify m id (λ t. record t { info = record t.info { output_dir = dir } })

  unfoldable pub set_size : Manager Speed → String → ℕ → Manager Speed
  set_size m id size = modify m id (λ t. record t { info = record t.info { size = size } })

  unfoldable pub set_dek : Manager Speed → String → List ℕ → Manager Speed
  set_dek m id dek = modify m id (λ t. record t { info = record t.info { dek = dek } })

  unfoldable pub complete : Manager Speed → String → Manager Speed
  complete m id = modify m id (λ t. record t { info = record t.info { status = completed } })

  unfoldable pub remove : Manager Speed → String → Manager Speed
  remove m id = record m { transfers = delete string_discrete id m.transfers }

  unfoldable pub get : Manager Speed → String → Option (TransferInfo Speed)
  get m id = elim (find m id) [ none ↦ none | some t ↦ some t.info ]

  unfoldable pub list : Manager Speed → List (TransferInfo Speed)
  list m = map (λ e. e.1.info) m.transfers

  module _ (format_id : ℕ → String) (speeds : Speeds Speed) where
    -- the new ID and context are the results
    unfoldable pub register :
        Manager Speed
        → Direction
        → (key name file_path : String) → ℕ
        → (is_dir encrypted public : Bool) → ℕ
        → Manager Speed × String × ℕ
    register m direction key name file_path size is_dir encrypted public now =
        let counter = (m.counter + 1) % 2 ^ 32 in
        let t : Tracked Speed = record {
          info = record {
            id = format_id counter;
            direction = direction;
            status = queued;
            key = key;
            name = name;
            size = size;
            is_dir = is_dir;
            encrypted = encrypted;
            public = public;
            completed_chunks = 0;
            total_chunks = 0;
            bytes_done = 0;
            speed = speeds.zero_speed;
            started_at = now;
            error = "";
            file_path = file_path;
            output_dir = "";
            dek = [];
          };
          context = m.contexts;
          last_bytes = 0;
          last_time = none;
        } in
        (
          record m {
            transfers = insert string_discrete (format_id counter) t m.transfers;
            counter = counter;
            contexts = m.contexts + 1;
          },
          format_id counter,
          m.contexts,
        )

  module _ (speeds : Speeds Speed) where
    -- the speed after an update; a half second is 5 * 10^8 nanoseconds
    unfoldable pub measure : Tracked Speed → ℕ → ℕ → Tracked Speed
    measure t bytes now = elim t.last_time [
      | none ↦
          let dt = now - t.info.started_at in
          let speed = if ltb 0 dt && ltb 0 bytes then speeds.rate bytes 0 dt else t.info.speed in
          record t {
            info = record t.info { speed = speed };
            last_bytes = bytes;
            last_time = some now;
          }
      | some last ↦
          let dt = now - last in
          let instant = speeds.rate bytes t.last_bytes dt in
          let speed =
            if speeds.is_positive t.info.speed
            then speeds.average instant t.info.speed
            else instant in
          if ltb (5 * 10 ^ 8) dt
          then record t {
            info = record t.info { speed = speed };
            last_bytes = bytes;
            last_time = some now;
          }
          else t
    ]

    unfoldable pub update_progress : Manager Speed → String → ℕ → ℕ → ℕ → ℕ → Manager Speed
    update_progress m id done all bytes now = modify m id (λ t.
        measure
          (record t {
            info = record t.info {
              completed_chunks = done;
              total_chunks = all;
              bytes_done = bytes;
            };
          })
          bytes now)
