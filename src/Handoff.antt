-- ===== src/Handoff.antt =====
-- Cluster/handoff/handoff.go: the store of hints for unreachable nodes and their delivery. The file
-- system, JSON and the path functions of the Go library are the parameter `Os`; `now` is the clock.
-- Sizes are int64, held as their residue modulo 2^64; the mutex makes each method one step. The
-- purge ticker and the goroutine that a reconnect starts are left out.
pub mod Sizes
pub mod Accounting
pub mod Deliver
use Prim.Native.Char.{Char, code}
use Prim.Native.String
use mathlib.Core.List.{lookup}
use dfs_go.Common.{
  ℕ, zero, suc, ◌+◌, ◌-◌, ◌*◌, ◌%◌, ◌^◌, String, List, [], ◌∷◌, ◌++◌, Bool, true, false, Option,
  none, some, leb, ltb, ◌==◌, ◌||◌, if◌then◌else◌, length, drop, string_discrete, test, map, not,
  ◌⊎◌, inl, inr,
}
use dfs_go.Common.Assoc.{insert, keys}

pub record Hint : Type 0 where
  pub key : String
  pub target_addr : String
  pub data_size : ℕ
  pub created_at : ℕ
  pub attempts : ℕ

abbrev pub default_max_hints : ℕ
default_max_hints = 200

-- 24 hours in nanoseconds
abbrev pub default_max_age : ℕ
default_max_age = 24 * 3600 * 10 ^ 9

abbrev pub default_max_data_size : ℕ
default_max_data_size = 512 * 2 ^ 20

abbrev pub max_delivery_attempts : ℕ
max_delivery_attempts = 5

-- why a directory cannot be read
pub data DirError : Type 0 where
  not_exist unreadable : DirError

-- What the store uses of package os, encoding/json, path/filepath and strings. A write reports
-- whether it succeeded.
pub record Os (Disk Bytes : Type 0) : Type 0 where
  pub mkdir_all : Disk → String → Option Disk
  pub write_file : Disk → String → Bytes → Disk × Bool
  pub remove : Disk → String → Disk
  pub read_dir : Disk → String → DirError ⊎ List (String × Bool)
  pub read_file : Disk → String → Option Bytes
  pub marshal : List Hint → Option Bytes
  pub unmarshal : Bytes → Option (List Hint)
  pub join : String → String → String
  pub has_suffix : String → String → Bool

pub record Store (Disk : Type 0) : Type 0 where
  pub hints : List (String × List Hint)
  pub disk : Disk
  pub dir : String
  pub max_hints : ℕ
  pub max_age : ℕ
  pub total_data_size : ℕ
  pub max_data_size : ℕ

pub data Error : Type 0 where
  create_dir_failed : String → Error
  marshal_failed : String → Error
  write_failed : String → Error
  read_dir_failed : Error

-- `+`, `-` and `>` of int64, on residues modulo 2^64
unfoldable pub add64 : ℕ → ℕ → ℕ
add64 a b = (a + b) % 2 ^ 64

unfoldable pub sub64 : ℕ → ℕ → ℕ
sub64 a b = (a + (2 ^ 64 - b)) % 2 ^ 64

unfoldable pub above64 : ℕ → ℕ → Bool
above64 a b = ltb ((b + 2 ^ 63) % 2 ^ 64) ((a + 2 ^ 63) % 2 ^ 64)

-- `h.CreatedAt.After(now.Add(-maxAge))`
unfoldable pub is_fresh : ℕ → ℕ → Hint → Bool
is_fresh max_age now h = ltb now (h.created_at + max_age)

-- the loops that keep some hints in place and take the others off the total
unfoldable pub retain : (Hint → Bool) → ℕ → List Hint → List Hint × ℕ
retain keep size [] = ([], size)
retain keep size (h ∷ hs) =
    let kept = retain keep size hs in
    let less = retain keep (sub64 size h.data_size) hs in
    if keep h then (h ∷ kept.0, kept.1) else less

-- the loop of `UpdateHint`: the first hint of the key
unfoldable pub replace_hint : Hint → List Hint → Option (List Hint)
replace_hint h [] = none
replace_hint h (g ∷ hs) =
    let rest = replace_hint h hs in
    if test (string_discrete g.key h.key)
    then some (h ∷ hs)
    else elim rest [ none ↦ none | some hs' ↦ some (g ∷ hs') ]

-- the loop of `load` that adds up the sizes
unfoldable pub add_sizes : ℕ → List Hint → ℕ
add_sizes size [] = size
add_sizes size (h ∷ hs) = add_sizes (add64 size h.data_size) hs

-- one character of `sanitiseAddr`: ":", "/" and "." become "_"
unfoldable pub sanitise_char : Char → Char
sanitise_char c =
    if code c == 58 then "_" else if code c == 47 then "_" else if code c == 46 then "_" else c

unfoldable pub sanitise_addr : String → String
sanitise_addr String.[] = String.[]
sanitise_addr (String.◌∷◌ c s) = String.◌∷◌ (sanitise_char c) (sanitise_addr s)

-- the eviction of the oldest hint at the cap; `hints[0]` panics only where the most is 0, which
-- `NewStore` replaces
unfoldable pub evict_oldest : ℕ → ℕ → List Hint → List Hint × ℕ
evict_oldest most size [] = ([], size)
evict_oldest most size (h ∷ hs) =
    if leb most (length (h ∷ hs)) then (hs, sub64 size h.data_size) else (h ∷ hs, size)

module _ {Disk : Type 0} where
  -- `s.hints[addr]`, empty where the key is missing
  unfoldable pub hints_of : Store Disk → String → List Hint
  hints_of s addr = elim (lookup string_discrete addr s.hints) [ none ↦ [] | some hs ↦ hs ]

  unfoldable pub set_hints : Store Disk → String → List Hint → Store Disk
  set_hints s addr hs = record s { hints = insert string_discrete addr hs s.hints }

  -- a copy of the hints; a value is its own copy
  unfoldable pub get_hints : Store Disk → String → List Hint
  get_hints s addr = hints_of s addr

  unfoldable pub has_pending : Store Disk → String → Bool
  has_pending s addr = ltb 0 (length (hints_of s addr))

  -- the guard of `AddHint` on the global budget
  unfoldable pub exceeds_budget : Store Disk → ℕ → Bool
  exceeds_budget s size =
      if above64 s.max_data_size 0
      then above64 (add64 s.total_data_size size) s.max_data_size
      else false

module _ {Disk Bytes : Type 0} (os : Os Disk Bytes) where
  unfoldable pub hint_file : Store Disk → String → String
  hint_file s addr = os.join s.dir (String.◌++◌ (sanitise_addr addr) ".hints.json")

  unfoldable pub persist : Store Disk → String → Store Disk × Option Error
  persist s addr = elim (hints_of s addr) [
    | [] ↦ (record s { disk = os.remove s.disk (hint_file s addr) }, none)
    | h ∷ hs ↦ elim (os.marshal (h ∷ hs)) [
      | none ↦ (s, some (marshal_failed addr))
      | some text ↦
          let wrote = os.write_file s.disk (hint_file s addr) text in
          (
            record s { disk = wrote.0 },
            if wrote.1 then none else some (write_failed (hint_file s addr)),
          )
    ]
  ]

  unfoldable pub add_hint : Store Disk → Hint → Store Disk × Option Error
  add_hint s h =
      if exceeds_budget s h.data_size
      then (s, none)
      else (let room = evict_oldest s.max_hints s.total_data_size (hints_of s h.target_addr) in
          let added = set_hints s h.target_addr (room.0 ++ h ∷ []) in
          persist (record added { total_data_size = add64 room.1 h.data_size }) h.target_addr)

  unfoldable pub delete_hint : Store Disk → String → String → Store Disk × Option Error
  delete_hint s addr key =
      let left =
        retain (λ h. not (test (string_discrete h.key key))) s.total_data_size (hints_of s addr) in
      persist (record (set_hints s addr left.0) { total_data_size = left.1 }) addr

  unfoldable pub update_hint : Store Disk → Hint → Store Disk × Option Error
  update_hint s h = elim (replace_hint h (hints_of s h.target_addr)) [
    | none ↦ (s, none)
    | some hs ↦ persist (set_hints s h.target_addr hs) h.target_addr
  ]

  -- the body of the loop of `purgeExpiredLocked`
  unfoldable pub purge_addr : ℕ → Store Disk → String → Store Disk
  purge_addr now s addr =
      let left = retain (is_fresh s.max_age now) s.total_data_size (hints_of s addr) in
      let purged = record s { total_data_size = left.1 } in
      if length left.0 == length (hints_of s addr)
      then purged
      else (persist (set_hints purged addr left.0) addr).0

  unfoldable pub purge_loop : ℕ → List String → Store Disk → Store Disk
  purge_loop now [] s = s
  purge_loop now (addr ∷ addrs) s = purge_loop now addrs (purge_addr now s addr)

  unfoldable pub purge_expired : ℕ → Store Disk → Store Disk
  purge_expired now s = purge_loop now (keys s.hints) s

  -- one directory entry of `load`: its name, and whether it is a directory
  unfoldable pub load_entry : Store Disk → String × Bool → Store Disk
  load_entry s (name, is_dir) =
      if is_dir || not (os.has_suffix name ".hints.json")
      then s
      else (elim (os.read_file s.disk (os.join s.dir name)) [
        | none ↦ s
        | some text ↦ elim (os.unmarshal text) [
          | none ↦ s
          | some [] ↦ s
          | some (h ∷ hs) ↦ record (set_hints s h.target_addr (h ∷ hs)) {
            total_data_size = add_sizes s.total_data_size (h ∷ hs);
          }
        ]
      ])

  unfoldable pub load_entries : List (String × Bool) → Store Disk → Store Disk
  load_entries [] s = s
  load_entries (e ∷ entries) s = load_entries entries (load_entry s e)

  unfoldable pub load : Store Disk → Store Disk × Option Error
  load s = elim (os.read_dir s.disk s.dir) [
    | inl not_exist ↦ (s, none)
    | inl unreadable ↦ (s, some read_dir_failed)
    | inr entries ↦ (load_entries entries s, none)
  ]

  -- a negative limit is handed in as 0; the error, or the store
  unfoldable pub new_store : Disk → String → ℕ → ℕ → ℕ → ℕ → Error ⊎ Store Disk
  new_store disk dir max_hints max_age max_data_size now = elim (os.mkdir_all disk dir) [
    | none ↦ inl (create_dir_failed dir)
    | some disk' ↦
        let loaded = load record {
          hints = [];
          disk = disk';
          dir = dir;
          max_hints = if max_hints == 0 then default_max_hints else max_hints;
          max_age = if max_age == 0 then default_max_age else max_age;
          total_data_size = 0;
          max_data_size = if max_data_size == 0 then default_max_data_size else max_data_size;
        } in
        elim loaded.1 [ none ↦ inr (purge_expired now loaded.0) | some e ↦ inl e ]
  ]

  -- the body of the loop of `deliverPending`, after the call of `deliver`
  unfoldable pub settle : Bool → String → Hint → Store Disk → Store Disk
  settle delivered addr h s =
      let tried = record h { attempts = h.attempts + 1 } in
      if delivered
      then (delete_hint s addr h.key).0
      else if leb max_delivery_attempts tried.attempts
      then (delete_hint s addr h.key).0
      else (update_hint s tried).0

  -- `deliver` may change the world, of which nothing else is seen here but its result
  unfoldable pub deliver_loop : (Hint → Bool) → String → List Hint → Store Disk → Store Disk
  deliver_loop deliver addr [] s = s
  deliver_loop deliver addr (h ∷ hs) s = deliver_loop deliver addr hs (settle (deliver h) addr h s)

  unfoldable pub deliver_pending : (Hint → Bool) → String → Store Disk → Store Disk
  deliver_pending deliver addr s = deliver_loop deliver addr (get_hints s addr) s
