-- ===== src/Xfer64/CopyPlan.antt =====
-- Destinations of a copy: `refuse_shared_destinations` of crates/xfer64/src-tauri/src/copy_plan.rs, and
-- `fat_name_key` of crates/multi64-sc64-sd/src/partition.rs. A string is the list of its characters, by their
-- numbers. `to_uppercase` and `is_whitespace` of Rust's `char` are parameters. A `HashMap` is a list of entries.
pub mod Index
pub mod Places
pub mod Paths
pub mod Refusing
use multi.Common.{
  ℕ, ◌+◌, ◌-◌, ◌/◌, ◌%◌, ◌^◌, List, [], ◌∷◌, ◌++◌, Option, none, some, map, Bool, true, false, ltb,
  leb, ◌==◌, ◌&&◌, Result, ok, err, if◌then◌else◌,
}
use multi.Common.Keys.{same_key}

-- `trim_start_matches`
abbrev pub trim_start_matches : (ℕ → Bool) → List ℕ → List ℕ
trim_start_matches p [] = []
trim_start_matches p (c ∷ cs) = let rest = trim_start_matches p cs in if p c then rest else c ∷ cs

-- `c` stays in front of what is left behind it, unless nothing is and it matches.
abbrev pub keep_front : (ℕ → Bool) → ℕ → List ℕ → List ℕ
keep_front p c [] = if p c then [] else c ∷ []
keep_front p c (d ∷ ds) = c ∷ d ∷ ds

abbrev pub trim_end_matches : (ℕ → Bool) → List ℕ → List ℕ
trim_end_matches p [] = []
trim_end_matches p (c ∷ cs) = keep_front p c (trim_end_matches p cs)

abbrev pub replace : ℕ → ℕ → List ℕ → List ℕ
replace a b cs = map (λ c. if c == a then b else c) cs

-- The two halves of a character behind the first 2 ^ 16.
abbrev pub encode_char : ℕ → List ℕ
encode_char c =
    if ltb c 0x1_0000
    then c ∷ []
    else (0xD800 + (c - 0x1_0000) / 0x400) ∷ (0xDC00 + (c - 0x1_0000) % 0x400) ∷ []

abbrev pub encode_utf16 : List ℕ → List ℕ
encode_utf16 [] = []
encode_utf16 (c ∷ cs) = encode_char c ++ encode_utf16 cs

pub record Destination : Type 0 where
  pub source : List ℕ
  pub dest : List ℕ
  pub is_dir : Bool
  pub on_cart : Bool

-- The destination that an earlier one shares; the message names the two sources and the place.
pub data Refused : Type 0 where
  shared : Destination → Destination → Refused

abbrev pub Entries : Type 0
Entries = List (List ℕ × Destination)

unfoldable pub destination_at : List ℕ → Entries → Option Destination
destination_at key [] = none
destination_at key ((k, d) ∷ ds) =
    let rest = destination_at key ds in if same_key k key then some d else rest

-- `entry(key).or_insert(d)`
abbrev pub unless_there : Option Destination → List ℕ → Destination → Entries → Entries
unless_there none key d ds = (key, d) ∷ ds
unless_there (some e) key d ds = ds

abbrev pub or_else : Option Destination → Option Destination → Option Destination
or_else (some d) o = some d
or_else none o = o

-- What an item copied earlier has put in the way of a folder, or of a file.
abbrev pub earlier_of : Bool → List ℕ → Entries → Entries → Option Destination
earlier_of true key files dirs = destination_at key files
earlier_of false key files dirs = or_else (destination_at key files) (destination_at key dirs)

-- The files and the folders, with one more item.
abbrev pub files_with : Bool → List ℕ → Destination → Entries → Entries
files_with true key d files = files
files_with false key d files = (key, d) ∷ files

abbrev pub dirs_with : Bool → List ℕ → Destination → Entries → Entries
dirs_with true key d dirs = unless_there (destination_at key dirs) key d dirs
dirs_with false key d dirs = dirs

abbrev pub refused_or :
    Option Destination → Destination → Result Refused (Unit {0}) → Result Refused (Unit {0})
refused_or (some earlier) d rest = err (shared earlier d)
refused_or none d rest = rest

module _ (to_uppercase : ℕ → List ℕ) (is_whitespace : ℕ → Bool) where
  abbrev pub one_unit : ℕ → List ℕ → ℕ
  one_unit unit (single ∷ []) = if leb single 0xFFFF then single else unit
  one_unit unit [] = unit
  one_unit unit (first ∷ second ∷ more) = unit

  unfoldable pub fat_upcase_unit : ℕ → ℕ
  fat_upcase_unit unit =
      if leb 0xD800 unit && leb unit 0xDFFF then unit else one_unit unit (to_uppercase unit)

  unfoldable pub fat_name_key : List ℕ → List ℕ
  unfolding fat_upcase_unit
  fat_name_key name = map fat_upcase_unit (encode_utf16 name)

  abbrev pub trim : List ℕ → List ℕ
  trim s = trim_end_matches is_whitespace (trim_start_matches is_whitespace s)

  unfoldable pub cart_parent_trimmed : List ℕ → List ℕ
  cart_parent_trimmed s =
      trim_end_matches (λ c. c == b'/')
        (trim_start_matches (λ c. c == b'/') (replace 0x5C b'/' (trim s)))

  unfoldable pub pc_path : List ℕ → List ℕ
  pc_path s = trim_end_matches (λ c. c == 0x5C) (replace b'/' 0x5C (trim s))

  unfoldable pub destination_key : Destination → List ℕ
  unfolding fat_name_key cart_parent_trimmed pc_path
  destination_key d =
      fat_name_key (if d.on_cart then cart_parent_trimmed d.dest else pc_path d.dest)

  -- The loop.
  unfoldable pub refuse_loop : List Destination → Entries → Entries → Result Refused (Unit {0})
  unfolding destination_key destination_at
  refuse_loop [] files dirs = ok tt
  refuse_loop (d ∷ ds) files dirs =
      let key = destination_key d in
      let rest = refuse_loop ds (files_with d.is_dir key d files) (dirs_with d.is_dir key d dirs) in
      refused_or (earlier_of d.is_dir key files dirs) d rest

  unfoldable pub refuse_shared_destinations : List Destination → Result Refused (Unit {0})
  unfolding refuse_loop
  refuse_shared_destinations ds = refuse_loop ds [] []
