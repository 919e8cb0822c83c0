-- ===== src/Wire/Find.antt =====
-- `walk_entries` of src/wire/find.rs: the chain of directory entries in a reply. What the binrw crate
-- reads of an entry's fixed fields is an argument; a time is the number of its bits.
pub mod Walk
mod Tests
use Prim.Native.String.{String}
use smb1client_rs.Base.{
  ℕ, zero, suc, ◌+◌, ◌%◌, min, ◌==◌, not, ltb, if◌then◌else◌, Option, none, some, List, [], ◌∷◌,
  length, take, get_from, get_to, get_range, Result, ok, err, ok_or, ◌>>=◌,
}
use smb1client_rs.Wire.Error.{
  WireError, truncated, entry_offset_too_small, entry_count_mismatch, invalid_utf16,
}
use smb1client_rs.Rpc.Ndr.{from_utf16, units_of}

abbrev pub min_entry_len : ℕ
min_entry_len = 94

pub record EntryWords : Type 0 where
  pub next_entry_offset : ℕ
  pub file_index : ℕ
  pub creation_time : ℕ
  pub last_access_time : ℕ
  pub last_write_time : ℕ
  pub change_time : ℕ
  pub end_of_file : ℕ
  pub allocation_size : ℕ
  pub ext_file_attributes : ℕ
  pub file_name_length : ℕ
  pub ea_size : ℕ
  pub short_name_length : ℕ
  pub reserved : ℕ
  pub short_name : List ℕ

pub record DirectoryEntry : Type 0 where
  pub file_index : ℕ
  pub creation_time : ℕ
  pub last_access_time : ℕ
  pub last_write_time : ℕ
  pub change_time : ℕ
  pub end_of_file : ℕ
  pub allocation_size : ℕ
  pub ext_file_attributes : ℕ
  pub ea_size : ℕ
  pub short_name : List ℕ
  pub file_name : List ℕ

-- `from_utf16` of src/wire/mod.rs
unfoldable pub decode_utf16 : String → (position : ℕ) → List ℕ → Result WireError (List ℕ)
unfolding from_utf16
decode_utf16 field position bytes =
    if not (length bytes % 2 == 0)
    then err (invalid_utf16 field position bytes)
    else ok_or (from_utf16 (units_of bytes)) (invalid_utf16 field position bytes)

-- A round of the loop up to `entries.push`: where the next entry is, and this one.
unfoldable pub entry_at :
    (List ℕ → Result WireError EntryWords)
    → List ℕ
    → (offset position : ℕ) → Result WireError (ℕ × DirectoryEntry)
unfolding decode_utf16
entry_at read bytes offset position = do
  entry ← ok_or (get_from offset bytes) (truncated "directory entry" offset (length bytes))
  fixed ←
      ok_or (get_to min_entry_len entry) (truncated "directory entry" min_entry_len (length entry))
  words ← read fixed
  raw_name ←
      ok_or (get_range min_entry_len (min_entry_len + words.file_name_length) entry) (
        truncated "directory entry FileName" (min_entry_len + words.file_name_length)
          (length entry))
  short_name ←
      decode_utf16 "ShortName" position
        (take (min words.short_name_length (length words.short_name)) words.short_name)
  file_name ← decode_utf16 "FileName" position raw_name
  ok (
    words.next_entry_offset,
    record {
      file_index = words.file_index;
      creation_time = words.creation_time;
      last_access_time = words.last_access_time;
      last_write_time = words.last_write_time;
      change_time = words.change_time;
      end_of_file = words.end_of_file;
      allocation_size = words.allocation_size;
      ext_file_attributes = words.ext_file_attributes;
      ea_size = words.ea_size;
      short_name = short_name;
      file_name = file_name;
    },
  )

-- What a walk gives, or `none` where its fuel runs out.
abbrev pub Walked : Type 0
Walked = Option (Result WireError (List DirectoryEntry))

abbrev pub with_entry : DirectoryEntry → Walked → Walked
with_entry e none = none
with_entry e (some (err fault)) = some (err fault)
with_entry e (some (ok entries)) = some (ok (e ∷ entries))

-- The rest of a round, with the rounds that follow: the zero that ends the chain is tested first.
abbrev pub walk_round : (offset : ℕ) → (ℕ → Walked) → Result WireError (ℕ × DirectoryEntry) → Walked
walk_round offset walk (err fault) = some (err fault)
walk_round offset walk (ok (next, e)) =
    if next == 0
    then some (ok (e ∷ []))
    else if ltb next min_entry_len
    then some (err (entry_offset_too_small offset next min_entry_len))
    else with_entry e (walk (offset + next))

-- The loop, from an offset on, with the count of the entries before it.
pub walk :
    (fuel : ℕ) → (List ℕ → Result WireError EntryWords) → List ℕ → (offset position : ℕ) → Walked
unfolding entry_at
walk zero read bytes offset position = none
walk (suc fuel) read bytes offset position =
    let round =
      walk_round offset (λ o. walk fuel read bytes o (suc position))
        (entry_at read bytes offset position) in
    if ltb offset (length bytes) then round else some (ok [])

abbrev pub counted : (search_count : ℕ) → Walked → Walked
counted search_count none = none
counted search_count (some (err fault)) = some (err fault)
counted search_count (some (ok entries)) =
    if length entries == search_count
    then some (ok entries)
    else some (err (entry_count_mismatch (length entries) search_count))

-- `walk_entries`: an offset grows by 94 at least, so there are no more rounds than bytes, and one.
unfoldable pub walk_entries :
    (List ℕ → Result WireError EntryWords) → List ℕ → (search_count : ℕ) → Walked
unfolding walk
walk_entries read bytes search_count =
    counted search_count (walk (suc (length bytes)) read bytes 0 0)
