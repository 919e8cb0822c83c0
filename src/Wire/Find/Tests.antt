-- ===== src/Wire/Find/Tests.antt =====
-- The theorem on the walk of directory entries at a reply of one entry, whose fixed fields are zeroes.
use smb1client_rs.Base.{ℕ, ◌≡◌, ◌↔◌, refl, some, List, [], ◌∷◌, length, replicate, Result, ok}
use smb1client_rs.Wire.Error.{WireError}
use smb1client_rs.Wire.Find.{EntryWords, DirectoryEntry, walk_entries}
use smb1client_rs.Wire.Find.Walk.{Chain, walk_entries_iff}

-- The crate's stand-in: every field is zero.
abbrev zeroes : List ℕ → Result WireError EntryWords
zeroes bytes = ok (record {
  next_entry_offset = 0;
  file_index = 0;
  creation_time = 0;
  last_access_time = 0;
  last_write_time = 0;
  change_time = 0;
  end_of_file = 0;
  allocation_size = 0;
  ext_file_attributes = 0;
  file_name_length = 0;
  ea_size = 0;
  short_name_length = 0;
  reserved = 0;
  short_name = replicate 24 0;
})

abbrev no_name : DirectoryEntry
no_name = record {
  file_index = 0;
  creation_time = 0;
  last_access_time = 0;
  last_write_time = 0;
  change_time = 0;
  end_of_file = 0;
  allocation_size = 0;
  ext_file_attributes = 0;
  ea_size = 0;
  short_name = [];
  file_name = [];
}

one_entry : walk_entries zeroes (replicate 94 0) 1 ≡ some (ok (no_name ∷ []))
unfolding walk_entries
one_entry = refl

walk_entries_iff_example :
    ((r : Result WireError (List DirectoryEntry)) × (walk_entries zeroes (replicate 94 0) 1
        ≡ some r))
    × ((es : List DirectoryEntry)
        → (walk_entries zeroes (replicate 94 0) 1 ≡ some (ok es))
          ↔ (Chain zeroes (replicate 94 0) 0 0 es × (length es ≡ 1)))
walk_entries_iff_example = walk_entries_iff zeroes (replicate 94 0) 1
