-- ===== src/RecentFiles.antt =====
-- The list of recent files and its registry format: src/recent_files.cpp and
-- include/mwfl/recent_files.h. A path is the list of its UTF-16 code units. The child Registry has
-- the two functions that talk to the registry.
pub mod Order
pub mod Format
pub mod Registry
mod Tests
use mwfl.Prelude.{
  ℕ, zero, suc, ◌+◌, ◌-◌, ◌*◌, ◌/◌, ◌%◌, ◌^◌, ◌≤◌, ◌<◌, min, max, ◌≡◌, refl, sym, ap, subst, ◌∙◌,
  ◌≢◌, ◌↔◌, ◌⊎◌, inl, inr, Bool, true, false, not, ◌&&◌, ◌||◌, Option, none, some, List, [], ◌∷◌,
  ◌++◌, map, Mem, Nodup, Perm, arith, Text, u64_mod, next_u64, ltb, leb, ◌==◌, if◌then◌else◌,
  ltb→lt, lt→ltb, leb→le, ==_iff, ==_refl, Bool-cases, Option-cases, text_eq, text_eq_iff, opt_eq,
  ◌>>=◌, codes, is_nil, is_some, length, get_elem?, take, drop, insert_at, erase_idx, modify,
  find_index, find, any, erase_if, length-append, length-take, length-drop, length-insert_at,
  length-erase_idx, length-modify, get_elem?-insert_at_self, erase_idx-insert_at, get_elem?_of_lt,
  lt-length_of_get_elem?, mem_of_get_elem?, insert_at-perm, erase_idx-perm, find_index_sound,
  find_index-any, length-map, get_elem?-map, map-insert_at, map-erase_idx, map-modify, shift, All,
  All-append, All-insert_at, All-erase_idx, All-modify, All-take, All-erase_if, All-get_elem?,
  get_elem?-erase_idx_lt, get_elem?-erase_idx_le, heir, get_elem?-min-erase_idx,
}

-- `CompareStringOrdinal` of two texts without regard to case, equal or not, which is
-- symmetric and transitive.
pub record OrdinalApi : Type 0 where
  pub equal_ordinal : Text → Text → Bool
  pub equal_ordinal_comm : (a b : Text) → equal_ordinal a b ≡ equal_ordinal b a
  pub equal_ordinal_trans :
      (a b c : Text)
      → equal_ordinal a b ≡ true
      → equal_ordinal b c ≡ true
      → equal_ordinal a c ≡ true

pub record RecentFileList : Type 0 where
  pub paths : List Text
  pub maximum_entries : ℕ

-- `INT_MAX`.
unfoldable pub int_max : ℕ
int_max = 2147483647

-- The constructor; `none` where it throws.
unfoldable pub create : ℕ → Option RecentFileList
create maximum_entries =
    if maximum_entries == 0
    then none
    else some (record { paths = []; maximum_entries = maximum_entries })

-- `path.empty()`, or it has a null character.
unfoldable pub path_is_invalid : Text → Bool
path_is_invalid path = is_nil path || any (λ c. c == 0) path

abbrev pub without : List Text → Option ℕ → List Text
without paths none = paths
without paths (some i) = erase_idx paths i

-- `existing == end || existing != begin`
abbrev pub is_change : Option ℕ → Bool
is_change none = true
is_change (some i) = not (i == 0)

module _ ⦃os : OrdinalApi⦄ where
  unfoldable pub equal_path : Text → Text → Bool
  equal_path a b =
      if ltb int_max (length a) || ltb int_max (length b) then false else os.equal_ordinal a b

  unfoldable pub add : RecentFileList → Text → RecentFileList × Bool
  add l path =
      if path_is_invalid path
      then (l, false)
      else (let existing = find_index (λ candidate. equal_path candidate path) l.paths in
          (
            record l { paths = take l.maximum_entries (path ∷ without l.paths existing) },
            is_change existing,
          ))

  unfoldable pub remove : RecentFileList → Text → RecentFileList × Bool
  remove l path =
      let rest = erase_if (λ candidate. equal_path candidate path) l.paths in
      (record l { paths = rest }, not (length rest == length l.paths))

abbrev pub clear : RecentFileList → RecentFileList
clear l = record l { paths = [] }
