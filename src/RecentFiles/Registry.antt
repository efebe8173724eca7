-- ===== src/RecentFiles/Registry.antt =====
-- `LoadRecentFilesFromRegistry` and `SaveRecentFilesToRegistry` of src/recent_files.cpp. The registry
-- is a parameter: a type of its states and the calls that the source makes, each with the error code
-- or what it delivers. A handle that is open stays valid, and closing it changes nothing.
pub mod Saved
use mwfl.Prelude.{
  ℕ, zero, suc, ◌+◌, ◌-◌, ◌*◌, ◌/◌, ◌%◌, ◌^◌, ◌≤◌, ◌<◌, min, max, ◌≡◌, refl, sym, ap, subst, ◌∙◌,
  ◌≢◌, ◌↔◌, ◌⊎◌, inl, inr, Bool, true, false, not, ◌&&◌, ◌||◌, Option, none, some, List, [], ◌∷◌,
  ◌++◌, map, Mem, Nodup, Perm, arith, Text, u64_mod, next_u64, ltb, leb, ◌==◌, if◌then◌else◌,
  ltb→lt, lt→ltb, leb→le, ==_iff, ==_refl, Bool-cases, Option-cases, text_eq, text_eq_iff, opt_eq,
  ◌>>=◌, codes, is_nil, is_some, length, get_elem?, take, drop, insert_at, erase_idx, modify,
  find_index, find, any, erase_if, length-append, length-take, length-drop, length-insert_at,
  length-erase_idx, length-modify, get_elem?-insert_at_self, erase_idx-insert_at, get_elem?_of_lt,
  lt-length_of_get_elem?, mem_of_get_elem?, insert_at-perm, erase_idx-perm, find_index_sound,
  find_index-any, length-map, get_elem?-map, map-insert_at, map-erase_idx, map-modify, shift, All,
  All-append, All-insert_at, All-erase_idx, All-modify, All-take, All-erase_if, All-get_elem?,
  get_elem?-erase_idx_lt, get_elem?-erase_idx_le, heir, get_elem?-min-erase_idx,
}
use mwfl.RecentFiles.{OrdinalApi, RecentFileList, create, add}
use mwfl.RecentFiles.Format.{encode, parse}

pub data SettingsStatus : Type 0 where
  success not_found access_denied invalid_data io_error : SettingsStatus

pub record LoadResult : Type 0 where
  pub value : Option RecentFileList
  pub status : SettingsStatus
  pub native_error : ℕ

pub record WriteResult : Type 0 where
  pub status : SettingsStatus
  pub native_error : ℕ

-- The calls; a value is its type and its bytes, and `query_value` is given the size of the buffer.
pub record RegistryApi (S Key : Type 0) : Type 0 where
  pub open_key : S → ℕ → Text → ℕ ⊎ Key
  pub create_key : S → ℕ → Text → ℕ ⊎ (S × Key)
  pub set_value : S → Key → Text → ℕ → List ℕ → S × ℕ
  pub query_size : S → Key → Text → ℕ ⊎ (ℕ × ℕ)
  pub query_value : S → Key → Text → ℕ → ℕ ⊎ (ℕ × List ℕ)

-- `ERROR_INVALID_DATA`, `ERROR_BUFFER_OVERFLOW`, `REG_DWORD`, `REG_MULTI_SZ`.
abbrev pub error_invalid_data : ℕ
error_invalid_data = 13

abbrev pub error_buffer_overflow : ℕ
error_buffer_overflow = 111

abbrev pub reg_dword : ℕ
reg_dword = 4

abbrev pub reg_multi_sz : ℕ
reg_multi_sz = 7

abbrev pub schema_name : Text
schema_name = codes "SchemaVersion"

abbrev pub files_name : Text
files_name = codes "RecentFiles"

-- `StatusFromError`: 2 and 3 say that there is no such key, 5 that access is denied.
unfoldable pub status_from_error : ℕ → SettingsStatus
status_from_error error =
    if (error == 2) || (error == 3)
    then not_found
    else if error == 5
    then access_denied
    else io_error

-- The bytes of `wchar_t` units and of a `DWORD`, the low one first.
unfoldable pub bytes_of : List ℕ → List ℕ
bytes_of [] = []
bytes_of (u ∷ us) = (u % 256) ∷ (u / 256 % 256) ∷ bytes_of us

unfoldable pub units_of : List ℕ → List ℕ
units_of [] = []
units_of (a ∷ []) = []
units_of (a ∷ b ∷ bs) = (a + b * 256) ∷ units_of bs

abbrev pub schema_bytes : List ℕ
schema_bytes = 1 ∷ 0 ∷ 0 ∷ 0 ∷ []

-- A buffer of zeros after bytes were written to its front.
unfoldable pub filled : ℕ → List ℕ → List ℕ
filled zero bytes = []
filled (suc n) [] = 0 ∷ filled n []
filled (suc n) (b ∷ bytes) = b ∷ filled n bytes

-- The paths from the last to the first, each added at the front.
unfoldable pub add_back : ⦃os : OrdinalApi⦄ → RecentFileList → List Text → RecentFileList
add_back l [] = l
add_back l (p ∷ ps) = (add (add_back l ps) p).0

abbrev pub load_failure : ℕ → LoadResult
load_failure error = record { value = none; status = status_from_error error; native_error = error }

abbrev pub bad_data : LoadResult
bad_data = record { value = none; status = invalid_data; native_error = error_invalid_data }

abbrev pub write_failure : ℕ → WriteResult
write_failure error = record { status = status_from_error error; native_error = error }

-- `schema_type != REG_DWORD || schema_size != sizeof(schema) || schema != kSchemaVersion`, negated.
unfoldable pub is_schema : ℕ → List ℕ → Bool
is_schema type bytes = (type == reg_dword) && text_eq bytes schema_bytes

unfoldable pub is_size : ℕ → ℕ → Bool
is_size type count = (type == reg_multi_sz) && leb 4 count && (count % 2 == 0)

abbrev pub load_parsed : ⦃os : OrdinalApi⦄ → RecentFileList → Option (List Text) → LoadResult
load_parsed empty none = bad_data
load_parsed empty (some ps) = record {
  value = some (add_back empty ps);
  status = success;
  native_error = 0;
}

module _ ⦃os : OrdinalApi⦄ {S Key : Type 0} (api : RegistryApi S Key) where
  -- After the schema has been checked.
  unfoldable pub load_files : S → Key → RecentFileList → LoadResult
  load_files s key empty = elim (api.query_size s key files_name) [
    | inl error ↦ load_failure error
    | inr (type, count) ↦
        if not (is_size type count)
        then bad_data
        else (elim (api.query_value s key files_name count) [
          | inl error ↦ load_failure error
          | inr (again, bytes) ↦ load_parsed empty (parse (units_of (filled count bytes)))
        ])
  ]

  unfoldable pub load_key : S → Key → RecentFileList → LoadResult
  load_key s key empty = elim (api.query_value s key schema_name 4) [
    | inl error ↦ load_failure error
    | inr (type, bytes) ↦ if not (is_schema type bytes) then bad_data else load_files s key empty
  ]

  unfoldable pub load_from : S → ℕ → Text → RecentFileList → LoadResult
  load_from s root subkey empty = elim (api.open_key s root subkey) [
    | inl error ↦ load_failure error
    | inr key ↦ load_key s key empty
  ]

  -- `none` where the constructor of the list throws.
  unfoldable pub load : S → ℕ → Text → ℕ → Option LoadResult
  load s root subkey maximum_entries = do
    empty ← create maximum_entries
    some (load_from s root subkey empty)

-- `max() / sizeof(wchar_t)` of a `DWORD`.
abbrev pub units_limit : ℕ
units_limit = 2147483647

module _ {S Key : Type 0} (api : RegistryApi S Key) where
  unfoldable pub save_files : S → Key → List Text → S × WriteResult
  save_files s key paths =
      if ltb units_limit (length (encode paths))
      then (s, record { status = io_error; native_error = error_buffer_overflow })
      else (let written = api.set_value s key files_name reg_multi_sz (bytes_of (encode paths)) in
          (
            written.0,
            if written.1 == 0
                then record { status = success; native_error = 0 }
                else write_failure written.1,
          ))

  unfoldable pub save_key : S → Key → List Text → S × WriteResult
  save_key s key paths =
      let written = api.set_value s key schema_name reg_dword schema_bytes in
      if not (written.1 == 0)
      then (written.0, write_failure written.1)
      else save_files written.0 key paths

  unfoldable pub save : S → ℕ → Text → RecentFileList → S × WriteResult
  save s root subkey files = elim (api.create_key s root subkey) [
    | inl error ↦ (s, write_failure error)
    | inr (created, key) ↦ save_key created key files.paths
  ]
