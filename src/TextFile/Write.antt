-- ===== src/TextFile/Write.antt =====
-- `WriteTextFileAtomic` of src/text_file.cpp with the helpers above it.
pub mod Kept
pub mod Atomic
pub mod Disk
mod Tests
use mwfl.Prelude.{
  ℕ, zero, suc, ◌+◌, ◌-◌, ◌*◌, ◌/◌, ◌%◌, ◌^◌, ◌≤◌, ◌<◌, min, max, ◌≡◌, refl, sym, ap, subst, ◌∙◌,
  ◌≢◌, ◌↔◌, ◌⊎◌, inl, inr, Bool, true, false, not, ◌&&◌, ◌||◌, Option, none, some, List, [], ◌∷◌,
  ◌++◌, map, Mem, Nodup, Perm, arith, Text, u64_mod, next_u64, ltb, leb, ◌==◌, if◌then◌else◌,
  ltb→lt, lt→ltb, leb→le, ==_iff, ==_refl, Bool-cases, Option-cases, Either-cases, text_eq,
  text_eq_iff, opt_eq, codes, is_nil, is_some, length, get_elem?, take, drop, insert_at, erase_idx,
  modify, find_index, find, any, erase_if, length-append, length-take, length-drop,
  length-insert_at, length-erase_idx, length-modify, get_elem?-insert_at_self, erase_idx-insert_at,
  get_elem?_of_lt, lt-length_of_get_elem?, mem_of_get_elem?, insert_at-perm, erase_idx-perm,
  find_index_sound, find_index-any, length-map, get_elem?-map, map-insert_at, map-erase_idx,
  map-modify, shift, All, All-append, All-insert_at, All-erase_idx, All-modify, All-take,
  All-erase_if, All-get_elem?, All-mono, text_eq_comm, get_elem?-erase_idx_lt,
  get_elem?-erase_idx_le, heir, get_elem?-min-erase_idx,
}
use mwfl.TextFile.{TextEncoding, Utf8Api, encode}
use mwfl.Stream.{show}
use mwfl.TextFile.Files.{
  FileStamp, FileApi, Moved, FileStatus, io_error, invalid_encoding, changed, Failure,
  status_from_error, stamp_eq, dword_max, pure, fail, failing_with, finally, undo, next, ◌>>=◌,
  open_existing, query_stamp,
}

-- A missing file has changed since it was read.
unfoldable pub missing_is_changed : ℕ → FileStatus
missing_is_changed error = if error == 2 then changed else status_from_error error

module _ {W : Type 0} ⦃files : FileApi W⦄ where
  -- The stamp of an existing file has to be the expected one; `status` is for a file that does not
  -- open, and `query_status` for one that is not described.
  unfoldable pub check_stamp :
      (ℕ → FileStatus) → (ℕ → FileStatus) → Text → FileStamp → W → (Failure ⊎ Unit {0}) × W
  check_stamp status query_status path expected = do
    handle ← λ w. failing_with status (files.open_read false path w)
    finally (files.close handle) do
      actual ← λ w. failing_with query_status (files.query handle w)
      if stamp_eq actual expected then pure tt else fail changed 0

  -- The check before the text is encoded, and that before the replacement.
  unfoldable pub check_expected : Text → Option FileStamp → W → (Failure ⊎ Unit {0}) × W
  check_expected path none = pure tt
  check_expected path (some expected) =
      check_stamp missing_is_changed status_from_error path expected

  unfoldable pub recheck_expected : Text → Option FileStamp → W → (Failure ⊎ Unit {0}) × W
  recheck_expected path none = pure tt
  recheck_expected path (some expected) =
      check_stamp (λ error. changed) (λ error. changed) path expected

  -- What follows a call of `WriteFile`: the end, or the rest of the loop.
  abbrev pub after_write :
      (ℕ → W → (Failure ⊎ Unit {0}) × W) → Moved ℕ × W → (Failure ⊎ Unit {0}) × W
  after_write rest (moved, after) =
      if not moved.succeeded || (moved.value == 0)
      then (inl (status_from_error moved.last_error, moved.last_error), after)
      else rest moved.value after

  -- The loop of `WriteAll`; each round writes one byte at least.
  unfoldable pub write_loop : ℕ → ℕ → List ℕ → W → (Failure ⊎ Unit {0}) × W
  write_loop zero handle bytes w = (inr tt, w)
  write_loop (suc fuel) handle bytes w =
      if is_nil bytes
      then (inr tt, w)
      else after_write (λ n after. write_loop fuel handle (drop n bytes) after)
          (files.write_file handle (take dword_max bytes) w)

  unfoldable pub write_all : ℕ → List ℕ → W → (Failure ⊎ Unit {0}) × W
  write_all handle bytes = write_loop (length bytes) handle bytes

  abbrev pub flush_result : Option ℕ × W → (Failure ⊎ Unit {0}) × W
  flush_result (none, w) = (inr tt, w)
  flush_result (some error, w) = (inl (status_from_error error, error), w)

  unfoldable pub write_and_flush : ℕ → List ℕ → W → (Failure ⊎ Unit {0}) × W
  write_and_flush handle bytes = do
    written ← write_all handle bytes
    λ w. flush_result (files.flush handle w)

  -- `TemporarySibling`.
  unfoldable pub temporary_sibling : Text → W → Text × W
  temporary_sibling path w =
      let (n, after) = files.fetch_sequence w in
      (path ++ (codes ".mwfl-tmp-" ++ (show (files.process_id w) ++ (codes "-" ++ show n))), after)

  -- `CREATE_NEW` on the temporary, and its name.
  abbrev pub with_name : Text → (ℕ ⊎ ℕ) × W → (Failure ⊎ (Text × ℕ)) × W
  with_name name (inl error, w) = (inl (status_from_error error, error), w)
  with_name name (inr handle, w) = (inr (name, handle), w)

  unfoldable pub create_temporary : Text → W → (Failure ⊎ (Text × ℕ)) × W
  create_temporary path w =
      let (name, named) = temporary_sibling path w in with_name name (files.create_new name named)

  -- The temporary is written, closed, and deleted again if that failed.
  unfoldable pub write_temporary : Text → ℕ → List ℕ → W → (Failure ⊎ Unit {0}) × W
  write_temporary name handle bytes w =
      undo (files.delete name) (finally (files.close handle) (write_and_flush handle bytes) w)

  unfoldable pub replace : Text → Text → W → (Failure ⊎ Unit {0}) × W
  replace name path w = undo (files.delete name) (flush_result (files.move name path w))

  -- The stamp of the saved file.
  unfoldable pub saved_stamp : Text → W → (Failure ⊎ FileStamp) × W
  saved_stamp path = do
    handle ← open_existing false path
    finally (files.close handle) (query_stamp handle)

  -- What follows the encoding.
  unfoldable pub write_bytes : Text → List ℕ → Option FileStamp → W → (Failure ⊎ FileStamp) × W
  write_bytes path bytes expected = do
    (name, handle) ← create_temporary path
    written ← write_temporary name handle bytes
    checked ← λ w. undo (files.delete name) (recheck_expected path expected w)
    replaced ← replace name path
    saved_stamp path

  module _ ⦃utf8 : Utf8Api⦄ where
    abbrev pub encoded : Option (List ℕ) → W → (Failure ⊎ List ℕ) × W
    encoded none = fail invalid_encoding 1113
    encoded (some bytes) = pure bytes

    -- `WriteTextFileAtomic`.
    unfoldable pub write_text_file :
        Text → Text → TextEncoding → Option FileStamp → W → (Failure ⊎ FileStamp) × W
    write_text_file path text encoding expected = if is_nil path then fail io_error 123 else do
      checked ← check_expected path expected
      bytes ← encoded (encode text encoding)
      write_bytes path bytes expected
