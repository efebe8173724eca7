-- ===== src/TextFile/Files.antt =====
-- The file functions of Windows that src/text_file.cpp calls, as a parameter over a type of worlds,
-- and `ReadTextFile` with the helpers above it. A step gives a value or a failure, and the world
-- behind it. What other programs do to the files in between is not modelled.
use mwfl.Prelude.{
  ℕ, zero, suc, ◌-◌, min, ◌⊎◌, inl, inr, Bool, true, not, ◌&&◌, ◌||◌, Option, none, some, List, [],
  ◌++◌, Text, u64_mod, leb, ◌==◌, if◌then◌else◌, is_nil, length,
}
use mwfl.TextFile.{TextEncoding, Utf8Api, decode}

pub record FileStamp : Type 0 where
  pub size : ℕ
  pub last_write_time : ℕ
  pub file_id : ℕ
  pub volume_serial : ℕ

-- What `ReadFile` or `WriteFile` reports: whether it returned true, the value that it moved, and
-- what `GetLastError` gives after it.
pub record Moved (A : Type 0) : Type 0 where
  pub succeeded : Bool
  pub value : A
  pub last_error : ℕ

-- `inl` is the error of a call that failed.
pub record FileApi (W : Type 0) : Type 0 where
  -- `CreateFileW` for reading an existing file; the flag says that writers are let in
  pub open_read : Bool → Text → W → (ℕ ⊎ ℕ) × W
  -- `CreateFileW` with `CREATE_NEW`
  pub create_new : Text → W → (ℕ ⊎ ℕ) × W
  -- `GetFileInformationByHandle`
  pub query : ℕ → W → (ℕ ⊎ FileStamp) × W
  pub read_file : ℕ → ℕ → W → Moved (List ℕ) × W
  pub write_file : ℕ → List ℕ → W → Moved ℕ × W
  -- `FlushFileBuffers`, and its error if it failed
  pub flush : ℕ → W → Option ℕ × W
  pub close : ℕ → W → W
  pub delete : Text → W → W
  -- `MoveFileExW` that replaces its target, and its error if it failed
  pub move : Text → Text → W → Option ℕ × W
  -- `GetCurrentProcessId`, and `fetch_add` on the counter of the temporary files
  pub process_id : W → ℕ
  pub fetch_sequence : W → ℕ × W

pub data FileStatus : Type 0 where
  not_found access_denied io_error invalid_encoding changed : FileStatus

pub record TextFile : Type 0 where
  pub text : Text
  pub encoding : TextEncoding
  pub stamp : FileStamp

abbrev pub Failure : Type 0
Failure = FileStatus × ℕ

-- `StatusFromError`.
unfoldable pub status_from_error : ℕ → FileStatus
status_from_error error =
    if (error == 2) || (error == 3)
    then not_found
    else if (error == 5) || (error == 32)
    then access_denied
    else io_error

unfoldable pub stamp_eq : FileStamp → FileStamp → Bool
stamp_eq a b =
    (a.size == b.size)
    && (a.last_write_time == b.last_write_time)
    && (a.file_id == b.file_id)
    && (a.volume_serial == b.volume_serial)

-- The largest `DWORD`.
unfoldable pub dword_max : ℕ
dword_max = 4294967295

module _ {W A : Type 0} where
  abbrev pub pure : A → W → (Failure ⊎ A) × W
  pure a w = (inr a, w)

  abbrev pub fail : FileStatus → ℕ → W → (Failure ⊎ A) × W
  fail status error w = (inl (status, error), w)

  -- A call, whose error is made a failure by `status`.
  abbrev pub failing_with : (ℕ → FileStatus) → (ℕ ⊎ A) × W → (Failure ⊎ A) × W
  failing_with status (inl error, w) = (inl (status error, error), w)
  failing_with status (inr a, w) = (inr a, w)

  -- What is done at the end of a scope, however it is left.
  abbrev pub finally : (W → W) → (W → (Failure ⊎ A) × W) → W → (Failure ⊎ A) × W
  finally cleanup m w = let (r, after) = m w in (r, cleanup after)

  -- What is done where a step failed.
  abbrev pub undo : (W → W) → (Failure ⊎ A) × W → (Failure ⊎ A) × W
  undo cleanup (inl failure, w) = (inl failure, cleanup w)
  undo cleanup (inr a, w) = (inr a, w)

module _ {W A B : Type 0} where
  infixl 1 ◌>>=◌
  abbrev pub next : (A → W → (Failure ⊎ B) × W) → (Failure ⊎ A) × W → (Failure ⊎ B) × W
  next f (inl failure, w) = (inl failure, w)
  next f (inr a, w) = f a w

  unfoldable pub ◌>>=◌ :
      (W → (Failure ⊎ A) × W) → (A → W → (Failure ⊎ B) × W) → W → (Failure ⊎ B) × W
  ◌>>=◌ m f w = next f (m w)

-- An end of the file that came too early has no error of its own.
abbrev pub read_failure : ℕ → Failure
read_failure error =
    if error == 0 then (status_from_error 38, 38) else (status_from_error error, error)

module _ {W : Type 0} ⦃files : FileApi W⦄ where
  -- `FileHandle` on an existing file.
  unfoldable pub open_existing : Bool → Text → W → (Failure ⊎ ℕ) × W
  open_existing shared path w = failing_with status_from_error (files.open_read shared path w)

  -- `QueryStamp`.
  unfoldable pub query_stamp : ℕ → W → (Failure ⊎ FileStamp) × W
  query_stamp handle w = failing_with status_from_error (files.query handle w)

  -- The loop of `ReadAll`, for the bytes that are left; each round reads one at least.
  unfoldable pub read_loop : ℕ → ℕ → ℕ → W → (Failure ⊎ List ℕ) × W
  read_loop zero handle left w = (inr [], w)
  read_loop (suc fuel) handle left w =
      if left == 0
      then (inr [], w)
      else let (moved, after) = files.read_file handle (min left dword_max) w in
        if not moved.succeeded || is_nil moved.value
        then (inl (read_failure moved.last_error), after)
        else next (λ rest. pure (moved.value ++ rest))
            (read_loop fuel handle (left - length moved.value) after)

  unfoldable pub read_all : ℕ → ℕ → W → (Failure ⊎ List ℕ) × W
  read_all handle size =
      if leb u64_mod size then fail (status_from_error 223) 223 else read_loop size handle size

  module _ ⦃utf8 : Utf8Api⦄ where
    -- What the bytes are decoded to.
    abbrev pub decoded : FileStamp → TextEncoding × Option Text → W → (Failure ⊎ TextFile) × W
    decoded stamp (encoding, none) = fail invalid_encoding 1113
    decoded stamp (encoding, some text) =
        pure (record { text = text; encoding = encoding; stamp = stamp })

    unfoldable pub read_open : ℕ → W → (Failure ⊎ TextFile) × W
    read_open handle = do
      before ← query_stamp handle
      bytes ← read_all handle before.size
      after ← query_stamp handle
      if stamp_eq before after then decoded after (decode bytes) else fail changed 0

    -- `ReadTextFile`.
    unfoldable pub read_text_file : Text → W → (Failure ⊎ TextFile) × W
    read_text_file path = do
      handle ← open_existing true path
      finally (files.close handle) (read_open handle)
