-- ===== src/DocumentSession/Store.antt =====
-- `LoadDocumentSession` and `SaveDocumentSessionAtomic` of src/document_session.cpp, over the files
-- of TextFile.
use mwfl.Prelude.{ℕ, ◌⊎◌, inl, inr, Option, none, some, Text, ltb, if◌then◌else◌}
use mwfl.TextFile.{utf8, Utf8Api}
use mwfl.TextFile.Files.{
  FileStamp, FileApi, FileStatus, TextFile, Failure, read_text_file, not_found,
}
use mwfl.TextFile.Write.{write_text_file}
use mwfl.Stream.Doubles.{DoubleFormat}
use mwfl.Stream.Lines.{utf8_size}
use mwfl.DocumentSession.{Session, Limits, SessionStatus, malformed, oversized, io_error, success}
use mwfl.DocumentSession.Read.{parse_session, serialize}

-- The status and the native error of a load that gives no session.
abbrev pub LoadFailure : Type 0
LoadFailure = SessionStatus × ℕ

abbrev pub load_status : FileStatus → SessionStatus
load_status not_found = SessionStatus.not_found
load_status status = io_error

abbrev pub without_error : SessionStatus ⊎ Session → LoadFailure ⊎ Session
without_error (inl status) = inl (status, 0)
without_error (inr s) = inr s

module _ {W : Type 0} ⦃files : FileApi W⦄ ⦃api : Utf8Api⦄ (f : DoubleFormat) where
  abbrev pub loaded : Limits → (Failure ⊎ TextFile) × W → (LoadFailure ⊎ Session) × W
  loaded limits (inl (status, error), w) = (inl (load_status status, error), w)
  loaded limits (inr file, w) = (
    if ltb limits.maximum_bytes file.stamp.size
        then inl (oversized, 0)
        else without_error (parse_session f limits file.text),
    w,
  )

  unfoldable pub load : Text → Limits → W → (LoadFailure ⊎ Session) × W
  load path limits w = loaded limits (read_text_file path w)

  abbrev pub write_status : (Failure ⊎ FileStamp) × W → SessionStatus × W
  write_status (inl failure, w) = (io_error, w)
  write_status (inr stamp, w) = (success, w)

  -- The parser has to accept what will be written.
  abbrev pub save_checked : Text → Text → SessionStatus ⊎ Session → W → SessionStatus × W
  save_checked path text (inl status) w = (status, w)
  save_checked path text (inr s) w = write_status (write_text_file path text utf8 none w)

  abbrev pub save_sized : Text → Text → Limits → Option ℕ → W → SessionStatus × W
  save_sized path text limits none w = (malformed, w)
  save_sized path text limits (some bytes) w =
      if ltb limits.maximum_bytes bytes
      then (oversized, w)
      else save_checked path text (parse_session f limits text) w

  unfoldable pub save : Text → Session → Limits → W → SessionStatus × W
  save path s limits w = save_sized path (serialize f s) limits (utf8_size (serialize f s)) w
