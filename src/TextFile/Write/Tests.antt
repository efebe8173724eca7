-- ===== src/TextFile/Write/Tests.antt =====
-- A write on a disk as src/text_file.cpp does it, and the theorem applied there.
use mwfl.Prelude.{◌≡◌, refl, none, some, [], ◌∷◌, Text, if◌then◌else◌, text_eq, codes}
use mwfl.TextFile.{utf16_le, Utf8Api, encode, encode_as, is_valid_utf16, is_high, is_low, bytes_of}
use mwfl.Stream.{show, show_fuel}
use mwfl.TextFile.Files.{FileStamp, dword_max, ◌>>=◌, open_existing, query_stamp, stamp_eq}
use mwfl.TextFile.Write.{
  check_stamp, check_expected, recheck_expected, write_loop, write_all, write_and_flush,
  temporary_sibling, create_temporary, write_temporary, replace, saved_stamp, write_bytes,
  write_text_file,
}
use mwfl.TextFile.Write.Atomic.{Atomic, write_text_file-Atomic}
use mwfl.TextFile.Write.Disk.{Disk, disk, stored, stamp_of, disk-IsFileSystem}

instance abbrev ascii_api : Utf8Api
ascii_api = record { to_wide = λ bytes. some bytes; to_multi_byte = λ text. some text }

abbrev path : Text
path = codes "a.txt"

abbrev start : Disk
start = record {
  files = λ q. if text_eq q path then some (1 ∷ 2 ∷ []) else none;
  writer = [];
  sequence = 0;
}

abbrev stamp : FileStamp
stamp = stamp_of none

-- The write replaces the two bytes by the encoded text.
replaces :
    (write_text_file path (codes "Hi") utf16_le (some stamp) start).1.files path
    ≡ some (255 ∷ 254 ∷ 72 ∷ 0 ∷ 105 ∷ 0 ∷ [])
unfolding write_text_file check_expected recheck_expected check_stamp stamp_eq ◌>>=◌ encode
    encode_as is_valid_utf16 is_high is_low bytes_of write_bytes create_temporary temporary_sibling
    show show_fuel write_temporary write_and_flush write_all write_loop replace saved_stamp
    open_existing query_stamp text_eq dword_max
replaces = refl

write_text_file-Atomic_example :
    Atomic stored
      (λ d h. d.writer)
      disk-IsFileSystem
      path
      (codes "Hi")
      utf16_le
      start
      (write_text_file path (codes "Hi") utf16_le (some stamp) start)
write_text_file-Atomic_example =
    write_text_file-Atomic stored (λ d h. d.writer) disk-IsFileSystem path (codes "Hi") utf16_le
      (some stamp) start
