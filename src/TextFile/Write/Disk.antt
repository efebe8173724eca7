-- ===== src/TextFile/Write/Disk.antt =====
-- A disk that meets what the proofs about src/text_file.cpp assume of the file system. The witnesses
-- that need a file system use it.
use mwfl.Prelude.{
  ℕ, ◌+◌, ◌%◌, ◌^◌, ◌≡◌, refl, ap, ◌∙◌, ◌≢◌, ◌⊎◌, inl, inr, true, false, Option, none, some, List,
  [], ◌∷◌, ◌++◌, arith, Text, if◌then◌else◌, Bool-cases, Option-cases, text_eq, text_eq_iff,
  is_some, length, take,
}
use mwfl.TextFile.Files.{FileStamp, FileApi}
use mwfl.TextFile.Write.Kept.{IsFileSystem}

-- The files, the one that is open for writing, and the counter of the temporary files.
pub record Disk : Type 0 where
  pub files : Text → Option (List ℕ)
  pub writer : Text
  pub sequence : ℕ

abbrev pub stored : Disk → Text → Option (List ℕ)
stored d p = d.files p

abbrev pub stamp_of : Option (List ℕ) → FileStamp
stamp_of none = record { size = 0; last_write_time = 0; file_id = 1; volume_serial = 1 }
stamp_of (some bytes) = record {
  size = length bytes;
  last_write_time = 0;
  file_id = 1;
  volume_serial = 1;
}

abbrev pub set_file : Text → Option (List ℕ) → Disk → Disk
set_file p v d = record d { files = λ q. if text_eq q p then v else d.files q }

abbrev pub appended : List ℕ → Option (List ℕ) → Option (List ℕ)
appended bytes none = none
appended bytes (some old) = some (old ++ take (length bytes) bytes)

abbrev pub created_on : Text → Disk → Option (List ℕ) → (ℕ ⊎ ℕ) × Disk
created_on p d none = (inr 1, record (set_file p (some []) d) { writer = p })
created_on p d (some old) = (inl 80, d)

abbrev pub moved_on : Text → Text → Disk → Option (List ℕ) → Option ℕ × Disk
moved_on a b d none = (some 2, d)
moved_on a b d (some bytes) = (none, set_file b (some bytes) d)

instance abbrev pub disk : FileApi Disk
disk = record {
  open_read = λ shared p d. (if is_some (d.files p) then inr 2 else inl 2, d);
  create_new = λ p d. created_on p d (d.files p);
  query = λ h d. (inr (stamp_of none), d);
  read_file = λ h n d. (record { succeeded = false; value = []; last_error = 5 }, d);
  write_file = λ h bytes d. (
    record { succeeded = true; value = length bytes; last_error = 0 },
    set_file d.writer (appended bytes (d.files d.writer)) d,
  );
  flush = λ h d. (none, d);
  close = λ h d. d;
  delete = λ p d. set_file p none d;
  move = λ a b d. moved_on a b d (d.files a);
  process_id = λ d. 41;
  fetch_sequence = λ d. (d.sequence, record d { sequence = (d.sequence + 1) % 2 ^ 32 });
}

other_file :
    (p : Text) (v : Option (List ℕ)) (d : Disk) (q : Text)
    → q ≢ p
    → stored (set_file p v d) q ≡ stored d q
other_file p v d q ne = elim (Bool-cases (text_eq q p)) [
  | inl e ↦ absurd (ne ((text_eq_iff q p).0 e))
  | inr e ↦ rw e refl
]

same_file : (p : Text) (v : Option (List ℕ)) (d : Disk) → stored (set_file p v d) p ≡ v
same_file p v d = rw ((text_eq_iff p p).1 refl) refl

take_all : (xs : List ℕ) → take (length xs) xs ≡ xs
take_all [] = refl
take_all (x ∷ xs) = ap (λ l. x ∷ l) (take_all xs)

pub disk-IsFileSystem : IsFileSystem disk stored (λ d h. d.writer)
disk-IsFileSystem = record {
  open_keeps = λ shared p d q. refl;
  query_keeps = λ h d q. refl;
  close_keeps = λ h d q. refl;
  flush_keeps = λ h d q. refl;
  sequence_keeps = λ d q. refl;
  create_keeps = λ p d q ne. kept_by_create p d q (d.files p) ne;
  create_opens = λ p d h e. opens p d h (d.files p) e;
  write_keeps = λ h bytes d q ne. other_file d.writer _ d q ne;
  write_owner = λ h bytes d. refl;
  write_appends = λ h bytes d old e. same_file d.writer _ d ∙ ap (appended bytes) e;
  write_within = λ h bytes d. omega arith;
  delete_keeps = λ p d q ne. other_file p none d q ne;
  move_failed = λ a b d error q e. kept_by_move a b d q error (d.files a) e;
  move_done = λ a b d e. moves a b d e;
}
  where
    kept_by_create :
        (p : Text) (d : Disk) (q : Text) (o : Option (List ℕ))
        → q ≢ p
        → stored (created_on p d o).1 q ≡ stored d q
    kept_by_create p d q none ne = other_file p (some []) d q ne
    kept_by_create p d q (some old) ne = refl

    opens :
        (p : Text) (d : Disk) (h : ℕ) (o : Option (List ℕ))
        → (created_on p d o).0 ≡ inr h
        → ((created_on p d o).1.writer ≡ p) × (stored (created_on p d o).1 p ≡ some [])
    opens p d h none e = (refl, same_file p (some []) d)
    opens p d h (some old) e = cc

    kept_by_move :
        (a b : Text) (d : Disk) (q : Text) (error : ℕ) (o : Option (List ℕ))
        → (moved_on a b d o).0 ≡ some error
        → stored (moved_on a b d o).1 q ≡ stored d q
    kept_by_move a b d q error none e = refl
    kept_by_move a b d q error (some bytes) e = cc

    moves :
        (a b : Text) (d : Disk)
        → (moved_on a b d (d.files a)).0 ≡ none
        → stored (moved_on a b d (d.files a)).1 b ≡ d.files a
    moves a b d e = elim (Option-cases (d.files a)) [
      | inl n ↦ absurd (ground (arith, n, e))
      | inr (bytes, s) ↦ rw s (same_file b (some bytes) d)
    ]
