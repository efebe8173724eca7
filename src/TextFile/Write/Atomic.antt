-- ===== src/TextFile/Write/Atomic.antt =====
-- What `WriteTextFileAtomic` of src/text_file.cpp leaves at the path: what was there, or the whole
-- text. Each failure before the replacement leaves the old file, and behind it the new one is there.
use mwfl.Prelude.{
  ℕ, ◌≡◌, refl, sym, ap, subst, ◌∙◌, ◌≢◌, ◌⊎◌, inl, inr, Option, none, some, List, [], ◌++◌, arith,
  Text, Bool-cases, Option-cases, codes, is_nil, length, length-append,
}
use mwfl.TextFile.{TextEncoding, Utf8Api, encode}
use mwfl.Stream.{show}
use mwfl.TextFile.Files.{FileStamp, FileApi, Failure, undo, next, ◌>>=◌, io_error, invalid_encoding}
use mwfl.TextFile.Write.{
  check_expected, recheck_expected, write_loop, write_all, flush_result, write_and_flush, with_name,
  temporary_sibling, create_temporary, write_temporary, replace, saved_stamp, write_bytes, encoded,
  write_text_file,
}
use mwfl.TextFile.Write.Kept.{
  IsFileSystem, undo-Same, check_expected-Same, recheck_expected-Same, saved_stamp-Same,
  write_loop-content, write_temporary-Same,
}

abbrev pub Failed : {W A : Type 0} → (Failure ⊎ A) × W → Type 0
Failed r = (f : Failure) × (r.0 ≡ inl f)

module _ {W : Type 0} ⦃files : FileApi W⦄ (content : W → Text → Option (List ℕ))
    (owner : W → ℕ → Text) (fs : IsFileSystem files content owner) (path : Text) (bytes : List ℕ)
    (start : W) where
  -- The file is as it was at the start, behind a failure, or it holds the bytes.
  abbrev Outcome : (Failure ⊎ FileStamp) × W → Type 0
  Outcome r = (Failed r × (content r.1 path ≡ content start path)) ⊎ (content r.1 path ≡ some bytes)

  outcome_next :
      {A : Type 0} (f : A → W → (Failure ⊎ FileStamp) × W) (r : (Failure ⊎ A) × W)
      → content r.1 path ≡ content start path
      → ((a : A) → r.0 ≡ inr a → Outcome (f a r.1))
      → Outcome (next f r)
  outcome_next f (inl failure, w) h k = inl ((failure, refl), h)
  outcome_next f (inr a, w) h k = k a refl

  sibling_differs : (p : Text) (w : W) → p ≢ (temporary_sibling p w).0
  unfolding temporary_sibling
  sibling_differs p w e =
      let more : List ℕ =
        show (files.process_id w) ++ (codes "-" ++ show (files.fetch_sequence w).0) in
      absurd (omega (arith, ap length e, length-append p (codes ".mwfl-tmp-" ++ more)))

  abbrev Opened : Text × ℕ → W → Type 0
  Opened t w = (path ≢ t.0) × (owner w t.1 ≡ t.0) × (content w t.0 ≡ some [])

  opened :
      (name : Text) (r : (ℕ ⊎ ℕ) × W) (t : Text × ℕ)
      → path ≢ name
      → ((h : ℕ) → r.0 ≡ inr h → (owner r.1 h ≡ name) × (content r.1 name ≡ some []))
      → (with_name name r).0 ≡ inr t
      → Opened t (with_name name r).1
  opened name (inl error, v) t ne k e = cc
  opened name (inr h, v) t ne k e =
      subst (λ u. Opened u v) (inr_same e) (ne, (k h refl).0, (k h refl).1)
    where
      inr_same : {a b : Text × ℕ} → ◌≡◌ {A = Failure ⊎ (Text × ℕ)} (inr a) (inr b) → a ≡ b
      inr_same h = cc

  -- A new temporary: it is another file, empty, and the handle belongs to it.
  created :
      (w : W) (t : Text × ℕ)
      → (create_temporary path w).0 ≡ inr t
      → Opened t (create_temporary path w).1
  unfolding create_temporary
  created w t e =
      let named = temporary_sibling path w in
      opened named.0 (files.create_new named.0 named.1) t (sibling_differs path w)
        (fs.create_opens named.0 named.1) e

  create_temporary-Same : (w : W) → content (create_temporary path w).1 path ≡ content w path
  unfolding create_temporary temporary_sibling
  create_temporary-Same w =
      let named = temporary_sibling path w in
      same named.0 (files.create_new named.0 named.1)
      ∙ fs.create_keeps named.0 named.1 path (sibling_differs path w)
      ∙ fs.sequence_keeps w path
    where
      same : (name : Text) (r : (ℕ ⊎ ℕ) × W) → content (with_name name r).1 path ≡ content r.1 path
      same name (inl error, v) = refl
      same name (inr h, v) = refl

  undone :
      {A : Type 0} (name : Text) (r : (Failure ⊎ A) × W) {a : A}
      → (undo (files.delete name) r).0 ≡ inr a
      → (r.0 ≡ inr a) × ((undo (files.delete name) r).1 ≡ r.1)
  undone name (inl failure, w) e = cc
  undone name (inr a, w) e = (e, refl)

  flush_world : (q : Text) (r : Option ℕ × W) → content (flush_result r).1 q ≡ content r.1 q
  flush_world q (none, w) = refl
  flush_world q (some error, w) = refl

  flushed :
      (name : Text) (h : ℕ) (r : (Failure ⊎ Unit {0}) × W)
      → (r.0 ≡ inr tt → content r.1 name ≡ some bytes)
      → (next (λ done v. flush_result (files.flush h v)) r).0 ≡ inr tt
      → content (next (λ done v. flush_result (files.flush h v)) r).1 name ≡ some bytes
  flushed name h (inl failure, w) k e = cc
  flushed name h (inr u, w) k e =
      flush_world name (files.flush h w) ∙ fs.flush_keeps h w name ∙ k refl

  -- A temporary that was written holds the bytes.
  written :
      (name : Text) (h : ℕ) (w : W)
      → owner w h ≡ name
      → content w name ≡ some []
      → (write_temporary name h bytes w).0 ≡ inr tt
      → content (write_temporary name h bytes w).1 name ≡ some bytes
  unfolding write_temporary write_and_flush write_all ◌>>=◌
  written name h w own empty e =
      let (done, same) = undone name _ e in
      rw same (
        fs.close_keeps h _ name
        ∙ flushed name h (write_loop (length bytes) h bytes w)
            (write_loop-content content owner fs (length bytes) h bytes w [] name (omega arith)
              (sym own) empty)
            done)

  -- The replacement, and what is left of the temporary's bytes.
  replaced :
      (name : Text) (r : Option ℕ × W)
      → path ≢ name
      → ((error : ℕ) → r.0 ≡ some error → content r.1 path ≡ content start path)
      → (r.0 ≡ none → content r.1 path ≡ some bytes)
      → Outcome (next (λ done. saved_stamp path) (undo (files.delete name) (flush_result r)))
  replaced name (none, w) ne k l = inr (saved_stamp-Same content owner fs path path w ∙ l refl)
  replaced name (some error, w) ne k l =
      inl ((_, refl), fs.delete_keeps name w path ne ∙ k error refl)

  write_bytes-Outcome :
      (expected : Option FileStamp) (w : W)
      → content w path ≡ content start path
      → Outcome (write_bytes path bytes expected w)
  unfolding write_bytes replace ◌>>=◌
  write_bytes-Outcome expected w before =
      outcome_next _ (create_temporary path w) (create_temporary-Same w ∙ before) λ t e.
        let v : W = (create_temporary path w).1 in
        let (ne, own, empty) = created w t e in
        let kept =
          write_temporary-Same content owner fs t.0 t.1 bytes v path ne own
          ∙ create_temporary-Same w
          ∙ before in
        outcome_next _ (write_temporary t.0 t.1 bytes v) kept λ u done.
          let filled = written t.0 t.1 v own empty done in
          let x : W = (write_temporary t.0 t.1 bytes v).1 in
          let c = recheck_expected path expected x in
          let y : W = (undo (files.delete t.0) c).1 in
          let kept_again : content y path ≡ content start path =
            undo-Same content owner fs path x t.0 c ne
              (recheck_expected-Same content owner fs path path expected x)
            ∙ kept in
          outcome_next _ (undo (files.delete t.0) c) kept_again λ u' checked.
            let (passed, same) = undone t.0 c checked in
            let still_filled : content y t.0 ≡ some bytes =
              ap (λ z. content z t.0) same
              ∙ recheck_expected-Same content owner fs t.0 path expected x
              ∙ filled in
            replaced t.0 (files.move t.0 path y) ne
              (λ error e. fs.move_failed t.0 path y error path e ∙ kept_again)
              (λ e. fs.move_done t.0 path y e ∙ still_filled)

module _ {W : Type 0} ⦃files : FileApi W⦄ ⦃utf8 : Utf8Api⦄ (content : W → Text → Option (List ℕ))
    (owner : W → ℕ → Text) (fs : IsFileSystem files content owner) where
  -- Behind a failure the file is as it was in the world `w`, or it holds the encoded text.
  abbrev pub Atomic : Text → Text → TextEncoding → W → (Failure ⊎ FileStamp) × W → Type 0
  Atomic path text encoding w r =
      (Failed r × (content r.1 path ≡ content w path))
      ⊎ ((bytes : List ℕ) × (encode text encoding ≡ some bytes) × (content r.1 path ≡ some bytes))

  encoded-Atomic :
      (path text : Text) (encoding : TextEncoding) (expected : Option FileStamp) (w v : W)
      → content v path ≡ content w path
      → Atomic path text encoding w
          (next (λ bytes. write_bytes path bytes expected) (encoded (encode text encoding) v))
  encoded-Atomic path text encoding expected w v h = elim (Option-cases (encode text encoding)) [
    | inl e ↦ rw (e, encoded) (inl (((invalid_encoding, 1113), refl), h))
    | inr (bytes, e) ↦
        rw (e, encoded)
          (elim (write_bytes-Outcome content owner fs path bytes w expected v h) [
            | inl old ↦ inl old
            | inr new ↦ inr (bytes, refl, new)
          ])
  ]

  checked-Atomic :
      (path text : Text) (encoding : TextEncoding) (expected : Option FileStamp) (w : W)
      (r : (Failure ⊎ Unit {0}) × W)
      → content r.1 path ≡ content w path
      → Atomic path text encoding w (
          next
            (λ checked v.
              next (λ bytes. write_bytes path bytes expected) (encoded (encode text encoding) v))
            r)
  checked-Atomic path text encoding expected w (inl failure, v) h = inl ((failure, refl), h)
  checked-Atomic path text encoding expected w (inr u, v) h =
      encoded-Atomic path text encoding expected w v h

  -- On a file system that keeps the files that a call is not about, a write leaves at the path what
  -- was there, and then it reports a failure, or all bytes of the encoded text.
  pub write_text_file-Atomic :
      (path text : Text) (encoding : TextEncoding) (expected : Option FileStamp) (w : W)
      → Atomic path text encoding w (write_text_file path text encoding expected w)
  unfolding write_text_file ◌>>=◌
  write_text_file-Atomic path text encoding expected w = elim (Bool-cases (is_nil path)) [
    | inl e ↦ rw e (inl (((io_error, 123), refl), refl))
    | inr e ↦ rw e (
        checked-Atomic path text encoding expected w (check_expected path expected w)
          (check_expected-Same content owner fs path path expected w))
  ]
