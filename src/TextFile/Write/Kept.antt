-- ===== src/TextFile/Write/Kept.antt =====
-- What the steps of a write in src/text_file.cpp leave of the other files, and what they write. The file system is a parameter
-- that does what Windows documents of each call on its own; no other program writes in between.
use mwfl.Prelude.{
  ℕ, zero, suc, ◌≤◌, ◌<◌, ◌≡◌, refl, sym, ap, subst, ◌∙◌, ◌≢◌, ◌⊎◌, inl, inr, Bool, true, false,
  not, ◌||◌, Option, none, some, List, [], ◌∷◌, ◌++◌, arith, Text, ◌==◌, Bool-cases, is_nil, length,
  take, drop, length-drop,
}
use mathlib.Core.List.{append_assoc, append-nil}
use mwfl.TextFile.Files.{
  FileStamp, FileApi, Moved, FileStatus, Failure, status_from_error, dword_max, failing_with, undo,
  next, ◌>>=◌, open_existing, query_stamp, stamp_eq,
}
use mwfl.TextFile.Write.{
  check_stamp, check_expected, recheck_expected, after_write, write_loop, write_all, flush_result,
  write_and_flush, write_temporary, saved_stamp,
}

-- The contents of the files, the file that a handle belongs to, and what the calls do to them.
pub record IsFileSystem {W : Type 0} (files : FileApi W) (content : W → Text → Option (List ℕ))
    (owner : W → ℕ → Text) : Type 0 where
  pub open_keeps :
      (shared : Bool) (p : Text) (w : W) (q : Text)
      → content (files.open_read shared p w).1 q ≡ content w q
  pub query_keeps : (h : ℕ) (w : W) (q : Text) → content (files.query h w).1 q ≡ content w q
  pub close_keeps : (h : ℕ) (w : W) (q : Text) → content (files.close h w) q ≡ content w q
  pub flush_keeps : (h : ℕ) (w : W) (q : Text) → content (files.flush h w).1 q ≡ content w q
  pub sequence_keeps : (w : W) (q : Text) → content (files.fetch_sequence w).1 q ≡ content w q
  pub create_keeps :
      (p : Text) (w : W) (q : Text) → q ≢ p → content (files.create_new p w).1 q ≡ content w q
  pub create_opens :
      (p : Text) (w : W) (h : ℕ)
      → (files.create_new p w).0 ≡ inr h
      → (owner (files.create_new p w).1 h ≡ p) × (content (files.create_new p w).1 p ≡ some [])
  pub write_keeps :
      (h : ℕ) (bytes : List ℕ) (w : W) (q : Text)
      → q ≢ owner w h
      → content (files.write_file h bytes w).1 q ≡ content w q
  pub write_owner :
      (h : ℕ) (bytes : List ℕ) (w : W) → owner (files.write_file h bytes w).1 h ≡ owner w h
  pub write_appends :
      (h : ℕ) (bytes : List ℕ) (w : W) (old : List ℕ)
      → content w (owner w h) ≡ some old
      → content (files.write_file h bytes w).1 (owner w h)
        ≡ some (old ++ take (files.write_file h bytes w).0.value bytes)
  pub write_within :
      (h : ℕ) (bytes : List ℕ) (w : W) → (files.write_file h bytes w).0.value ≤ length bytes
  pub delete_keeps :
      (p : Text) (w : W) (q : Text) → q ≢ p → content (files.delete p w) q ≡ content w q
  pub move_failed :
      (a b : Text) (w : W) (error : ℕ) (q : Text)
      → (files.move a b w).0 ≡ some error
      → content (files.move a b w).1 q ≡ content w q
  pub move_done :
      (a b : Text) (w : W)
      → (files.move a b w).0 ≡ none
      → content (files.move a b w).1 b ≡ content w a

take-drop : (n m : ℕ) (xs : List ℕ) → n ≤ length (take m xs) → take n (take m xs) ++ drop n xs ≡ xs
take-drop zero m xs h = refl
take-drop (suc n) zero xs h = absurd (omega arith)
take-drop (suc n) (suc m) [] h = absurd (omega arith)
take-drop (suc n) (suc m) (x ∷ xs) h = ap (λ l. x ∷ l) (take-drop n m xs (omega arith))

length_nil : (xs : List ℕ) → length xs ≡ 0 → xs ≡ []
length_nil [] h = refl
length_nil (x ∷ xs) h = absurd (omega arith)

is_nil_only : (xs : List ℕ) → is_nil xs ≡ true → xs ≡ []
is_nil_only [] h = refl
is_nil_only (x ∷ xs) h = cc

module _ {W : Type 0} ⦃files : FileApi W⦄ (content : W → Text → Option (List ℕ))
    (owner : W → ℕ → Text) (fs : IsFileSystem files content owner) where
  -- A result behind which the file at `q` is as it was in the world `w`.
  abbrev Same : {A : Type 0} → Text → W → (Failure ⊎ A) × W → Type 0
  Same q w r = content r.1 q ≡ content w q

  failing_with-Same :
      {A : Type 0} (q : Text) (w : W) (status : ℕ → FileStatus) (r : (ℕ ⊎ A) × W)
      → content r.1 q ≡ content w q
      → Same q w (failing_with status r)
  failing_with-Same q w status (inl error, after) h = h
  failing_with-Same q w status (inr a, after) h = h

  next-Same :
      {A B : Type 0} (q : Text) (w : W) (f : A → W → (Failure ⊎ B) × W) (r : (Failure ⊎ A) × W)
      → Same q w r
      → ((a : A) (v : W) → Same q v (f a v))
      → Same q w (next f r)
  next-Same q w f (inl failure, after) h k = h
  next-Same q w f (inr a, after) h k = k a after ∙ h

  pub undo-Same :
      {A : Type 0} (q : Text) (w : W) (name : Text) (r : (Failure ⊎ A) × W)
      → q ≢ name
      → Same q w r
      → Same q w (undo (files.delete name) r)
  undo-Same q w name (inl failure, after) ne h = fs.delete_keeps name after q ne ∙ h
  undo-Same q w name (inr a, after) ne h = h

  check_stamp-Same :
      (q : Text) (s t : ℕ → FileStatus) (path : Text) (expected : FileStamp) (w : W)
      → Same q w (check_stamp s t path expected w)
  unfolding check_stamp ◌>>=◌
  check_stamp-Same q s t path expected w =
      next-Same q w _ (failing_with s (files.open_read false path w))
        (failing_with-Same q w s _ (fs.open_keeps false path w q))
        λ handle v.
          fs.close_keeps handle _ q
          ∙ next-Same q v _ (failing_with t (files.query handle v))
              (failing_with-Same q v t _ (fs.query_keeps handle v q))
              λ actual u. elim (Bool-cases (stamp_eq actual expected)) [
                | inl e ↦ rw e refl
                | inr e ↦ rw e refl
              ]

  pub check_expected-Same :
      (q path : Text) (expected : Option FileStamp) (w : W)
      → Same q w (check_expected path expected w)
  unfolding check_expected
  check_expected-Same q path none w = refl
  check_expected-Same q path (some expected) w = check_stamp-Same q _ _ path expected w

  pub recheck_expected-Same :
      (q path : Text) (expected : Option FileStamp) (w : W)
      → Same q w (recheck_expected path expected w)
  unfolding recheck_expected
  recheck_expected-Same q path none w = refl
  recheck_expected-Same q path (some expected) w = check_stamp-Same q _ _ path expected w

  pub saved_stamp-Same : (q path : Text) (w : W) → Same q w (saved_stamp path w)
  unfolding saved_stamp open_existing query_stamp ◌>>=◌
  saved_stamp-Same q path w =
      next-Same q w _ (failing_with status_from_error (files.open_read false path w))
        (failing_with-Same q w status_from_error _ (fs.open_keeps false path w q))
        λ handle v.
          fs.close_keeps handle _ q
          ∙ failing_with-Same q v status_from_error (files.query handle v)
              (fs.query_keeps handle v q)

  after_write-Same :
      (q : Text) (w : W) (rest : ℕ → W → (Failure ⊎ Unit {0}) × W) (m : Moved ℕ × W)
      → content m.1 q ≡ content w q
      → Same q m.1 (rest m.0.value m.1)
      → Same q w (after_write rest m)
  after_write-Same q w rest (moved, after) h k =
      elim (Bool-cases (not moved.succeeded || (moved.value == 0))) [
        | inl e ↦ rw e h
        | inr e ↦ rw e (k ∙ h)
      ]

  write_loop-Same :
      (fuel h : ℕ) (bytes : List ℕ) (w : W) (q : Text)
      → q ≢ owner w h
      → Same q w (write_loop fuel h bytes w)
  unfolding write_loop
  write_loop-Same zero h bytes w q ne = refl
  write_loop-Same (suc fuel) h bytes w q ne =
      let m = files.write_file h (take dword_max bytes) w in
      let other : q ≢ owner m.1 h = λ e. ne (e ∙ fs.write_owner h (take dword_max bytes) w) in
      elim (Bool-cases (is_nil bytes)) [
        | inl e ↦ rw e refl
        | inr e ↦ rw e (
            after_write-Same q w (λ n after. write_loop fuel h (drop n bytes) after) m
              (fs.write_keeps h (take dword_max bytes) w q ne)
              (write_loop-Same fuel h (drop m.0.value bytes) m.1 q other))
      ]

  after_write_done :
      (rest : ℕ → W → (Failure ⊎ Unit {0}) × W) (m : Moved ℕ × W)
      → (after_write rest m).0 ≡ inr tt
      → (0 < m.0.value)
        × ((rest m.0.value m.1).0 ≡ inr tt)
        × ((after_write rest m).1 ≡ (rest m.0.value m.1).1)
  after_write_done rest (moved, after) done =
      elim (Bool-cases (not moved.succeeded || (moved.value == 0))) [
        | inl e ↦ absurd (ground (arith, e, done))
        | inr e ↦ (ground (arith, e), rw e at done, rw e refl)
      ]

  pub write_loop-content :
      (fuel h : ℕ) (bytes : List ℕ) (w : W) (old : List ℕ) (p : Text)
      → length bytes ≤ fuel
      → p ≡ owner w h
      → content w p ≡ some old
      → (write_loop fuel h bytes w).0 ≡ inr tt
      → content (write_loop fuel h bytes w).1 p ≡ some (old ++ bytes)
  unfolding write_loop
  write_loop-content zero h bytes w old p fits same before done =
      rw (length_nil bytes (omega arith), append-nil old) before
  write_loop-content (suc fuel) h bytes w old p fits same before done =
      elim (Bool-cases (is_nil bytes)) [
        | inl e ↦ rw (e, is_nil_only bytes e, append-nil old) before
        | inr e ↦
            let m = files.write_file h (take dword_max bytes) w in
            let rest : ℕ → W → (Failure ⊎ Unit {0}) × W =
              λ n after. write_loop fuel h (drop n bytes) after in
            let ran : (after_write rest m).0 ≡ inr tt = rw e at done in
            let (positive, going, same_end) = after_write_done rest m ran in
            let k = m.0.value in
            let added : content m.1 p ≡ some (old ++ take k (take dword_max bytes)) =
              subst (λ q. content m.1 q ≡ some (old ++ take k (take dword_max bytes))) (sym same)
                (fs.write_appends h (take dword_max bytes) w old
                  (subst (λ q. content w q ≡ some old) same before)) in
            rw (e, same_end)
              (write_loop-content fuel h (drop k bytes) m.1 (old ++ take k (take dword_max bytes)) p
                  (omega (arith, length-drop k bytes))
                  (same ∙ sym (fs.write_owner h (take dword_max bytes) w)) added going
                ∙ ap (λ l. some l)
                    (append_assoc old (take k (take dword_max bytes)) (drop k bytes)
                      ∙ ap (λ l. old ++ l)
                          (take-drop k dword_max bytes
                            (fs.write_within h (take dword_max bytes) w))))
      ]

  -- The temporary after it was written: nothing else has changed, and it holds the bytes.
  pub write_temporary-Same :
      (name : Text) (h : ℕ) (bytes : List ℕ) (w : W) (q : Text)
      → q ≢ name
      → owner w h ≡ name
      → Same q w (write_temporary name h bytes w)
  unfolding write_temporary write_and_flush write_all ◌>>=◌
  write_temporary-Same name h bytes w q ne own = undo-Same q w name _ ne (
      fs.close_keeps h _ q
      ∙ next-Same q w _ (write_loop (length bytes) h bytes w)
          (write_loop-Same (length bytes) h bytes w q (λ e. ne (e ∙ own)))
          λ done v. flushed q v (files.flush h v) (fs.flush_keeps h v q))
    where
      flushed :
          (q : Text) (v : W) (r : Option ℕ × W)
          → content r.1 q ≡ content v q
          → Same q v (flush_result r)
      flushed q v (none, after) k = k
      flushed q v (some error, after) k = k
