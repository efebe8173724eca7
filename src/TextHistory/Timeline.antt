-- ===== src/TextHistory/Timeline.antt =====
-- What a history means: the texts before the current one, newest first, the current one, and the
-- texts that redo would bring back. The operations of src/text_history.cpp implement it.
use mathlib.Core.List.{head?, reverse, reverse-cons, append_assoc}
use mwfl.Prelude.{
  ℕ, zero, suc, ◌+◌, ◌-◌, ◌≤◌, ◌<◌, ◌≡◌, refl, ap, ◌∙◌, inl, inr, some, List, [], ◌∷◌, ◌++◌, arith,
  Text, leb, if◌then◌else◌, Bool-cases, text_eq, length, get_elem?, take, drop, length-append,
  length-take,
}
use mwfl.TextHistory.{
  TextHistory, reset, trim_to_capacity, append_entry, record_text, undo, redo, mark_saved,
  current_text, Call, resets, records, undoes, redoes, saves, step,
}
use mwfl.TextHistory.Invariant.{IsValid}

pub record Timeline : Type 0 where
  pub past : List Text
  pub present : Text
  pub future : List Text

-- A new text pushes the present into the past, of which the newest `capacity - 1` texts stay; it
-- forgets the future. The text that is present already changes nothing.
unfoldable pub remember : ℕ → Timeline → Text → Timeline
remember capacity t text =
    if text_eq text t.present
    then t
    else record { past = take (capacity - 1) (t.present ∷ t.past); present = text; future = [] }

unfoldable pub back : Timeline → Timeline
back t = elim t.past [
  | [] ↦ t
  | x ∷ past ↦ record { past = past; present = x; future = t.present ∷ t.future }
]

unfoldable pub forth : Timeline → Timeline
forth t = elim t.future [
  | [] ↦ t
  | x ∷ future ↦ record { past = t.present ∷ t.past; present = x; future = future }
]

unfoldable pub travel : ℕ → Timeline → Call → Timeline
travel capacity t (resets text flag) = record { past = []; present = text; future = [] }
travel capacity t (records text) = remember capacity t text
travel capacity t undoes = back t
travel capacity t redoes = forth t
travel capacity t saves = t

-- The history holds these texts, oldest first, with the cursor at the present.
pub record Shows (h : TextHistory) (t : Timeline) : Type 0 where
  pub texts : h.entries ≡ reverse t.past ++ t.present ∷ t.future
  pub cursor : h.current ≡ length t.past

module _ {ℓ} {A : Type ℓ} where
  length-reverse : (xs : List A) → length (reverse xs) ≡ length xs
  length-reverse [] = refl
  length-reverse (x ∷ xs) =
      omega (
        arith,
        ap length (reverse-cons x xs),
        length-append (reverse xs) (x ∷ []),
        length-reverse xs,
      )

  drop-append : (k : ℕ) (xs ys : List A) → k ≤ length xs → drop k (xs ++ ys) ≡ drop k xs ++ ys
  drop-append zero xs ys h = refl
  drop-append (suc k) [] ys h = absurd (omega arith)
  drop-append (suc k) (x ∷ xs) ys h = drop-append k xs ys (omega arith)

  drop_all : (k : ℕ) (xs : List A) → length xs ≤ k → drop k xs ≡ []
  drop_all zero [] h = refl
  drop_all zero (x ∷ xs) h = absurd (omega arith)
  drop_all (suc k) [] h = refl
  drop_all (suc k) (x ∷ xs) h = drop_all k xs (omega arith)

  -- Keeping the last `n` of a list keeps the first `n` of its reverse.
  drop-reverse : (n : ℕ) (xs : List A) → drop (length xs - n) (reverse xs) ≡ reverse (take n xs)
  drop-reverse zero xs = drop_all _ (reverse xs) (omega (arith, length-reverse xs))
  drop-reverse (suc n) [] = drop_all _ [] (omega arith)
  drop-reverse (suc n) (x ∷ xs) =
      let same : suc (length xs) - suc n ≡ length xs - n = omega arith in
      rw (reverse-cons x xs, reverse-cons x (take n xs), same)
        (drop-append (length xs - n) (reverse xs) (x ∷ []) (omega (arith, length-reverse xs))
          ∙ ap (λ ys. ys ++ x ∷ []) (drop-reverse n xs))

  take-append-cons : (xs ys : List A) (y : A) → take (suc (length xs)) (xs ++ y ∷ ys) ≡ xs ++ y ∷ []
  take-append-cons [] ys y = refl
  take-append-cons (x ∷ xs) ys y = ap (x ∷◌) (take-append-cons xs ys y)

  get_elem?-append-cons : (xs ys : List A) (y : A) → get_elem? (xs ++ y ∷ ys) (length xs) ≡ some y
  get_elem?-append-cons [] ys y = refl
  get_elem?-append-cons (x ∷ xs) ys y = get_elem?-append-cons xs ys y

  reverse-cons-append : (x : A) (xs ys : List A) → reverse (x ∷ xs) ++ ys ≡ reverse xs ++ x ∷ ys
  reverse-cons-append x xs ys = rw (reverse-cons x xs) (append_assoc (reverse xs) (x ∷ []) ys)

timeline : List Text → Text → List Text → Timeline
timeline past present future = record { past = past; present = present; future = future }

undo-Shows :
    (h : TextHistory) (past : List Text) (present : Text) (future : List Text)
    → Shows h (timeline past present future)
    → Shows (undo h).0 (back (timeline past present future))
unfolding undo back timeline
undo-Shows h [] present future s = ground (arith, s.texts, s.cursor)
undo-Shows h (x ∷ past) present future s =
    ground (arith, s.texts, s.cursor, reverse-cons-append x past (present ∷ future))

redo-Shows :
    (h : TextHistory) (past : List Text) (present : Text) (future : List Text)
    → Shows h (timeline past present future)
    → Shows (redo h).0 (forth (timeline past present future))
unfolding redo forth timeline
redo-Shows h past present [] s =
    ground
      (arith, s.texts, s.cursor, length-append (reverse past) (present ∷ []), length-reverse past)
redo-Shows h past present (x ∷ future) s = ground (
  arith,
  s.texts,
  s.cursor,
  length-append (reverse past) (present ∷ x ∷ future),
  length-reverse past,
  reverse-cons-append present past (x ∷ future),
)

-- The entry under the cursor is the present.
pub Shows-current : (h : TextHistory) (t : Timeline) → Shows h t → current_text h ≡ some t.present
Shows-current h t s =
    rw (s.texts, s.cursor, ← length-reverse t.past)
      (get_elem?-append-cons (reverse t.past) t.future t.present)

append_entry-Shows :
    (h : TextHistory) (t : Timeline) (text : Text)
    → Shows h t
    → Shows (append_entry h text) (timeline (t.present ∷ t.past) text [])
unfolding append_entry timeline
append_entry-Shows h t text s = record {
  texts =
      rw
        (
          s.texts,
          s.cursor,
          ← length-reverse t.past,
          take-append-cons (reverse t.past) t.future t.present,
          reverse-cons t.present t.past,
        )
        refl;
  cursor = ap suc s.cursor;
}

take_all : {A : Type 0} (n : ℕ) (xs : List A) → length xs ≤ n → take n xs ≡ xs
take_all zero [] h = refl
take_all zero (x ∷ xs) h = absurd (omega arith)
take_all (suc n) [] h = refl
take_all (suc n) (x ∷ xs) h = ap (x ∷◌) (take_all n xs (omega arith))

-- Dropping what is over the capacity keeps the newest texts.
drop-Shows :
    (n : ℕ) (past : List Text) (text : Text)
    → n < length past + 1
    → drop (length past + 1 - (n + 1)) (reverse past ++ text ∷ [])
      ≡ reverse (take n past) ++ text ∷ []
drop-Shows n past text h =
    let same : length past + 1 - (n + 1) ≡ length past - n = omega arith in
    rw same (
      drop-append (length past - n) (reverse past) (text ∷ []) (omega (arith, length-reverse past))
      ∙ ap (λ ys. ys ++ text ∷ []) (drop-reverse n past))

trim_to_capacity-Shows :
    (h : TextHistory) (past : List Text) (text : Text)
    → 2 ≤ h.maximum_entries
    → Shows h (timeline past text [])
    → Shows (trim_to_capacity h) (timeline (take (h.maximum_entries - 1) past) text [])
unfolding trim_to_capacity timeline
trim_to_capacity-Shows h past text c s =
    elim (Bool-cases (leb (length h.entries) h.maximum_entries)) [
      | inl fits ↦ rw (fits, take_all (h.maximum_entries - 1) past (ground (arith, size))) s
      | inr over ↦
          let kept = length-take (h.maximum_entries - 1) past in
          let long : h.maximum_entries < length h.entries = ground arith in
          rw over (record { texts = trimmed long; cursor = omega (arith, size, s.cursor, kept) })
    ]
  where
    size : length h.entries ≡ length past + 1
    size =
        omega
          (arith, ap length s.texts, length-append (reverse past) (text ∷ []), length-reverse past)

    trimmed :
        h.maximum_entries < length h.entries
        → drop (length h.entries - h.maximum_entries) h.entries
          ≡ reverse (take (h.maximum_entries - 1) past) ++ text ∷ []
    trimmed long =
        let same : length h.entries - h.maximum_entries
            ≡ length past + 1 - (h.maximum_entries - 1 + 1) =
          omega (arith, size) in
        rw (same, s.texts) (drop-Shows (h.maximum_entries - 1) past text (omega (arith, size)))

record_text-Shows :
    (h : TextHistory) (t : Timeline) (text : Text)
    → IsValid h
    → Shows h t
    → Shows (record_text h text).0 (remember h.maximum_entries t text)
unfolding record_text remember append_entry timeline
record_text-Shows h t text v s = elim (Bool-cases (text_eq text t.present)) [
  | inl same ↦ rw (Shows-current h t s, same) (record { texts = s.texts; cursor = s.cursor })
  | inr new ↦
      rw (Shows-current h t s, new)
        (trim_to_capacity-Shows (append_entry h text) (t.present ∷ t.past) text v.capacity
          (append_entry-Shows h t text s))
]

-- Every call moves the history as the timeline says.
pub step-Shows :
    (h : TextHistory) (t : Timeline) (c : Call)
    → IsValid h
    → Shows h t
    → Shows (step h c) (travel h.maximum_entries t c)
unfolding step travel reset mark_saved timeline
step-Shows h t (resets text flag) v s = record { texts = refl; cursor = refl }
step-Shows h t (records text) v s = record_text-Shows h t text v s
step-Shows h t undoes v s = undo-Shows h t.past t.present t.future s
step-Shows h t redoes v s = redo-Shows h t.past t.present t.future s
step-Shows h t saves v s = record { texts = s.texts; cursor = s.cursor }

undo_moves : (h : TextHistory) → 0 < h.current → (undo h).1 ≡ current_text (undo h).0
unfolding undo
undo_moves h p = ground arith

redo_moves :
    (h : TextHistory) → suc h.current < length h.entries → (redo h).1 ≡ current_text (redo h).0
unfolding redo
redo_moves h p = ground arith

undone :
    (h : TextHistory) (past : List Text) (present : Text) (future : List Text)
    → Shows h (timeline past present future)
    → (undo h).1 ≡ head? past
unfolding timeline undo back
undone h [] present future q = ground (arith, q.cursor)
undone h (x ∷ past) present future q =
    undo_moves h (omega (arith, q.cursor))
    ∙ Shows-current (undo h).0 (timeline past x (present ∷ future))
        (undo-Shows h (x ∷ past) present future q)

redone :
    (h : TextHistory) (past : List Text) (present : Text) (future : List Text)
    → Shows h (timeline past present future)
    → (redo h).1 ≡ head? future
unfolding timeline redo forth
redone h past present [] q =
    let size : length h.entries ≡ length past + 1 = omega (
      arith,
      ap length q.texts,
      length-append (reverse past) (present ∷ []),
      length-reverse past,
    ) in
    ground (arith, q.cursor, size)
redone h past present (x ∷ future) q =
    redo_moves h (
      omega (
        arith,
        q.cursor,
        ap length q.texts,
        length-append (reverse past) (present ∷ x ∷ future),
        length-reverse past,
      ))
    ∙ Shows-current (redo h).0 (timeline (present ∷ past) x future)
        (redo-Shows h past present (x ∷ future) q)

-- What undo and redo hand back is the newest text of the past and the next text of the future,
-- and nothing where there is none.
pub undo_redo_results :
    (h : TextHistory) (t : Timeline)
    → Shows h t
    → ((undo h).1 ≡ head? t.past) × ((redo h).1 ≡ head? t.future)
unfolding timeline
undo_redo_results h t s =
    (undone h t.past t.present t.future s, redone h t.past t.present t.future s)
