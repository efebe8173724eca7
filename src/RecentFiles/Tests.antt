-- ===== src/RecentFiles/Tests.antt =====
-- Runs of src/recent_files.cpp at concrete lists and on a concrete registry, and the theorems applied
-- there.
use mwfl.Prelude.{
  ℕ, ◌≡◌, refl, ap, subst, ◌∙◌, ◌⊎◌, inl, inr, true, not, ◌&&◌, Option, none, some, List, [], ◌∷◌,
  arith, Text, ltb, if◌then◌else◌, text_eq, text_eq_iff, codes, length, take, erase_idx, find_index,
  find, any, erase_if,
}
use mwfl.RecentFiles.{
  OrdinalApi, RecentFileList, int_max, create, path_is_invalid, equal_path, add, remove,
}
use mwfl.RecentFiles.Order.{IsValid, add_lem, Call, adding, removing, run, run-new-IsValid}
use mwfl.RecentFiles.Format.{encode, encode_paths}
use mwfl.RecentFiles.Registry.{
  success, RegistryApi, schema_name, files_name, load, save, save_key, save_files,
}
use mwfl.RecentFiles.Registry.Saved.{Remembers, load-save}

text_eq_comm : (a b : Text) → text_eq a b ≡ text_eq b a
unfolding text_eq
text_eq_comm [] [] = refl
text_eq_comm [] (y ∷ b) = refl
text_eq_comm (x ∷ a) [] = refl
text_eq_comm (x ∷ a) (y ∷ b) = ground (arith, text_eq_comm a b)

text_eq_trans : (a b c : Text) → text_eq a b ≡ true → text_eq b c ≡ true → text_eq a c ≡ true
text_eq_trans a b c x y = (text_eq_iff a c).1 ((text_eq_iff a b).0 x ∙ (text_eq_iff b c).0 y)

-- A comparison that tells the cases apart.
instance abbrev exact : OrdinalApi
exact = record {
  equal_ordinal = text_eq;
  equal_ordinal_comm = text_eq_comm;
  equal_ordinal_trans = text_eq_trans;
}

abbrev list : RecentFileList
list = record { paths = codes "a" ∷ codes "b" ∷ []; maximum_entries = 2 }

new_list : create 2 ≡ some (record { paths = []; maximum_entries = 2 })
unfolding create
new_list = refl

abbrev calls : List Call
calls = adding (codes "b") ∷ adding (codes "a") ∷ adding (codes "a") ∷ removing (codes "c") ∷ []

run-calls : run (record { paths = []; maximum_entries = 2 }) calls ≡ list
unfolding add remove path_is_invalid any find_index equal_path text_eq erase_if erase_idx int_max
run-calls = refl

run-new-IsValid_example : IsValid (run (record { paths = []; maximum_entries = 2 }) calls)
run-new-IsValid_example = run-new-IsValid 2 calls new_list

list-IsValid : IsValid list
list-IsValid = subst IsValid run-calls run-new-IsValid_example

add_lem_example :
    ((add list (codes "b")).0.paths ≡ (
      if path_is_invalid (codes "b")
      then list.paths
      else take 2 (codes "b" ∷ erase_if (λ c. equal_path c (codes "b")) list.paths)))
    × ((add list (codes "b")).1 ≡ (
        not (path_is_invalid (codes "b"))
        && not (any (λ c. equal_path c (codes "b")) (codes "a" ∷ []))))
add_lem_example = add_lem list (codes "b") list-IsValid

-- A registry with one key: the values that were set, the last one first.
abbrev Store : Type 0
Store = List (Text × ℕ × List ℕ)

abbrev query_entry : Option (Text × ℕ × List ℕ) → ℕ → ℕ ⊎ (ℕ × List ℕ)
query_entry none size = inl 2
query_entry (some (name, type, bytes)) size =
    if ltb size (length bytes) then inl 234 else inr (type, bytes)

abbrev entry_size : Option (Text × ℕ × List ℕ) → ℕ ⊎ (ℕ × ℕ)
entry_size none = inl 2
entry_size (some (name, type, bytes)) = inr (type, length bytes)

unfoldable entry_of : Store → Text → Option (Text × ℕ × List ℕ)
entry_of s name = find (λ e. text_eq e.0 name) s

abbrev one_key : RegistryApi Store ℕ
one_key = record {
  open_key = λ s root subkey. inr 1;
  create_key = λ s root subkey. inr (s, 1);
  set_value = λ s key name type bytes. ((name, type, bytes) ∷ s, 0);
  query_size = λ s key name. entry_size (entry_of s name);
  query_value = λ s key name size. query_entry (entry_of s name) size;
}

entry_of-set :
    (s : Store) (name : Text) (type : ℕ) (bytes : List ℕ)
    → entry_of ((name, type, bytes) ∷ s) name ≡ some (name, type, bytes)
unfolding entry_of find
entry_of-set s name type bytes = rw ((text_eq_iff name name).1 refl) refl

entry_of-other :
    (s : Store) (type : ℕ) (bytes : List ℕ)
    → entry_of ((files_name, type, bytes) ∷ s) schema_name ≡ entry_of s schema_name
unfolding entry_of find text_eq
entry_of-other s type bytes = refl

one_key-Remembers : Remembers one_key 3 (codes "App")
one_key-Remembers = record {
  opens =
      λ s made key e. ap (λ (x : ℕ ⊎ (Store × ℕ)). elim x [ inl n ↦ inl n | inr (t, k) ↦ inr k ]) e;
  opens_still = λ s key name type bytes. refl;
  size_set = λ s key name type bytes ok. ap entry_size (entry_of-set s name type bytes);
  value_set = λ s key name type bytes ok. rw (entry_of-set s name type bytes) (ground arith);
  schema_stays =
      λ s key type bytes size. ap (λ e. query_entry e size) (entry_of-other s type bytes);
}

save-one_key : (save one_key [] 3 (codes "App") list).1.status ≡ success
unfolding save save_key save_files encode encode_paths
save-one_key = refl

load-save_example :
    load one_key (save one_key [] 3 (codes "App") list).0 3 (codes "App") 1
    ≡ some (record {
      value = some (record { paths = codes "a" ∷ []; maximum_entries = 1 });
      status = success;
      native_error = 0;
    })
load-save_example =
    load-save one_key [] 3 (codes "App") list 1 one_key-Remembers list-IsValid (omega arith)
      (λ e. absurd (omega arith)) save-one_key
