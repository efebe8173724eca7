-- ===== src/RecentFiles/Registry/Saved.antt =====
-- What src/recent_files.cpp saves to the registry, it loads again.
use mathlib.Core.List.{append-nil, mem-cons_self, mem-cons_of_mem, Pairwise, Pairwise-cons}
use mwfl.Prelude.Searching.{mem_of_mem-take}
use mwfl.Prelude.{
  Either-cases, ℕ, zero, suc, ◌*◌, ◌≤◌, ◌<◌, ◌≡◌, refl, ap, ◌∙◌, ◌≢◌, inl, inr, Bool, true, false,
  none, some, List, [], ◌∷◌, ◌++◌, Mem, arith, Text, ltb, text_eq, length, take, find_index,
  length-append, All, All-append,
}
use mwfl.RecentFiles.{OrdinalApi, RecentFileList, create, path_is_invalid, equal_path, add}
use mwfl.RecentFiles.Order.{IsValid, equal_path_comm}
use mwfl.RecentFiles.Format.{encode, encode_paths, parse-encode}
use mwfl.RecentFiles.Registry.{
  success, RegistryApi, reg_dword, reg_multi_sz, schema_name, files_name, bytes_of, units_of,
  schema_bytes, filled, add_back, is_schema, is_size, load_files, load_key, load_from, load,
  save_files, save_key, status_from_error, save, units_limit, load_parsed,
}

-- What the registry remembers: the key that was created is opened, a value that was set is read
-- with its type and its bytes, and setting the one value leaves the other.
pub record Remembers {S Key : Type 0} (api : RegistryApi S Key) (root : ℕ) (subkey : Text)
    : Type 0 where
  pub opens :
      (s made : S) (key : Key)
      → api.create_key s root subkey ≡ inr (made, key)
      → api.open_key made root subkey ≡ inr key
  pub opens_still :
      (s : S) (key : Key) (name : Text) (type : ℕ) (bytes : List ℕ)
      → api.open_key (api.set_value s key name type bytes).0 root subkey
        ≡ api.open_key s root subkey
  pub size_set :
      (s : S) (key : Key) (name : Text) (type : ℕ) (bytes : List ℕ)
      → (api.set_value s key name type bytes).1 ≡ 0
      → api.query_size (api.set_value s key name type bytes).0 key name ≡ inr (type, length bytes)
  pub value_set :
      (s : S) (key : Key) (name : Text) (type : ℕ) (bytes : List ℕ)
      → (api.set_value s key name type bytes).1 ≡ 0
      → api.query_value (api.set_value s key name type bytes).0 key name (length bytes)
        ≡ inr (type, bytes)
  pub schema_stays :
      (s : S) (key : Key) (type : ℕ) (bytes : List ℕ) (size : ℕ)
      → api.query_value (api.set_value s key files_name type bytes).0 key schema_name size
        ≡ api.query_value s key schema_name size

abbrev pub IsUnit : ℕ → Type 0
IsUnit u = u < 65536

units_of-bytes_of : (us : List ℕ) → All IsUnit us → units_of (bytes_of us) ≡ us
unfolding units_of bytes_of
units_of-bytes_of [] v = refl
units_of-bytes_of (u ∷ us) v = ground (arith, units_of-bytes_of us v.1, v.0)

filled_self : (bytes : List ℕ) → filled (length bytes) bytes ≡ bytes
unfolding filled
filled_self [] = refl
filled_self (b ∷ bytes) = ap (λ l. b ∷ l) (filled_self bytes)

length-bytes_of : (us : List ℕ) → length (bytes_of us) ≡ 2 * length us
unfolding bytes_of
length-bytes_of [] = refl
length-bytes_of (u ∷ us) = omega (arith, length-bytes_of us)

encode_paths-IsUnit : (ps : List Text) → All (All IsUnit) ps → All IsUnit (encode_paths ps)
unfolding encode_paths
encode_paths-IsUnit [] v = tt
encode_paths-IsUnit (p ∷ ps) v =
    All-append IsUnit p (0 ∷ encode_paths ps) v.0 (omega arith, encode_paths-IsUnit ps v.1)

encode-IsUnit : (ps : List Text) → All (All IsUnit) ps → All IsUnit (encode ps)
unfolding encode encode_paths
encode-IsUnit [] v = (omega arith, (omega arith, tt))
encode-IsUnit (p ∷ ps) v = rw (append-nil (encode_paths (p ∷ ps) ++ 0 ∷ [])) (
    All-append IsUnit (encode_paths (p ∷ ps)) (0 ∷ []) (encode_paths-IsUnit (p ∷ ps) v)
      (omega arith, tt))

length-encode : (ps : List Text) → 2 ≤ length (encode ps)
unfolding encode encode_paths
length-encode [] = omega arith
length-encode (p ∷ ps) = rw (append-nil ((p ++ 0 ∷ encode_paths ps) ++ 0 ∷ [])) (
    omega (
      arith,
      length-append (p ++ 0 ∷ encode_paths ps) (0 ∷ []),
      length-append p (0 ∷ encode_paths ps),
    ))

is_size-encode : (ps : List Text) → is_size reg_multi_sz (length (bytes_of (encode ps))) ≡ true
unfolding is_size
is_size-encode ps = ground (arith, length-bytes_of (encode ps), length-encode ps)

is_schema_own : is_schema reg_dword schema_bytes ≡ true
unfolding is_schema text_eq
is_schema_own = refl

status_from_error-failure : (error : ℕ) → status_from_error error ≢ success
unfolding status_from_error
status_from_error-failure error = λ e. ground arith

take-take : {A : Type 0} (m n : ℕ) (xs : List A) → m ≤ n → take m (take n xs) ≡ take m xs
take-take zero n xs h = refl
take-take (suc m) zero xs h = absurd (omega arith)
take-take (suc m) (suc n) [] h = refl
take-take (suc m) (suc n) (x ∷ xs) h = ap (λ l. x ∷ l) (take-take m n xs (omega arith))

take-cons-take :
    {A : Type 0} (n : ℕ) (x : A) (xs : List A) → take n (x ∷ take n xs) ≡ take n (x ∷ xs)
take-cons-take zero x xs = refl
take-cons-take (suc n) x xs = ap (λ l. x ∷ l) (take-take n (suc n) xs (omega arith))

find_index-missing :
    (q : Text → Bool) (xs : List Text)
    → ((x : Text) → Mem x xs → q x ≡ false)
    → find_index q xs ≡ none
unfolding find_index
find_index-missing q [] h = refl
find_index-missing q (x ∷ xs) h =
    ground (arith, h x mem-cons_self, find_index-missing q xs (λ y m. h y (mem-cons_of_mem x m)))

module _ ⦃os : OrdinalApi⦄ where
  -- A proper path that is new goes to the front.
  add-new :
      (l : RecentFileList) (p : Text)
      → path_is_invalid p ≡ false
      → ((c : Text) → Mem c l.paths → equal_path c p ≡ false)
      → (add l p).0 ≡ record {
        paths = take l.maximum_entries (p ∷ l.paths);
        maximum_entries = l.maximum_entries;
      }
  unfolding add
  add-new l p good new = ground (arith, good, find_index-missing (λ c. equal_path c p) l.paths new)

  -- The paths of a list, added from the last to the first, come out in their order.
  add_back-take :
      (n : ℕ) (ps : List Text)
      → All (λ p. path_is_invalid p ≡ false) ps
      → Pairwise (λ a b. equal_path a b ≡ false) ps
      → add_back (record { paths = []; maximum_entries = n }) ps
        ≡ record { paths = take n ps; maximum_entries = n }
  unfolding add_back
  add_back-take zero [] v d = refl
  add_back-take (suc n) [] v d = refl
  add_back-take n (p ∷ ps) v d =
      let (apart, rest) = Pairwise-cons.0 d in
      rw (add_back-take n ps v.1 rest, add_back)
        (add-new (record { paths = take n ps; maximum_entries = n }) p v.0
            (λ c m. equal_path_comm c p ∙ apart c (mem_of_mem-take n ps m))
          ∙ ap (λ l. record { paths = l; maximum_entries = n }) (take-cons-take n p ps))

  module _ {S Key : Type 0} (api : RegistryApi S Key) where
    load_files-set :
        (s : S) (key : Key) (root : ℕ) (subkey : Text) (empty : RecentFileList) (ps : List Text)
        → Remembers api root subkey
        → All (λ p. path_is_invalid p ≡ false) ps
        → All (All IsUnit) ps
        → (api.set_value s key files_name reg_multi_sz (bytes_of (encode ps))).1 ≡ 0
        → load_files api
            (api.set_value s key files_name reg_multi_sz (bytes_of (encode ps))).0
            key
            empty
          ≡ load_parsed empty (some ps)
    unfolding load_files
    load_files-set s key root subkey empty ps laws v units ok =
        let bytes : List ℕ = bytes_of (encode ps) in
        let sized = is_size-encode ps in
        let back : units_of (filled (length bytes) bytes) ≡ encode ps =
          ap units_of (filled_self bytes)
          ∙ units_of-bytes_of (encode ps) (encode-IsUnit ps units) in
        ground (
          arith,
          sized,
          back,
          parse-encode ps v,
          laws.size_set s key files_name reg_multi_sz bytes ok,
          laws.value_set s key files_name reg_multi_sz bytes ok,
        )

    -- A save under an open key that reports success is loaded from the same key.
    load_key-save_key :
        (s : S) (key : Key) (root : ℕ) (subkey : Text) (empty : RecentFileList) (ps : List Text)
        → Remembers api root subkey
        → All (λ p. path_is_invalid p ≡ false) ps
        → All (All IsUnit) ps
        → (save_key api s key ps).1.status ≡ success
        → load_key api (save_key api s key ps).0 key empty ≡ load_parsed empty (some ps)
    unfolding load_key save_key save_files
    load_key-save_key s key root subkey empty ps laws v units ok =
        let first : S × ℕ = api.set_value s key schema_name reg_dword schema_bytes in
        let second : S × ℕ =
          api.set_value first.0 key files_name reg_multi_sz (bytes_of (encode ps)) in
        let set : first.1 ≡ 0 = ground (arith, ok, status_from_error-failure first.1) in
        let within : ltb units_limit (length (encode ps)) ≡ false = ground (arith, ok, set) in
        let stored : second.1 ≡ 0 =
          ground (arith, ok, set, within, status_from_error-failure second.1) in
        ground (
          arith,
          set,
          within,
          stored,
          is_schema_own,
          laws.schema_stays first.0 key reg_multi_sz (bytes_of (encode ps)) 4,
          laws.value_set s key schema_name reg_dword schema_bytes set,
          load_files-set first.0 key root subkey empty ps laws v units stored,
        )

    open_key-save_key :
        (s made : S) (key : Key) (root : ℕ) (subkey : Text) (ps : List Text)
        → Remembers api root subkey
        → api.create_key s root subkey ≡ inr (made, key)
        → api.open_key (save_key api made key ps).0 root subkey ≡ inr key
    unfolding save_key save_files
    open_key-save_key s made key root subkey ps laws created =
        let first : S × ℕ = api.set_value made key schema_name reg_dword schema_bytes in
        ground (
          arith,
          laws.opens s made key created,
          laws.opens_still made key schema_name reg_dword schema_bytes,
          laws.opens_still first.0 key files_name reg_multi_sz (bytes_of (encode ps)),
        )

    -- A save that reports success is loaded again: the newest paths that the list has room for, in
    -- their order.
    pub load-save :
        (s : S) (root : ℕ) (subkey : Text) (files : RecentFileList) (maximum_entries : ℕ)
        → Remembers api root subkey
        → IsValid files
        → All (All IsUnit) files.paths
        → maximum_entries ≢ 0
        → (save api s root subkey files).1.status ≡ success
        → load api (save api s root subkey files).0 root subkey maximum_entries
          ≡ some (record {
            value = some (record {
              paths = take maximum_entries files.paths;
              maximum_entries = maximum_entries;
            });
            status = success;
            native_error = 0;
          })
    unfolding load load_from save create
    load-save s root subkey files n laws v units positive ok =
        elim (Either-cases (api.create_key s root subkey)) [
          | inl (error, refused) ↦
              absurd (ground (arith, refused, ok, status_from_error-failure error))
          | inr ((made, key), created) ↦
              let empty : RecentFileList = record { paths = []; maximum_entries = n } in
              ground (
                arith,
                created,
                positive,
                open_key-save_key s made key root subkey files.paths laws created,
                load_key-save_key made key root subkey empty files.paths laws v.proper units
                    (ground (arith, created, ok)),
                add_back-take n files.paths v.proper v.distinct,
              )
        ]
