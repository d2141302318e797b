-- ===== src/Cluster/Directory.antt =====
-- cluster/common/lcs_common.c: `lcs_partition` and `lcs_quick_sort` on strings, `lcs_comm_subdir`
-- and `lcs_comm_list_files`. A directory is the list of what `readdir` returns, each name with
-- what `stat` says of it; memory is granted.
pub mod Entries
pub mod Names
use memory_leak.Prelude.{
  ℕ, ◌+◌, Bool, true, false, List, [], ◌∷◌, ◌++◌, Option, none, some, ltb, if◌then◌else◌, length,
}
use memory_leak.Prelude.Run.{Run, ok, fault, ◌>>=◌}
use memory_leak.Cluster.Sort as Sort
use memory_leak.Cluster.Strings.{strcmp}
use memory_leak.Cluster.Merge.{differs}

-- Of the pointers only the order changes.
abbrev pub partition : List (List ℕ) → (low end : ℕ) → Run (List (List ℕ) × ℕ)
partition = Sort.partition strcmp (λ x. x)

abbrev pub quick_sort : (fuel : ℕ) → List (List ℕ) → (low end : ℕ) → Run (List (List ℕ))
quick_sort = Sort.quick_sort strcmp (λ x. x)

-- `stat`: it fails, or it finds a directory, a regular file or something else.
pub data Stat : Type 0 where
  failed : Stat
  folder : Stat
  regular : Stat
  special : Stat

pub record Entry : Type 0 where
  pub d_name : List ℕ
  pub stat : Stat

-- `S_ISDIR` and `S_ISREG`
abbrev pub is_folder : Stat → Bool
is_folder Stat.folder = true
is_folder Stat.failed = false
is_folder Stat.regular = false
is_folder Stat.special = false

abbrev pub is_regular : Stat → Bool
is_regular Stat.regular = true
is_regular Stat.failed = false
is_regular Stat.folder = false
is_regular Stat.special = false

-- `strcmp(dent->d_name, ".") == 0 || strcmp(dent->d_name, "..") == 0`
abbrev pub is_dot : List ℕ → Bool
is_dot name =
    if differs (strcmp name (46 ∷ []))
    then (if differs (strcmp name (46 ∷ 46 ∷ [])) then false else true)
    else true

-- The pointers that `*result` has room for, and the bytes of `tmp`.
abbrev pub result_places : ℕ
result_places = 62

abbrev pub tmp_bytes : ℕ
tmp_bytes = 1024

-- The names kept, and `*err`.
pub record Listing : Type 0 where
  pub names : List (List ℕ)
  pub err : ℕ

-- `(*result)[dir_count] = ...; dir_count++;`
unfoldable pub keep_name : (name : List ℕ) → Listing → Run Listing
keep_name name l =
    if ltb (length l.names) result_places
    then ok (record l { names = l.names ++ name ∷ [] })
    else fault

-- What is done with an entry that is not skipped, behind `sprintf`.
unfoldable pub note_entry : (wanted : Stat → Bool) → (name : List ℕ) → Stat → Listing → Run Listing
note_entry wanted name Stat.failed l = ok (record l { err = 1 })
note_entry wanted name Stat.folder l = if wanted Stat.folder then keep_name name l else ok l
note_entry wanted name Stat.regular l = if wanted Stat.regular then keep_name name l else ok l
note_entry wanted name Stat.special l = if wanted Stat.special then keep_name name l else ok l

-- `while((dent = readdir(srcdir)) != NULL)`; `sprintf` writes the path, a slash, the name and 0.
unfoldable pub read_entries :
    (wanted : Stat → Bool) → (path : List ℕ) → List Entry → Listing → Run Listing
read_entries wanted path [] l = ok l
read_entries wanted path (e ∷ entries) l =
    let skipped = read_entries wanted path entries l in
    let noted = note_entry wanted e.d_name e.stat l >>= λ l'. read_entries wanted path entries l' in
    if is_dot e.d_name
    then skipped
    else if ltb (length path + 1 + length e.d_name) tmp_bytes
    then noted
    else fault

-- `lcs_comm_subdir(path, result, err)`: `given` is whether `result` is a pointer, `opened`
-- whether `opendir` succeeds. It gives back what `*result` is set to, and `*err`.
unfoldable pub comm_subdir :
    (given opened : Bool)
    → (path : List ℕ) → List Entry
    → (err : ℕ) → Run (Option (List (List ℕ)) × ℕ)
comm_subdir given opened path entries err =
    let listed = read_entries is_folder path entries record { names = []; err = err } >>= λ l.
    quick_sort (length l.names + 1) l.names 0 (length l.names) >>= λ names.
    ok (some names, l.err) in
    if given then (if opened then listed else ok (none, 1)) else ok (none, 1)

-- `lcs_comm_list_files(path, result, err)`
unfoldable pub comm_list_files :
    (given opened : Bool)
    → (path : List ℕ) → List Entry
    → (err : ℕ) → Run (Option (List (List ℕ)) × ℕ)
comm_list_files given opened path entries err =
    let listed = read_entries is_regular path entries record { names = []; err = err } >>= λ l.
    ok (some l.names, l.err) in
    if given then (if opened then listed else ok (none, 1)) else ok (none, 1)
