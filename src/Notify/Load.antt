-- ===== src/Notify/Load.antt =====
-- notify.system/msg_notify.c: `load_reg_list`, which registers the devices that a file lists.
pub mod Overread
mod Tests
use memory_leak.Prelude.{
  ℕ, suc, ◌+◌, Bool, true, false, ◌||◌, Option, none, some, List, [], ◌∷◌, ◌++◌, ◌==◌, ltb,
  if◌then◌else◌, length, replicate,
}
use memory_leak.Prelude.Memory.{copy_out}
use memory_leak.Prelude.Run.{Run, ok, ◌>>=◌, or_fault}
use memory_leak.Notify.Message.{Msg, Timespec, len_devid, strlen}
use memory_leak.Notify.Registry.{Table, Env, my_malloc, reg_to_table}

-- The delimiters "\r\n".
abbrev pub is_delimiter : ℕ → Bool
is_delimiter c = (c == 13) || (c == 10)

-- `strtok` puts a 0 behind the token at the start of the memory that is given.
unfoldable pub terminate : List ℕ → List ℕ
terminate [] = []
terminate (c ∷ cs) = if is_delimiter c then 0 ∷ cs else if c == 0 then 0 ∷ cs else c ∷ terminate cs

-- The memory from each token on, at the time when `strtok` returns it, up to the end of the block.
-- `inside` says that the bytes stand inside a token.
unfoldable pub tokens : (inside : Bool) → List ℕ → List (List ℕ)
tokens inside [] = []
tokens inside (c ∷ cs) =
    let within = tokens true cs in
    let between = tokens false cs in
    if c == 0
    then []
    else if is_delimiter c
    then between
    else if inside
    then within
    else terminate (c ∷ cs) ∷ within

-- The message of a token: all zeros but the id.
abbrev pub registration : List ℕ → Msg
registration dev_id = record {
  type = 0;
  ifroute = 0;
  dev_id = dev_id;
  ntf_id = replicate 40 0;
  second = replicate 8 0;
  nano = replicate 8 0;
  len = replicate 2 0;
  data_bytes = [];
}

-- `ret` and the table.
abbrev pub Loaded : Type 0
Loaded = ℕ × Table

-- A token of more than 30 characters is an id: 40 bytes are copied from it.
unfoldable pub load_token : Env → Timespec → List ℕ → Loaded → Run Loaded
load_token env now pch (ret, table) = or_fault (strlen pch) >>= λ n.
    if ltb 30 n
    then (do
      dev_id ← or_fault (copy_out pch len_devid)
      (ret, _, table) ← reg_to_table env table (registration dev_id) (some now)
      ok (ret, table))
    else ok (ret, table)

-- `while (pch)`; `now` is what the clock says, for the `k`-th token.
unfoldable pub load_tokens :
    Env → (now : ℕ → Timespec) → (k : ℕ) → List (List ℕ) → Loaded → Run Loaded
load_tokens env now k [] s = ok s
load_tokens env now k (pch ∷ rest) s =
    load_token env (now k) pch s >>= λ s. load_tokens env now (k + 1) rest s

-- The bytes of the file, `none` if it cannot be opened; the block has one byte more, which is 0.
unfoldable pub load_reg_list : Env → (now : ℕ → Timespec) → Option (List ℕ) → Table → Run Loaded
load_reg_list env now none table = ok (0, table)
load_reg_list env now (some []) table = ok (0, table)
load_reg_list env now (some (c ∷ cs)) table = do
  _ ← my_malloc env (length (c ∷ cs) + 1)
  load_tokens env now 0 (tokens false (c ∷ cs ++ 0 ∷ [])) (0, table)
