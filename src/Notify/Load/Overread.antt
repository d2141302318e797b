-- ===== src/Notify/Load/Overread.antt =====
-- A list whose last line is a device id of fewer than 38 characters.
use memory_leak.Prelude.{
  ℕ, ◌+◌, ◌≤◌, ◌≡◌, ◌≢◌, refl, ap, sym, ◌∙◌, Bool, true, false, Option, none, some, List, [], ◌∷◌,
  ◌++◌, if◌then◌else◌, Bool-cases, inl, inr, length, length-append, arith, ne→==, lt→ltb,
  append_assoc,
}
use mathlib.Core.Path.{fun_ext}
use memory_leak.Prelude.Memory.{copy_out, copy_out-eq_none}
use memory_leak.Prelude.Run.{Run, ok, fault, exited, diverged, ◌>>=◌}
use memory_leak.Notify.Message.{Timespec, len_devid}
use memory_leak.Notify.Message.Ids.{IsString, strlen-string}
use memory_leak.Notify.Registry.{Table, Env, my_malloc}
use memory_leak.Notify.Load.{
  is_delimiter, terminate, tokens, Loaded, load_token, load_tokens, load_reg_list,
}

-- No 0 and no delimiter in it.
abbrev pub IsLine : List ℕ → Type 0
IsLine [] = Unit {0}
IsLine (c ∷ cs) = (c ≢ 0) × ((c ≢ 13) × ((c ≢ 10) × IsLine cs))

IsLine-IsString : (id : List ℕ) → IsLine id → IsString id
IsLine-IsString [] l = tt
IsLine-IsString (c ∷ cs) l = (l.0, IsLine-IsString cs l.1.1.1)

terminate-line : (id rest : List ℕ) → IsLine id → terminate (id ++ 10 ∷ rest) ≡ id ++ 0 ∷ rest
unfolding terminate
terminate-line [] rest l = refl
terminate-line (c ∷ cs) rest l =
    rw (ne→== c 13 l.1.0, ne→== c 10 l.1.1.0, ne→== c 0 l.0, terminate-line cs rest l.1.1.1) refl

tokens-inside : (id : List ℕ) → IsLine id → tokens true (id ++ 10 ∷ 0 ∷ []) ≡ []
unfolding tokens
tokens-inside [] l = refl
tokens-inside (c ∷ cs) l =
    rw (ne→== c 0 l.0, ne→== c 13 l.1.0, ne→== c 10 l.1.1.0, tokens-inside cs l.1.1.1) refl

tokens-line :
    (id : List ℕ) → IsLine id → id ≢ [] → tokens false (id ++ 10 ∷ 0 ∷ []) ≡ (id ++ 0 ∷ 0 ∷ []) ∷ []
unfolding tokens
tokens-line [] l ne = absurd (ne refl)
tokens-line (c ∷ cs) l ne =
    rw
      (
        ne→== c 0 l.0,
        ne→== c 13 l.1.0,
        ne→== c 10 l.1.1.0,
        tokens-inside cs l.1.1.1,
        terminate-line (c ∷ cs) (0 ∷ []) l,
      )
      refl

-- What stands before a newline only adds tokens in front.
tokens-front :
    (inside : Bool) (front tail : List ℕ)
    → IsString front
    → (ts : List (List ℕ)) × (tokens inside (front ++ 10 ∷ tail) ≡ ts ++ tokens false tail)
unfolding tokens
tokens-front inside [] tail s = ([], refl)
tokens-front inside (c ∷ cs) tail s = elim (Bool-cases (is_delimiter c)) [
  | inl e ↦ rw (ne→== c 0 s.0, e) (tokens-front false cs tail s.1)
  | inr n ↦ rw (ne→== c 0 s.0, n) (started inside (tokens-front true cs tail s.1))
]
  where
    started :
        (inside : Bool)
        → (ts : List (List ℕ)) × (tokens true (cs ++ 10 ∷ tail) ≡ ts ++ tokens false tail)
        → (ts : List (List ℕ)) × ((if inside
              then tokens true (cs ++ 10 ∷ tail)
              else terminate (c ∷ (cs ++ 10 ∷ tail)) ∷ tokens true (cs ++ 10 ∷ tail))
            ≡ ts ++ tokens false tail)
    started true h = h
    started false (ts, e) = (terminate (c ∷ (cs ++ 10 ∷ tail)) ∷ ts, rw e refl)

abbrev stop : {V W : Type 0} → V → Run W
stop v = fault

bind-fault :
    {U V W : Type 0} (m : Run U) (f : U → Run V)
    → ((m >>= f) >>= stop {W = W}) ≡ (m >>= λ u. f u >>= stop)
bind-fault exited f = refl
bind-fault fault f = refl
bind-fault diverged f = refl
bind-fault (ok u) f = refl

-- The last line, and the block from its start on.
abbrev pub last_token : List ℕ → List ℕ
last_token id = id ++ 0 ∷ 0 ∷ []

module _ (id : List ℕ) (most : length id ≤ 37) where
  short_copy : copy_out (last_token id) len_devid ≡ none
  short_copy =
      copy_out-eq_none (last_token id) len_devid (omega (arith, length-append id (0 ∷ 0 ∷ [])))

  module _ (env : Env) (now : ℕ → Timespec) (str : IsString id) (least : 31 ≤ length id) where
    -- The copy of 40 bytes from a shorter rest of the block.
    load_token-short : (k : ℕ) (s : Loaded) → load_token env (now k) (last_token id) s ≡ fault
    unfolding load_token
    load_token-short k s =
        rw (strlen-string id (0 ∷ []) str, ◌>>=◌, lt→ltb 30 (length id) (omega arith), short_copy)
          refl

    load_tokens-short :
        (k : ℕ) (ts : List (List ℕ)) (s : Loaded)
        → load_tokens env now k (ts ++ last_token id ∷ []) s
          ≡ (load_tokens env now k ts s >>= λ _. fault)
    unfolding load_tokens
    load_tokens-short k [] s = rw (load_token-short k s) refl
    load_tokens-short k (t ∷ ts) s =
        ap (λ (f : Loaded → Run Loaded). load_token env (now k) t s >>= f)
          (fun_ext λ s'. load_tokens-short (k + 1) ts s')
        ∙ sym (bind-fault (load_token env (now k) t s) (λ s'. load_tokens env now (k + 1) ts s'))

-- Nothing, or some lines with a newline behind them.
abbrev pub lines_of : Option (List ℕ) → List ℕ
lines_of none = []
lines_of (some front) = front ++ 10 ∷ []

-- The file.
abbrev pub listing : Option (List ℕ) → List ℕ → List ℕ
listing front id = lines_of front ++ (id ++ 10 ∷ [])

abbrev pub AreLines : Option (List ℕ) → Type 0
AreLines none = Unit {0}
AreLines (some front) = IsString front

tokens-listing :
    (front : Option (List ℕ)) (id : List ℕ)
    → AreLines front
    → IsLine id
    → id ≢ []
    → (ts : List (List ℕ)) × (tokens false (listing front id ++ 0 ∷ []) ≡ ts ++ last_token id ∷ [])
tokens-listing none id f l ne = (
  [],
  ap (λ (t : List ℕ). tokens false t) (append_assoc id (10 ∷ []) (0 ∷ [])) ∙ tokens-line id l ne,
)
tokens-listing (some front) id f l ne =
    let (ts, e) = tokens-front false front (id ++ 10 ∷ 0 ∷ []) f in
    (ts, rw (append_assoc, append_assoc, append_assoc, e, tokens-line id l ne) refl)

load_reg_list-opened :
    (env : Env) (now : ℕ → Timespec) (table : Table) (text : List ℕ)
    → ((n : ℕ) → env.grants n ≡ true)
    → text ≢ []
    → load_reg_list env now (some text) table
      ≡ load_tokens env now 0 (tokens false (text ++ 0 ∷ [])) (0, table)
unfolding load_reg_list my_malloc
load_reg_list-opened env now table [] g ne = absurd (ne refl)
load_reg_list-opened env now table (c ∷ cs) g ne = rw (g (length (c ∷ cs) + 1), ◌>>=◌) refl

-- With memory granted and a file whose last line is an id of 31 to 37 characters, with a newline
-- behind it, and, if there are lines in front of it, without a 0 in these: the tokens of the file
-- are those in front and the last line, the block has fewer than 40 bytes from the last line on,
-- and `load_reg_list` handles the tokens in front and, if that ends, faults in the copy of 40 bytes
-- from the last line.
pub load_reg_list-overread :
    (env : Env) (now : ℕ → Timespec) (table : Table) (front : Option (List ℕ)) (id : List ℕ)
    → ((n : ℕ) → env.grants n ≡ true)
    → AreLines front
    → IsLine id
    → 31 ≤ length id
    → length id ≤ 37
    → (ts : List (List ℕ)) × (tokens false (listing front id ++ 0 ∷ []) ≡ ts ++ last_token id ∷ [])
      × (copy_out (last_token id) len_devid ≡ none)
      × (load_reg_list env now (some (listing front id)) table
          ≡ (load_tokens env now 0 ts (0, table) >>= λ _. fault))
load_reg_list-overread env now table front id g f l least most =
    let nonempty : id ≢ [] = λ z. omega (arith, ap (λ (i : List ℕ). length i) z) in
    let (ts, e) = tokens-listing front id f l nonempty in
    let full : listing front id ≢ [] = λ z. omega (
      arith,
      ap (λ (i : List ℕ). length i) z,
      length-append (lines_of front) (id ++ 10 ∷ []),
      length-append id (10 ∷ []),
    ) in
    (
      ts,
      e,
      short_copy id most,
      load_reg_list-opened env now table (listing front id) g full
          ∙ rw e (load_tokens-short id most env now (IsLine-IsString id l) least 0 ts (0, table)),
    )
