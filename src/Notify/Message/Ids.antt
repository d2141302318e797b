-- ===== src/Notify/Message/Ids.antt =====
-- Device ids: the string in a 40-byte field, its length, its bucket and its comparison.
use memory_leak.Prelude.{
  ℕ, zero, suc, ◌<◌, ◌≡◌, ◌≢◌, refl, ap, true, some, List, [], ◌∷◌, ◌++◌, length, arith, ne→==,
  lt→leb, append_assoc, take-append, length-append,
}
use mathlib.Core.Logic.{◌↔◌}
use memory_leak.Prelude.Run.{ok, ◌>>=◌}
use memory_leak.Notify.Hash.{hash_func}
use memory_leak.Notify.Message.{len_devid, max_msg, strlen, strncmp_eq, id_len, bucket_of}

-- A string holds no 0.
abbrev pub IsString : List ℕ → Type 0
IsString [] = Unit {0}
IsString (c ∷ cs) = (c ≢ 0) × IsString cs

-- The field is 40 bytes long and holds `id`, a 0, and anything behind it.
pub record IsField (field id : List ℕ) : Type 0 where
  pub string : IsString id
  pub pad : List ℕ
  pub layout : field ≡ id ++ 0 ∷ pad
  pub size : length field ≡ len_devid

pub strlen-string : (id rest : List ℕ) → IsString id → strlen (id ++ 0 ∷ rest) ≡ some (length id)
unfolding strlen
strlen-string [] rest s = refl
strlen-string (c ∷ cs) rest s = rw (ne→== c 0 s.0, strlen-string cs rest s.1)

-- The bucket of a field is the hash of its string, whatever stands behind it.
pub bucket_of-field :
    (field id rest : List ℕ) → IsField field id → bucket_of (field ++ rest) ≡ ok (hash_func id)
unfolding bucket_of
bucket_of-field field id rest f =
    rw
      (f.layout, append_assoc, strlen-string id (f.pad ++ rest) f.string, ◌>>=◌, short, take-append)
  where
    short : id_len (length id) ≡ length id
    short = rw (
        lt→leb max_msg (length id) (
          omega
            (arith, f.size, ap (λ (l : List ℕ). length l) f.layout, length-append id (0 ∷ f.pad))))

strncmp_eq-string :
    (n : ℕ) (a b p q : List ℕ)
    → IsString a
    → IsString b
    → length a < n
    → length b < n
    → (strncmp_eq n (a ++ 0 ∷ p) (b ++ 0 ∷ q) ≡ true) ↔ (a ≡ b)
unfolding strncmp_eq
strncmp_eq-string zero a b p q s t h k = absurd (omega arith)
strncmp_eq-string (suc n) [] [] p q s t h k = (λ _. refl, λ _. refl)
strncmp_eq-string (suc n) [] (y ∷ b) p q s t h k = (λ e. ground arith, λ e. cc)
strncmp_eq-string (suc n) (x ∷ a) [] p q s t h k = (λ e. ground arith, λ e. cc)
strncmp_eq-string (suc n) (x ∷ a) (y ∷ b) p q s t h k =
    let ih = strncmp_eq-string n a b p q s.1 t.1 (omega arith) (omega arith) in
    (λ e. ground (arith, ih), λ e. ground (arith, ih))

-- Two fields compare equal exactly when they hold the same string.
pub strncmp_eq-field :
    (f g a b : List ℕ) → IsField f a → IsField g b → (strncmp_eq len_devid f g ≡ true) ↔ (a ≡ b)
strncmp_eq-field f g a b u v =
    rw (u.layout, v.layout)
      (strncmp_eq-string len_devid a b u.pad v.pad u.string v.string (short u) (short v))
  where
    short : {field id : List ℕ} → IsField field id → length id < len_devid
    short {field} {id} w =
        omega (arith, w.size, ap (λ (l : List ℕ). length l) w.layout, length-append id (0 ∷ w.pad))
