-- ===== src/Notify/Registry/View.antt =====
-- The table as a map from device ids, as strings, to the address last recorded for them.
use memory_leak.Prelude.{
  ℕ, zero, suc, ◌-◌, ◌≤◌, ◌≡◌, refl, ap, sym, ◌∙◌, Option, none, some, List, [], ◌∷◌, ◌++◌, ◌==◌,
  leb, if◌then◌else◌, length, arith, ne→==, Bool-cases, inl, inr, leb→le,
}
use memory_leak.Prelude.Same.{same, same_iff, same_refl}
use memory_leak.Prelude.Run.{ok, ◌>>=◌}
use memory_leak.Notify.Hash.{hash_func}
use memory_leak.Notify.Message.{Msg, len_devid, strncmp_eq}
use memory_leak.Notify.Message.Ids.{IsString, IsField, strncmp_eq-field}
use memory_leak.Notify.Registry.{
  Item, Bucket, Table, SockaddrIn, find_item, next_position, set_route,
}

-- The string in a field: the bytes before the first 0.
unfoldable pub cstr : List ℕ → List ℕ
cstr [] = []
cstr (c ∷ cs) = if c == 0 then [] else c ∷ cstr cs

cstr-string : (id pad : List ℕ) → IsString id → cstr (id ++ 0 ∷ pad) ≡ id
unfolding cstr
cstr-string [] pad s = refl
cstr-string (c ∷ cs) pad s = rw (ne→== c 0 s.0, cstr-string cs pad s.1)

pub cstr-field : (field id : List ℕ) → IsField field id → cstr field ≡ id
cstr-field field id f = rw f.layout (cstr-string id f.pad f.string)

-- The id of an item whose message is there.
abbrev pub field_of : Option Msg → List ℕ
field_of none = []
field_of (some m) = m.dev_id

abbrev pub id_of : Item → List ℕ
id_of it = cstr (field_of it.msg)

-- An item of bucket `h`: its message is there, its id ends inside the field and belongs to `h`.
pub record Well (h : ℕ) (it : Item) : Type 0 where
  pub msg : Msg
  pub there : it.msg ≡ some msg
  pub field : IsField msg.dev_id (id_of it)
  pub home : hash_func (id_of it) ≡ h

abbrev pub AllWell : ℕ → List Item → Type 0
AllWell h [] = Unit {0}
AllWell h (it ∷ its) = Well h it × AllWell h its

-- Every bucket counts its items, and they are well.
pub record IsBucket (h : ℕ) (b : Bucket) : Type 0 where
  pub counted : b.n ≡ length b.group
  pub well : AllWell h b.group

abbrev pub IsRegistry : Table → Type 0
IsRegistry table = (h : ℕ) → IsBucket h (table h)

-- The address recorded for an id in a bucket, and in the table.
unfoldable pub route : List ℕ → List Item → Option SockaddrIn
route id [] = none
route id (it ∷ its) = if same (id_of it) id then some it.ipv4 else route id its

abbrev pub View : Type 0
View = List ℕ → Option SockaddrIn

unfoldable pub view : Table → View
view table id = route id (table (hash_func id)).group

unfoldable pub position : List ℕ → List Item → Option ℕ
position id [] = none
position id (it ∷ its) = if same (id_of it) id then some 0 else next_position (position id its)

-- Comparing with an item's field is comparing strings.
pub compare-id :
    (h : ℕ) (field id : List ℕ) (it : Item)
    → IsField field id
    → (w : Well h it) → strncmp_eq len_devid field w.msg.dev_id ≡ same (id_of it) id
compare-id h field id it f w =
    let by = strncmp_eq-field field w.msg.dev_id id (id_of it) f w.field in
    elim (Bool-cases (same (id_of it) id)) [
      | inl e ↦ by.1 (sym ((same_iff (id_of it) id).0 e)) ∙ sym e
      | inr n ↦ ground (arith, by, same_iff (id_of it) id, same_refl id)
    ]

find_item-cons :
    (limit : ℕ) (field : List ℕ) (it : Item) (its : List Item) {m : Msg}
    → it.msg ≡ some m
    → find_item limit field (it ∷ its) ≡ (
        if strncmp_eq len_devid field m.dev_id
        then ok (some 0)
        else if leb limit 1
        then ok none
        else (find_item (limit - 1) field its >>= λ i. ok (next_position i)))
unfolding find_item
find_item-cons limit field it its e = rw e

position-empty : (limit : ℕ) (field id : List ℕ) → find_item limit field [] ≡ ok (position id [])
unfolding find_item position
position-empty limit field id = refl

position-cons :
    (id : List ℕ) (it : Item) (its : List Item)
    → position id (it ∷ its)
      ≡ (if same (id_of it) id then some 0 else next_position (position id its))
unfolding position
position-cons id it its = refl

pub position-nil : (id : List ℕ) (its : List Item) → length its ≤ 0 → position id its ≡ none
unfolding position
position-nil id [] l = refl
position-nil id (it ∷ its) l = absurd (omega arith)

-- The walk of the code finds the position of the id.
pub find_item-position :
    (h limit : ℕ) (field id : List ℕ) (its : List Item)
    → IsField field id
    → AllWell h its
    → length its ≤ limit
    → find_item limit field its ≡ ok (position id its)
find_item-position h limit field id [] f w l = position-empty limit field id
find_item-position h limit field id (it ∷ its) f w l =
    find_item-cons limit field it its w.0.there
    ∙ rw (compare-id h field id it f w.0, position-cons id it its)
        (elim (Bool-cases (same (id_of it) id)) [
          | inl e ↦ rw e
          | inr e ↦ elim (Bool-cases (leb limit 1)) [
            | inl short ↦ rw (e, short, position-nil id its (omega (arith, leb→le limit 1 short)))
            | inr more ↦
                rw (e, more, find_item-position h (limit - 1) field id its f w.1 (omega arith))
          ]
        ])

-- What the position says of the recorded address, and what a write there does to it.
pub route-position : (id : List ℕ) (its : List Item) → position id its ≡ none → route id its ≡ none
unfolding route position
route-position id [] e = refl
route-position id (it ∷ its) e = ground (arith, route-position id its)

pub route-none : (id : List ℕ) (its : List Item) → route id its ≡ none → position id its ≡ none
unfolding route position
route-none id [] e = refl
route-none id (it ∷ its) e = ground (arith, route-none id its)

pub route-set_route :
    (id j : List ℕ) (addr : SockaddrIn) (its : List Item) (i : ℕ)
    → position id its ≡ some i
    → route j (set_route i addr its) ≡ (if same id j then some addr else route j its)
unfolding route position set_route
route-set_route id j addr [] i e = cc
route-set_route id j addr (it ∷ its) zero e = elim (Bool-cases (same (id_of it) id)) [
  | inl p ↦ rw ((same_iff (id_of it) id).0 p) (ground arith)
  | inr n ↦ ground arith
]
route-set_route id j addr (it ∷ its) (suc i) e = ground (
  arith,
  route-set_route id j addr its i,
  same_iff (id_of it) id,
  same_iff (id_of it) j,
  same_iff id j,
)

pub set_route-AllWell :
    (h i : ℕ) (addr : SockaddrIn) (its : List Item)
    → AllWell h its
    → AllWell h (set_route i addr its)
unfolding set_route
set_route-AllWell h i addr [] w = w
set_route-AllWell h zero addr (it ∷ its) w =
    (record { msg = w.0.msg; there = w.0.there; field = w.0.field; home = w.0.home }, w.1)
set_route-AllWell h (suc i) addr (it ∷ its) w = (w.0, set_route-AllWell h i addr its w.1)

pub length-set_route :
    (i : ℕ) (addr : SockaddrIn) (its : List Item) → length (set_route i addr its) ≡ length its
unfolding set_route
length-set_route i addr [] = refl
length-set_route zero addr (it ∷ its) = refl
length-set_route (suc i) addr (it ∷ its) = ap suc (length-set_route i addr its)
