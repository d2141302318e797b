-- ===== src/Cluster/Details/Tests.antt =====
-- `Cluster.Details` with three rows.
use memory_leak.Prelude.{ℕ, ◌≡◌, refl, List, [], ◌∷◌, none, some, arith}
use memory_leak.Prelude.Run.{ok, ◌>>=◌, Returns}
use memory_leak.Cluster.Details.{
  Detail, no_detail, empty_details, fits_arrays, take_place, audd_shmwrite, write_details,
  search_places, find_detail,
}
use memory_leak.Cluster.Details.Places.{AllStorable}
use memory_leak.Cluster.Details.Lookup.{find_detail-first_with}

-- A row with an id alone.
abbrev detail : ℕ → Detail
detail u = record no_detail { id = u }

-- Three rows of one bucket.
abbrev details : List Detail
details = detail 3 ∷ detail 6 ∷ detail 9 ∷ []

details-AllStorable : AllStorable details
unfolding fits_arrays
details-AllStorable =
    AllStorable.more refl (AllStorable.more refl (AllStorable.more refl AllStorable.empty))

-- The second is found; the third has no place.
find_detail-second :
    (write_details details (empty_details 3) >>= find_detail 6) ≡ ok (some (detail 6))
unfolding write_details audd_shmwrite fits_arrays take_place find_detail search_places
find_detail-second = refl

find_detail-third : (write_details details (empty_details 3) >>= find_detail 9) ≡ ok none
unfolding write_details audd_shmwrite fits_arrays take_place find_detail search_places
find_detail-third = refl

find_detail-first_with_example :
    Returns (write_details details (empty_details 3)) λ p. find_detail 9 p ≡ ok none
find_detail-first_with_example = find_detail-first_with details 9 (omega arith) details-AllStorable
