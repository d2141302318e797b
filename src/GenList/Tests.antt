-- ===== src/GenList/Tests.antt =====
-- Runs of the calls of gen_list.c, and the theorems at concrete inputs.
use memory_leak.Prelude.{
  ℕ, ◌≡◌, refl, true, some, none, List, [], ◌∷◌, ◌++◌, arith, length, if◌then◌else◌, ◌==◌,
}
use memory_leak.Prelude.Int.{pos}
use memory_leak.Prelude.Run.{ok, Returns}
use memory_leak.GenList.{
  GenList, Allocator, args, zeros, length-zeros, add_item_traffic, get_data_gen_list,
}
use memory_leak.GenList.Queue.{
  held, IsReady, Added, add_item_traffic-Added, get_data_gen_list-contents,
}
use memory_leak.GenList.Session.{Op, add, take_all_data, run, queue, run-queue}

abbrev generous : Allocator
generous = record { grants = λ _. true; junk = zeros; length-junk = length-zeros }

abbrev item : List ℕ
item = 104 ∷ 105 ∷ []

abbrev small : GenList
small = record { total = 32768; used_data = 2; sz_item = 0; body = item ++ zeros 32746 }

small-IsReady : IsReady (some small)
small-IsReady = (
  record { room = omega arith; sized = omega (arith, length-zeros 32746); stepped = refl },
  omega arith,
)

add_item_traffic-Added_example :
    Returns
      (add_item_traffic generous (args (some (some small)) (some 0)) (some item) (pos 2))
      λ r. (r.0 ≡ pos 0) × Added (some small) (some 0) item 2 r.1
add_item_traffic-Added_example =
    add_item_traffic-Added generous (some small) (some 0) item 2 (λ _. refl) small-IsReady
      (omega arith) (omega arith) (omega arith)

get_data_gen_list-contents_example : Returns (get_data_gen_list generous 0 (some small) true) λ r.
    (r.size ≡ pos (length (held (some small))))
    × (r.stored
        ≡ (if length (held (some small)) == 0 then none else some (held (some small) ++ 0 ∷ [])))
    × (held r.list ≡ [])
    × IsReady r.list
get_data_gen_list-contents_example =
    get_data_gen_list-contents generous (some small) (λ _. refl) small-IsReady

abbrev script : List Op
script = add item ∷ add (33 ∷ []) ∷ take_all_data ∷ take_all_data ∷ []

run-queue_example : run generous none script ≡ ok (queue [] script)
run-queue_example = run-queue generous (λ _. refl) none script tt (omega arith)

script_replies : queue [] script ≡ (pos 3, some (104 ∷ 105 ∷ 33 ∷ 0 ∷ [])) ∷ (pos 0, none) ∷ []
unfolding queue
script_replies = refl
