-- ===== src/GenList/Session.antt =====
-- Any sequence of calls, each in its critical section, against a byte queue that is emptied by
-- every read. The mutex makes a run of several threads such a sequence.
use memory_leak.Prelude.{
  ap, sym, ℕ, ◌+◌, ◌^◌, ◌<◌, ◌≡◌, refl, true, Option, some, none, inl, ◌==◌, if◌then◌else◌, length,
  arith, List, [], ◌∷◌, ◌++◌, append-nil, take_all, length-append,
}
use memory_leak.Prelude.Int.{ℤ, pos}
use memory_leak.Prelude.Run.{Run, ok, fault, Returns, ◌>>=◌}
use memory_leak.GenList.{GenList, Allocator, args, add_item_gen_list, get_data_gen_list}
use memory_leak.GenList.Bytes.{Grants}
use memory_leak.GenList.Queue.{
  held, IsReady, add_item_traffic-Added, add_item_rejects, get_data_gen_list-contents,
}

pub data Op : Type 0 where
  add : List ℕ → Op
  take_all_data : Op

-- What a reader is handed: the size and the buffer.
abbrev pub Reply : Type 0
Reply = ℤ × Option (List ℕ)

-- The client's pointer after a call.
pub resume : Option (Option GenList) → (Option GenList → Run (List Reply)) → Run (List Reply)
resume none k = fault
resume (some l) k = k l

pub run : Allocator → Option GenList → List Op → Run (List Reply)
unfolding resume
run a l [] = ok []
run a l (add item ∷ ops) =
    add_item_gen_list a 0 0 (args (some l) none) (some item) (pos (length item)) >>= λ r.
    resume r.1.list (λ l'. run a l' ops)
run a l (take_all_data ∷ ops) = get_data_gen_list a 0 l true >>= λ r.
    run a r.list ops >>= λ rest. ok ((r.size, r.stored) ∷ rest)

-- The reply to a reader when the queue holds `q`.
abbrev pub reply : List ℕ → Reply
reply q = (pos (length q), if length q == 0 then none else some (q ++ 0 ∷ []))

unfoldable pub queue : List ℕ → List Op → List Reply
queue q [] = []
queue q (add item ∷ ops) = queue (q ++ item) ops
queue q (take_all_data ∷ ops) = reply q ∷ queue [] ops

-- The bytes that a sequence adds.
abbrev pub budget : List Op → ℕ
budget [] = 0
budget (add item ∷ ops) = length item + budget ops
budget (take_all_data ∷ ops) = budget ops

module _ (a : Allocator) (g : Grants a) where
  -- A call that adds an item, the empty one included, leaves a ready buffer with the item behind.
  add-held :
      (l : Option GenList) (item : List ℕ)
      → IsReady l
      → length (held l) + length item < 2 ^ 30
      → Returns (add_item_gen_list a 0 0 (args (some l) none) (some item) (pos (length item))) λ r.
        (l' : Option GenList) × (r.1.list ≡ some l') × IsReady l' × (held l' ≡ held l ++ item)
  add-held l [] h w = (
    (0, args (some l) none),
    (add_item_rejects a (args (some l) none) (some []) (pos 0) (inl refl)).1,
    (l, refl, h, sym (append-nil (held l))),
  )
  add-held l (x ∷ xs) h w =
      let item = x ∷ xs in
      let (r, run, (rc, added)) =
        add_item_traffic-Added a l none item (length item) g h (omega arith) (omega arith)
          (omega arith) in
      (
        (0, r.1),
        unfold add_item_gen_list in (rw run),
        (
          some added.buffer,
          added.list,
          (added.valid, omega (arith, added.small)),
          rw (take_all (length item) item (omega arith)) at added.bytes,
        ),
      )

  -- With memory granted and less than 2^30 bytes in play, every sequence of calls on a ready
  -- buffer (or none yet) ends without fault, exit or endless loop, and hands the readers exactly
  -- what the byte queue does: every byte added is read once, in order.
  pub run-queue :
      (l : Option GenList) (ops : List Op)
      → IsReady l
      → length (held l) + budget ops < 2 ^ 30
      → run a l ops ≡ ok (queue (held l) ops)
  unfolding run queue resume
  run-queue l [] h w = refl
  run-queue l (add item ∷ ops) h w =
      let (r, done, (l', e, ready, q)) = add-held l item h (omega arith) in
      rw (done, ◌>>=◌, e, ← q)
        (run-queue l' ops ready
          (omega (arith, ap {A = List ℕ} (λ u. length u) q, length-append (held l) item)))
  run-queue l (take_all_data ∷ ops) h w =
      let (r, done, (size, stored, empty, ready)) = get_data_gen_list-contents a l g h in
      rw (
        done,
        ◌>>=◌,
        run-queue r.list ops ready (omega (arith, ap {A = List ℕ} (λ u. length u) empty)),
        size,
        stored,
        empty,
      )
