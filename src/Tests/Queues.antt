-- ===== src/Tests/Queues.antt =====
-- src/nyancat.c: the theorems on the list at concrete inputs, across the numbers 255 and 0.
use lingi1341_projet.Prelude.{
  ℕ, ◌≡◌, refl, none, some, List, [], ◌∷◌, ◌++◌, arith, ◌==◌, if◌then◌else◌, returns,
}
use lingi1341_projet.Packet.Fields.{zero_pkt, pkt_del, Pkt}
use lingi1341_projet.Queue.Order.{comes_before, insert, InOrder}
use lingi1341_projet.Queue.Sorting.{insert-InOrder, find, find-insert}
use lingi1341_projet.Queue.Nodes.{
  null_ptr, node, Heap, handle, add_element_queue, pop_element_queue, find_place,
  add_specific_queue, Handle,
}
use lingi1341_projet.Queue.Chain.{Cells, packets, first, last, SameOutside, Becomes, IsQueue}
use lingi1341_projet.Queue.Fifo.{add_element_queue-append, pop_element_queue-cons}
use lingi1341_projet.Queue.Place.{add_specific_queue-insert}
use lingi1341_projet.Queue.Split.{front, back, examined, find_place_lem}

abbrev numbered : ℕ → Pkt
numbered seqnum = record zero_pkt { kind = 1; seqnum = seqnum }

abbrev wrapping : List Pkt
wrapping = numbered 254 ∷ numbered 1 ∷ []

abbrev wrapping-InOrder : InOrder 254 0 wrapping
wrapping-InOrder = omega arith

insert-InOrder_example : InOrder 254 0 (insert (numbered 0) wrapping)
insert-InOrder_example =
    insert-InOrder 254 0 (numbered 0) wrapping (omega arith) (omega arith) (omega arith)
      (omega arith) wrapping-InOrder

find-insert_example : find 0 (insert (numbered 0) wrapping) ≡ some (numbered 0)
unfolding find
find-insert_example =
    find-insert 254 0 0 (numbered 0) wrapping (omega arith) (omega arith) (omega arith)
      wrapping-InOrder

abbrev two_cells : Cells
two_cells = (3, numbered 254) ∷ (5, numbered 1) ∷ []

abbrev two_nodes : Heap
two_nodes a =
    if a == 3
    then some (node (numbered 254) 5)
    else if a == 5
    then some (node (numbered 1) 0)
    else none

abbrev two_list : Handle
two_list = handle 3 5 2

two_list-IsQueue : IsQueue two_nodes two_list two_cells
two_list-IsQueue = record {
  chain = (omega arith, refl, refl, (omega arith, refl, refl, tt));
  head = refl;
  tail = refl;
  size = refl;
}

add_element_queue-append_example :
    Becomes
      (two_cells ++ ((8, numbered 2) ∷ []))
      (two_cells ++ ((8, numbered 2) ∷ []))
      two_nodes
      (add_element_queue 8 two_list (numbered 2) two_nodes)
add_element_queue-append_example =
    add_element_queue-append two_nodes two_list 8 (numbered 2) (omega arith) refl two_cells
      two_list-IsQueue

pop_element_queue-cons_example :
    (list' : Handle) × (g : Heap) × (pop_element_queue two_list two_nodes
      ≡ returns (some (numbered 254), list', g))
    × IsQueue g list' ((5, numbered 1) ∷ [])
    × (g 3 ≡ none)
    × SameOutside ((3, numbered 254) ∷ []) two_nodes g
pop_element_queue-cons_example =
    pop_element_queue-cons two_nodes two_list 3 (numbered 254) ((5, numbered 1) ∷ [])
      two_list-IsQueue

add_specific_queue-insert_example :
    (ys : Cells) × (packets ys ≡ insert (numbered 0) wrapping)
    × Becomes ys
        ((8, numbered 0) ∷ two_cells)
        two_nodes
        (add_specific_queue 8 two_list (numbered 0) two_nodes)
unfolding pkt_del
add_specific_queue-insert_example =
    add_specific_queue-insert two_nodes two_list 8 (numbered 0) (omega arith) refl two_cells refl
      two_list-IsQueue

find_place_lem_example :
    find_place 3 two_nodes 0 null_ptr 3 (numbered 254) (comes_before 254 0)
    ≡ returns (
      last null_ptr (front 0 two_cells),
      first null_ptr (back 0 two_cells),
      examined 0 (numbered 254) two_cells,
    )
find_place_lem_example =
    find_place_lem 3 two_nodes 0 null_ptr 3 (numbered 254) ((5, numbered 1) ∷ [])
      two_list-IsQueue.chain (omega arith)
