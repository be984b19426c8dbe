-- ===== src/Queue/Fifo.antt =====
-- src/nyancat.c: add_element_queue and pop_element_queue implement a queue.
use lingi1341_projet.Prelude.{
  suc, ◌+◌, ◌≡◌, refl, sym, ◌≢◌, none, some, [], ◌∷◌, ◌++◌, append-nil, arith, ne→not_==,
  suc-not_zero, suc-suc-not_one, length, length-append, returns,
}
use lingi1341_projet.Packet.Fields.{Pkt}
use lingi1341_projet.Queue.Nodes.{
  Ptr, null_ptr, Heap, handle, write_node, add_element_queue, pop_element_queue, Handle,
}
use lingi1341_projet.Queue.Chain.{
  Cells, SameOutside, Chain-write_node, not_has-insert, not_has_of_none, load-node, Chain-insert,
  splice, Becomes, last-append, IsQueue,
}

module _ (h : Heap) (list : Handle) (fresh : Ptr) (p : Pkt) (live : fresh ≢ null_ptr)
    (unused : h fresh ≡ none) where
  -- Where malloc gives a node, `add_element_queue` puts the packet behind the others, and writes
  -- only to the new node and the nodes of the list.
  pub add_element_queue-append :
      (xs : Cells)
      → IsQueue h list xs
      → Becomes
          (xs ++ ((fresh, p) ∷ []))
          (xs ++ ((fresh, p) ∷ []))
          h
          (add_element_queue fresh list p h)
  unfolding add_element_queue write_node
  add_element_queue-append [] q =
      rw (ne→not_== fresh null_ptr live, q.size)
        (
          _,
          _,
          refl,
          record { chain = (live, refl, ground arith, tt); head = refl; tail = refl; size = refl },
          λ a out. ground arith,
        )
  add_element_queue-append ((a, v) ∷ xs) q =
      let out = not_has_of_none h null_ptr fresh ((a, v) ∷ xs) q.chain unused in
      let (g, done, chain, new, same) = splice h null_ptr fresh p a v xs out q.chain in
      rw (ne→not_== fresh null_ptr live, q.size, suc-not_zero (length xs), q.tail, done)
        (
          handle list.head fresh (suc (length xs) + 1),
          g,
          refl,
          record {
            chain =
                Chain-insert h g null_ptr fresh p ((a, v) ∷ xs) [] live
                  (rw (append-nil {A = Ptr × Pkt}) out) (rw (append-nil {A = Ptr × Pkt}) q.chain)
                  chain new (λ b held. cc);
            head = q.head;
            tail = sym (last-append a fresh p xs);
            size = omega (arith, length-append xs ((fresh, p) ∷ []));
          },
          λ b far. same b (not_has-insert b fresh p ((a, v) ∷ xs) [] far),
        )

-- `pop_element_queue` of a list that stands for a packet and others returns that packet, frees its
-- node and no other, and leaves the others.
pub pop_element_queue-cons :
    (h : Heap) (list : Handle) (a : Ptr) (v : Pkt) (xs : Cells)
    → IsQueue h list ((a, v) ∷ xs)
    → (list' : Handle) × (g : Heap) × (pop_element_queue list h ≡ returns (some v, list', g))
      × IsQueue g list' xs
      × (g a ≡ none)
      × SameOutside ((a, v) ∷ []) h g
unfolding pop_element_queue write_node
pop_element_queue-cons h list a v [] q =
    rw (q.head, q.size, load-node h a q.chain.0 q.chain.2)
      (
        _,
        _,
        refl,
        record { chain = tt; head = refl; tail = refl; size = refl },
        ground arith,
        λ b far. ground arith,
      )
pop_element_queue-cons h list a v ((b, w) ∷ xs) q =
    rw
      (
        q.head,
        q.size,
        load-node h a q.chain.0 q.chain.2,
        suc-not_zero (suc (length xs)),
        suc-suc-not_one (length xs),
      )
      (
        _,
        _,
        refl,
        record {
          chain = Chain-write_node h null_ptr a none ((b, w) ∷ xs) q.chain.1 q.chain.3;
          head = refl;
          tail = q.tail;
          size = omega arith;
        },
        ground arith,
        λ b far. ground arith,
      )
