-- ===== src/Queue/Place.antt =====
-- src/nyancat.c: add_specific_queue implements the insertion into the ordered list.
use lingi1341_projet.Prelude.{
  suc, ◌+◌, ◌≡◌, refl, sym, ◌∙◌, ◌≢◌, inl, inr, true, false, none, some, [], ◌∷◌, ◌++◌, arith, ◌==◌,
  ne→not_==, Bool-cases, suc-not_zero, length, length-append, returns,
}
use lingi1341_projet.Packet.Fields.{pkt_del, Pkt}
use lingi1341_projet.Queue.Order.{insert}
use lingi1341_projet.Queue.Nodes.{
  Ptr, null_ptr, node, Heap, write_node, link_node, add_specific_queue, Handle,
}
use lingi1341_projet.Queue.Chain.{
  Cells, packets, has, first, last, Chain, Chain-write_node, not_has-left, not_has-right,
  Chain-append_left, Chain-append_right, Chain-apart, not_has_of_none, load-node, set_next-node,
  Chain-insert, splice, Becomes, last-live, IsQueue,
}
use lingi1341_projet.Queue.Split.{
  front, back, examined, front-append-back, insert-place, find_place_lem, tail-insert, not_fresh,
}

module _ (h : Heap) (list : Handle) (fresh : Ptr) (p : Pkt) (live : fresh ≢ null_ptr) where
  size-insert :
      (xs ys : Cells)
      → list.size ≡ length (xs ++ ys)
      → list.size + 1 ≡ length (xs ++ ((fresh, p) ∷ ys))
  size-insert xs ys e = omega (arith, length-append xs ys, length-append xs ((fresh, p) ∷ ys))

  link_node-insert :
      (pkt_runner : Pkt) (xs ys : Cells)
      → (pkt_runner.seqnum == p.seqnum) ≡ false
      → has fresh (xs ++ ys) ≡ false
      → IsQueue h list (xs ++ ys)
      → Becomes (xs ++ ((fresh, p) ∷ ys)) ((fresh, p) ∷ xs) h (
          link_node list p fresh
            (last null_ptr xs)
            (first null_ptr ys)
            pkt_runner
            (write_node h fresh (some (node p null_ptr))))
  unfolding link_node write_node
  link_node-insert pkt_runner [] ys new out q =
      rw
        (
          new,
          set_next-node (write_node h fresh (some (node p null_ptr))) fresh (first null_ptr ys)
              {n = node p null_ptr} live (ground arith),
        )
        (
          _,
          write_node (write_node h fresh (some (node p null_ptr))) fresh
              (some (node p (first null_ptr ys))),
          refl,
          record {
            chain =
                Chain-insert h _ null_ptr fresh p [] ys live out q.chain tt (ground arith)
                  (λ b held. ground arith);
            head = refl;
            tail = rw q.tail (tail-insert h null_ptr fresh p [] ys q.chain);
            size = size-insert [] ys q.size;
          },
          λ b far. ground arith,
        )
  link_node-insert pkt_runner ((a, v) ∷ xs) ys new out q =
      let s = Chain-append_left h null_ptr ((a, v) ∷ xs) ys q.chain in
      let away : has fresh ((a, v) ∷ xs) ≡ false = not_has-left fresh ((a, v) ∷ xs) ys out in
      let (g, done, chain, at_fresh, same) = splice h (first null_ptr ys) fresh p a v xs away s in
      rw
        (
          new,
          ne→not_== (last a xs) null_ptr (last-live h (first null_ptr ys) a v xs s),
          done,
          set_next-node g fresh (first null_ptr ys) live at_fresh,
        )
        (
          _,
          write_node g fresh (some (node p (first null_ptr ys))),
          refl,
          record {
            chain =
                Chain-insert h _ null_ptr fresh p ((a, v) ∷ xs) ys live out q.chain
                  (Chain-write_node g fresh fresh _ ((a, v) ∷ xs) away chain) (ground arith)
                  (λ b held.
                    let other =
                      not_fresh b fresh ys (not_has-right fresh ((a, v) ∷ xs) ys out) held in
                    let apart = Chain-apart h null_ptr ((a, v) ∷ xs) ys q.chain b held in
                    rw other (same b (rw (other, apart))));
            head = q.head;
            tail = rw q.tail (
                tail-insert h null_ptr fresh p ((a, v) ∷ xs) ys
                  (Chain-append_right h null_ptr ((a, v) ∷ xs) ys q.chain));
            size = size-insert ((a, v) ∷ xs) ys q.size;
          },
          λ b far. ground (arith, same b far),
        )

module _ (h : Heap) (list : Handle) (fresh : Ptr) (p : Pkt) (live : fresh ≢ null_ptr)
    (unused : h fresh ≡ none) where
  alone :
      IsQueue h list []
      → Becomes ((fresh, p) ∷ []) ((fresh, p) ∷ []) h (add_specific_queue fresh list p h)
  unfolding add_specific_queue write_node
  alone q =
      rw (ne→not_== fresh null_ptr live, q.size)
        (
          _,
          _,
          refl,
          record { chain = (live, refl, ground arith, tt); head = refl; tail = refl; size = refl },
          λ b far. ground arith,
        )

  module _ (a : Ptr) (v : Pkt) (xs : Cells) (q : IsQueue h list ((a, v) ∷ xs)) where
    abbrev cells : Cells
    cells = (a, v) ∷ xs

    abbrev h' : Heap
    h' = write_node h fresh (some (node p null_ptr))

    away : has fresh cells ≡ false
    away = not_has_of_none h null_ptr fresh cells q.chain unused

    kept : Chain h' null_ptr cells
    kept = Chain-write_node h null_ptr fresh _ cells away q.chain

    -- The call up to the decision what to do with the node.
    add_specific_queue-link :
        add_specific_queue fresh list p h
        ≡ link_node list p fresh
            (last null_ptr (front p.seqnum cells))
            (first null_ptr (back p.seqnum cells))
            (examined p.seqnum v cells)
            h'
    unfolding add_specific_queue
    add_specific_queue-link = rw (
      ne→not_== fresh null_ptr live,
      q.size,
      q.head,
      suc-not_zero (length xs),
      load-node h' a kept.0 kept.2,
      find_place_lem (suc (length xs) + 1) h' p.seqnum null_ptr a v xs kept (omega arith),
    )

    duplicate :
        pkt_del (some p) ≡ returns tt
        → ((examined p.seqnum v cells).seqnum == p.seqnum) ≡ true
        → Becomes cells ((fresh, p) ∷ cells) h (add_specific_queue fresh list p h)
    unfolding link_node write_node
    duplicate deletable old =
        rw (add_specific_queue-link, old, deletable)
          (
            list,
            write_node h' fresh none,
            refl,
            record {
              chain = Chain-write_node h' null_ptr fresh none cells away kept;
              head = q.head;
              tail = q.tail;
              size = q.size;
            },
            λ b far. ground arith,
          )

    placed :
        ((examined p.seqnum v cells).seqnum == p.seqnum) ≡ false
        → Becomes
            (front p.seqnum cells ++ ((fresh, p) ∷ back p.seqnum cells))
            ((fresh, p) ∷ cells)
            h
            (add_specific_queue fresh list p h)
    placed new =
        let split = front-append-back p.seqnum cells in
        let (list', g, done, q', same) =
          link_node-insert h list fresh p live (examined p.seqnum v cells) (front p.seqnum cells)
            (back p.seqnum cells) new (rw split away) (rw split q) in
        (list', g, add_specific_queue-link ∙ done, q', λ b far. same b (outside b far))
      where
        outside :
            (b : Ptr)
            → has b ((fresh, p) ∷ cells) ≡ false
            → has b ((fresh, p) ∷ front p.seqnum cells) ≡ false
        outside b far =
            let split = front-append-back p.seqnum cells in
            let part : has b cells ≡ false → has b (front p.seqnum cells) ≡ false =
              λ e. not_has-left b (front p.seqnum cells) (back p.seqnum cells) (rw split e) in
            ground (arith, part)

  -- Where malloc gives a node and the packet can be deleted, add_specific_queue of a list that
  -- stands for `xs` succeeds, and the packets are then those of the ordered insertion. Only the new
  -- node and the nodes of the list are written.
  pub add_specific_queue-insert :
      (xs : Cells)
      → pkt_del (some p) ≡ returns tt
      → IsQueue h list xs
      → (ys : Cells) × (packets ys ≡ insert p (packets xs))
        × Becomes ys ((fresh, p) ∷ xs) h (add_specific_queue fresh list p h)
  add_specific_queue-insert [] deletable q = ((fresh, p) ∷ [], unfold insert in refl, alone q)
  add_specific_queue-insert ((a, v) ∷ xs) deletable q =
      elim (Bool-cases ((examined p.seqnum v ((a, v) ∷ xs)).seqnum == p.seqnum)) [
        | inl old ↦ (
          (a, v) ∷ xs,
          sym (insert-place fresh p a v xs ∙ rw old),
          duplicate a v xs q deletable old,
        )
        | inr new ↦ (_, sym (insert-place fresh p a v xs ∙ rw new), placed a v xs q new)
      ]
