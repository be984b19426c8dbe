-- ===== src/Queue/Nodes.antt =====
-- src/nyancat.h and src/nyancat.c: the linked list over an explicit heap of nodes. A node holds its
-- packet by value, since a packet belongs to one node. `fresh` is what malloc returns.
use lingi1341_projet.Prelude.{
  ℕ, zero, suc, ◌+◌, ◌-◌, Bool, true, false, ◌&&◌, not, Option, none, some, ◌==◌, if◌then◌else◌,
  ◌>>=◌, Outcome, returns, undefined,
}
use lingi1341_projet.Packet.Fields.{pkt_del, Pkt}
use lingi1341_projet.Queue.Order.{comes_before}

abbrev pub Ptr : Type 0
Ptr = ℕ

abbrev pub null_ptr : Ptr
null_ptr = 0

-- `node_t`
pub record Node : Type 0 where
  pub packet : Pkt
  pub next : Ptr

abbrev pub node : Pkt → Ptr → Node
node packet next = record { packet = packet; next = next }

abbrev pub Heap : Type 0
Heap = Ptr → Option Node

-- `list_t`
pub record Handle : Type 0 where
  pub head : Ptr
  pub tail : Ptr
  pub size : ℕ

abbrev pub handle : Ptr → Ptr → ℕ → Handle
handle head tail size = record { head = head; tail = tail; size = size }

-- `none` frees the node.
unfoldable pub write_node : Heap → Ptr → Option Node → Heap
write_node h p c a = if a == p then c else h a

-- `*p`
unfoldable pub load : Heap → Ptr → Outcome Node
load h p = elim (h p) [ none ↦ undefined | some n ↦ if p == null_ptr then undefined else returns n ]

-- `p->next = q`
unfoldable pub set_next : Heap → Ptr → Ptr → Outcome Heap
set_next h p q = do n ← load h p; returns (write_node h p (some (record n { next = q })))

-- calloc; `none` is NULL.
unfoldable pub list_create : (memory : Bool) → Option Handle
list_create memory = if memory then some (handle null_ptr null_ptr 0) else none

-- The status (false is -1), the list and the heap.
abbrev pub Changed : Type 0
Changed = Bool × Handle × Heap

unfoldable pub add_element_queue : (fresh : Ptr) → Handle → Pkt → Heap → Outcome Changed
add_element_queue fresh list packet h =
    if fresh == null_ptr
    then returns (false, list, h)
    else (let h' = write_node h fresh (some (node packet null_ptr)) in
        if list.size == 0
        then returns (true, handle fresh fresh (list.size + 1), h')
        else set_next h' list.tail fresh
          >>= (λ h''. returns (true, handle list.head fresh (list.size + 1), h'')))

-- The packet (`none` is NULL), the list and the heap.
unfoldable pub pop_element_queue : Handle → Heap → Outcome (Option Pkt × Handle × Heap)
pop_element_queue list h =
    if list.size == 0
    then returns (none, list, h)
    else load h list.head >>= (λ n. returns (
      some n.packet,
      (if list.size == 1
          then handle null_ptr null_ptr (list.size - 1)
          else handle n.next list.tail (list.size - 1)),
      write_node h list.head none,
    ))

-- The loop of add_specific_queue: `previous`, `runner` and `pkt_runner` when it ends. The fuel is
-- more than the length of the list.
unfoldable pub find_place :
    ℕ
    → Heap
    → (seqnum : ℕ) → (previous runner : Ptr) → Pkt
    → (cmp : Bool) → Outcome (Ptr × Ptr × Pkt)
find_place zero h seqnum previous runner pkt_runner cmp = undefined
find_place (suc k) h seqnum previous runner pkt_runner cmp =
    if not (runner == null_ptr) && cmp
    then load h runner >>= (λ n.
      if n.next == null_ptr
      then find_place k h seqnum runner n.next pkt_runner cmp
      else load h n.next >>= (λ m.
        find_place k h seqnum runner n.next m.packet (comes_before m.packet.seqnum seqnum)))
    else returns (previous, runner, pkt_runner)

-- Behind the loop: a duplicate is deleted with its node, another packet is linked in.
unfoldable pub link_node :
    Handle → Pkt → (fresh previous runner : Ptr) → Pkt → Heap → Outcome Changed
link_node list packet fresh previous runner pkt_runner h =
    if pkt_runner.seqnum == packet.seqnum
    then pkt_del (some packet) >>= (λ _. returns (true, list, write_node h fresh none))
    else (if previous == null_ptr then returns h else set_next h previous fresh) >>= (λ h'.
        set_next h' fresh runner >>= (λ h''. returns (
          true,
          handle (if previous == null_ptr then fresh else list.head)
              (if runner == null_ptr then fresh else list.tail) (list.size + 1),
          h'',
        )))

unfoldable pub add_specific_queue : (fresh : Ptr) → Handle → Pkt → Heap → Outcome Changed
add_specific_queue fresh list packet h =
    if fresh == null_ptr
    then returns (false, list, h)
    else (let h' = write_node h fresh (some (node packet null_ptr)) in
        if list.size == 0
        then returns (true, handle fresh fresh (list.size + 1), h')
        else load h' list.head >>= (λ n.
          find_place (list.size + 1) h' packet.seqnum null_ptr list.head n.packet
            (comes_before n.packet.seqnum packet.seqnum)
          >>= (λ (previous, runner, pkt_runner).
              link_node list packet fresh previous runner pkt_runner h')))
