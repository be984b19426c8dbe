-- ===== src/Queue/Chain.antt =====
-- The representation of a list of packets by linked nodes.
use lingi1341_projet.Prelude.{
  ◌≡◌, refl, sym, ap, ◌∙◌, ◌≢◌, Bool, true, false, ◌||◌, Option, none, some, List, [], ◌∷◌, ◌++◌,
  arith, ◌==◌, length, Outcome, returns,
}
use lingi1341_projet.Packet.Fields.{Pkt}
use lingi1341_projet.Queue.Nodes.{
  Ptr, null_ptr, node, Heap, write_node, load, set_next, Changed, Node, Handle,
}

-- Address and packet of each node, in order.
abbrev pub Cells : Type 0
Cells = List (Ptr × Pkt)

abbrev pub packets : Cells → List Pkt
packets [] = []
packets ((a, v) ∷ xs) = v ∷ packets xs

abbrev pub has : Ptr → Cells → Bool
has a [] = false
has a ((b, _) ∷ xs) = (a == b) || has a xs

-- The first address, `stop` if there is none.
abbrev pub first : Ptr → Cells → Ptr
first stop [] = stop
first stop ((a, _) ∷ xs) = a

-- The last address, `before` if there is none.
abbrev pub last : Ptr → Cells → Ptr
last before [] = before
last before ((a, _) ∷ xs) = last a xs

-- The nodes of `xs` are live, at distinct addresses, and each leads to the next, the last to `stop`.
abbrev pub Chain : Heap → Ptr → Cells → Type 0
Chain h stop [] = Unit {0}
Chain h stop ((a, v) ∷ xs) =
    (a ≢ null_ptr) × (has a xs ≡ false) × (h a ≡ some (node v (first stop xs))) × Chain h stop xs

pub record IsQueue (h : Heap) (list : Handle) (xs : Cells) : Type 0 where
  pub chain : Chain h null_ptr xs
  pub head : list.head ≡ first null_ptr xs
  pub tail : list.tail ≡ last null_ptr xs
  pub size : list.size ≡ length xs

-- `g` differs from `h` at most at `fresh` and at the addresses of `xs`.
abbrev pub SameOutside : Cells → Heap → Heap → Type 0
SameOutside xs h g = (a : Ptr) → has a xs ≡ false → g a ≡ h a

pub has-append : (a : Ptr) (xs ys : Cells) → has a (xs ++ ys) ≡ (has a xs || has a ys)
has-append a [] ys = refl
has-append a ((b, v) ∷ xs) ys = ground (arith, has-append a xs ys)

-- A write elsewhere keeps the chain.
pub Chain-write_node :
    (h : Heap) (stop p : Ptr) (c : Option Node) (xs : Cells)
    → has p xs ≡ false
    → Chain h stop xs
    → Chain (write_node h p c) stop xs
unfolding write_node
Chain-write_node h stop p c [] out s = tt
Chain-write_node h stop p c ((a, v) ∷ xs) out s = ground (arith, Chain-write_node h stop p c xs)

pub not_has-left : (a : Ptr) (xs ys : Cells) → has a (xs ++ ys) ≡ false → has a xs ≡ false
not_has-left a xs ys out = ground (arith, has-append a xs ys)

pub not_has-right : (a : Ptr) (xs ys : Cells) → has a (xs ++ ys) ≡ false → has a ys ≡ false
not_has-right a xs ys out = ground (arith, has-append a xs ys)

pub not_has-insert :
    (b fresh : Ptr) (p : Pkt) (xs ys : Cells)
    → has b (xs ++ ((fresh, p) ∷ ys)) ≡ false
    → has b ((fresh, p) ∷ xs) ≡ false
not_has-insert b fresh p xs ys out = ground (arith, has-append b xs ((fresh, p) ∷ ys))

first-append : (stop : Ptr) (xs ys : Cells) → first stop (xs ++ ys) ≡ first (first stop ys) xs
first-append stop [] ys = refl
first-append stop ((a, v) ∷ xs) ys = refl

-- The first part of a chain leads to the second.
pub Chain-append_left :
    (h : Heap) (stop : Ptr) (xs ys : Cells) → Chain h stop (xs ++ ys) → Chain h (first stop ys) xs
Chain-append_left h stop [] ys s = tt
Chain-append_left h stop ((a, v) ∷ xs) ys s = (
  s.0,
  not_has-left a xs ys s.1,
  s.2 ∙ ap (λ q. some (node v q)) (first-append stop xs ys),
  Chain-append_left h stop xs ys s.3,
)

pub Chain-append_right :
    (h : Heap) (stop : Ptr) (xs ys : Cells) → Chain h stop (xs ++ ys) → Chain h stop ys
Chain-append_right h stop [] ys s = s
Chain-append_right h stop ((a, v) ∷ xs) ys s = Chain-append_right h stop xs ys s.3

-- The two parts share no address.
pub Chain-apart :
    (h : Heap) (stop : Ptr) (xs ys : Cells)
    → Chain h stop (xs ++ ys)
    → (b : Ptr) → has b ys ≡ true
    → has b xs ≡ false
Chain-apart h stop [] ys s b held = refl
Chain-apart h stop ((a, v) ∷ xs) ys s b held =
    ground (arith, not_has-right a xs ys s.1, Chain-apart h stop xs ys s.3 b held)

pub Chain-frame :
    (h g : Heap) (stop : Ptr) (xs : Cells)
    → Chain h stop xs
    → ((a : Ptr) → has a xs ≡ true → g a ≡ h a)
    → Chain g stop xs
Chain-frame h g stop [] s same = tt
Chain-frame h g stop ((a, v) ∷ xs) s same = (
  s.0,
  s.1,
  same a (ground arith) ∙ s.2,
  Chain-frame h g stop xs s.3 (λ b held. same b (ground arith)),
)

pub not_has_of_none :
    (h : Heap) (stop a : Ptr) (xs : Cells) → Chain h stop xs → h a ≡ none → has a xs ≡ false
not_has_of_none h stop a [] s unused = refl
not_has_of_none h stop a ((b, v) ∷ xs) s unused =
    ground (arith, not_has_of_none h stop a xs s.3 unused)

pub load-node : (h : Heap) (a : Ptr) {n : Node} → a ≢ null_ptr → h a ≡ some n → load h a ≡ returns n
unfolding load
load-node h a live e = ground arith

pub set_next-node :
    (h : Heap) (a r : Ptr) {n : Node}
    → a ≢ null_ptr
    → h a ≡ some n
    → set_next h a r ≡ returns (write_node h a (some (node n.packet r)))
unfolding set_next
set_next-node h a r live e = rw (load-node h a live e)

-- The last node of a chain is made to lead to `r`.
pub relink :
    (h : Heap) (stop r a : Ptr) (v : Pkt) (xs : Cells)
    → Chain h stop ((a, v) ∷ xs)
    → (g : Heap) × (set_next h (last a xs) r ≡ returns g)
      × Chain g r ((a, v) ∷ xs)
      × SameOutside ((a, v) ∷ xs) h g
unfolding write_node
relink h stop r a v [] s =
    (_, set_next-node h a r s.0 s.2, (s.0, s.1, ground arith, tt), λ b out. ground arith)
relink h stop r a v ((b, w) ∷ xs) s =
    let (g, done, chain, same) = relink h stop r b w xs s.3 in
    (g, done, (s.0, s.1, same a s.1 ∙ s.2, chain), λ c out. same c (ground arith))

-- A new node between two parts.
pub Chain-insert :
    (h g : Heap) (stop fresh : Ptr) (p : Pkt) (xs ys : Cells)
    → fresh ≢ null_ptr
    → has fresh (xs ++ ys) ≡ false
    → Chain h stop (xs ++ ys)
    → Chain g fresh xs
    → g fresh ≡ some (node p (first stop ys))
    → ((a : Ptr) → has a ys ≡ true → g a ≡ h a)
    → Chain g stop (xs ++ ((fresh, p) ∷ ys))
Chain-insert h g stop fresh p [] ys live out s front new same =
    (live, out, new, Chain-frame h g stop ys s same)
Chain-insert h g stop fresh p ((a, v) ∷ xs) ys live out s front new same = (
  s.0,
  ground (arith, has-append a xs ((fresh, p) ∷ ys), has-append a xs ys),
  front.2 ∙ ap (λ q. some (node v q)) (sym (first-append stop xs ((fresh, p) ∷ ys))),
  Chain-insert h g stop fresh p xs ys live (ground arith) s.3 front.3 new same,
)

-- The new node is written and the last node of the first part is made to lead to it.
pub splice :
    (h : Heap) (stop fresh : Ptr) (p : Pkt) (a : Ptr) (v : Pkt) (xs : Cells)
    → has fresh ((a, v) ∷ xs) ≡ false
    → Chain h stop ((a, v) ∷ xs)
    → (g : Heap) × (set_next (write_node h fresh (some (node p null_ptr))) (last a xs) fresh
        ≡ returns g)
      × Chain g fresh ((a, v) ∷ xs)
      × (g fresh ≡ some (node p null_ptr))
      × SameOutside ((fresh, p) ∷ (a, v) ∷ xs) h g
unfolding write_node
splice h stop fresh p a v xs out s =
    let h' : Heap = write_node h fresh (some (node p null_ptr)) in
    let (g, done, chain, same) =
      relink h' stop fresh a v xs (Chain-write_node h stop fresh _ ((a, v) ∷ xs) out s) in
    (g, done, chain, same fresh out ∙ ground arith, λ b far. same b (ground arith) ∙ ground arith)

-- After a call that succeeds the list stands for `xs`, and only the nodes of `touched` differ.
abbrev pub Becomes : Cells → Cells → Heap → Outcome Changed → Type 0
Becomes xs touched h call =
    (list : Handle) × (g : Heap) × (call ≡ returns (true, list, g))
    × IsQueue g list xs
    × SameOutside touched h g

pub last-append : (a fresh : Ptr) (p : Pkt) (xs : Cells) → last a (xs ++ ((fresh, p) ∷ [])) ≡ fresh
last-append a fresh p [] = refl
last-append a fresh p ((b, v) ∷ xs) = last-append b fresh p xs

pub last-live :
    (h : Heap) (stop a : Ptr) (v : Pkt) (xs : Cells)
    → Chain h stop ((a, v) ∷ xs)
    → last a xs ≢ null_ptr
last-live h stop a v [] s = s.0
last-live h stop a v ((b, w) ∷ xs) s = last-live h stop b w xs s.3
