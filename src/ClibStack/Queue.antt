-- ===== src/ClibStack/Queue.antt =====
-- The queue: first in, first out.
use bitcoin_clib.Base.{
  ℕ, ◌+◌, ◌-◌, ◌<◌, ◌^◌, ◌≡◌, refl, sym, ap, ◌∙◌, List, [], ◌∷◌, ◌++◌, length-append, true, arith,
  length, get_elem?, set, drop, Option, none, some, ok,
}
use bitcoin_clib.ClibStack.{Node, StackOrQueue, push, pop}
use bitcoin_clib.ClibStack.Heap.{
  items, length-items, first, last, IsChain, IsDistinct, load_node_new, load_node-set_ne,
  IsChain-append, IsChain-set, new_address,
}
use bitcoin_clib.ClibStack.Chains.{
  IsChain-snoc, IsDistinct-snoc, last-snoc, items-snoc, last_ne, link_bottom_lem,
}
use bitcoin_clib.ClibStack.Branches.{
  push_eq, queue_push_empty, queue_push_linked, queue_pop-some, queue_pop-none, pop_eq,
}

-- The nodes of a queue, from the top, where items leave, to the bottom, where they enter.
pub record IsQueue (sq : StackOrQueue) (ns : List (ℕ × ℕ)) : Type 0 where
  pub kind : sq.is_queue ≡ true
  pub top_eq : sq.top ≡ first ns none
  pub bottom_eq : sq.bottom ≡ last ns none
  pub chain : IsChain sq.heap ns none
  pub distinct : IsDistinct ns
  pub count_eq : sq.count ≡ length ns

-- `Holds sq xs`: the queue holds the items `xs`, the oldest first.
unfoldable pub Holds : StackOrQueue → List ℕ → Type 0
Holds sq xs = (ns : List (ℕ × ℕ)) × IsQueue sq ns × (items ns ≡ xs)

queue_push_lem :
    (sq : StackOrQueue) (ns : List (ℕ × ℕ)) (item : ℕ)
    → IsQueue sq ns
    → length ns + 1 < 2 ^ 31
    → (u : StackOrQueue) × (push sq item ≡ ok u) × IsQueue u (ns ++ (length sq.heap, item) ∷ [])
queue_push_lem sq [] item s small =
    let node : Node = record { item = item; next = none } in
    let heap = sq.heap ++ some node ∷ [] in
    let a = length sq.heap in
    (
      record sq { heap = heap; top = some a; bottom = some a; count = sq.count + 1 },
      push_eq sq item s.kind
          ∙ queue_push_empty sq.heap sq.top sq.bottom sq.count sq.is_queue item s.top_eq
              (omega (arith, small, s.count_eq)),
      record {
        kind = s.kind;
        top_eq = refl;
        bottom_eq = refl;
        chain = (load_node_new sq.heap node, tt);
        distinct = (tt, tt);
        count_eq = omega (arith, s.count_eq);
      },
    )
queue_push_lem sq (n ∷ ns) item s small =
    let node : Node = record { item = item; next = none } in
    let heap = sq.heap ++ some node ∷ [] in
    let a = length sq.heap in
    let (b, v, at, linked, chain) =
      link_bottom_lem heap n ns a (IsChain-append sq.heap (some node ∷ []) (n ∷ ns) none s.chain)
        s.distinct in
    let new = new_address sq.heap (n ∷ ns) none s.chain in
    (
      record sq { heap = set heap b (some v); bottom = some a; count = sq.count + 1 },
      push_eq sq item s.kind
          ∙ queue_push_linked sq.heap _ sq.top sq.bottom sq.count sq.is_queue item b n.0 s.top_eq
              (s.bottom_eq ∙ at) linked (omega (arith, small, s.count_eq)),
      record {
        kind = s.kind;
        top_eq = s.top_eq;
        bottom_eq = sym (last-snoc ns a item (some n.0));
        chain = IsChain-snoc (set heap b (some v)) (n ∷ ns) a item chain (
            load_node-set_ne heap a b (some v) node (λ e. last_ne n ns a b new at (sym e))
              (load_node_new sq.heap node));
        distinct = IsDistinct-snoc (n ∷ ns) a item s.distinct new;
        count_eq = omega (arith, s.count_eq, length-append ns ((a, item) ∷ []));
      },
    )

bottom_after :
    (n : ℕ × ℕ) (ns : List (ℕ × ℕ)) (bottom : Option ℕ)
    → bottom ≡ last ns (some n.0)
    → ◌≡◌ {A = Option ℕ} (elim (first ns none) [ none ↦ none | some _ ↦ bottom ]) (last ns none)
bottom_after n [] bottom e = refl
bottom_after n (m ∷ ns) bottom e = e

queue_pop_lem :
    (sq : StackOrQueue) (n : ℕ × ℕ) (ns : List (ℕ × ℕ))
    → IsQueue sq (n ∷ ns)
    → (u : StackOrQueue) × (pop sq ≡ ok (some n.1, u)) × IsQueue u ns
queue_pop_lem sq n ns s = (
  record sq {
    heap = set sq.heap n.0 none;
    top = first ns none;
    bottom = elim (first ns none) [ none ↦ none | some _ ↦ sq.bottom ];
    count = sq.count - 1;
  },
  pop_eq sq s.kind
      ∙ queue_pop-some sq.heap sq.top sq.bottom (first ns none) sq.count sq.is_queue n.0 n.1
          s.top_eq s.chain.0,
  record {
    kind = s.kind;
    top_eq = refl;
    bottom_eq = bottom_after n ns sq.bottom s.bottom_eq;
    chain = IsChain-set sq.heap n.0 none ns none s.distinct.0 s.chain.1;
    distinct = s.distinct.1;
    count_eq = omega (arith, s.count_eq);
  },
)

-- A push on a queue whose linked nodes hold the items xs, fewer than 2 ^ 31 - 1, succeeds and
-- gives a queue that holds xs and the new item behind them.
pub queue_push-Holds :
    (sq : StackOrQueue) (xs : List ℕ) (item : ℕ)
    → Holds sq xs
    → length xs < 2 ^ 31 - 1
    → (u : StackOrQueue) × (push sq item ≡ ok u) × Holds u (xs ++ item ∷ [])
unfolding Holds
queue_push-Holds sq xs item (ns, s, held) small =
    let size = ap length held in
    let (u, e, s') = queue_push_lem sq ns item s (omega (arith, small, size, length-items ns)) in
    (
      u,
      e,
      (
        ns ++ (length sq.heap, item) ∷ [],
        s',
        items-snoc ns (length sq.heap) item ∙ ap (λ l. l ++ item ∷ []) held,
      ),
    )

-- A pop of a queue whose linked nodes hold the items xs succeeds, returns the first of them, or
-- NULL if there is none, and leaves a queue that holds the others.
pub queue_pop-Holds :
    (sq : StackOrQueue) (xs : List ℕ)
    → Holds sq xs
    → (u : StackOrQueue) × (pop sq ≡ ok (get_elem? xs 0, u)) × Holds u (drop 1 xs)
unfolding Holds items
queue_pop-Holds sq xs ([], s, held) =
    let none_left : none ≡ get_elem? xs 0 = ap (λ l. get_elem? l 0) held in
    (
      sq,
      pop_eq sq s.kind
          ∙ queue_pop-none sq.heap sq.top sq.bottom sq.count sq.is_queue s.top_eq
          ∙ ap (λ o. ok (o, sq)) none_left,
      ([], s, ap (drop 1) held),
    )
queue_pop-Holds sq xs (n ∷ ns, s, held) =
    let (u, e, s') = queue_pop_lem sq n ns s in
    let first_item : some n.1 ≡ get_elem? xs 0 = ap (λ l. get_elem? l 0) held in
    (u, e ∙ ap (λ o. ok (o, u)) first_item, (ns, s', ap (drop 1) held))
