-- ===== src/ClibStack/Stack.antt =====
-- The stack: last in, first out.
use bitcoin_clib.Base.{
  ℕ, ◌+◌, ◌-◌, ◌<◌, ◌^◌, ◌≡◌, refl, ap, ◌∙◌, List, [], ◌∷◌, ◌++◌, Bool, false, if◌then◌else◌, arith,
  length, get_elem?, set, drop, Option, none, some, ok,
}
use bitcoin_clib.ClibStack.{Node, StackOrQueue, stack_push, stack_pop, queue_pop, push, pop}
use bitcoin_clib.ClibStack.Branches.{increment_lt}
use bitcoin_clib.ClibStack.Heap.{
  items, length-items, first, IsChain, IsDistinct, load_node_new, IsChain-append, IsChain-set,
  new_address,
}

-- The nodes of a stack, from the top.
pub record IsStack (sq : StackOrQueue) (ns : List (ℕ × ℕ)) : Type 0 where
  pub kind : sq.is_queue ≡ false
  pub top_eq : sq.top ≡ first ns none
  pub chain : IsChain sq.heap ns none
  pub distinct : IsDistinct ns
  pub count_eq : sq.count ≡ length ns

-- `Holds sq xs`: the stack holds the items `xs`, from the top.
unfoldable pub Holds : StackOrQueue → List ℕ → Type 0
Holds sq xs = (ns : List (ℕ × ℕ)) × IsStack sq ns × (items ns ≡ xs)

stack_push_lem :
    (sq : StackOrQueue) (ns : List (ℕ × ℕ)) (item : ℕ)
    → IsStack sq ns
    → length ns + 1 < 2 ^ 31
    → (u : StackOrQueue) × (push sq item ≡ ok u) × IsStack u ((length sq.heap, item) ∷ ns)
unfolding push stack_push
stack_push_lem sq ns item s small =
    let counted = increment_lt sq.count (omega (arith, small, s.count_eq)) in
    let node : Node = record { item = item; next = sq.top } in
    let more = some node ∷ [] in
    (
      record sq { heap = sq.heap ++ more; top = some (length sq.heap); count = sq.count + 1 },
      rw (s.kind, counted) refl,
      record {
        kind = s.kind;
        top_eq = refl;
        chain = (
          load_node_new sq.heap node ∙ ap (λ q. ok (record { item = item; next = q })) s.top_eq,
          IsChain-append sq.heap more ns none s.chain,
        );
        distinct = (new_address sq.heap ns none s.chain, s.distinct);
        count_eq = omega (arith, s.count_eq);
      },
    )

stack_pop_lem :
    (sq : StackOrQueue) (n : ℕ × ℕ) (ns : List (ℕ × ℕ))
    → IsStack sq (n ∷ ns)
    → (u : StackOrQueue) × (pop sq ≡ ok (some n.1, u)) × IsStack u ns
unfolding pop stack_pop
stack_pop_lem sq n ns s = (
  record sq { heap = set sq.heap n.0 none; top = first ns none; count = sq.count - 1 },
  rw (s.kind, s.top_eq, s.chain.0) refl,
  record {
    kind = s.kind;
    top_eq = refl;
    chain = IsChain-set sq.heap n.0 none ns none s.distinct.0 s.chain.1;
    distinct = s.distinct.1;
    count_eq = omega (arith, s.count_eq);
  },
)

stack_pop-none :
    (heap : List (Option Node)) (top bottom : Option ℕ) (count : ℕ) (is_queue : Bool)
    → top ≡ none
    → (let sq : StackOrQueue = record {
      heap = heap;
      top = top;
      bottom = bottom;
      count = count;
      is_queue = is_queue;
    } in
        stack_pop sq ≡ ok (none, sq))
unfolding stack_pop
stack_pop-none heap top bottom count is_queue e = rw e (
    ap
      (λ t. ok (
        none,
        record { heap = heap; top = t; bottom = bottom; count = count; is_queue = is_queue },
      ))
      e)

empty_pop : (sq : StackOrQueue) → IsStack sq [] → pop sq ≡ ok (none, sq)
unfolding pop
empty_pop sq s =
    ap (λ q. if q then queue_pop sq else stack_pop sq) s.kind
    ∙ stack_pop-none sq.heap sq.top sq.bottom sq.count sq.is_queue s.top_eq

-- A push on a stack whose linked nodes hold the items xs, fewer than 2 ^ 31 - 1, succeeds and
-- gives a stack that holds the new item on top of xs.
pub stack_push-Holds :
    (sq : StackOrQueue) (xs : List ℕ) (item : ℕ)
    → Holds sq xs
    → length xs < 2 ^ 31 - 1
    → (u : StackOrQueue) × (push sq item ≡ ok u) × Holds u (item ∷ xs)
unfolding Holds items
stack_push-Holds sq xs item (ns, s, held) small =
    let size = ap length held in
    let (u, e, s') = stack_push_lem sq ns item s (omega (arith, small, size, length-items ns)) in
    (u, e, ((length sq.heap, item) ∷ ns, s', ap (λ l. item ∷ l) held))

-- A pop of a stack whose linked nodes hold the items xs succeeds, returns the top one, or NULL if
-- there is none, and leaves a stack that holds the others.
pub stack_pop-Holds :
    (sq : StackOrQueue) (xs : List ℕ)
    → Holds sq xs
    → (u : StackOrQueue) × (pop sq ≡ ok (get_elem? xs 0, u)) × Holds u (drop 1 xs)
unfolding Holds items
stack_pop-Holds sq xs ([], s, held) =
    let none_left : none ≡ get_elem? xs 0 = ap (λ l. get_elem? l 0) held in
    (sq, empty_pop sq s ∙ ap (λ o. ok (o, sq)) none_left, ([], s, ap (drop 1) held))
stack_pop-Holds sq xs (n ∷ ns, s, held) =
    let (u, e, s') = stack_pop_lem sq n ns s in
    let first_item : some n.1 ≡ get_elem? xs 0 = ap (λ l. get_elem? l 0) held in
    (u, e ∙ ap (λ o. ok (o, u)) first_item, (ns, s', ap (drop 1) held))
