-- ===== src/ClibStack.antt =====
-- utils/clib-stack.c: a stack or a queue of linked nodes. The heap is the list of the nodes ever
-- allocated, `none` once freed; an address is an index, so a new node's address is new. An allocation
-- never fails. Stored pointers are numbers, and `none` stands for NULL.
pub mod Heap
pub mod Stack
pub mod Chains
pub mod Branches
pub mod Queue
use bitcoin_clib.Base.{
  ℕ, suc, ◌+◌, ◌-◌, ◌^◌, ltb, List, [], ◌∷◌, ◌++◌, Bool, true, false, if◌then◌else◌, length,
  get_elem?, set, Option, none, some, Outcome, ok, fault, ◌>>=◌,
}

pub record Node : Type 0 where
  pub item : ℕ
  pub next : Option ℕ

-- `struct clib_stack_or_queue`, with the heap; `count` is an int, at least the number of nodes; `is_queue` stands for its two methods.
pub record StackOrQueue : Type 0 where
  pub heap : List (Option Node)
  pub top : Option ℕ
  pub bottom : Option ℕ
  pub count : ℕ
  pub is_queue : Bool

-- `++sq->count` of an int: past the highest one it overflows.
unfoldable pub increment : ℕ → Outcome ℕ
increment count = if ltb (count + 1) (2 ^ 31) then ok (count + 1) else fault

-- The node at an address; a freed or foreign address is a fault.
unfoldable pub load_node : List (Option Node) → ℕ → Outcome Node
load_node heap a = elim (get_elem? heap a) [
  | some (some node) ↦ ok node
  | some none ↦ fault
  | none ↦ fault
]

unfoldable pub stack_pop : StackOrQueue → Outcome (Option ℕ × StackOrQueue)
stack_pop sq = elim sq.top [
  | none ↦ ok (none, sq)
  | some node ↦ load_node sq.heap node >>= λ n.
      ok (
        some n.item,
        record sq { heap = set sq.heap node none; top = n.next; count = sq.count - 1 },
      )
]

unfoldable pub stack_push : StackOrQueue → ℕ → Outcome StackOrQueue
unfolding increment
stack_push sq item = do
  count ← increment sq.count
  ok (record sq {
    heap = sq.heap ++ some (record { item = item; next = sq.top }) ∷ [];
    top = some (length sq.heap);
    count = count;
  })

unfoldable pub queue_pop : StackOrQueue → Outcome (Option ℕ × StackOrQueue)
queue_pop sq = elim sq.top [
  | none ↦ ok (none, sq)
  | some node ↦ load_node sq.heap node >>= λ n. ok (
    some n.item,
    record sq {
      heap = set sq.heap node none;
      top = n.next;
      bottom = elim n.next [ none ↦ none | some _ ↦ sq.bottom ];
      count = sq.count - 1;
    },
  )
]

-- `sq->bottom->next = node;`
unfoldable pub link_bottom : List (Option Node) → Option ℕ → ℕ → Outcome (List (Option Node))
link_bottom heap none node = fault
link_bottom heap (some b) node = do
  n ← load_node heap b
  ok (set heap b (some (record n { next = some node })))

unfoldable pub queue_push : StackOrQueue → ℕ → Outcome StackOrQueue
unfolding increment
queue_push sq item =
    let node = length sq.heap in
    let heap = sq.heap ++ some (record { item = item; next = none }) ∷ [] in
    elim sq.top [
      | none ↦ increment sq.count >>= λ count.
          ok (record sq { heap = heap; top = some node; bottom = some node; count = count })
      | some _ ↦ link_bottom heap sq.bottom node >>= λ linked. increment sq.count >>= λ count.
          ok (record sq { heap = linked; bottom = some node; count = count })
    ]

-- The object is cleared whether it was given or allocated.
unfoldable pub clib_stack_or_queue_init : List (Option Node) → Bool → StackOrQueue
clib_stack_or_queue_init heap is_queue = record {
  heap = heap;
  top = none;
  bottom = none;
  count = 0;
  is_queue = is_queue;
}

unfoldable pub push : StackOrQueue → ℕ → Outcome StackOrQueue
push sq item = if sq.is_queue then queue_push sq item else stack_push sq item

unfoldable pub pop : StackOrQueue → Outcome (Option ℕ × StackOrQueue)
pop sq = if sq.is_queue then queue_pop sq else stack_pop sq
