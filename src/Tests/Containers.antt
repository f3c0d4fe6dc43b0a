-- ===== src/Tests/Containers.antt =====
-- The byte buffer, and the stack and the queue of nodes.
use bitcoin_clib.Base.{
  ℕ, ◌≡◌, ◌≢◌, refl, List, [], ◌∷◌, ◌++◌, Bool, true, false, arith, take, drop, Option, none, some,
  ok,
}
use bitcoin_clib.AutoBuffer.{AutoBuffer, auto_buffer_push, auto_buffer_pop}
use bitcoin_clib.AutoBuffer.Queue.{
  contents, IsWellFormed, auto_buffer_push_lem, auto_buffer_pop_lem,
}
use bitcoin_clib.ClibStack.{StackOrQueue, load_node, Node, push, pop}
use bitcoin_clib.ClibStack.Heap.{items}
use bitcoin_clib.ClibStack.Stack.{Holds as StackHolds, stack_push-Holds, stack_pop-Holds}
use bitcoin_clib.ClibStack.Queue.{Holds as QueueHolds, queue_push-Holds, queue_pop-Holds}

abbrev buf : AutoBuffer
buf = record { size = 6; used = 2; start_pos = 1; bytes = 9 ∷ 1 ∷ 2 ∷ 0 ∷ 0 ∷ 0 ∷ [] }

buf-IsWellFormed : IsWellFormed buf
unfolding IsWellFormed
buf-IsWellFormed = (refl, omega arith)

abbrev always : ℕ → Bool
always n = true

auto_buffer_push_lem_example :
    (u : AutoBuffer) × (auto_buffer_push always 0 buf (some (7 ∷ 8 ∷ [])) 2 ≡ ok u)
    × IsWellFormed u
    × (contents u ≡ contents buf ++ 7 ∷ 8 ∷ [])
auto_buffer_push_lem_example =
    auto_buffer_push_lem always 0 buf (7 ∷ 8 ∷ []) 2 buf-IsWellFormed (omega arith) (omega arith)
      (omega arith) refl

auto_buffer_pop_lem_example :
    (u : AutoBuffer) × (k : ℕ) × (auto_buffer_pop buf none 1 ≡ ok (k, take k (contents buf), u))
    × (k ≡ 1)
    × IsWellFormed u
    × (contents u ≡ drop k (contents buf))
auto_buffer_pop_lem_example = auto_buffer_pop_lem buf 1 buf-IsWellFormed

-- Two nodes, the first on top.
abbrev nodes : List (ℕ × ℕ)
nodes = (0, 5) ∷ (1, 6) ∷ []

abbrev heap : List (Option Node)
heap = some (record { item = 5; next = some 1 }) ∷ some (record { item = 6; next = none }) ∷ []

abbrev stack : StackOrQueue
stack = record { heap = heap; top = some 0; bottom = none; count = 2; is_queue = false }

abbrev queue : StackOrQueue
queue = record { heap = heap; top = some 0; bottom = some 1; count = 2; is_queue = true }

zero_is_not_one : (one : ℕ) → one ≡ 1 → one ≢ 0
zero_is_not_one one same e = absurd (omega (arith, same, e))

stack-Holds : StackHolds stack (5 ∷ 6 ∷ [])
unfolding StackHolds items load_node
stack-Holds = (
  nodes,
  record {
    kind = refl;
    top_eq = refl;
    chain = (refl, (refl, tt));
    distinct = ((zero_is_not_one 1 refl, tt), (tt, tt));
    count_eq = refl;
  },
  refl,
)

queue-Holds : QueueHolds queue (5 ∷ 6 ∷ [])
unfolding QueueHolds items load_node
queue-Holds = (
  nodes,
  record {
    kind = refl;
    top_eq = refl;
    bottom_eq = refl;
    chain = (refl, (refl, tt));
    distinct = ((zero_is_not_one 1 refl, tt), (tt, tt));
    count_eq = refl;
  },
  refl,
)

stack_push-Holds_example :
    (u : StackOrQueue) × (push stack 4 ≡ ok u) × StackHolds u (4 ∷ 5 ∷ 6 ∷ [])
stack_push-Holds_example = stack_push-Holds stack (5 ∷ 6 ∷ []) 4 stack-Holds (omega arith)

stack_pop-Holds_example : (u : StackOrQueue) × (pop stack ≡ ok (some 5, u)) × StackHolds u (6 ∷ [])
stack_pop-Holds_example = stack_pop-Holds stack (5 ∷ 6 ∷ []) stack-Holds

queue_push-Holds_example :
    (u : StackOrQueue) × (push queue 4 ≡ ok u) × QueueHolds u (5 ∷ 6 ∷ 4 ∷ [])
queue_push-Holds_example = queue_push-Holds queue (5 ∷ 6 ∷ []) 4 queue-Holds (omega arith)

queue_pop-Holds_example : (u : StackOrQueue) × (pop queue ≡ ok (some 5, u)) × QueueHolds u (6 ∷ [])
queue_pop-Holds_example = queue_pop-Holds queue (5 ∷ 6 ∷ []) queue-Holds
