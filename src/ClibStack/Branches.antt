-- ===== src/ClibStack/Branches.antt =====
-- The branches of the operations of a queue.
use bitcoin_clib.Base.{
  ℕ, ◌+◌, ◌-◌, ◌<◌, ◌^◌, arith, ◌≡◌, refl, ap, List, [], ◌∷◌, ◌++◌, Bool, true, if◌then◌else◌,
  length, set, Option, none, some, ok,
}
use bitcoin_clib.ClibStack.{
  Node, StackOrQueue, increment, load_node, queue_push, stack_push, stack_pop, queue_pop,
  link_bottom, push, pop,
}

pub push_eq :
    (sq : StackOrQueue) (item : ℕ) → sq.is_queue ≡ true → push sq item ≡ queue_push sq item
unfolding push
push_eq sq item e = ap (λ q. if q then queue_push sq item else stack_push sq item) e

pub increment_lt : (count : ℕ) → count + 1 < 2 ^ 31 → increment count ≡ ok (count + 1)
unfolding increment
increment_lt count small = ground (arith, small)

pub queue_push_empty :
    (heap : List (Option Node)) (top bottom : Option ℕ) (count : ℕ) (is_queue : Bool) (item : ℕ)
    → top ≡ none
    → count + 1 < 2 ^ 31
    → queue_push
        (record { heap = heap; top = top; bottom = bottom; count = count; is_queue = is_queue })
        item
      ≡ ok (record {
        heap = heap ++ some (record { item = item; next = none }) ∷ [];
        top = some (length heap);
        bottom = some (length heap);
        count = count + 1;
        is_queue = is_queue;
      })
unfolding queue_push
queue_push_empty heap top bottom count is_queue item e small = rw (e, increment_lt count small) refl

pub queue_push_linked :
    (heap linked : List (Option Node)) (top bottom : Option ℕ) (count : ℕ) (is_queue : Bool)
    (item b t : ℕ)
    → top ≡ some t
    → bottom ≡ some b
    → link_bottom (heap ++ some (record { item = item; next = none }) ∷ []) (some b) (length heap)
      ≡ ok linked
    → count + 1 < 2 ^ 31
    → queue_push
        (record { heap = heap; top = top; bottom = bottom; count = count; is_queue = is_queue })
        item
      ≡ ok (record {
        heap = linked;
        top = top;
        bottom = some (length heap);
        count = count + 1;
        is_queue = is_queue;
      })
unfolding queue_push
queue_push_linked heap linked top bottom count is_queue item b t e f g small =
    rw (e, f, g, increment_lt count small)
      (ap
        (λ x. ok (record {
          heap = linked;
          top = x;
          bottom = some (length heap);
          count = count + 1;
          is_queue = is_queue;
        }))
        e)

pub queue_pop-some :
    (heap : List (Option Node)) (top bottom after : Option ℕ) (count : ℕ) (is_queue : Bool)
    (a item : ℕ)
    → top ≡ some a
    → load_node heap a ≡ ok (record { item = item; next = after })
    → queue_pop
        (record { heap = heap; top = top; bottom = bottom; count = count; is_queue = is_queue })
      ≡ ok (
        some item,
        record {
          heap = set heap a none;
          top = after;
          bottom = elim after [ none ↦ none | some _ ↦ bottom ];
          count = count - 1;
          is_queue = is_queue;
        },
      )
unfolding queue_pop
queue_pop-some heap top bottom after count is_queue a item e f = rw (e, f) refl

pub queue_pop-none :
    (heap : List (Option Node)) (top bottom : Option ℕ) (count : ℕ) (is_queue : Bool)
    → top ≡ none
    → (let sq : StackOrQueue = record {
      heap = heap;
      top = top;
      bottom = bottom;
      count = count;
      is_queue = is_queue;
    } in
        queue_pop sq ≡ ok (none, sq))
unfolding queue_pop
queue_pop-none heap top bottom count is_queue e = rw e (
    ap
      (λ t. ok (
        none,
        record { heap = heap; top = t; bottom = bottom; count = count; is_queue = is_queue },
      ))
      e)

pub pop_eq : (sq : StackOrQueue) → sq.is_queue ≡ true → pop sq ≡ queue_pop sq
unfolding pop
pop_eq sq e = ap (λ q. if q then queue_pop sq else stack_pop sq) e
