-- ===== src/ScriptStack/Array.antt =====
-- The script stack as a list of items, the newest last.
use bitcoin_clib.Base.{
  ℕ, suc, ◌+◌, ◌-◌, ◌*◌, ◌/◌, ◌%◌, ◌≤◌, ◌<◌, ◌≡◌, refl, sym, ap, ◌∙◌, List, [], ◌∷◌, ◌++◌, true,
  false, leb, ◌==◌, arith, length, take, drop, set, replicate, Option, none, some, length-set,
  length-append, length-drop, length-replicate, take-set_next, take-set_outside, get_or-set_self,
  take-append, take_all, append_assoc, drop_prefix,
}
use bitcoin_clib.ScriptData.{ScriptData}
use bitcoin_clib.ScriptStack.{
  ScriptStack, satoshi_script_stack_resize, script_stack_push, script_stack_pop,
}

-- The items in use.
unfoldable pub items_of : ScriptStack → List (Option ScriptData)
items_of stack = take stack.count stack.items

-- The array has `max_size` elements, in whole steps of 64, and those in use are among them.
unfoldable pub IsWellFormed : ScriptStack → Type 0
IsWellFormed stack =
    (length stack.items ≡ stack.max_size)
    × (stack.max_size % 64 ≡ 0)
    × (stack.count ≤ stack.max_size)

cleared :
    {A : Type 0} (count k : ℕ) (fresh items more : List A)
    → length fresh ≡ k
    → k ≤ count
    → length items ≡ count
    → take count (fresh ++ drop k (items ++ more)) ≡ fresh ++ drop k (take count items)
cleared count k fresh items more size inside full =
    ap (λ l. take count (fresh ++ l)) (drop_prefix k items more (omega (arith, inside, full)))
    ∙ ap (take count) (sym (append_assoc fresh (drop k items) more))
    ∙ take-append count (fresh ++ drop k items) more
        (omega (arith, size, inside, full, length-append fresh (drop k items), length-drop k items))
    ∙ ap (λ l. fresh ++ drop k l) (sym (take_all count items (sym full)))

module _ (unset : Option ScriptData) where
  no_growth :
      (stack : ScriptStack)
      → stack.max_size % 64 ≡ 0
      → stack.count < stack.max_size
      → satoshi_script_stack_resize unset stack (stack.count + 1) ≡ stack
  unfolding satoshi_script_stack_resize
  no_growth stack steps room =
      let c1 : (stack.count + 1 == 0) ≡ false = ground arith in
      let c2 : leb ((stack.count + 1 + 64 - 1) / 64 * 64) stack.max_size ≡ true =
        ground (arith, steps, room) in
      rw (c1, c2) refl

  pub push_eq :
      (stack : ScriptStack) (sdata : ScriptData)
      → stack.max_size % 64 ≡ 0
      → stack.count < stack.max_size
      → script_stack_push unset stack sdata
        ≡ record stack { items = set stack.items stack.count (some sdata); count = stack.count + 1 }
  unfolding script_stack_push
  push_eq stack sdata steps room =
      ap {A = ScriptStack}
        (λ r. record r { items = set r.items r.count (some sdata); count = r.count + 1 })
        (no_growth stack steps room)

  pop_eq :
      (stack : ScriptStack) (sdata : ScriptData)
      → stack.count < length stack.items
      → (let v : ScriptStack = record stack {
        items = set stack.items stack.count (some sdata);
        count = stack.count + 1;
      } in
          ((script_stack_pop v).0 ≡ some sdata)
          × (items_of (script_stack_pop v).1 ≡ items_of stack))
  unfolding script_stack_pop items_of
  pop_eq stack sdata room =
      let c : (stack.count + 1 == 0) ≡ false = ground arith in
      let back : stack.count + 1 - 1 ≡ stack.count = omega arith in
      rw (c, back)
        (
          get_or-set_self stack.items stack.count (some sdata) none room,
          take-set_outside stack.count stack.count (set stack.items stack.count (some sdata)) none
                (omega arith)
              ∙ take-set_outside stack.count stack.count stack.items (some sdata) (omega arith),
        )

  top_lem :
      (count : ℕ) (items : List (Option ScriptData)) (x : Option ScriptData)
      → count < length items
      → take (count + 1) (set items count x) ≡ take count items ++ x ∷ []
  top_lem count items x room =
      let next : count + 1 ≡ suc count = omega arith in
      ap (λ k. take k (set items count x)) next ∙ take-set_next count items x room

  -- On a well-formed script stack (an array of max_size pointers, a multiple of 64, of which
  -- count are in use) with a free place, stack_push keeps it well formed and puts the item behind
  -- those in use; stack_pop then returns the item and leaves the others as they were.
  pub script_stack_push_lem :
      (stack : ScriptStack) (sdata : ScriptData)
      → IsWellFormed stack
      → stack.count < stack.max_size
      → IsWellFormed (script_stack_push unset stack sdata)
        × (items_of (script_stack_push unset stack sdata) ≡ items_of stack ++ some sdata ∷ [])
        × ((script_stack_pop (script_stack_push unset stack sdata)).0 ≡ some sdata)
        × (items_of (script_stack_pop (script_stack_push unset stack sdata)).1 ≡ items_of stack)
  unfolding IsWellFormed items_of
  script_stack_push_lem stack sdata (full, steps, inside) room =
      let (popped, left) = pop_eq stack sdata (omega (arith, full, room)) in
      rw (push_eq stack sdata steps room) (
        (length-set stack.items stack.count (some sdata) ∙ full, steps, omega (arith, room)),
        top_lem stack.count stack.items (some sdata) (omega (arith, full, room)),
        popped,
        left,
      )

  growth :
      (stack : ScriptStack)
      → stack.max_size % 64 ≡ 0
      → stack.count ≡ stack.max_size
      → satoshi_script_stack_resize unset stack (stack.count + 1) ≡ record stack {
        items = replicate 64 none ++ drop 64 (stack.items ++ replicate 64 unset);
        max_size = stack.max_size + 64;
      }
  unfolding satoshi_script_stack_resize
  growth stack steps at_end =
      let c1 : (stack.count + 1 == 0) ≡ false = ground arith in
      let size : (stack.count + 1 + 64 - 1) / 64 * 64 ≡ stack.max_size + 64 =
        omega (arith, steps, at_end) in
      let c2 : leb (stack.max_size + 64) stack.max_size ≡ false = ground arith in
      let more : stack.max_size + 64 - stack.max_size ≡ 64 = omega arith in
      rw (c1, size, c2, more) refl

  -- On a well-formed script stack without a free place, of at least 64 items, stack_push puts the
  -- new item behind the others and overwrites the 64 oldest with NULL.
  pub script_stack_push_full :
      (stack : ScriptStack) (sdata : ScriptData)
      → IsWellFormed stack
      → stack.count ≡ stack.max_size
      → 64 ≤ stack.count
      → items_of (script_stack_push unset stack sdata)
        ≡ (replicate 64 none ++ drop 64 (items_of stack)) ++ some sdata ∷ []
  unfolding IsWellFormed items_of script_stack_push
  script_stack_push_full stack sdata (full, steps, inside) at_end some_items =
      let more = replicate 64 unset in
      let array = replicate 64 none ++ drop 64 (stack.items ++ more) in
      let fresh = length-replicate {A = Option ScriptData} 64 none in
      let held : length stack.items ≡ stack.count = omega (arith, full, at_end) in
      let room : stack.count < length array = omega (
        arith,
        fresh,
        held,
        some_items,
        length-append (replicate 64 none) (drop 64 (stack.items ++ more)),
        length-drop 64 (stack.items ++ more),
        length-append stack.items more,
        length-replicate 64 unset,
      ) in
      rw (growth stack steps at_end) (
        top_lem stack.count array (some sdata) room
        ∙ ap (λ l. l ++ some sdata ∷ [])
            (cleared stack.count 64 (replicate 64 none) stack.items more fresh some_items held))
