-- ===== src/ScriptStack/Held.antt =====
-- The script stack as a list of script data, the newest first.
use bitcoin_clib.Base.{
  ◌-◌, ◌≤◌, ◌<◌, ◌≡◌, refl, sym, ap, ◌∙◌, List, [], ◌∷◌, ◌++◌, false, ◌==◌, arith, length, get_or,
  take, set, Option, none, some, length-append, get_or-take, take-append, take-take,
  take-set_outside, length-set,
}
use bitcoin_clib.ScriptData.{ScriptData}
use bitcoin_clib.ScriptStack.{ScriptStack, script_stack_push, script_stack_pop}
use bitcoin_clib.ScriptStack.Array.{items_of, IsWellFormed, script_stack_push_lem, push_eq}

-- The pointers, from the oldest on.
unfoldable pub pointers : List ScriptData → List (Option ScriptData)
pointers [] = []
pointers (x ∷ xs) = pointers xs ++ some x ∷ []

-- A well-formed stack with the items `xs` in use, the newest first.
pub record Held (stack : ScriptStack) (xs : List ScriptData) : Type 0 where
  pub formed : IsWellFormed stack
  pub items_eq : items_of stack ≡ pointers xs
  pub count_eq : stack.count ≡ length xs

length-pointers : (xs : List ScriptData) → length (pointers xs) ≡ length xs
unfolding pointers
length-pointers [] = refl
length-pointers (x ∷ xs) =
    omega (arith, length-pointers xs, length-append (pointers xs) (some x ∷ []))

get_or-snoc :
    (xs : List (Option ScriptData)) (x : Option ScriptData)
    → get_or (xs ++ x ∷ []) (length xs) none ≡ x
get_or-snoc [] x = refl
get_or-snoc (y ∷ ys) x = get_or-snoc ys x

-- The last item in use.
pub Held-top :
    (stack : ScriptStack) (x : ScriptData) (xs : List ScriptData)
    → Held stack (x ∷ xs)
    → get_or stack.items (stack.count - 1) none ≡ some x
unfolding items_of pointers
Held-top stack x xs h =
    let last : stack.count - 1 ≡ length (pointers xs) =
      omega (arith, h.count_eq, length-pointers xs) in
    sym (get_or-take (stack.count - 1) stack.count stack.items none (omega (arith, h.count_eq)))
    ∙ ap (λ l. get_or l (stack.count - 1) none) h.items_eq
    ∙ ap (λ k. get_or (pointers xs ++ some x ∷ []) k none) last
    ∙ get_or-snoc (pointers xs) (some x)

pub Held-push :
    (unset : Option ScriptData) (stack : ScriptStack) (x : ScriptData) (xs : List ScriptData)
    → Held stack xs
    → length xs < stack.max_size
    → Held (script_stack_push unset stack x) (x ∷ xs)
      × ((script_stack_push unset stack x).max_size ≡ stack.max_size)
unfolding pointers IsWellFormed
Held-push unset stack x xs h room =
    let free : stack.count < stack.max_size = omega (arith, room, h.count_eq) in
    let (formed, items_eq, _, _) = script_stack_push_lem unset stack x h.formed free in
    let pushed = push_eq unset stack x h.formed.1 free in
    (
      record {
        formed = formed;
        items_eq = items_eq ∙ ap (λ l. l ++ some x ∷ []) h.items_eq;
        count_eq = ap (λ s. s.count) pushed ∙ omega (arith, h.count_eq);
      },
      ap (λ s. s.max_size) pushed,
    )

pub Held-pop :
    (stack : ScriptStack) (x : ScriptData) (xs : List ScriptData)
    → Held stack (x ∷ xs)
    → (rest : ScriptStack) × (script_stack_pop stack ≡ (some x, rest))
      × Held rest xs
      × (rest.max_size ≡ stack.max_size)
unfolding script_stack_pop IsWellFormed items_of pointers
Held-pop stack x xs h =
    let c : (stack.count == 0) ≡ false = ground (arith, h.count_eq) in
    let last = stack.count - 1 in
    let less : last ≤ stack.count = omega arith in
    let size : last ≡ length (pointers xs) = omega (arith, h.count_eq, length-pointers xs) in
    (
      record stack { items = set stack.items last none; count = last },
      rw (c, Held-top stack x xs h) refl,
      record {
        formed = (
          length-set stack.items last none ∙ h.formed.0,
          h.formed.1,
          omega (arith, less, h.formed.2),
        );
        items_eq =
            take-set_outside last last stack.items none (omega arith)
            ∙ sym (take-take last stack.count stack.items less)
            ∙ ap (take last) h.items_eq
            ∙ take-append last (pointers xs) (some x ∷ []) size;
        count_eq = omega (arith, h.count_eq);
      },
      refl,
    )
