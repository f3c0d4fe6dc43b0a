-- ===== src/ClibStack/Chains.antt =====
-- A chain of nodes that grows at its bottom, as a push on a queue makes it.
use bitcoin_clib.Base.{
  ℕ, ◌≡◌, ◌≢◌, refl, sym, ap, ◌∙◌, List, [], ◌∷◌, ◌++◌, set, All-append, Option, none, some, ok,
}
use bitcoin_clib.ClibStack.{Node, load_node, link_bottom}
use bitcoin_clib.ClibStack.Heap.{
  items, last, IsChain, AreOthers, IsDistinct, load_node-lt, load_node-set_self, load_node-set_ne,
}

some_injective : {a b : ℕ} → some a ≡ some b → a ≡ b
some_injective {a = a} h = ap (λ o. elim o [ none ↦ a | some x ↦ x ]) h

pub IsChain-snoc :
    (heap : List (Option Node)) (ns : List (ℕ × ℕ)) (a item : ℕ)
    → IsChain heap ns (some a)
    → load_node heap a ≡ ok (record { item = item; next = none })
    → IsChain heap (ns ++ (a, item) ∷ []) none
IsChain-snoc heap [] a item c h = (h, tt)
IsChain-snoc heap (n ∷ []) a item c h = (c.0, (h, tt))
IsChain-snoc heap (n ∷ m ∷ ns) a item c h = (c.0, IsChain-snoc heap (m ∷ ns) a item c.1 h)

pub IsDistinct-snoc :
    (ns : List (ℕ × ℕ)) (a item : ℕ)
    → IsDistinct ns
    → AreOthers a ns
    → IsDistinct (ns ++ (a, item) ∷ [])
IsDistinct-snoc [] a item d o = (tt, tt)
IsDistinct-snoc (n ∷ ns) a item d o = (
  All-append (λ m. m.0 ≢ n.0) ns ((a, item) ∷ []) d.0 ((λ e. o.0 (sym e)), tt),
  IsDistinct-snoc ns a item d.1 o.1,
)

pub last-snoc :
    (ns : List (ℕ × ℕ)) (a item : ℕ) (d : Option ℕ) → last (ns ++ (a, item) ∷ []) d ≡ some a
last-snoc [] a item d = refl
last-snoc (n ∷ ns) a item d = last-snoc ns a item (some n.0)

pub items-snoc :
    (ns : List (ℕ × ℕ)) (a item : ℕ) → items (ns ++ (a, item) ∷ []) ≡ items ns ++ item ∷ []
unfolding items
items-snoc [] a item = refl
items-snoc (n ∷ ns) a item = ap (λ l. n.1 ∷ l) (items-snoc ns a item)

-- The last node of a chain is a node of it.
pub last_ne :
    (n : ℕ × ℕ) (ns : List (ℕ × ℕ)) (a b : ℕ)
    → AreOthers a (n ∷ ns)
    → last ns (some n.0) ≡ some b
    → b ≢ a
last_ne n [] a b o h = λ e. o.0 (some_injective h ∙ e)
last_ne n (m ∷ ns) a b o h = last_ne m ns a b o.1 h

-- Writing through the pointer to the bottom makes the chain lead to the new node.
pub link_bottom_lem :
    (heap : List (Option Node)) (n : ℕ × ℕ) (ns : List (ℕ × ℕ)) (node : ℕ)
    → IsChain heap (n ∷ ns) none
    → IsDistinct (n ∷ ns)
    → (b : ℕ) × (v : Node) × (last ns (some n.0) ≡ some b)
      × (link_bottom heap (some b) node ≡ ok (set heap b (some v)))
      × IsChain (set heap b (some v)) (n ∷ ns) (some node)
unfolding link_bottom
link_bottom_lem heap n [] node c d =
    let v : Node = record { item = n.1; next = some node } in
    (n.0, v, refl, rw (c.0) refl, (load_node-set_self heap n.0 v (load_node-lt heap n.0 _ c.0), tt))
link_bottom_lem heap n (m ∷ ns) node c d =
    let (b, v, at, linked, chain) = link_bottom_lem heap m ns node c.1 d.1 in
    (
      b,
      v,
      at,
      linked,
      (load_node-set_ne heap n.0 b (some v) _ (λ e. last_ne m ns n.0 b d.0 at (sym e)) c.0, chain),
    )
