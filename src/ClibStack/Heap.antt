-- ===== src/ClibStack/Heap.antt =====
-- Chains of nodes in the heap, and what a write elsewhere leaves of them.
use bitcoin_clib.Base.{
  ℕ, zero, suc, ◌<◌, ◌≡◌, ◌≢◌, refl, ap, List, [], ◌∷◌, ◌++◌, arith, length, set, All, Option, some,
  ok,
}
use bitcoin_clib.ClibStack.{Node, load_node}

-- The nodes of a chain are pairs of an address and an item.
unfoldable pub items : List (ℕ × ℕ) → List ℕ
items [] = []
items (n ∷ ns) = n.1 ∷ items ns

pub length-items : (ns : List (ℕ × ℕ)) → length (items ns) ≡ length ns
unfolding items
length-items [] = refl
length-items (n ∷ ns) = ap suc (length-items ns)

-- The pointer to a chain that `q` follows, and the address of its last node.
abbrev pub first : List (ℕ × ℕ) → Option ℕ → Option ℕ
first [] q = q
first (n ∷ ns) q = some n.0

abbrev pub last : List (ℕ × ℕ) → Option ℕ → Option ℕ
last [] d = d
last (n ∷ ns) d = last ns (some n.0)

-- Each node holds its item and points to the next one, the last one to `q`.
abbrev pub IsChain : List (Option Node) → List (ℕ × ℕ) → Option ℕ → Type 0
IsChain heap [] q = Unit {0}
IsChain heap (n ∷ ns) q =
    (load_node heap n.0 ≡ ok (record { item = n.1; next = first ns q })) × IsChain heap ns q

abbrev pub AreOthers : ℕ → List (ℕ × ℕ) → Type 0
AreOthers a ns = All (λ n. n.0 ≢ a) ns

-- No address occurs twice.
abbrev pub IsDistinct : List (ℕ × ℕ) → Type 0
IsDistinct [] = Unit {0}
IsDistinct (n ∷ ns) = AreOthers n.0 ns × IsDistinct ns

pub load_node-append :
    (heap more : List (Option Node)) (a : ℕ) (n : Node)
    → load_node heap a ≡ ok n
    → load_node (heap ++ more) a ≡ ok n
unfolding load_node
load_node-append [] more a n h = cc
load_node-append (x ∷ heap) more zero n h = h
load_node-append (x ∷ heap) more (suc a) n h = load_node-append heap more a n h

pub load_node_new :
    (heap : List (Option Node)) (n : Node) → load_node (heap ++ some n ∷ []) (length heap) ≡ ok n
unfolding load_node
load_node_new [] n = refl
load_node_new (x ∷ heap) n = load_node_new heap n

pub load_node-lt :
    (heap : List (Option Node)) (a : ℕ) (n : Node) → load_node heap a ≡ ok n → a < length heap
unfolding load_node
load_node-lt [] a n h = cc
load_node-lt (x ∷ heap) zero n h = omega arith
load_node-lt (x ∷ heap) (suc a) n h = omega (arith, load_node-lt heap a n h)

pub load_node-set_ne :
    (heap : List (Option Node)) (a b : ℕ) (v : Option Node) (n : Node)
    → a ≢ b
    → load_node heap a ≡ ok n
    → load_node (set heap b v) a ≡ ok n
unfolding load_node
load_node-set_ne [] a b v n d h = h
load_node-set_ne (x ∷ heap) zero zero v n d h = absurd (d refl)
load_node-set_ne (x ∷ heap) zero (suc b) v n d h = h
load_node-set_ne (x ∷ heap) (suc a) zero v n d h = h
load_node-set_ne (x ∷ heap) (suc a) (suc b) v n d h =
    load_node-set_ne heap a b v n (λ e. d (ap suc e)) h

pub load_node-set_self :
    (heap : List (Option Node)) (a : ℕ) (n : Node)
    → a < length heap
    → load_node (set heap a (some n)) a ≡ ok n
unfolding load_node
load_node-set_self [] a n h = absurd (omega arith)
load_node-set_self (x ∷ heap) zero n h = refl
load_node-set_self (x ∷ heap) (suc a) n h = load_node-set_self heap a n (omega arith)

pub IsChain-append :
    (heap more : List (Option Node)) (ns : List (ℕ × ℕ)) (q : Option ℕ)
    → IsChain heap ns q
    → IsChain (heap ++ more) ns q
IsChain-append heap more [] q c = tt
IsChain-append heap more (n ∷ ns) q c =
    (load_node-append heap more n.0 _ c.0, IsChain-append heap more ns q c.1)

pub IsChain-set :
    (heap : List (Option Node)) (a : ℕ) (v : Option Node) (ns : List (ℕ × ℕ)) (q : Option ℕ)
    → AreOthers a ns
    → IsChain heap ns q
    → IsChain (set heap a v) ns q
IsChain-set heap a v [] q others c = tt
IsChain-set heap a v (n ∷ ns) q others c =
    (load_node-set_ne heap n.0 a v _ others.0 c.0, IsChain-set heap a v ns q others.1 c.1)

-- A new address is none of a chain's.
pub new_address :
    (heap : List (Option Node)) (ns : List (ℕ × ℕ)) (q : Option ℕ)
    → IsChain heap ns q
    → AreOthers (length heap) ns
new_address heap [] q c = tt
new_address heap (n ∷ ns) q c =
    let inside = load_node-lt heap n.0 _ c.0 in
    ((λ e. absurd (omega (arith, inside, e))), new_address heap ns q c.1)
