-- ===== src/Script/Scan.antt =====
-- The scan of `parse_op_if_notif` over well-nested code.
use bitcoin_clib.Base.{
  ℕ, zero, suc, ◌+◌, ◌<◌, ◌≡◌, refl, ap, ◌∙◌, List, ◌∷◌, ◌++◌, arith, length, Option, none, some,
}
use bitcoin_clib.Script.Branches.{found, scan_step, scan_if}
use bitcoin_clib.Script.Balanced.{Balanced, Balanced-Passes}

-- The `else` and the `endif` of the current level.
else_here :
    (f pos : ℕ) (p : List ℕ)
    → length (0x67 ∷ p) < f
    → (f' : ℕ) × (length p < f')
      × (scan_if f 0 pos none (0x67 ∷ p) ≡ scan_if f' 0 (pos + 1) (some (pos + 1)) p)
unfolding scan_if scan_step
else_here zero pos p h = absurd (omega (arith, h))
else_here (suc f) pos p h =
    (f, omega (arith, h), ap (λ k. scan_if f 0 k (some (pos + 1)) p) (omega arith))

endif_here :
    (f pos : ℕ) (e : Option ℕ) (p : List ℕ)
    → length (0x68 ∷ p) < f
    → scan_if f 0 pos e (0x68 ∷ p) ≡ found e (pos + 1)
unfolding scan_if scan_step
endif_here zero pos e p h = absurd (omega (arith, h))
endif_here (suc f) pos e p h = refl

pub scan_two :
    {a b : List ℕ} (rest : List ℕ)
    → Balanced a
    → Balanced b
    → scan_if
        (suc (length (a ++ (0x67 ∷ (b ++ (0x68 ∷ rest))))))
        0
        0
        none
        (a ++ (0x67 ∷ (b ++ (0x68 ∷ rest))))
      ≡ found (some (length a + 1)) (length a + 1 + length b + 1)
scan_two {a} {b} rest ba bb =
    let tail = b ++ (0x68 ∷ rest) in
    let l1 =
      Balanced-Passes ba (suc (length (a ++ (0x67 ∷ tail)))) 0 0 none (0x67 ∷ tail) (omega arith) in
    let (f2, h2, e2) = else_here l1.fuel (0 + length a) tail l1.enough in
    let l3 =
      Balanced-Passes bb f2 0 (0 + length a + 1) (some (0 + length a + 1)) (0x68 ∷ rest) h2 in
    l1.leads
    ∙ e2
    ∙ l3.leads
    ∙ endif_here l3.fuel (0 + length a + 1 + length b) (some (0 + length a + 1)) rest l3.enough
    ∙ ap (λ k. found (some (k + 1)) (k + 1 + length b + 1)) {x = 0 + length a} {y = length a}
        (omega arith)

pub scan_one :
    {a : List ℕ} (rest : List ℕ)
    → Balanced a
    → scan_if (suc (length (a ++ (0x68 ∷ rest)))) 0 0 none (a ++ (0x68 ∷ rest))
      ≡ found none (length a + 1)
scan_one {a} rest ba =
    let l1 =
      Balanced-Passes ba (suc (length (a ++ (0x68 ∷ rest)))) 0 0 none (0x68 ∷ rest) (omega arith) in
    l1.leads
    ∙ endif_here l1.fuel (0 + length a) none rest l1.enough
    ∙ ap (λ k. found none (k + 1)) {x = 0 + length a} {y = length a} (omega arith)
