-- ===== src/Script/Balanced.antt =====
-- Conditionals around well-nested code: the scan finds the `else` and the `endif` that belong to them.
use bitcoin_clib.Base.{
  ℕ, zero, suc, ◌+◌, ◌≤◌, ◌<◌, ◌≡◌, refl, ap, ◌∙◌, List, [], ◌∷◌, ◌++◌, ◌⊎◌, append_assoc, arith,
  length, length-append, drop, drop-append, Option, some,
}
use bitcoin_clib.Script.Branches.{pushed_bytes, scan_step, go, scan_if}

-- Code in which every push is whole and every conditional has its `endif`.
pub data Balanced : List ℕ → Type 0 where
  end : Balanced []
  plain :
      {p : List ℕ} (op : ℕ) → 0x4e < op → (op < 0x63) ⊎ (0x68 < op) → Balanced p → Balanced (op ∷ p)
  push :
      {p : List ℕ} (op : ℕ) (d : List ℕ)
      → op ≤ 0x4e
      → ((q : List ℕ) → pushed_bytes op (d ++ q) ≡ some (length d))
      → Balanced p
      → Balanced (op ∷ (d ++ p))
  one_branch :
      {a p : List ℕ} (op : ℕ)
      → (op ≡ 0x63) ⊎ (op ≡ 0x64)
      → Balanced a
      → Balanced p
      → Balanced (op ∷ (a ++ (0x68 ∷ p)))
  two_branches :
      {a b p : List ℕ} (op : ℕ)
      → (op ≡ 0x63) ⊎ (op ≡ 0x64)
      → Balanced a
      → Balanced b
      → Balanced p
      → Balanced (op ∷ (a ++ (0x67 ∷ (b ++ (0x68 ∷ p)))))

-- The scan of `p` leads to that of `rest`, at another level and position, with fuel that is enough.
pub record Leads (f d pos : ℕ) (e : Option ℕ) (p : List ℕ) (d' pos' : ℕ) (rest : List ℕ)
    : Type 0 where
  pub fuel : ℕ
  pub enough : length rest < fuel
  pub leads : scan_if f d pos e p ≡ scan_if fuel d' pos' e rest

-- The scan passes over `a` at its level.
abbrev Passes : List ℕ → Type 0
Passes a =
    (f depth pos : ℕ) (p_else : Option ℕ) (rest : List ℕ)
    → length (a ++ rest) < f
    → Leads f depth pos p_else (a ++ rest) depth (pos + length a) rest

-- One round of the scan that goes on.
scan_go :
    (f depth depth' pos n : ℕ) (p_else p_else' : Option ℕ) (op : ℕ) (p : List ℕ)
    → scan_step depth (pos + 1) p_else op p ≡ go depth' p_else' n
    → scan_if (suc f) depth pos p_else (op ∷ p) ≡ scan_if f depth' (pos + 1 + n) p_else' (drop n p)
unfolding scan_if
scan_go f depth depth' pos n p_else p_else' op p e = rw (e, scan_if) refl

step_plain :
    (depth pos : ℕ) (p_else : Option ℕ) (op : ℕ) (p : List ℕ)
    → 0x4e < op
    → (op < 0x63) ⊎ (0x68 < op)
    → scan_step depth pos p_else op p ≡ go depth p_else 0
unfolding scan_step
step_plain depth pos p_else op p h k = ground arith

step_push :
    (depth pos : ℕ) (p_else : Option ℕ) (op n : ℕ) (p : List ℕ)
    → op ≤ 0x4e
    → pushed_bytes op p ≡ some n
    → scan_step depth pos p_else op p ≡ go depth p_else n
unfolding scan_step
step_push depth pos p_else op n p h e = ground (arith, e)

step_if :
    (depth pos : ℕ) (p_else : Option ℕ) (op : ℕ) (p : List ℕ)
    → (op ≡ 0x63) ⊎ (op ≡ 0x64)
    → scan_step depth pos p_else op p ≡ go (depth + 1) p_else 0
unfolding scan_step
step_if depth pos p_else op p h = ground arith

step_else :
    (depth pos : ℕ) (p_else : Option ℕ) (p : List ℕ)
    → scan_step (depth + 1) pos p_else 0x67 p ≡ go (depth + 1) p_else 0
unfolding scan_step
step_else depth pos p_else p = ground arith

step_endif :
    (depth pos : ℕ) (p_else : Option ℕ) (p : List ℕ)
    → scan_step (depth + 1) pos p_else 0x68 p ≡ go depth p_else 0
unfolding scan_step
step_endif depth pos p_else p = ground arith

-- Leads through a middle point, from an equal list, to an equal position.
through :
    {f d pos : ℕ} {e : Option ℕ} {p : List ℕ} (d1 pos1 : ℕ) (mid : List ℕ) {d2 pos2 : ℕ}
    {rest : List ℕ}
    → Leads f d pos e p d1 pos1 mid
    → ((f1 : ℕ) → length mid < f1 → Leads f1 d1 pos1 e mid d2 pos2 rest)
    → Leads f d pos e p d2 pos2 rest
through d1 pos1 mid l k =
    let r = k l.fuel l.enough in
    record { fuel = r.fuel; enough = r.enough; leads = l.leads ∙ r.leads }

equal_start :
    (f d pos : ℕ) (e : Option ℕ) (p p' : List ℕ) (d' pos' : ℕ) (rest : List ℕ)
    → p ≡ p'
    → Leads f d pos e p' d' pos' rest
    → Leads f d pos e p d' pos' rest
equal_start f d pos e p p' d' pos' rest q l = rw q l

equal_end :
    (f d pos : ℕ) (e : Option ℕ) (p : List ℕ) (d' pos' pos'' : ℕ) (rest : List ℕ)
    → pos' ≡ pos''
    → Leads f d pos e p d' pos' rest
    → Leads f d pos e p d' pos'' rest
equal_end f d pos e p d' pos' pos'' rest q l = rw (← q) l

-- One round.
one :
    (f d d' pos : ℕ) (e : Option ℕ) (op n : ℕ) (a rest : List ℕ)
    → n ≡ length a
    → scan_step d (pos + 1) e op (a ++ rest) ≡ go d' e n
    → length (op ∷ (a ++ rest)) < f
    → Leads f d pos e (op ∷ (a ++ rest)) d' (pos + 1 + n) rest
one zero d d' pos e op n a rest size q h = absurd (omega (arith, h))
one (suc f) d d' pos e op n a rest size q h = record {
  fuel = f;
  enough = omega (arith, h, length-append a rest);
  leads =
      scan_go f d d' pos n e e op (a ++ rest) q
      ∙ ap (scan_if f d' (pos + 1 + n) e) (drop-append n a rest size);
}

here :
    (f d pos : ℕ) (e : Option ℕ) (rest : List ℕ) → length rest < f → Leads f d pos e rest d pos rest
here f d pos e rest h = record { fuel = f; enough = h; leads = refl }

pub Balanced-Passes : {a : List ℕ} → Balanced a → Passes a
Balanced-Passes end f d pos e rest h =
    equal_end f d pos e rest d pos (pos + 0) rest (omega arith) (here f d pos e rest h)
Balanced-Passes (plain {p = p} op high k b) f d pos e rest h =
    equal_end f d pos e (op ∷ (p ++ rest)) d (pos + 1 + 0 + length p) (pos + suc (length p)) rest
      (omega arith)
      (through d (pos + 1 + 0) (p ++ rest)
        (one f d d pos e op 0 [] (p ++ rest) refl (step_plain d (pos + 1) e op (p ++ rest) high k)
          h)
        (λ f1 h1. Balanced-Passes b f1 d (pos + 1 + 0) e rest h1))
Balanced-Passes (push {p = p} op a low whole b) f d pos e rest h =
    let same = append_assoc a p rest in
    equal_start f d pos e (op ∷ ((a ++ p) ++ rest)) (op ∷ (a ++ (p ++ rest))) d _ rest
      (ap (λ l. op ∷ l) same)
      (equal_end f d pos e (op ∷ (a ++ (p ++ rest))) d (pos + 1 + length a + length p) _ rest
        (omega (arith, length-append a p))
        (through d (pos + 1 + length a) (p ++ rest)
          (one f d d pos e op (length a) a (p ++ rest) refl
            (step_push d (pos + 1) e op (length a) _ low (whole (p ++ rest))) (rw same at h))
          (λ f1 h1. Balanced-Passes b f1 d (pos + 1 + length a) e rest h1)))
Balanced-Passes (one_branch {a = a} {p = p} op is_if b c) f d pos e rest h =
    let same = append_assoc a (0x68 ∷ p) rest in
    let p1 = pos + 1 + 0 in
    let p2 = p1 + length a in
    equal_start f d pos e (op ∷ ((a ++ (0x68 ∷ p)) ++ rest)) (op ∷ (a ++ (0x68 ∷ (p ++ rest)))) d _
      rest (ap (λ l. op ∷ l) same)
      (equal_end f d pos e (op ∷ (a ++ (0x68 ∷ (p ++ rest)))) d (p2 + 1 + 0 + length p) _ rest
        (omega (arith, length-append a (0x68 ∷ p)))
        (through (d + 1) p1 (a ++ (0x68 ∷ (p ++ rest)))
          (one f d (d + 1) pos e op 0 [] _ refl (step_if d (pos + 1) e op _ is_if) (rw same at h))
          (λ f1 h1.
            through (d + 1) p2 (0x68 ∷ (p ++ rest))
              (Balanced-Passes b f1 (d + 1) p1 e (0x68 ∷ (p ++ rest)) h1)
              (λ f2 h2.
                through d (p2 + 1 + 0) (p ++ rest)
                  (one f2 (d + 1) d p2 e 0x68 0 [] (p ++ rest) refl (step_endif d (p2 + 1) e _) h2)
                  (λ f3 h3. Balanced-Passes c f3 d (p2 + 1 + 0) e rest h3)))))
Balanced-Passes (two_branches {a = a} {b = a'} {p = p} op is_if b b' c) f d pos e rest h =
    let tail = 0x67 ∷ (a' ++ (0x68 ∷ p)) in
    let tail' = 0x67 ∷ (a' ++ (0x68 ∷ (p ++ rest))) in
    let same : (a ++ tail) ++ rest ≡ a ++ tail' =
      append_assoc a tail rest ∙ ap (λ l. a ++ (0x67 ∷ l)) (append_assoc a' (0x68 ∷ p) rest) in
    let p1 = pos + 1 + 0 in
    let p2 = p1 + length a in
    let p3 = p2 + 1 + 0 in
    let p4 = p3 + length a' in
    equal_start f d pos e (op ∷ ((a ++ tail) ++ rest)) (op ∷ (a ++ tail')) d _ rest
      (ap (λ l. op ∷ l) same)
      (equal_end f d pos e (op ∷ (a ++ tail')) d (p4 + 1 + 0 + length p) _ rest
        (omega (arith, length-append a tail, length-append a' (0x68 ∷ p)))
        (through (d + 1) p1 (a ++ tail')
          (one f d (d + 1) pos e op 0 [] _ refl (step_if d (pos + 1) e op _ is_if) (rw same at h))
          (λ f1 h1. through (d + 1) p2 tail' (Balanced-Passes b f1 (d + 1) p1 e tail' h1) (λ f2 h2.
            through (d + 1) p3 (a' ++ (0x68 ∷ (p ++ rest)))
              (one f2 (d + 1) (d + 1) p2 e 0x67 0 [] _ refl (step_else d (p2 + 1) e _) h2)
              (λ f3 h3.
                through (d + 1) p4 (0x68 ∷ (p ++ rest))
                  (Balanced-Passes b' f3 (d + 1) p3 e (0x68 ∷ (p ++ rest)) h3)
                  (λ f4 h4.
                    through d (p4 + 1 + 0) (p ++ rest)
                      (one f4 (d + 1) d p4 e 0x68 0 [] (p ++ rest) refl (step_endif d (p4 + 1) e _)
                        h4)
                      (λ f5 h5. Balanced-Passes c f5 d (p4 + 1 + 0) e rest h5)))))))
