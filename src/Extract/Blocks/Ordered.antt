-- ===== src/Extract/Blocks/Ordered.antt =====
-- The blocks that a cache keeps are those of its order, each once.
use findo.Prelude.{
  ℕ, suc, ◌++◌, false, ==_refl, ◌≤◌, ◌≡◌, refl, sym, ap, ◌∙◌, none, some, List, [], ◌∷◌, arith,
  ◌==◌, Text, length, length-append, All, inl, inr, Bool-cases,
}
use findo.Extract.Blocks.{Blocks, cached, forget, forget_oldest, rest_of}

-- A block of this number is kept.
abbrev pub IsHeld : Blocks → ℕ → Type 0
IsHeld blocks i = (b : Text) × (cached i blocks ≡ some b)

abbrev pub Distinct : List ℕ → Type 0
Distinct [] = Unit
Distinct (i ∷ order) = All (λ j. (i == j) ≡ false) order × Distinct order

length-forget-le : (i : ℕ) (blocks : Blocks) → length (forget i blocks) ≤ length blocks
unfolding forget
length-forget-le i [] = omega arith
length-forget-le i ((j, b) ∷ blocks) = ground (arith, length-forget-le i blocks)

length-forget :
    (i : ℕ) (blocks : Blocks) → IsHeld blocks i → suc (length (forget i blocks)) ≤ length blocks
unfolding forget cached
length-forget i [] (b, e) = cc
length-forget i ((j, a) ∷ blocks) (b, e) = elim (Bool-cases (j == i)) [
  | inl same ↦ rw same (omega (arith, length-forget-le i blocks))
  | inr other ↦ rw other (omega (arith, length-forget i blocks (b, rw other at e)))
]

cached-forget :
    (i j : ℕ) (blocks : Blocks) → (i == j) ≡ false → cached j (forget i blocks) ≡ cached j blocks
unfolding forget cached
cached-forget i j [] h = refl
cached-forget i j ((k, b) ∷ blocks) h = ground (arith, cached-forget i j blocks h)

forget-IsHeld :
    (i : ℕ) (blocks : Blocks) (order : List ℕ)
    → All (λ j. (i == j) ≡ false) order
    → All (IsHeld blocks) order
    → All (IsHeld (forget i blocks)) order
forget-IsHeld i blocks [] h k = tt
forget-IsHeld i blocks (j ∷ order) (h, hs) ((b, e), ks) =
    ((b, cached-forget i j blocks h ∙ e), forget-IsHeld i blocks order hs ks)

-- A new block of a number that is not kept leaves the others.
add-IsHeld :
    (i : ℕ) (buf : Text) (blocks : Blocks) (order : List ℕ)
    → cached i blocks ≡ none
    → All (IsHeld blocks) order
    → All (IsHeld ((i, buf) ∷ blocks)) (order ++ i ∷ [])
unfolding cached
add-IsHeld i buf blocks [] h k = ((buf, rw (==_refl i) refl), tt)
add-IsHeld i buf blocks (j ∷ order) h ((b, e), ks) = elim (Bool-cases (i == j)) [
  | inl same ↦ ((buf, rw same refl), add-IsHeld i buf blocks order h ks)
  | inr other ↦ ((b, rw other e), add-IsHeld i buf blocks order h ks)
]

held-apart :
    (i : ℕ) (blocks : Blocks) (j : ℕ) → cached i blocks ≡ none → IsHeld blocks j → (j == i) ≡ false
held-apart i blocks j h (b, e) = elim (Bool-cases (j == i)) [
  | inl same ↦
      let at_i : j ≡ i = ground arith in
      let both : none ≡ some b = sym h ∙ (ap (λ k. cached k blocks) (sym at_i) ∙ e) in cc
  | inr other ↦ other
]

All-last :
    (i j : ℕ) (order : List ℕ)
    → All (λ k. (j == k) ≡ false) order
    → (j == i) ≡ false
    → All (λ k. (j == k) ≡ false) (order ++ i ∷ [])
All-last i j [] h k = (k, tt)
All-last i j (m ∷ order) (h, hs) k = (h, All-last i j order hs k)

add-Distinct :
    (i : ℕ) (blocks : Blocks) (order : List ℕ)
    → cached i blocks ≡ none
    → All (IsHeld blocks) order
    → Distinct order
    → Distinct (order ++ i ∷ [])
add-Distinct i blocks [] h k d = (tt, tt)
add-Distinct i blocks (j ∷ order) h (held, ks) (d, ds) =
    (All-last i j order d (held-apart i blocks j h held), add-Distinct i blocks order h ks ds)

-- The blocks are those of the order, each once.
pub record IsOrdered (blocks : Blocks) (order : List ℕ) : Type 0 where
  pub distinct : Distinct order
  pub held : All (IsHeld blocks) order
  pub counted : length blocks ≤ length order

pub evict-IsOrdered :
    (blocks : Blocks) (order : List ℕ)
    → IsOrdered blocks order
    → IsOrdered (forget_oldest order blocks) (rest_of order)
evict-IsOrdered blocks [] o = o
evict-IsOrdered blocks (i ∷ order) o =
    let (apart, others) = o.distinct in
    let (here, rest) = o.held in
    record {
      distinct = others;
      held = forget-IsHeld i blocks order apart rest;
      counted = omega (arith, length-forget i blocks here, o.counted);
    }

pub add-IsOrdered :
    (i : ℕ) (buf : Text) (blocks : Blocks) (order : List ℕ)
    → cached i blocks ≡ none
    → IsOrdered blocks order
    → IsOrdered ((i, buf) ∷ blocks) (order ++ i ∷ [])
add-IsOrdered i buf blocks order h o = record {
  distinct = add-Distinct i blocks order h o.held o.distinct;
  held = add-IsHeld i buf blocks order h o.held;
  counted = omega (arith, length-append order (i ∷ []), o.counted);
}

forget-none :
    (i j : ℕ) (blocks : Blocks) → cached i blocks ≡ none → cached i (forget j blocks) ≡ none
unfolding forget cached
forget-none i j [] h = refl
forget-none i j ((k, b) ∷ blocks) h = elim (Bool-cases (k == i)) [
  | inl same ↦ let bad : some b ≡ none = rw same at h in cc
  | inr other ↦
      let rest = forget-none i j blocks (rw other at h) in
      elim (Bool-cases (k == j)) [ inl gone ↦ rw gone rest | inr stays ↦ rw (stays, other) rest ]
]

pub evict-none :
    (i : ℕ) (blocks : Blocks) (order : List ℕ)
    → cached i blocks ≡ none
    → cached i (forget_oldest order blocks) ≡ none
evict-none i blocks [] h = h
evict-none i blocks (j ∷ order) h = forget-none i j blocks h
