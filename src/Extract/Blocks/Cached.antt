-- ===== src/Extract/Blocks/Cached.antt =====
-- The blocks that a cache keeps are the file's.
use findo.Prelude.{
  ℕ, ◌-◌, ◌*◌, ◌≤◌, ◌≡◌, refl, sym, ap, ◌∙◌, Option, none, some, List, [], ◌∷◌, arith, leb, ◌==◌,
  leb→le, if◌then◌else◌, Text, take, drop, length, length-append, All, inl, inr, Bool-cases,
}
use findo.Extract.Blocks.Ordered.{IsOrdered, evict-IsOrdered, add-IsOrdered, evict-none}
use findo.Extract.Blocks.{
  Blocks, BlockReaderAt, cached, forget, forget_oldest, rest_of, store, ReadError, eof,
  cache_blocks, new_block_reader_at,
}

length-rest_of : (order : List ℕ) → length (rest_of order) ≤ length order - 1
length-rest_of [] = omega arith
length-rest_of (i ∷ order) = omega arith

module _ (bs : ℕ) (content : Text) where
  -- The bytes of a block of the file.
  abbrev pub block_of : ℕ → Text
  block_of i = take bs (drop (i * bs) content)

  -- Each block that is kept is the file's, and those of the order are kept, each once.
  pub record IsSound (c : BlockReaderAt) : Type 0 where
    pub kept : All (λ e. e.1 ≡ block_of e.0) c.blocks
    pub sized : c.size ≡ length content
    pub few : length c.order ≤ cache_blocks
    pub ordered : IsOrdered c.blocks c.order

  forget-kept :
      (i : ℕ) (blocks : Blocks)
      → All (λ e. e.1 ≡ block_of e.0) blocks
      → All (λ e. e.1 ≡ block_of e.0) (forget i blocks)
  unfolding forget
  forget-kept i [] h = tt
  forget-kept i ((j, b) ∷ blocks) (h, hs) = elim (Bool-cases (j == i)) [
    | inl same ↦ rw same (forget-kept i blocks hs)
    | inr other ↦ rw other (h, forget-kept i blocks hs)
  ]

  evict-kept :
      (order : List ℕ) (blocks : Blocks)
      → All (λ e. e.1 ≡ block_of e.0) blocks
      → All (λ e. e.1 ≡ block_of e.0) (forget_oldest order blocks)
  evict-kept [] blocks h = h
  evict-kept (i ∷ order) blocks h = forget-kept i blocks h

  pub store-IsSound :
      (i : ℕ) (c : BlockReaderAt)
      → cached i c.blocks ≡ none
      → IsSound c
      → IsSound (store i (block_of i) c)
  unfolding store
  store-IsSound i c e v = elim (Bool-cases (leb cache_blocks (length c.order))) [
    | inl full ↦ rw full record {
      kept = (refl, evict-kept c.order c.blocks v.kept);
      sized = v.sized;
      few = omega (
        arith,
        length-append (rest_of c.order) (i ∷ []),
        length-rest_of c.order,
        leb→le _ _ full,
        v.few,
      );
      ordered =
          add-IsOrdered i (block_of i) (forget_oldest c.order c.blocks) (rest_of c.order)
            (evict-none i c.blocks c.order e) (evict-IsOrdered c.blocks c.order v.ordered);
    }
    | inr room ↦ rw room record {
      kept = (refl, v.kept);
      sized = v.sized;
      few = ground (arith, length-append c.order (i ∷ []));
      ordered = add-IsOrdered i (block_of i) c.blocks c.order e v.ordered;
    }
  ]

  pub cached-block :
      (i : ℕ) (blocks : Blocks) (b : Text)
      → All (λ e. e.1 ≡ block_of e.0) blocks
      → cached i blocks ≡ some b
      → b ≡ block_of i
  unfolding cached
  cached-block i [] b h e = cc
  cached-block i ((j, a) ∷ blocks) b (h, hs) e = elim (Bool-cases (j == i)) [
    | inl same ↦
        let found : some a ≡ some b = rw (same, cached) at e in
        let is_it : a ≡ b = cc in
        let at_i : j ≡ i = ground arith in sym is_it ∙ (h ∙ ap block_of at_i)
    | inr other ↦ cached-block i blocks b hs (rw other at e)
  ]

  -- How a read of so many bytes ends.
  abbrev pub end_of : ℕ → ℕ → Option ReadError
  end_of want off = if leb want (length content - off) then none else some eof

  pub new-IsSound : IsSound (new_block_reader_at (length content))
  unfolding new_block_reader_at
  new-IsSound = record {
    kept = tt;
    sized = refl;
    few = omega arith;
    ordered = record { distinct = tt; held = tt; counted = omega arith };
  }
