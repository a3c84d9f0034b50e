-- ===== src/Extract/Blocks/Refines.antt =====
-- Reading through the cache gives the bytes of the file.
use findo.Prelude.{
  ℕ, zero, suc, ◌+◌, ◌-◌, ◌*◌, ◌/◌, ◌%◌, ◌≤◌, ◌<◌, ◌≡◌, refl, sym, ap, ◌∙◌, false, Option, none,
  some, [], ◌++◌, append_assoc, append-nil, arith, ltb, leb, ltb→lt, length-take-le, Text, take,
  drop, length, inl, inr, Bool-cases, Option-cases,
}
use native.Mathlib.Nat.{div-add-mod, mod-lt, mul_comm}
use findo.Prelude.Slices.{
  length-drop, drop-drop, drop-take, take-take, take_in_parts, take_whole, length-take_pos,
  length-take-le_whole, drop_past,
}
use findo.Extract.Blocks.{
  BlockReaderAt, cached, ReadError, block_length, block, after_block, read_loop, read_at,
}
use findo.Extract.Blocks.Cached.{block_of, IsSound, store-IsSound, cached-block, end_of}

module _ (bs : ℕ) (content : Text) (read : ℕ → ℕ → Option Text) (positive : 0 < bs)
    (reads : (start n : ℕ)
      → start + n ≤ length content
      → read start n ≡ some (take n (drop start content))) where
  -- The block that is loaded is the whole of it.
  block_length-take :
      (i : ℕ)
      → i * bs < length content
      → take (block_length bs read (i * bs) (length content)) (drop (i * bs) content)
        ≡ block_of bs content i
  block_length-take i h = elim (Bool-cases (ltb (length content) (i * bs + bs))) [
    | inl short ↦ rw short (
        take_whole (length content - i * bs) (drop (i * bs) content)
          (omega (arith, length-drop (i * bs) content))
        ∙ sym (
            take_whole bs (drop (i * bs) content)
              (omega (arith, length-drop (i * bs) content, ltb→lt _ _ short))))
    | inr full ↦ rw full refl
  ]

  block_length-le :
      (i : ℕ)
      → i * bs < length content
      → i * bs + block_length bs read (i * bs) (length content) ≤ length content
  block_length-le i h = ground arith

  loads :
      (i size : ℕ)
      → size ≡ length content
      → i * bs < length content
      → read (i * bs) (block_length bs read (i * bs) size) ≡ some (block_of bs content i)
  loads i size e h =
      ap (λ k. read (i * bs) (block_length bs read (i * bs) k)) e
      ∙ (reads (i * bs) (block_length bs read (i * bs) (length content)) (block_length-le i h)
          ∙ ap some (block_length-take i h))

  block_lem :
      (i : ℕ) (c : BlockReaderAt)
      → IsSound bs content c
      → i * bs < length content
      → ((block bs read i c).0 ≡ some (block_of bs content i))
        × IsSound bs content (block bs read i c).1
  unfolding block
  block_lem i c v h = elim (Option-cases (cached i c.blocks)) [
    | inr (b, e) ↦ rw e (ap some (cached-block bs content i c.blocks b v.kept e), v)
    | inl e ↦ rw (e, loads i c.size v.sized h) (refl, store-IsSound bs content i c e v)
  ]

  in_block : (off : ℕ) → (off / bs * bs + off % bs ≡ off) × (off % bs < bs)
  in_block off =
      (ap (λ k. k + off % bs) (mul_comm (off / bs) bs) ∙ div-add-mod off bs, mod-lt off positive)

  take-take_any :
      (w k : ℕ) (xs : Text)
      → (m : ℕ) × (m ≤ w) × (m ≤ k) × (1 ≤ w → 1 ≤ k → 1 ≤ m) × (take w (take k xs) ≡ take m xs)
  take-take_any w k xs = elim (Bool-cases (leb w k)) [
    | inl small ↦ (w, omega arith, ground arith, λ a b. a, take-take w k xs (ground arith))
    | inr large ↦ (
      k,
      ground arith,
      omega arith,
      λ a b. b,
      take_whole w (take k xs) (ground (arith, length-take-le k xs)),
    )
  ]

  -- The part of the block that a round copies is the file's, and is not empty.
  part_lem :
      (want off : ℕ)
      → off < length content
      → let part = take (suc want) (drop (off % bs) (block_of bs content (off / bs))) in
        (m : ℕ) × (m ≤ suc want)
        × (part ≡ take m (drop off content))
        × (1 ≤ length part)
        × (off % bs < length (block_of bs content (off / bs)))
  part_lem want off h =
      let (sum, small) = in_block off in
      let k = bs - off % bs in
      let start = off / bs * bs in
      let whole : bs ≡ off % bs + k = omega arith in
      let tail : drop (off % bs) (block_of bs content (off / bs)) ≡ take k (drop off content) =
        ap (λ n. drop (off % bs) (take n (drop start content))) whole
        ∙ (drop-take (off % bs) k (drop start content)
            ∙ ap (take k) (drop-drop start (off % bs) content ∙ ap (λ n. drop n content) sum)) in
      let (m, le, _, pos, eq) = take-take_any (suc want) k (drop off content) in
      let same = ap (take (suc want)) tail ∙ eq in
      let some_left : 1 ≤ length (drop off content) = omega (arith, length-drop off content) in
      let long = length-take_pos m (drop off content) (pos (omega arith) (omega arith)) some_left in
      let tail_long = length-take_pos k (drop off content) (omega arith) some_left in
      (
        m,
        le,
        same,
        omega (arith, ap length same, long),
        omega (
          arith,
          ap length tail,
          tail_long,
          length-drop (off % bs) (block_of bs content (off / bs)),
        ),
      )

  after_block_lem :
      (next : ℕ → ℕ → Text → BlockReaderAt → (Text × Option ReadError) × BlockReaderAt)
      (want off : ℕ) (got blk : Text) (r : Option Text × BlockReaderAt)
      → r.0 ≡ some blk
      → off % bs < length blk
      → let part = take want (drop (off % bs) blk) in
        after_block bs read next want off got r
        ≡ next (want - length part) (off + length part) (got ++ part) r.1
  after_block_lem next want off got blk (none, c) e h = cc
  after_block_lem next want off got blk (some b, c) e h =
      let same : b ≡ blk = cc in
      let inside : leb (length b) (off % bs) ≡ false = rw same (ground arith) in
      rw inside (
        ap
          (λ t.
            next (want - length (take want (drop (off % bs) t)))
              (off + length (take want (drop (off % bs) t))) (got ++ take want (drop (off % bs) t))
              c)
          same)

  -- What the loop returns, and that the cache stays sound.
  abbrev Reads : ℕ → ℕ → Text → (Text × Option ReadError) × BlockReaderAt → Type 0
  Reads want off got r =
      (r.0.0 ≡ got ++ take want (drop off content))
      × (r.0.1 ≡ end_of bs content want off)
      × IsSound bs content r.1

  -- What a round got and what is read after it, together.
  parts_together :
      (want off m : ℕ) (got part : Text)
      → m ≤ want
      → part ≡ take m (drop off content)
      → (got ++ part) ++ take (want - length part) (drop (off + length part) content)
        ≡ got ++ take want (drop off content)
  parts_together want off m got part le same =
      let D = drop off content in
      append_assoc got part _
      ∙ ap (λ t. got ++ t)
          (ap (λ t. part ++ take (want - length part) t) (sym (drop-drop off (length part) content))
            ∙ (ap (λ t. t ++ take (want - length t) (drop (length t) D)) same
                ∙ sym (take_in_parts m want D le)))

  same_end :
      (want off m : ℕ) (part : Text)
      → m ≤ want
      → part ≡ take m (drop off content)
      → end_of bs content (want - length part) (off + length part) ≡ end_of bs content want off
  same_end want off m part le same = ground (
    arith,
    ap length same,
    length-take-le m (drop off content),
    length-take-le_whole m (drop off content),
    length-drop off content,
  )

  round-Reads :
      (next : ℕ → ℕ → Text → BlockReaderAt → (Text × Option ReadError) × BlockReaderAt)
      (fuel want off : ℕ) (got : Text) (c : BlockReaderAt)
      → off < c.size
      → want ≤ fuel
      → IsSound bs content c
      → ((want' off' : ℕ) (got' : Text) (c' : BlockReaderAt)
          → want' ≤ fuel
          → IsSound bs content c'
          → Reads want' off' got' (next want' off' got' c'))
      → Reads
          (suc want)
          off
          got
          (after_block bs read next (suc want) off got (block bs read (off / bs) c))
  round-Reads next fuel want off got c inside h v ih =
      let at_off : off < length content = omega (arith, v.sized) in
      let (found, sound) = block_lem (off / bs) c v (omega (arith, in_block off)) in
      let (m, le, same, long, within) = part_lem want off at_off in
      let part = take (suc want) (drop (off % bs) (block_of bs content (off / bs))) in
      let (bytes, ending, after) =
        ih (suc want - length part) (off + length part) (got ++ part) (block bs read (off / bs) c).1
          (omega (arith, long, h)) sound in
      rw
        (after_block_lem next (suc want) off got (block_of bs content (off / bs))
          (block bs read (off / bs) c) found within)
        (
          bytes ∙ parts_together (suc want) off m got part le same,
          ending ∙ same_end (suc want) off m part le same,
          after,
        )

  read_loop-Reads :
      (fuel want off : ℕ) (got : Text) (c : BlockReaderAt)
      → want ≤ fuel
      → IsSound bs content c
      → Reads want off got (read_loop bs read fuel want off got c)
  unfolding read_loop
  read_loop-Reads zero zero off got c h v = (sym (append-nil got), ground arith, v)
  read_loop-Reads zero (suc want) off got c h v = ground arith
  read_loop-Reads (suc fuel) zero off got c h v = (sym (append-nil got), ground arith, v)
  read_loop-Reads (suc fuel) (suc want) off got c h v = elim (Bool-cases (ltb off c.size)) [
    | inr past ↦
        rw past (rw (drop_past off content (ground arith)) (sym (append-nil got)), ground arith, v)
    | inl more ↦ rw more (
        round-Reads (read_loop bs read fuel) fuel want off got c (ltb→lt _ _ more) (omega arith) v
          (read_loop-Reads fuel))
  ]

  -- A read through a new or a used cache, with blocks of any size, returns the bytes of the file at
  -- the offset, as many as were wanted or as there are, says that the file ended where there are
  -- fewer, and keeps at most eight blocks, all the file's.
  pub read_at_exact :
      (want off : ℕ) (c : BlockReaderAt)
      → IsSound bs content c
      → off < length content
      → ((read_at bs read want off c).0.0 ≡ take want (drop off content))
        × ((read_at bs read want off c).0.1 ≡ end_of bs content want off)
        × IsSound bs content (read_at bs read want off c).1
        × (length (read_at bs read want off c).1.blocks ≤ 8)
  unfolding read_at
  read_at_exact want off c v h =
      let inside : leb c.size off ≡ false = ground arith in
      let (bytes, ending, after) = read_loop-Reads want want off [] c (omega arith) v in
      rw inside (bytes, ending, after, omega (arith, after.few, after.ordered.counted))
