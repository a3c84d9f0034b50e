-- ===== src/Extract/Proto/Streams.antt =====
-- The fields of a message, read one by one.
use findo.Prelude.{
  ◌⊎◌, ℕ, zero, suc, ◌≤◌, ◌≡◌, refl, Option, none, some, List, [], ◌∷◌, arith, Text, drop, length,
  inl, inr, Option-cases,
}
use findo.Prelude.Slices.{length-drop}
use findo.Extract.Proto.{
  FormatError, malformed_tag, Protowire, IsProtowire, Field, Value, read_value, next_field,
  after_value, after_tag, field_loop, each_field, WireType, refused, value,
}

-- A message's bytes, its fields before the first one that is malformed, and the error for that one.
pub data Parses (wire : Protowire) : Text → List Field → Option FormatError → Type 0 where
  no_more : Parses wire [] [] none
  no_tag :
      (c : ℕ) (b : Text)
      → wire.consume_tag (c ∷ b) ≡ none
      → Parses wire (c ∷ b) [] (some malformed_tag)
  no_value :
      (c : ℕ) (b : Text) (num : ℕ) (t : WireType) (k : ℕ) (e : FormatError)
      → wire.consume_tag (c ∷ b) ≡ some (num, t, k)
      → read_value wire t (drop k (c ∷ b)) ≡ refused e
      → Parses wire (c ∷ b) [] (some e)
  one_more :
      (c : ℕ) (b : Text) (num : ℕ) (t : WireType) (k x : ℕ) (v : Option Text) (m : ℕ)
      (fs : List Field) (e : Option FormatError)
      → wire.consume_tag (c ∷ b) ≡ some (num, t, k)
      → read_value wire t (drop k (c ∷ b)) ≡ value x v m
      → Parses wire (drop m (drop k (c ∷ b))) fs e
      → Parses wire (c ∷ b) (record { num = num; x = x; v = v } ∷ fs) e

Value-cases :
    (r : Value)
    → ((e : FormatError) × (r ≡ refused e))
      ⊎ ((x : ℕ) × (v : Option Text) × (m : ℕ) × (r ≡ value x v m))
Value-cases (refused e) = inl (e, refl)
Value-cases (value x v m) = inr (x, v, m, refl)

module _ (wire : Protowire) (law : IsProtowire wire) where
  shorter :
      (c : ℕ) (b : Text) (num : ℕ) (t : WireType) (k m n : ℕ)
      → wire.consume_tag (c ∷ b) ≡ some (num, t, k)
      → length (c ∷ b) ≤ suc n
      → length (drop m (drop k (c ∷ b))) ≤ n
  shorter c b num t k m n e h = omega (
    arith,
    law.tag_moves (c ∷ b) num t k e,
    length-drop m (drop k (c ∷ b)),
    length-drop k (c ∷ b),
  )

  parses :
      (n : ℕ) (b : Text)
      → length b ≤ n
      → (fs : List Field) × (e : Option FormatError) × Parses wire b fs e
  parses n [] h = ([], none, no_more)
  parses zero (c ∷ b) h = ground arith
  parses (suc n) (c ∷ b) h = elim (Option-cases (wire.consume_tag (c ∷ b))) [
    | inl bad ↦ ([], some malformed_tag, no_tag c b bad)
    | inr ((num, t, k), tag) ↦ elim (Value-cases (read_value wire t (drop k (c ∷ b)))) [
      | inl (e, bad) ↦ ([], some e, no_value c b num t k e tag bad)
      | inr (x, v, m, good) ↦
          let (fs, e, p) = parses n (drop m (drop k (c ∷ b))) (shorter c b num t k m n tag h) in
          (record { num = num; x = x; v = v } ∷ fs, e, one_more c b num t k x v m fs e tag good p)
    ]
  ]

  module _ {ℓ} {S : Type ℓ} (fn : S → Field → S × Option FormatError) where
    -- fn on each field, until it refuses one; then the error that ended the fields.
    unfoldable pub visit : List Field → Option FormatError → S → S × Option FormatError
    visit [] e s = (s, e)
    visit (f ∷ fs) e s = next_field wire fn (λ b s'. visit fs e s') [] (fn s f)

    next_field-visit :
        (n : ℕ) (fs : List Field) (e : Option FormatError) (b : Text) (r : S × Option FormatError)
        → ((s : S) → field_loop wire fn n b s ≡ visit fs e s)
        → next_field wire fn (field_loop wire fn n) b r
          ≡ next_field wire fn (λ b s'. visit fs e s') [] r
    next_field-visit n fs e b (s, some x) ih = refl
    next_field-visit n fs e b (s, none) ih = ih s

    field_loop-visit :
        (n : ℕ) (b : Text) (fs : List Field) (e : Option FormatError) (s : S)
        → Parses wire b fs e
        → length b ≤ n
        → field_loop wire fn n b s ≡ visit fs e s
    unfolding field_loop visit
    field_loop-visit zero _ _ _ s no_more h = refl
    field_loop-visit (suc n) _ _ _ s no_more h = refl
    field_loop-visit zero _ _ _ s (no_tag c b bad) h = ground arith
    field_loop-visit zero _ _ _ s (no_value c b num t k e tag bad) h = ground arith
    field_loop-visit zero _ _ _ s (one_more c b num t k x v m fs e tag good p) h = ground arith
    field_loop-visit (suc n) _ _ _ s (no_tag c b bad) h = rw bad refl
    field_loop-visit (suc n) _ _ _ s (no_value c b num t k e tag bad) h = rw (tag, bad) refl
    field_loop-visit (suc n) _ _ _ s (one_more c b num t k x v m fs e tag good p) h =
        rw (tag, good)
          (next_field-visit n fs e (drop m (drop k (c ∷ b)))
            (fn s (record { num = num; x = x; v = v }))
            (λ s'.
              field_loop-visit n (drop m (drop k (c ∷ b))) fs e s' p
                (shorter c b num t k m n tag h)))

    -- eachField ends on every text: it calls fn on the text's fields in order, until fn refuses one
    -- or the text is malformed, and the bytes of the text are enough fuel, provided that protowire
    -- reads a byte at least for a tag.
    pub each_field_visits :
        (b : Text) (s : S)
        → (fs : List Field) × (e : Option FormatError) × Parses wire b fs e
          × (each_field wire fn b s ≡ visit fs e s)
    unfolding each_field
    each_field_visits b s =
        let (fs, e, p) = parses (length b) b (omega arith) in
        (fs, e, p, field_loop-visit (length b) b fs e s p (omega arith))

-- What fn keeps, the loop keeps.
module _ {ℓ κ} (wire : Protowire) {S : Type ℓ} (fn : S → Field → S × Option FormatError)
    (P : S → Type κ) (keeps : (s : S) (f : Field) → P s → P (fn s f).0) where
  module _ (next : Text → S → S × Option FormatError)
      (later : (b : Text) (s : S) → P s → P (next b s).0) where
    next_field-keeps :
        (b : Text) (r : S × Option FormatError) → P r.0 → P (next_field wire fn next b r).0
    next_field-keeps b (s, some e) h = h
    next_field-keeps b (s, none) h = later b s h

    after_value-keeps :
        (num : ℕ) (b : Text) (s : S) (r : Value) → P s → P (after_value wire fn next num b s r).0
    after_value-keeps num b s (refused e) h = h
    after_value-keeps num b s (value x v k) h =
        next_field-keeps (drop k b) (fn s (record { num = num; x = x; v = v })) (keeps s _ h)

    after_tag-keeps :
        (b : Text) (s : S) (r : Option (ℕ × WireType × ℕ))
        → P s
        → P (after_tag wire fn next b s r).0
    after_tag-keeps b s none h = h
    after_tag-keeps b s (some (num, t, k)) h =
        after_value-keeps num (drop k b) s (read_value wire t (drop k b)) h

  field_loop-keeps : (n : ℕ) (b : Text) (s : S) → P s → P (field_loop wire fn n b s).0
  unfolding field_loop
  field_loop-keeps zero b s h = h
  field_loop-keeps (suc n) [] s h = h
  field_loop-keeps (suc n) (c ∷ b) s h =
      after_tag-keeps (field_loop wire fn n) (field_loop-keeps n) (c ∷ b) s
        (wire.consume_tag (c ∷ b)) h

  pub each_field-keeps : (b : Text) (s : S) → P s → P (each_field wire fn b s).0
  unfolding each_field
  each_field-keeps b s h = field_loop-keeps (length b) b s h
