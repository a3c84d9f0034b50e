-- ===== src/Extract/Iwork/Archive.antt =====
-- The walk of an archive ends.
use findo.Prelude.{
  ℕ, zero, suc, ◌+◌, ◌-◌, ◌≤◌, ◌≡◌, refl, true, Option, none, some, [], arith, ltb, ◌==◌, Text,
  take, drop, length, inl, inr, Bool-cases,
}
use findo.Prelude.Slices.{length-drop}
use findo.Extract.Proto.{FormatError, Protowire, IsProtowire, Field, each_field}
use findo.Extract.Proto.Streams.{each_field-keeps}
use findo.Extract.Iwork.{
  HandlerOf, EmittedOf, Walk, bytes_of, payload_of, message_info, info_field, archive, object_id,
  next_archive, after_length, walk_loop, walk_archive,
}

module _ (wire : Protowire) (law : IsProtowire wire) {A : Type 0} (handle : HandlerOf A) where
  payload_of-shorter :
      (id : ℕ) (w : Walk A) (r : (ℕ × ℕ) × Option FormatError)
      → length (payload_of handle id w r).0.rest ≤ length w.rest
  payload_of-shorter id w (_, some e) = omega arith
  payload_of-shorter id w ((typ, len), none) = elim (Bool-cases (ltb (length w.rest) len)) [
    | inl long ↦ rw long (omega arith)
    | inr fits ↦ rw fits (omega (arith, length-drop len w.rest))
  ]

  message_info-shorter :
      (id n : ℕ) (w : Walk A) (f : Field)
      → length w.rest ≤ n
      → length (message_info wire handle id w f).0.rest ≤ n
  unfolding message_info
  message_info-shorter id n w f h = elim (Bool-cases (f.num == 2)) [
    | inl info ↦ rw info (
        omega
          (arith, h, payload_of-shorter id w (each_field wire (info_field) (bytes_of f.v) (0, 0))))
    | inr other ↦ rw other h
  ]

  archive-shorter :
      (info : Text) (w : Walk A) → length (archive wire handle info w).0.rest ≤ length w.rest
  unfolding archive
  archive-shorter info w =
      each_field-keeps wire (message_info wire handle (object_id wire info))
        (λ v. length v.rest ≤ length w.rest)
        (message_info-shorter (object_id wire info) (length w.rest)) info w (omega arith)

  module _ (n : ℕ) (f g : Walk A → EmittedOf A)
      (agree : (w : Walk A) → length w.rest ≤ n → f w ≡ g w) where
    next_archive-agree :
        (r : Walk A × Option FormatError)
        → length r.0.rest ≤ n
        → next_archive f r ≡ next_archive g r
    next_archive-agree (w, some e) h = refl
    next_archive-agree (w, none) h = agree w h

    after_length-agree :
        (w : Walk A) (r : Option (ℕ × ℕ))
        → length w.rest ≤ suc n
        → ((x k : ℕ) → r ≡ some (x, k) → 1 ≤ k)
        → after_length wire f handle w r ≡ after_length wire g handle w r
    after_length-agree w none h moves = refl
    after_length-agree w (some (x, k)) h moves = elim (Bool-cases (ltb (length w.rest - k) x)) [
      | inl long ↦ rw long refl
      | inr fits ↦ rw fits (
          next_archive-agree
            (archive wire handle (take x (drop k w.rest))
              (record w { rest = drop x (drop k w.rest) }))
            (omega (
              arith,
              archive-shorter (take x (drop k w.rest)) (record w { rest = drop x (drop k w.rest) }),
              length-drop x (drop k w.rest),
              length-drop k w.rest,
              h,
              moves x k refl,
            )))
    ]

  walk_loop-enough :
      (m n : ℕ) (w : Walk A)
      → length w.rest ≤ m
      → length w.rest ≤ n
      → walk_loop wire m handle w ≡ walk_loop wire n handle w
  unfolding walk_loop
  walk_loop-enough zero zero w h k = refl
  walk_loop-enough zero (suc n) w h k =
      let none_left : (length w.rest == 0) ≡ true = ground arith in rw none_left refl
  walk_loop-enough (suc m) zero w h k =
      let none_left : (length w.rest == 0) ≡ true = ground arith in rw none_left refl
  walk_loop-enough (suc m) (suc n) w h k = elim (Bool-cases (length w.rest == 0)) [
    | inl done ↦ rw done refl
    | inr more ↦
        let left : 1 ≤ length w.rest = ground arith in
        rw more (
          after_length-agree (length w.rest - 1) (walk_loop wire m handle) (walk_loop wire n handle)
            (λ v l. walk_loop-enough m n v (omega (arith, l, h, left)) (omega (arith, l, k, left)))
            w (wire.consume_varint w.rest) (omega arith) (law.varint_moves w.rest))
  ]

  -- The walk of an archive ends on every text, within one round for each byte of it: more fuel changes
  -- nothing, provided that protowire reads a byte at least for a number.
  walk_archive_ends :
      (b : Text) (extra : ℕ)
      → walk_loop wire (length b + extra) handle (record { rest = b; out = [] })
        ≡ walk_archive wire handle b
  unfolding walk_archive
  walk_archive_ends b extra =
      walk_loop-enough (length b + extra) (length b) (record { rest = b; out = [] }) (omega arith)
        (omega arith)
