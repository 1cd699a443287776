-- ===== src/Loop/Runes/Fuel.antt =====
-- The loops over runes make progress, so that the fuel of one unit for each byte is enough.
use software_factory_templat.Base.{
  ℕ, zero, suc, ◌+◌, ◌≤◌, ◌<◌, max, [], ◌∷◌, ◌++◌, length, take, drop, length-drop, Bytes, ◌≡◌,
  refl, ap, arith, Bool-cases, inl, inr,
}
use software_factory_templat.Loop.Runes.{
  Unicode, rune_error_bytes, wanted, consume, invalid_size, rune_size, count_runes,
  decoded_rune_count, is_valid_rune, replace_invalid, diagnostic_text,
}

-- `DecodeRune` answers at least one byte where there is one, and no more than there are.
abbrev pub IsDecoder : Unicode → Type 0
IsDecoder u =
    (b : ℕ) (s : Bytes)
    → (0 < (u.decode_rune (b ∷ s)).1) × ((u.decode_rune (b ∷ s)).1 ≤ suc (length s))

consume-bounds :
    (first consumed want : ℕ) (s : Bytes)
    → (consumed ≤ consume first consumed want s)
      × (consume first consumed want s ≤ consumed + length s)
      × (consume first consumed want s ≤ max consumed want)
unfolding consume
consume-bounds first consumed want [] = omega arith
consume-bounds first consumed want (b ∷ s) =
    let h = consume-bounds first (suc consumed) want s in ground (arith, h.0, h.1, h.2)

wanted-bounds : (b : ℕ) → (0 < wanted b) × (wanted b ≤ 4)
wanted-bounds b = ground arith

-- A replaced invalid sequence that starts with a byte takes at least that byte, no more than the
-- bytes there are, and at most four.
pub invalid_size-bounds :
    (b : ℕ) (s : Bytes)
    → (0 < invalid_size (b ∷ s))
      × (invalid_size (b ∷ s) ≤ suc (length s))
      × (invalid_size (b ∷ s) ≤ 4)
unfolding invalid_size
invalid_size-bounds b s =
    let h = consume-bounds b 1 (wanted b) s in
    let k = wanted-bounds b in
    (omega (arith, h.0), omega (arith, h.1), omega (arith, h.2, k.0, k.1))

-- A step over at least one byte leaves fewer.
length-drop_lt :
    (n size : ℕ) (b : ℕ) (s : Bytes)
    → 0 < size
    → suc (length s) ≤ suc n
    → length (drop size (b ∷ s)) ≤ n
length-drop_lt n size b s h k = omega (arith, length-drop size (b ∷ s), h, k)

module _ (u : Unicode) (decoder : IsDecoder u) where
  replace_invalid-fuel :
      (m n : ℕ) (s : Bytes)
      → length s ≤ m
      → length s ≤ n
      → replace_invalid u m s ≡ replace_invalid u n s
  unfolding replace_invalid
  replace_invalid-fuel zero zero s h k = refl
  replace_invalid-fuel zero (suc n) [] h k = refl
  replace_invalid-fuel (suc m) zero [] h k = refl
  replace_invalid-fuel (suc m) (suc n) [] h k = refl
  replace_invalid-fuel zero (suc n) (b ∷ s) h k = absurd (omega (arith, h))
  replace_invalid-fuel (suc m) zero (b ∷ s) h k = absurd (omega (arith, k))
  replace_invalid-fuel (suc m) (suc n) (b ∷ s) h k = elim (Bool-cases (is_valid_rune u (b ∷ s))) [
    | inl e ↦
        let size : ℕ = (u.decode_rune (b ∷ s)).1 in
        rw e (
          ap (λ t. take size (b ∷ s) ++ t)
            (replace_invalid-fuel m n (drop size (b ∷ s))
              (length-drop_lt m size b s (decoder b s).0 h)
              (length-drop_lt n size b s (decoder b s).0 k)))
    | inr e ↦
        let size : ℕ = invalid_size (b ∷ s) in
        rw e (
          ap (λ t. rune_error_bytes ++ t)
            (replace_invalid-fuel m n (drop size (b ∷ s))
              (length-drop_lt m size b s (invalid_size-bounds b s).0 h)
              (length-drop_lt n size b s (invalid_size-bounds b s).0 k)))
  ]

  rune_size-positive : (b : ℕ) (s : Bytes) → 0 < rune_size u (b ∷ s)
  rune_size-positive b s = ground (arith, (decoder b s).0)

  count_runes-fuel :
      (m n : ℕ) (s : Bytes) → length s ≤ m → length s ≤ n → count_runes u m s ≡ count_runes u n s
  unfolding count_runes
  count_runes-fuel zero zero s h k = refl
  count_runes-fuel zero (suc n) [] h k = refl
  count_runes-fuel (suc m) zero [] h k = refl
  count_runes-fuel (suc m) (suc n) [] h k = refl
  count_runes-fuel zero (suc n) (b ∷ s) h k = absurd (omega (arith, h))
  count_runes-fuel (suc m) zero (b ∷ s) h k = absurd (omega (arith, k))
  count_runes-fuel (suc m) (suc n) (b ∷ s) h k =
      let size : ℕ = rune_size u (b ∷ s) in
      ap (λ t. suc t)
        (count_runes-fuel m n (drop size (b ∷ s))
          (length-drop_lt m size b s (rune_size-positive b s) h)
          (length-drop_lt n size b s (rune_size-positive b s) k))

  -- If the decoder answers at least one byte where there is one, and no more than there are, then
  -- any fuel of at least the number of bytes gives the replaced text and the number of runes.
  pub diagnostic_text-fuel :
      (n : ℕ) (s : Bytes)
      → length s ≤ n
      → (replace_invalid u n s ≡ diagnostic_text u s) × (count_runes u n s ≡ decoded_rune_count u s)
  unfolding diagnostic_text decoded_rune_count
  diagnostic_text-fuel n s h = (
    replace_invalid-fuel n (length s) s h (omega arith),
    count_runes-fuel n (length s) s h (omega arith),
  )
