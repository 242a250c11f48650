-- ===== src/Message/Parts.antt =====
-- What _load_bcache asks of the server, and the window that it leaves, told apart from the session.
use blitzmail.Common.{
  ℕ, ◌+◌, ◌-◌, ◌≤◌, ◌<◌, ◌≡◌, ◌≢◌, refl, sym, ap, ◌∙◌, arith, min, Bytes, ltb, take, drop, length,
  ◌==◌, List, [], ◌∷◌, ◌++◌, length-append, Option, none, some, if◌then◌else◌, Bool-cases, inl, inr,
}
use blitzmail.Common.Slices.{
  IsPrefix, length-take, length-drop, take-nil, drop-nil, drop-drop, drop-all, IsPrefix-take,
  IsPrefix-before, IsPrefix-after, take-drop-prefix,
}
use blitzmail.Message.{newlines, slice}
use native.Mathlib.Decide.{dec_lt}

-- The text is what stands in the body from the window's place on; it is empty only at the body's end.
abbrev pub IsWindow : Bytes → ℕ × Bytes → Type 0
IsWindow body w = (w.1 ≡ take (length w.1) (drop w.0 body)) × (length w.1 ≡ 0 → length body ≤ w.0)

abbrev pub parts_before : ℕ → ℕ × Bytes → List (ℕ × ℕ)
parts_before offset v = if ltb offset v.0 then (offset, v.0 - offset) ∷ [] else []

abbrev pub parts_after : ℕ → ℕ × Bytes → List (ℕ × ℕ)
parts_after endpos v =
    if ltb (length v.1) endpos then (v.0 + length v.1, endpos - length v.1) ∷ [] else []

module _ (body : Bytes) where
  abbrev pub window_before : ℕ → ℕ × Bytes → ℕ × Bytes
  window_before offset v =
      if ltb offset v.0 then (offset, take (v.0 - offset) (drop offset body) ++ v.1) else v

  abbrev pub window_after : ℕ → ℕ → ℕ × Bytes → ℕ × Bytes
  window_after offset endpos v =
      let block = take (endpos - length v.1) (drop (v.0 + length v.1) body) in
      if ltb (length v.1) endpos
      then (if length v.1 == 0 then (offset, block) else (v.0, v.1 ++ block))
      else v

  -- what a request asks for, and the window that it leaves
  abbrev pub parts : Option (ℕ × Bytes) → ℕ → ℕ → List (ℕ × ℕ)
  parts none offset n = (offset, n) ∷ []
  parts (some v) offset n =
      let v' = window_before offset v in parts_before offset v ++ parts_after (offset - v'.0 + n) v'

  abbrev pub window : Option (ℕ × Bytes) → ℕ → ℕ → ℕ × Bytes
  window none offset n = (offset, take n (drop offset body))
  window (some v) offset n =
      let v' = window_before offset v in window_after offset (offset - v'.0 + n) v'

  abbrev pub shown : Option (ℕ × Bytes) → ℕ → ℕ → Bytes
  shown none offset n = newlines (take n (drop offset body))
  shown (some v) offset n =
      let v' = window_before offset v in
      let v'' = window (some v) offset n in
      newlines (slice (offset - v''.0) (offset - v'.0 + n) v''.1)

  before-IsWindow :
      (offset : ℕ) (v : ℕ × Bytes)
      → IsWindow body v
      → IsWindow body (window_before offset v) × ((window_before offset v).0 ≤ offset)
  before-IsWindow offset v h = elim (Bool-cases (ltb offset v.0)) [
    | inl e ↦
        (let k = v.0 - offset in
          let there : drop k (drop offset body) ≡ drop v.0 body =
            drop-drop k offset body ∙ ap (λ i. drop i body) (ground (arith, e)) in
          let t : IsPrefix v.1 (drop k (drop offset body)) = rw there h.0 in
          rw e (
            (
              IsPrefix-before k (drop offset body) v.1 t,
              λ empty.
                  (ground (
                    arith,
                    e,
                    length-append (take k (drop offset body)) v.1,
                    length-take k (drop offset body),
                    length-drop offset body,
                  )),
            ),
            omega arith,
          ))
    | inr e ↦ rw e (h, ground (arith, e))
  ]

  -- The part of the body that starts at `offset`, read off a window that reaches far enough.
  slice_window :
      (offset n : ℕ) (v : ℕ × Bytes)
      → IsPrefix v.1 (drop v.0 body)
      → v.0 ≤ offset
      → min (offset - v.0 + n) (length (drop v.0 body)) ≤ length v.1
      → slice (offset - v.0) (offset - v.0 + n) v.1 ≡ take n (drop offset body)
  unfolding slice
  slice_window offset n v h le far =
      let i = offset - v.0 in
      let there : drop i (drop v.0 body) ≡ drop offset body =
        drop-drop i v.0 body ∙ ap (λ j. drop j body) (omega arith) in
      let width : i + n - i ≡ n = omega arith in
      rw width (take-drop-prefix n i v.1 (drop v.0 body) h far ∙ ap (take n) there)

  rest_at_end :
      (offset n : ℕ) (v : ℕ × Bytes)
      → IsWindow body v
      → v.0 ≤ offset
      → length v.1 ≡ 0
      → take (offset - v.0 + n - length v.1) (drop (v.0 + length v.1) body) ≡ []
  rest_at_end offset n v h le z =
      rw (drop-all (v.0 + length v.1) body (omega (arith, h.1 z)))
        (take-nil (offset - v.0 + n - length v.1))

  nothing_there :
      (offset n : ℕ) (v : ℕ × Bytes)
      → IsWindow body v
      → v.0 ≤ offset
      → length v.1 ≡ 0
      → slice (offset - offset) (offset - v.0 + n) [] ≡ take n (drop offset body)
  unfolding slice
  nothing_there offset n v h le z =
      let none_left : drop offset body ≡ [] = drop-all offset body (omega (arith, h.1 z)) in
      rw (none_left, drop-nil {A = ℕ} (offset - offset))
        (take-nil (offset - v.0 + n - (offset - offset)) ∙ sym (take-nil n))

  extended :
      (offset n : ℕ) (v : ℕ × Bytes)
      → IsWindow body v
      → v.0 ≤ offset
      → length v.1 < offset - v.0 + n
      → length v.1 ≢ 0
      → (let endpos = offset - v.0 + n in
          let text = v.1 ++ take (endpos - length v.1) (drop (v.0 + length v.1) body) in
          IsWindow body (v.0, text)
          × (slice (offset - v.0) endpos text ≡ take n (drop offset body)))
  extended offset n v h le short nz =
      let more = offset - v.0 + n - length v.1 in
      let xs = drop v.0 body in
      let there : drop (length v.1) xs ≡ drop (v.0 + length v.1) body =
        drop-drop (length v.1) v.0 body in
      let text = v.1 ++ take more (drop (length v.1) xs) in
      let wide : length text ≡ length v.1 + min more (length xs - length v.1) =
        length-append v.1 (take more (drop (length v.1) xs))
        ∙ ap (λ k. length v.1 + k)
            (length-take more (drop (length v.1) xs)
              ∙ ap (min more) (length-drop (length v.1) xs)) in
      rw (← there) (
        (IsPrefix-after more v.1 xs h.0, λ z. absurd (omega (arith, wide))),
        slice_window offset n (v.0, text) (IsPrefix-after more v.1 xs h.0) le (omega (arith, wide)),
      )

  after-IsWindow :
      (offset n : ℕ) (v : ℕ × Bytes)
      → IsWindow body v
      → v.0 ≤ offset
      → IsWindow body (window_after offset (offset - v.0 + n) v)
        × (slice
              (offset - (window_after offset (offset - v.0 + n) v).0)
              (offset - v.0 + n)
              (window_after offset (offset - v.0 + n) v).1
            ≡ take n (drop offset body))
  after-IsWindow offset n v h le = elim (Bool-cases (ltb (length v.1) (offset - v.0 + n))) [
    | inl e ↦ elim (Bool-cases (length v.1 == 0)) [
      | inl z ↦
          rw (e, z, rest_at_end offset n v h le (ground (arith, z)))
            (
              (refl, λ _. omega (arith, h.1 (ground (arith, z)))),
              nothing_there offset n v h le (ground (arith, z)),
            )
      | inr nz ↦ rw (e, nz) (extended offset n v h le (ground (arith, e)) (ground (arith, nz)))
    ]
    | inr e ↦ rw e (h, slice_window offset n v h.0 le (ground (arith, e)))
  ]

  -- what a cache holds, where there is one
  abbrev pub IsCache : Option (ℕ × Bytes) → Type 0
  IsCache none = Unit
  IsCache (some v) = IsWindow body v

  pub window_lem :
      (cache : Option (ℕ × Bytes)) (offset n : ℕ)
      → IsCache cache
      → (n ≡ 0 → length body ≤ offset)
      → IsWindow body (window cache offset n)
        × (shown cache offset n ≡ newlines (take n (drop offset body)))
  window_lem none offset n h some_asked = (
    (
      IsPrefix-take n (drop offset body),
      λ z. (elim (dec_lt offset (length body)) [
        | yes lt ↦ absurd (
            let zero_asked : n ≡ 0 =
              omega (arith, length-take n (drop offset body), length-drop offset body) in
            omega (arith, some_asked zero_asked))
        | no ge ↦ omega arith
      ]),
    ),
    refl,
  )
  window_lem (some v) offset n h some_asked =
      let before = before-IsWindow offset v h in
      let after = after-IsWindow offset n (window_before offset v) before.0 before.1 in
      (after.0, ap newlines after.1)
