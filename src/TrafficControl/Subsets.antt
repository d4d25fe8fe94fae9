-- ===== src/TrafficControl/Subsets.antt =====
-- `getArrayExhaustivity` against the list of all choices from a list, built without numbers.
use nps_mux.Base.{
  ℕ, zero, suc, ◌+◌, ◌-◌, ◌*◌, ◌/◌, ◌%◌, ◌^◌, ◌≤◌, ◌<◌, ◌≡◌, refl, sym, ap, ◌∙◌, arith, false, none,
  some, List, [], ◌∷◌, ◌++◌, map, length, length-append, get_elem?, get_elem?-none, drop, ltb, ◌==◌,
  if◌then◌else◌, Bool-cases, inl, inr,
}
use mathlib.Core.List.{append_assoc, append-nil}
use native.Mathlib.Nat.{pow-suc, one-le-pow}
use nps_mux.TrafficControl.{bits_loop, groups_loop, group_count, array_exhaustivity}

-- The numbers from `i` on.
abbrev ups : ℕ → ℕ → List ℕ
ups zero i = []
ups (suc n) i = i ∷ ups n (i + 1)

module _ {ℓ} {A : Type ℓ} where
  -- Each choice from the tail, without the head and with it.
  abbrev pub with_head : A → List (List A) → List (List A)
  with_head x [] = []
  with_head x (ys ∷ yss) = ys ∷ (x ∷ ys) ∷ with_head x yss

  -- The choices from a list; the empty one is the first.
  abbrev pub choices : List A → List (List A)
  choices [] = [] ∷ []
  choices (x ∷ xs) = with_head x (choices xs)

  -- The choice that the bits of a number name.
  abbrev select : List A → ℕ → List A
  select [] s = []
  select (x ∷ xs) s = if s % 2 == 1 then x ∷ select xs (s / 2) else select xs (s / 2)

  select_zero : (xs : List A) → select xs 0 ≡ []
  select_zero [] = refl
  select_zero (x ∷ xs) = select_zero xs

  get_elem?-middle :
      (xs : List A) (x : A) (ys : List A) → get_elem? (xs ++ (x ∷ ys)) (length xs) ≡ some x
  get_elem?-middle [] x ys = refl
  get_elem?-middle (z ∷ xs) x ys = get_elem?-middle xs x ys

  bits_loop-select :
      (xs before : List A) (fuel s : ℕ) (t : List A)
      → s < fuel
      → s < 2 ^ length xs
      → bits_loop fuel (before ++ xs) s (length before) t ≡ some (t ++ select xs s)
  unfolding bits_loop
  bits_loop-select xs before zero s t enough small = absurd (omega arith)
  bits_loop-select [] before (suc fuel) s t enough small = ground (arith, append-nil t)
  bits_loop-select (x ∷ xs) before (suc fuel) s t enough small = elim (Bool-cases (s == 0)) [
    | inl over ↦
        let none_left : s ≡ 0 = ground (arith, over) in
        ground (arith, none_left, select_zero (x ∷ xs), append-nil t)
    | inr more ↦
        let half : s / 2 < 2 ^ length xs = omega (arith, pow-suc 2 (length xs), small) in
        let less : s / 2 < fuel = ground (arith, more, enough) in
        let here = get_elem?-middle before x xs in
        let next : length (before ++ (x ∷ [])) ≡ length before + 1 =
          omega (arith, length-append before (x ∷ [])) in
        let whole : (before ++ (x ∷ [])) ++ xs ≡ before ++ (x ∷ xs) =
          append_assoc before (x ∷ []) xs in
        elim (Bool-cases (s % 2 == 1)) [
          | inl odd ↦
              let rest =
                bits_loop-select xs (before ++ (x ∷ [])) fuel (s / 2) (t ++ (x ∷ [])) less half in
              let on : bits_loop fuel (before ++ (x ∷ xs)) (s / 2) (length before + 1)
                    (t ++ (x ∷ []))
                  ≡ some (t ++ (x ∷ select xs (s / 2))) =
                rw (← next, ← whole, ← append_assoc t (x ∷ []) (select xs (s / 2))) rest in
              ground (arith, more, odd, here, on)
          | inr even ↦
              let rest = bits_loop-select xs (before ++ (x ∷ [])) fuel (s / 2) t less half in
              let on : bits_loop fuel (before ++ (x ∷ xs)) (s / 2) (length before + 1) t
                  ≡ some (t ++ select xs (s / 2)) =
                rw (← next, ← whole) rest in
              ground (arith, more, even, on)
        ]
  ]

  groups_loop-select :
      (left : ℕ) (arr : List A) (i : ℕ) (result : List (List A))
      → i + left ≤ 2 ^ length arr
      → groups_loop left arr i result ≡ some (result ++ map (select arr) (ups left i))
  unfolding groups_loop
  groups_loop-select zero arr i result h = ground (arith, append-nil result)
  groups_loop-select (suc left) arr i result h =
      let t = bits_loop-select arr [] (suc i) i [] (omega arith) (omega arith) in
      ground (
        arith,
        t,
        groups_loop-select left arr (i + 1) (result ++ (select arr i ∷ [])) (omega arith),
        append_assoc result (select arr i ∷ []) (map (select arr) (ups left (i + 1))),
      )

  -- A number with a bit beyond the list is an index out of range.
  bits_loop-beyond :
      (fuel s k : ℕ) (arr t : List A)
      → s < fuel
      → 1 ≤ s
      → length arr ≤ k
      → bits_loop fuel arr s k t ≡ none
  unfolding bits_loop
  bits_loop-beyond zero s k arr t enough some_bit beyond = absurd (omega arith)
  bits_loop-beyond (suc fuel) s k arr t enough some_bit beyond = elim (Bool-cases (s % 2 == 1)) [
    | inl odd ↦ ground (arith, some_bit, odd, get_elem?-none arr k beyond)
    | inr even ↦
        let more : 1 ≤ s / 2 = ground (arith, even, some_bit) in
        let less : s / 2 < fuel = omega (arith, enough, some_bit) in
        ground (
          arith,
          some_bit,
          even,
          bits_loop-beyond fuel (s / 2) (k + 1) arr t less more (omega (arith, beyond)),
        )
  ]

  bits_loop-over :
      (xs before : List A) (fuel s : ℕ) (t : List A)
      → s < fuel
      → 2 ^ length xs ≤ s
      → bits_loop fuel (before ++ xs) s (length before) t ≡ none
  unfolding bits_loop
  bits_loop-over xs before zero s t enough large = absurd (omega arith)
  bits_loop-over [] before (suc fuel) s t enough large =
      bits_loop-beyond (suc fuel) s (length before) (before ++ []) t enough large
        (omega (arith, length-append before []))
  bits_loop-over (x ∷ xs) before (suc fuel) s t enough large =
      let some_left : 1 ≤ 2 ^ length xs = one-le-pow (length xs) 2 (omega arith) in
      let half : 2 ^ length xs ≤ s / 2 = omega (arith, pow-suc 2 (length xs), large) in
      let less : s / 2 < fuel = omega (arith, enough, half, some_left) in
      let more : (s == 0) ≡ false = ground (arith, half, some_left) in
      let here = get_elem?-middle before x xs in
      let next : length (before ++ (x ∷ [])) ≡ length before + 1 =
        omega (arith, length-append before (x ∷ [])) in
      let whole : (before ++ (x ∷ [])) ++ xs ≡ before ++ (x ∷ xs) =
        append_assoc before (x ∷ []) xs in
      let on : (u : List A)
          → bits_loop fuel (before ++ (x ∷ xs)) (s / 2) (length before + 1) u ≡ none =
        λ u.
          rw (← next, ← whole) (bits_loop-over xs (before ++ (x ∷ [])) fuel (s / 2) u less half) in
      elim (Bool-cases (s % 2 == 1)) [
        | inl odd ↦ ground (arith, more, odd, here, on (t ++ (x ∷ [])))
        | inr even ↦ ground (arith, more, even, on t)
      ]

  groups_loop-over :
      (left : ℕ) (arr : List A) (i : ℕ) (result : List (List A))
      → i ≤ 2 ^ length arr
      → 2 ^ length arr < i + left
      → groups_loop left arr i result ≡ none
  unfolding groups_loop
  groups_loop-over zero arr i result le lt = absurd (omega arith)
  groups_loop-over (suc left) arr i result le lt = elim (Bool-cases (i == 2 ^ length arr)) [
    | inl last ↦
        let over = bits_loop-over arr [] (suc i) i [] (omega arith) (ground (arith, last)) in
        ground (arith, over)
    | inr before ↦
        let small : i < 2 ^ length arr = ground (arith, before, le) in
        let t = bits_loop-select arr [] (suc i) i [] (omega arith) small in
        ground (
          arith,
          t,
          groups_loop-over left arr (i + 1) (result ++ (select arr i ∷ [])) (omega (arith, small))
              (omega (arith, lt)),
        )
  ]

  with_head-select :
      (x : A) (xs : List A) (n m i j : ℕ)
      → m ≡ 2 * n
      → j ≡ 2 * i
      → with_head x (map (select xs) (ups n i)) ≡ map (select (x ∷ xs)) (ups m j)
  with_head-select x xs zero zero i j e e' = refl
  with_head-select x xs zero (suc m) i j e e' = absurd (omega (arith, e))
  with_head-select x xs (suc n) zero i j e e' = absurd (omega (arith, e))
  with_head-select x xs (suc n) (suc zero) i j e e' = absurd (omega (arith, e))
  with_head-select x xs (suc n) (suc (suc m)) i j e e' =
      let half : j / 2 ≡ i = omega (arith, e') in
      let half' : (j + 1) / 2 ≡ i = omega (arith, e') in
      let even : j % 2 ≡ 0 = omega (arith, e') in
      let odd : (j + 1) % 2 ≡ 1 = omega (arith, e') in
      ground (
        arith,
        half,
        half',
        even,
        odd,
        with_head-select x xs n m (i + 1) (j + 1 + 1) (omega (arith, e)) (omega (arith, e')),
      )

  choices-select : (xs : List A) → choices xs ≡ map (select xs) (ups (2 ^ length xs) 0)
  choices-select [] = refl
  choices-select (x ∷ xs) =
      ap (with_head x) (choices-select xs)
      ∙ with_head-select x xs (2 ^ length xs) (2 ^ suc (length xs)) 0 0
          (omega (arith, pow-suc 2 (length xs))) refl

  exact_count :
      (arr : List A) → groups_loop (2 ^ length arr - 1) arr 1 [] ≡ some (drop 1 (choices arr))
  exact_count arr =
      let some_left : 1 ≤ 2 ^ length arr = one-le-pow (length arr) 2 (omega arith) in
      let all = groups_loop-select (2 ^ length arr - 1) arr 1 [] (omega (arith, some_left)) in
      let more : 2 ^ length arr ≡ suc (2 ^ length arr - 1) = omega (arith, some_left) in
      let first : ups (2 ^ length arr) 0 ≡ 0 ∷ ups (2 ^ length arr - 1) 1 =
        ap (λ (n : ℕ). ups n 0) more in
      all
      ∙ ap (λ (yss : List (List A)). some (drop 1 yss))
          (sym (choices-select arr ∙ ap (map (select arr)) first))

  -- getArrayExhaustivity of a list of at most 62 elements: with up to 53, whose count a float64
  -- holds exactly, it ends without an index out of range, and gives every choice of elements but
  -- the empty one, each in the order of the list and none twice, which is the list of choices that
  -- is built element by element; with more, where the count is rounded up, it runs into an index
  -- out of range.
  pub array_exhaustivity-choices :
      (beyond : ℕ) (arr : List A)
      → length arr ≤ 62
      → array_exhaustivity beyond arr
        ≡ (if ltb (length arr) 54 then some (drop 1 (choices arr)) else none)
  unfolding array_exhaustivity group_count
  array_exhaustivity-choices beyond arr fits = elim (Bool-cases (ltb (length arr) 54)) [
    | inl exact ↦ ground (arith, exact, exact_count arr)
    | inr rounded ↦
        let some_left : 1 ≤ 2 ^ length arr = one-le-pow (length arr) 2 (omega arith) in
        let over = groups_loop-over (2 ^ length arr) arr 1 [] some_left (omega arith) in
        ground (arith, fits, rounded, over)
  ]
