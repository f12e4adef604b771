-- ===== src/Nipopow/Superchain.antt =====
-- What the interlinks of a chain point to (interlinks.rs).
use ergo_rust_node.Prelude.{
  ℕ, zero, suc, ◌-◌, ◌≤◌, ◌≡◌, refl, ap, ◌∙◌, max, true, false, List, [], ◌∷◌, ◌++◌, Option, none,
  some, ltb, ◌==◌, inl, inr, if◌then◌else◌, length, take, drop, replicate, arith, Bool-cases,
  length-append, length-replicate, length-drop, length-take, take-append-drop,
}
use ergo_rust_node.Nipopow.Interlinks.{update_interlinks}

module _ {A : Type 0} where
  -- The element with n elements behind it.
  abbrev pub nth_last : ℕ → List A → Option A
  nth_last n [] = none
  nth_last n (x ∷ xs) = if n == length xs then some x else nth_last n xs

  -- A chain after the genesis, the newest block first: each with its id and its level. The interlinks
  -- that the next block has.
  unfoldable pub interlinks_after : A → List (A × ℕ) → List A
  interlinks_after genesis [] = update_interlinks genesis 0 [] true
  interlinks_after genesis ((id, level) ∷ older) =
      update_interlinks id level (interlinks_after genesis older) false

  -- The newest block above a level, and the highest level.
  abbrev pub latest : ℕ → List (A × ℕ) → Option A
  latest n [] = none
  latest n ((id, level) ∷ older) = if ltb n level then some id else latest n older

  abbrev pub highest : List (A × ℕ) → ℕ
  highest [] = 0
  highest ((id, level) ∷ older) = max level (highest older)

  nth_last-none : (n : ℕ) (xs : List A) → length xs ≤ n → nth_last n xs ≡ none
  nth_last-none n [] h = refl
  nth_last-none n (x ∷ xs) h = ground (arith, nth_last-none n xs)

  nth_last-append :
      (n : ℕ) (xs ys : List A)
      → nth_last n (xs ++ ys)
        ≡ (if ltb n (length ys) then nth_last n ys else nth_last (n - length ys) xs)
  nth_last-append n [] ys = ground (arith, nth_last-none n ys)
  nth_last-append n (x ∷ xs) ys = ground (arith, nth_last-append n xs ys, length-append xs ys)

  nth_last-replicate :
      (n l : ℕ) (a : A) → nth_last n (replicate l a) ≡ (if ltb n l then some a else none)
  nth_last-replicate n zero a = ground arith
  nth_last-replicate n (suc l) a = ground (arith, nth_last-replicate n l a, length-replicate l a)

  nth_last-take :
      (n l : ℕ) (xs : List A)
      → l ≤ length xs
      → l ≤ n
      → nth_last (n - l) (take (length xs - l) xs) ≡ nth_last n xs
  nth_last-take n l xs h k =
      let kept = take (length xs - l) xs in
      let rest = drop (length xs - l) xs in
      let whole = ap (nth_last n) (take-append-drop (length xs - l) xs) in
      let size : length rest ≡ l = omega (arith, length-drop (length xs - l) xs) in
      ground (arith, whole, nth_last-append n kept rest, ap (λ i. nth_last (n - i) kept) size)

  -- The interlinks behind the genesis, after a block of a level.
  update_tail :
      (id genesis : A) (level : ℕ) (tail : List A)
      → (tail' : List A) × (update_interlinks id level (genesis ∷ tail) false ≡ genesis ∷ tail')
        × (length tail' ≡ max level (length tail))
        × ((n : ℕ) → nth_last n tail' ≡ (if ltb n level then some id else nth_last n tail))
  unfolding update_interlinks
  update_tail id genesis zero tail = (tail, refl, omega arith, λ n. ground arith)
  update_tail id genesis (suc l) tail = elim (Bool-cases (ltb (suc l) (length tail))) [
    | inl e ↦
        let kept = take (length tail - suc l) tail in
        let added = replicate (suc l) id in
        (
          kept ++ added,
          rw (e) refl,
          ground (
            arith,
            length-append kept added,
            length-replicate (suc l) id,
            length-take (length tail - suc l) tail,
          ),
          λ n. ground (
            arith,
            nth_last-append n kept added,
            nth_last-replicate n (suc l) id,
            length-replicate (suc l) id,
            nth_last-take n (suc l) tail,
          ),
        )
    | inr e ↦
        let added = replicate (suc l) id in
        (
          added,
          rw (e) refl,
          ground (arith, length-replicate (suc l) id),
          λ n. ground (arith, nth_last-replicate n (suc l) id, nth_last-none n tail),
        )
  ]

  -- The interlinks after a chain are the genesis and then, for each level up to the highest, from the
  -- highest down, the newest block of that level or a higher one.
  pub interlinks_after-latest :
      (genesis : A) (blocks : List (A × ℕ))
      → (tail : List A) × (interlinks_after genesis blocks ≡ genesis ∷ tail)
        × (length tail ≡ highest blocks)
        × ((n : ℕ) → nth_last n tail ≡ latest n blocks)
  unfolding interlinks_after update_interlinks
  interlinks_after-latest genesis [] = ([], refl, refl, λ n. refl)
  interlinks_after-latest genesis ((id, level) ∷ older) =
      let (tail, e, size, held) = interlinks_after-latest genesis older in
      let (tail', f, size', held') = update_tail id genesis level tail in
      (
        tail',
        ap (λ l. update_interlinks id level l false) e ∙ f,
        omega (arith, size, size'),
        λ n. ground (arith, held n, held' n),
      )
