-- ===== src/Prelude/Windows.antt =====
-- The newest and the oldest entries of a history.
use tombstack_native.Prelude.{
  ℕ, zero, suc, ◌-◌, ◌≤◌, ◌<◌, min, ◌≡◌, refl, sym, ap, ◌∙◌, inl, inr, List, [], ◌∷◌, ◌++◌, arith,
  leb, if◌then◌else◌, leb→le, leb_refuted, Bool-cases, length, take, drop, pop_front, length-append,
  length-drop,
}

module _ {ℓ} {A : Type ℓ} where
  -- the last n entries
  abbrev pub newest : ℕ → List A → List A
  newest n xs = drop (length xs - n) xs

  drop-append : (k : ℕ) (xs ys : List A) → k ≤ length xs → drop k (xs ++ ys) ≡ drop k xs ++ ys
  drop-append zero xs ys h = refl
  drop-append (suc k) [] ys h = absurd (omega arith)
  drop-append (suc k) (x ∷ xs) ys h = drop-append k xs ys (omega arith)

  drop-drop : (k : ℕ) (xs : List A) → drop 1 (drop k xs) ≡ drop (suc k) xs
  drop-drop zero xs = refl
  drop-drop (suc k) [] = refl
  drop-drop (suc k) (x ∷ xs) = drop-drop k xs

  pub newest_all : (n : ℕ) (xs : List A) → length xs ≤ n → newest n xs ≡ xs
  newest_all n xs h = let e : length xs - n ≡ 0 = omega arith in rw e

  pub length-newest : (n : ℕ) (xs : List A) → length (newest n xs) ≡ min n (length xs)
  length-newest n xs = omega (arith, length-drop (length xs - n) xs)

  -- One more entry in a window that is full: the oldest goes.
  pub newest-push :
      (n : ℕ) (xs : List A) (x : A)
      → 1 ≤ n
      → n ≤ length xs
      → newest n (xs ++ x ∷ []) ≡ drop 1 (newest n xs) ++ x ∷ []
  newest-push n xs x h k =
      let e : length (xs ++ x ∷ []) - n ≡ suc (length xs - n) =
        omega (arith, length-append xs (x ∷ [])) in
      rw (e, drop-append (suc (length xs - n)) xs (x ∷ []) (omega arith))
        (ap (λ t. t ++ x ∷ []) (sym (drop-drop (length xs - n) xs)))

  -- A window of the newest n entries takes one more: the oldest makes room where it is full.
  newest_full :
      (n : ℕ) (now past : List A) (x : A)
      → 1 ≤ n
      → now ≡ newest n past
      → n ≤ length now
      → pop_front now ++ x ∷ [] ≡ newest n (past ++ x ∷ [])
  newest_full n now past x h e k =
      let full : n ≤ length past = omega (arith, length-newest n past, ap length e) in
      ap (λ t. t ++ x ∷ []) (front now ∙ ap (drop 1) e) ∙ sym (newest-push n past x h full)
    where
      front : (xs : List A) → pop_front xs ≡ drop 1 xs
      front [] = refl
      front (y ∷ ys) = refl

  newest_room :
      (n : ℕ) (now past : List A) (x : A)
      → now ≡ newest n past
      → length now < n
      → now ++ x ∷ [] ≡ newest n (past ++ x ∷ [])
  newest_room n now past x e k =
      let room : length past < n = omega (arith, length-newest n past, ap length e) in
      ap (λ t. t ++ x ∷ []) (e ∙ newest_all n past (omega arith))
      ∙ sym (newest_all n (past ++ x ∷ []) (omega (arith, length-append past (x ∷ []))))

  pub newest_push :
      (n : ℕ) (now past : List A) (x : A)
      → 1 ≤ n
      → now ≡ newest n past
      → (if leb n (length now) then pop_front now else now) ++ x ∷ [] ≡ newest n (past ++ x ∷ [])
  newest_push n now past x h e = elim (Bool-cases (leb n (length now))) [
    | inl full ↦ rw full (newest_full n now past x h e (leb→le _ _ full))
    | inr room ↦ rw room (newest_room n now past x e (leb_refuted _ _ room))
  ]

  -- A window of the first n entries takes one more, or refuses it where it is full.
  pub take_full :
      (n : ℕ) (past : List A) (x : A)
      → n ≤ length (take n past)
      → take n past ≡ take n (past ++ x ∷ [])
  take_full zero past x h = refl
  take_full (suc n) [] x h = absurd (omega arith)
  take_full (suc n) (y ∷ past) x h = ap (◌∷◌ y) (take_full n past x (omega arith))

  pub take_room :
      (n : ℕ) (past : List A) (x : A)
      → length (take n past) < n
      → take n past ++ x ∷ [] ≡ take n (past ++ x ∷ [])
  take_room zero past x h = absurd (omega arith)
  take_room (suc zero) [] x h = refl
  take_room (suc (suc n)) [] x h = refl
  take_room (suc n) (y ∷ past) x h = ap (◌∷◌ y) (take_room n past x (omega arith))
