-- ===== src/BreadcrumbRing/Index.antt =====
-- The slots that the loop of `snapshot` reads, by their position before `%`.
use native.Mathlib.Nat.{mod-add-mod}
use tombstack_native.Prelude.{
  ℕ, zero, suc, ◌+◌, ◌-◌, ◌%◌, ◌≤◌, ◌<◌, ◌≡◌, refl, sym, ap, ◌∙◌, ◌≢◌, inl, inr, List, [], ◌∷◌,
  ◌++◌, arith, ltb, ltb→lt, ltb_refuted, Bool-cases, length, set, get_or, length-set,
}
use tombstack_native.BreadcrumbRing.{Breadcrumb, blank, collect}

pub mod_wrap : (x n : ℕ) → x < n → (x + n) % n ≡ x
mod_wrap x n h = grind arith

mod_in_range : (x n : ℕ) → x < n → x % n ≡ x
mod_in_range x n h = grind arith

-- the positions of one round of the ring, but the first, are at other slots
mod_ne : (h x n : ℕ) → h < n → h < x → x < h + n → x % n ≢ h
mod_ne h x n a b c = elim (Bool-cases (ltb x n)) [
  | inl e ↦ omega (arith, mod_in_range x n (ltb→lt x n e))
  | inr e ↦
      let w : (x - n + n) % n ≡ x - n = mod_wrap (x - n) n (omega (arith, ltb_refuted x n e)) in
      let s : x - n + n ≡ x = omega (arith, ltb_refuted x n e) in omega (arith, rw s at w)
]

pub length-collect : (slots : List Breadcrumb) (at n : ℕ) → length (collect slots at n) ≡ n
unfolding collect
length-collect slots at zero = refl
length-collect slots at (suc n) = ap suc (length-collect slots (at + 1) n)

get_or-set :
    (slots : List Breadcrumb) (i j : ℕ) (v : Breadcrumb)
    → i ≢ j
    → get_or (set slots i v) j blank ≡ get_or slots j blank
get_or-set [] i j v h = refl
get_or-set (s ∷ slots) zero zero v h = absurd (h refl)
get_or-set (s ∷ slots) zero (suc j) v h = refl
get_or-set (s ∷ slots) (suc i) zero v h = refl
get_or-set (s ∷ slots) (suc i) (suc j) v h = get_or-set slots i j v (λ e. h (ap suc e))

pub get_or-set_self :
    (slots : List Breadcrumb) (i : ℕ) (v : Breadcrumb)
    → i < length slots
    → get_or (set slots i v) i blank ≡ v
get_or-set_self [] i v h = absurd (omega arith)
get_or-set_self (s ∷ slots) zero v h = refl
get_or-set_self (s ∷ slots) (suc i) v h = get_or-set_self slots i v (omega arith)

-- A write at `h` is not seen by the rounds that stay off `h`.
pub collect-set :
    (slots : List Breadcrumb) (h : ℕ) (v : Breadcrumb) (at n : ℕ)
    → h < length slots
    → h < at
    → at + n ≤ h + length slots
    → collect (set slots h v) at n ≡ collect slots at n
unfolding collect
collect-set slots h v at zero a b c = refl
collect-set slots h v at (suc n) a b c =
    rw
      (
        length-set slots h v,
        get_or-set slots h (at % length slots) v
            (λ e. mod_ne h at (length slots) a b (omega arith) (sym e)),
      )
      (ap (◌∷◌ (get_or slots (at % length slots) blank))
        (collect-set slots h v (at + 1) n a (omega arith) (omega arith)))

pub collect_last :
    (slots : List Breadcrumb) (at n : ℕ)
    → collect slots at (suc n)
      ≡ collect slots at n ++ get_or slots ((at + n) % length slots) blank ∷ []
unfolding collect
collect_last slots at zero = let e : at + 0 ≡ at = omega arith in rw e
collect_last slots at (suc n) =
    let e : at + suc n ≡ at + 1 + n = omega arith in
    rw e (ap (◌∷◌ (get_or slots (at % length slots) blank)) (collect_last slots (at + 1) n))

step : (n a b : ℕ) → a % n ≡ b % n → (a + 1) % n ≡ (b + 1) % n
step n a b h = sym (mod-add-mod a n 1) ∙ ap (λ t. (t + 1) % n) h ∙ mod-add-mod b n 1

-- Only the position modulo the number of slots matters.
collect_cong :
    (slots : List Breadcrumb) (at at' n : ℕ)
    → at % length slots ≡ at' % length slots
    → collect slots at n ≡ collect slots at' n
unfolding collect
collect_cong slots at at' zero h = refl
collect_cong slots at at' (suc n) h =
    rw (h, collect_cong slots (at + 1) (at' + 1) n (step (length slots) at at' h))

pub collect-mod :
    (slots : List Breadcrumb) (at n : ℕ) → collect slots (at % length slots) n ≡ collect slots at n
collect-mod slots at n = collect_cong slots _ _ n (grind arith)

pub collect_wrap :
    (slots : List Breadcrumb) (at n : ℕ) → collect slots (at + length slots) n ≡ collect slots at n
collect_wrap slots at n = collect_cong slots _ _ n (grind arith)
