-- ===== src/MinQueue/Drain.antt =====
-- The loop `while (!q.empty() && q.top().time <= now) { out.push_back(q.top()); q.pop(); }`.
use mathlib.Core.List.{Perm, Permᴰ}
use mathlib.Core.List.Perm
use mathlib.Core.Logic.{∥∥₁_elim}
use mathlib.Core.HLevel.{×_prop, Unit-prop}
use native.Mathlib.Bridge.{le_prop}
use painless_mesh_simulator.Prelude.{
  ℕ, zero, suc, ◌≤◌, ◌<◌, ◌≡◌, refl, inl, inr, none, some, List, [], ◌∷◌, ◌++◌, length, All, arith,
  leb, if◌then◌else◌, Bool-cases, leb→le, subst, All-map,
}
use painless_mesh_simulator.MinQueue.{MinQueue}

-- Every entry has a smaller or equal key than those behind it.
abbrev pub Rising : {A : Type 0} → (A → ℕ) → List A → Type 0
Rising key [] = Unit
Rising key (x ∷ xs) = All (λ y. key x ≤ key y) xs × Rising key xs

All-prop : {A : Type 0} (f : A → ℕ) (n : ℕ) (xs : List A) → IsProp (All (λ a. n ≤ f a) xs)
All-prop f n [] = Unit-prop
All-prop f n (x ∷ xs) = ×_prop le_prop (All-prop f n xs)

All-permᴰ : {A : Type 0} (P : A → Type 0) {xs ys : List A} → Permᴰ xs ys → All P xs → All P ys
All-permᴰ P Permᴰ.nil h = tt
All-permᴰ P (Permᴰ.cons e p) (h, hs) = (subst P e h, All-permᴰ P p hs)
All-permᴰ P (Permᴰ.swap e f) (h, (k, hs)) = (subst P f k, (subst P e h, hs))
All-permᴰ P (Permᴰ.trans p q) h = All-permᴰ P q (All-permᴰ P p h)

pub All-perm :
    {A : Type 0} (f : A → ℕ) (n : ℕ) {xs ys : List A}
    → Perm xs ys
    → All (λ a. n ≤ f a) xs
    → All (λ a. n ≤ f a) ys
All-perm f n {ys} p h = ∥∥₁_elim p (All-prop f n ys) (λ d. All-permᴰ (λ a. n ≤ f a) d h)

All-append_left : {A : Type 0} (P : A → Type 0) (xs ys : List A) → All P (xs ++ ys) → All P xs
All-append_left P [] ys h = tt
All-append_left P (x ∷ xs) ys (h, hs) = (h, All-append_left P xs ys hs)

length-permᴰ : {A : Type 0} {xs ys : List A} → Permᴰ xs ys → length xs ≡ length ys
length-permᴰ Permᴰ.nil = refl
length-permᴰ (Permᴰ.cons e p) = omega (arith, length-permᴰ p)
length-permᴰ (Permᴰ.swap e f) = refl
length-permᴰ (Permᴰ.trans p q) = omega (arith, length-permᴰ p, length-permᴰ q)

pub length-perm : {A : Type 0} {xs ys : List A} → Perm xs ys → length xs ≡ length ys
length-perm p = ∥∥₁_elim p (hlevel) length-permᴰ

module _ {A : Type 0} {key : A → ℕ} (i : MinQueue A key) where
  open i use {Queue, to_list, pop, pop-Pops}

  -- The fuel bounds the number of pops.
  unfoldable pub drain : ℕ → ℕ → Queue → List A × Queue
  drain zero now q = ([], q)
  drain (suc fuel) now q = elim (pop q) [
    | none ↦ ([], q)
    | some (a, rest) ↦
        let later = drain fuel now rest in
        if leb (key a) now then (a ∷ later.0, later.1) else ([], q)
  ]

  pub record Drained (now : ℕ) (q : Queue) (r : List A × Queue) : Type 0 where
    pub kept : Perm (to_list q) (r.0 ++ to_list r.1)
    pub due : All (λ a. key a ≤ now) r.0
    pub pending : All (λ a. now < key a) (to_list r.1)
    pub rising : Rising key r.0

  Drained-none : (now : ℕ) (q : Queue) → All (λ a. now < key a) (to_list q) → Drained now q ([], q)
  Drained-none now q later = record { kept = Perm.rfl; due = tt; pending = later; rising = tt }

  Drained-cons :
      (now : ℕ) (q : Queue) (a : A) (rest : Queue) (r : List A × Queue)
      → Perm (to_list q) (a ∷ to_list rest)
      → All (λ b. key a ≤ key b) (to_list q)
      → key a ≤ now
      → Drained now rest r
      → Drained now q (a ∷ r.0, r.1)
  Drained-cons now q a rest r p least h d = record {
    kept = whole;
    due = (h, d.due);
    pending = d.pending;
    rising = (All-append_left _ r.0 (to_list r.1) (All-perm key (key a) whole least).1, d.rising);
  }
    where
      whole : Perm (to_list q) (a ∷ (r.0 ++ to_list r.1))
      whole = Perm.trans p (Perm.cons a d.kept)

  -- With more fuel than entries the loop ends by its test.
  pub drain-Drained :
      (fuel now : ℕ) (q : Queue) → length (to_list q) < fuel → Drained now q (drain fuel now q)
  unfolding drain
  drain-Drained zero now q h = absurd (omega arith)
  drain-Drained (suc fuel) now q h = elim (pop-Pops q) [
    | inl (none_left, e) ↦ rw (e, drain) (Drained-none now q (rw none_left tt))
    | inr (a, rest, e, p, least) ↦
        rw (e, drain)
          (elim (Bool-cases (leb (key a) now)) [
            | inl t ↦ rw t (
                Drained-cons now q a rest (drain fuel now rest) p least (leb→le _ _ t)
                  (drain-Drained fuel now rest (omega (arith, length-perm p))))
            | inr t ↦ rw t (Drained-none now q (All-map (λ b l. ground arith) (to_list q) least))
          ])
  ]
