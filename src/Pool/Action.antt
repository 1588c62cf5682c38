-- ===== src/Pool/Action.antt =====
-- A fallible call that changes the state of the node: what was done stays done after an error.
use load_reth.Common.{◌≡◌, refl, Result, ok, err, String}

abbrev pub Action : Type 0 → Type 0 → Type 0
Action W A = W → Result String A × W

module _ {W A : Type 0} where
  -- A call that cannot fail.
  abbrev pub always : (W → A × W) → Action W A
  always f w = let (a, w') = f w in (ok a, w')

  -- A call that reads the state alone, with `?`.
  abbrev pub reads : (W → Result String A) → Action W A
  reads f w = (f w, w)

infixl 5 ◌>>=◌ ◌>>◌
unfoldable pub ◌>>=◌ : {W A B : Type 0} → Action W A → (A → Action W B) → Action W B
◌>>=◌ m f w = let (r, w') = m w in elim r [ ok a ↦ f a w' | err e ↦ (err e, w') ]

abbrev pub ◌>>◌ : {W B : Type 0} → Action W (Unit {0}) → Action W B → Action W B
m >> k = m >>= λ _. k

-- What a successful action has gone through.
bind-parts :
    {W A B : Type 0} (r : Result String A × W) (f : A → Action W B) {b : B} {w'' : W}
    → (let (x, w') = r in elim x [ ok a ↦ f a w' | err e ↦ (err e, w') ]) ≡ (ok b, w'')
    → (a : A) × (w' : W) × (r ≡ (ok a, w')) × (f a w' ≡ (ok b, w''))
bind-parts (ok a, w') f h = (a, w', refl, h)
bind-parts (err e, w') f h = cc

pub action-eq-ok :
    {W A B : Type 0} (m : Action W A) (f : A → Action W B) {w : W} {b : B} {w'' : W}
    → (m >>= f) w ≡ (ok b, w'')
    → (a : A) × (w' : W) × (m w ≡ (ok a, w')) × (f a w' ≡ (ok b, w''))
unfolding ◌>>=◌
action-eq-ok m f {w} h = bind-parts (m w) f h
