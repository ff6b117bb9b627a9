-- ===== src/Store/Guards.antt =====
-- Rules for calls, continued: guards, results that may be missing, and random texts.
use astra_backend.Prelude.{◌≡◌, refl, List, Option, none, some, Bool, true, false, [], ◌∷◌, Text}
use astra_backend.Store.{
  Error, entropy_failure, Result, ok, err, World, Call, pure, raise, ◌>>=◌, raise_if, or_raise,
  draw, random_text,
}

module _ {S B : Type 0} (R : Result B × World S → Type 0) (w : World S) where
  pub pure_step : {A : Type 0} (a : A) (k : A → Call S B) → R (k a w) → R ((pure a >>= k) w)
  unfolding pure ◌>>=◌
  pure_step a k h = h

  pub raise_step :
      {A : Type 0} (e : Error) (k : A → Call S B) → R (err e, w) → R ((raise e >>= k) w)
  unfolding raise ◌>>=◌
  raise_step e k h = h

  pub raise_if_step :
      (b : Bool) (e : Error) (k : Unit {0} → Call S B)
      → (b ≡ true → R (err e, w))
      → (b ≡ false → R (k tt w))
      → R ((raise_if b e >>= k) w)
  raise_if_step true e k refused passed = raise_step e k (refused refl)
  raise_if_step false e k refused passed = pure_step tt k (passed refl)

  pub or_raise_step :
      {A : Type 0} (o : Option A) (e : Error) (k : A → Call S B)
      → (o ≡ none → R (err e, w))
      → ((a : A) → o ≡ some a → R (k a w))
      → R ((or_raise o e >>= k) w)
  unfolding or_raise
  or_raise_step none e k missing there = raise_step e k (missing refl)
  or_raise_step (some a) e k missing there = pure_step a k (there a refl)

  draw_step :
      (es : List (Option Text)) (k : Text → Call S B)
      → ((fs : List (Option Text)) → R (err entropy_failure, record w { entropy = fs }))
      → ((t : Text) (fs : List (Option Text)) → R (k t (record w { entropy = fs })))
      → R (((λ (w' : World S). draw es w') >>= k) w)
  unfolding ◌>>=◌
  draw_step [] k lost done = lost w.entropy
  draw_step (none ∷ rest) k lost done = lost rest
  draw_step (some t ∷ rest) k lost done = done t rest

  pub random_text_step :
      (k : Text → Call S B)
      → ((fs : List (Option Text)) → R (err entropy_failure, record w { entropy = fs }))
      → ((t : Text) (fs : List (Option Text)) → R (k t (record w { entropy = fs })))
      → R ((random_text >>= k) w)
  unfolding random_text ◌>>=◌
  random_text_step k lost done = draw_step w.entropy k lost done

  assoc_result :
      {A C : Type 0} (f : A → Call S C) (k : C → Call S B) (r : Result A × World S)
      → R (((λ (_ : World S). r) >>= λ a. f a >>= k) w)
      → R ((((λ (_ : World S). r) >>= f) >>= k) w)
  unfolding ◌>>=◌
  assoc_result f k (ok a, w') h = h
  assoc_result f k (err e, w') h = h

  pub assoc_step :
      {A C : Type 0} (m : Call S A) (f : A → Call S C) (k : C → Call S B)
      → R ((m >>= λ a. f a >>= k) w)
      → R (((m >>= f) >>= k) w)
  unfolding ◌>>=◌
  assoc_step m f k h = assoc_result f k (m w) h
