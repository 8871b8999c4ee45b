-- ===== src/Io/Row/Ends.antt =====
-- What holds of the result of a run that ends well.
use bgpview.Base.{◌≡◌, refl, subst, Bool, true, false, if◌then◌else◌}
use bgpview.View.Types.{Env, State}
use bgpview.Io.Outcome.{Outcome, ok, err, fault}
use bgpview.Io.Row.{Run, pure, lift, bind-ok, ◌>>=◌}

unfoldable pub Ends : {E : Env} {A : Type 0} → Run E A → (A → Type 0) → Type 0
Ends {E} {A} m Q = (b : A) (s s' : State E) → m s ≡ ok (b, s') → Q b

module _ {E : Env} {A B : Type 0} where
  pub Ends-bind :
      (m : Run E A) (f : A → Run E B) (P : A → Type 0) (Q : B → Type 0)
      → Ends m P
      → ((a : A) → P a → Ends (f a) Q)
      → Ends (m >>= f) Q
  unfolding Ends
  Ends-bind m f P Q first next b s s' e =
      let (a, s1, e1, e2) = bind-ok m f b s s' e in next a (first a s s1 e1) b s1 s' e2

  -- Where nothing is to be known of the first part.
  pub Ends-after :
      (m : Run E A) (f : A → Run E B) (Q : B → Type 0) → ((a : A) → Ends (f a) Q) → Ends (m >>= f) Q
  unfolding Ends
  Ends-after m f Q next b s s' e = let (a, s1, _, e2) = bind-ok m f b s s' e in next a b s1 s' e2

pub Ends-pure : (E : Env) {A : Type 0} (a : A) (Q : A → Type 0) → Q a → Ends {E = E} (pure a) Q
unfolding Ends
Ends-pure E a Q q b s s' e = subst Q (cc) q

-- A test.
pub Ends-if :
    {E : Env} {A : Type 0} (c : Bool) (m n : Run E A) (Q : A → Type 0)
    → Ends m Q
    → Ends n Q
    → Ends (elim c [ true ↦ m | false ↦ n ]) Q
Ends-if true m n Q h k = h
Ends-if false m n Q h k = k

pub Ends-ite :
    {E : Env} {A : Type 0} (c : Bool) (m n : Run E A) (Q : A → Type 0)
    → (c ≡ true → Ends m Q)
    → (c ≡ false → Ends n Q)
    → Ends (if c then m else n) Q
Ends-ite true m n Q h k = h refl
Ends-ite false m n Q h k = k refl

pub Ends-lift :
    (E : Env) {A : Type 0} (o : Outcome A) (Q : A → Type 0)
    → ((a : A) → o ≡ ok a → Q a)
    → Ends {E = E} (lift o) Q
unfolding Ends
Ends-lift E (ok a) Q h b s s' e = h b (cc)
Ends-lift E err Q h b s s' e = cc
Ends-lift E fault Q h b s s' e = cc
