-- ===== src/Common/Effect/Keeps.antt =====
-- What a method keeps true of the state whenever it ends without a fault: a rule for each way to
-- build a method.
use mathlib.Core.Path.{◌≡◌, refl, sym, ap, subst}
use mathlib.Core.Bool.{Bool, true, false}
use mathlib.Core.Option.{Option, none, some, some-injective}
use lhjsample.Common.Tests.{if◌then◌else◌}
use lhjsample.Common.Effect.{Effect, pure, lift, gets, update, continue, ◌>>=◌}

pub record Keeps {S A : Type 0} (P : S → Type 0) (m : Effect S A) : Type 0 where
  pub at : (s : S) (r : A × S) → P s → m s ≡ some r → P r.1

kept : {S A : Type 0} (P : S → Type 0) {p r : A × S} → some p ≡ some r → P p.1 → P r.1
kept P e h = subst (λ r. P r.1) (some-injective _ _ e) h

module _ {S A : Type 0} {P : S → Type 0} where
  pub Keeps-pure : (a : A) → Keeps P (pure a)
  unfolding pure
  Keeps-pure a = record { at = λ s r h e. kept P e h }

  pub Keeps-lift : (o : Option A) → Keeps P (lift o)
  unfolding lift
  Keeps-lift none = record { at = λ s r h e. cc }
  Keeps-lift (some a) = record { at = λ s r h e. kept P e h }

  pub Keeps-gets : (f : S → A) → Keeps P (gets f)
  unfolding gets
  Keeps-gets f = record { at = λ s r h e. kept P e h }

  -- A branch on a test, when both branches keep it.
  pub Keeps-if :
      {yes no : Effect S A}
      → Keeps P yes
      → Keeps P no
      → (test : Bool) → Keeps P (if test then yes else no)
  Keeps-if kept_yes kept_no true = kept_yes
  Keeps-if kept_yes kept_no false = kept_no

continue-eq-some :
    {S A B : Type 0} (o : Option (A × S)) (f : A → Effect S B) (r : B × S)
    → continue o f ≡ some r
    → (p : A × S) × (o ≡ some p) × (f p.0 p.1 ≡ some r)
unfolding continue
continue-eq-some none f r e = cc
continue-eq-some (some (a, s)) f r e = ((a, s), refl, e)

module _ {S A B : Type 0} {P : S → Type 0} where
  continue-at :
      (o : Option (A × S)) (f : A → Effect S B) (r : B × S)
      → ((p : A × S) → o ≡ some p → P p.1)
      → ((a : A) → Keeps P (f a))
      → continue o f ≡ some r
      → P r.1
  unfolding continue
  continue-at none f r h kf e = cc
  continue-at (some (a, s)) f r h kf e = (kf a).at s r (h (a, s) refl) e

  pub Keeps-bind :
      (m : Effect S A) (f : A → Effect S B)
      → Keeps P m
      → ((a : A) → Keeps P (f a))
      → Keeps P (m >>= f)
  unfolding ◌>>=◌
  Keeps-bind m f first rest = record {
    at = λ s r h e. continue-at (m s) f r (λ p q. first.at s p h q) rest e;
  }

  -- What follows a computation that may fault may use that it did not.
  pub Keeps-bind-lift :
      (o : Option A) (f : A → Effect S B)
      → ((a : A) → o ≡ some a → Keeps P (f a))
      → Keeps P (lift o >>= f)
  unfolding ◌>>=◌
  Keeps-bind-lift none f kf = record { at = λ s r h e. cc }
  Keeps-bind-lift (some a) f kf = record { at = λ s r h e. (kf a refl).at s r h e }

-- What a successful sequence did: its first part, then the rest from there.
pub >>=-eq-some :
    {S A B : Type 0} (m : Effect S A) (f : A → Effect S B) (s : S) (r : B × S)
    → (m >>= f) s ≡ some r
    → (p : A × S) × (m s ≡ some p) × (f p.0 p.1 ≡ some r)
unfolding ◌>>=◌
>>=-eq-some m f s r e = continue-eq-some (m s) f r e

pub lift-reads :
    {S A : Type 0} (o : Option A) (s : S) (q : A × S)
    → lift o s ≡ some q
    → (o ≡ some q.0) × (q.1 ≡ s)
unfolding lift
lift-reads none s q e = cc
lift-reads (some a) s q e =
    (ap some (ap (λ x. x.0) (some-injective _ _ e)), sym (ap (λ x. x.1) (some-injective _ _ e)))

pub gets-reads :
    {S A : Type 0} (f : S → A) (s : S) (q : A × S) → gets f s ≡ some q → (q.0 ≡ f s) × (q.1 ≡ s)
unfolding gets
gets-reads f s q e =
    (sym (ap (λ x. x.0) (some-injective _ _ e)), sym (ap (λ x. x.1) (some-injective _ _ e)))

pub pure-reads :
    {S A : Type 0} (a : A) (s : S) (q : A × S) → pure a s ≡ some q → (q.0 ≡ a) × (q.1 ≡ s)
unfolding pure
pure-reads a s q e =
    (sym (ap (λ x. x.0) (some-injective _ _ e)), sym (ap (λ x. x.1) (some-injective _ _ e)))

pub Keeps-update :
    {S : Type 0} {P : S → Type 0} (f : S → S) → ((s : S) → P s → P (f s)) → Keeps P (update f)
unfolding update
Keeps-update {P = P} f h = record { at = λ s r p e. kept P e (h s p) }

pub ruleset keeps_rules = (Keeps-pure, Keeps-lift, Keeps-gets, Keeps-if, Keeps-bind)
