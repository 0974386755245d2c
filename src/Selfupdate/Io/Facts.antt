-- ===== src/Selfupdate/Io/Facts.antt =====
-- Rules for what a call leads to where a test, an alternative or a fact is at hand.
use nexa_panel.Prelude.{◌≡◌, ◌⊎◌, inl, inr, refl, Bool, true, false, Option, none, some, Text}
use nexa_panel.Selfupdate.Host.{Host}
use nexa_panel.Selfupdate.Io.{Io, World, Ended, done, fault, cut, raise_if, when, ignore}
use nexa_panel.Selfupdate.Io.Leads.{
  Verdict, Leads, Tried, Leads-pure, Leads-raise, Leads-weaken, Leads-then, Leads-try,
}

paired :
    {A : Type 0} (Q Q' : A → Host → Type 0) (F F' C C' : Host → Type 0) (r : Ended A × World)
    → Verdict Q F C r
    → Verdict Q' F' C' r
    → Verdict (λ a h. Q a h × Q' a h) (λ h. F h × F' h) (λ h. C h × C' h) r
paired Q Q' F F' C C' (done a, w) v v' = (v, v')
paired Q Q' F F' C C' (fault e, w) v v' = (v, v')
paired Q Q' F F' C C' (cut, w) v v' = (v, v')

-- Two things that a call leads to.
pub Leads-both :
    {A : Type 0} {P P' F F' C C' : Host → Type 0} {Q Q' : A → Host → Type 0} {m : Io A}
    → Leads P m Q F C
    → Leads P' m Q' F' C'
    → Leads (λ h. P h × P' h) m (λ a h. Q a h × Q' a h) (λ h. F h × F' h) (λ h. C h × C' h)
Leads-both {F = F} {F' = F'} {C = C} {C' = C'} {Q = Q} {Q' = Q'} {m = m} l l' = record {
  at = λ w h. paired Q Q' F F' C C' (m w) (l.at w h.0) (l'.at w h.1);
}

-- After a test that did not raise, its condition is false.
pub Leads-unless :
    {P F C : Host → Type 0} (b : Bool) (e : Text)
    → ((h : Host) → P h → F h)
    → Leads P (raise_if b e) (λ _ h. (b ≡ false) × P h) F C
unfolding raise_if
Leads-unless true e k = Leads-raise e k
Leads-unless false e k = Leads-pure tt (λ h p. (refl, p))

-- A fact that does not depend on the host is at hand throughout.
pub Leads-given :
    {A E : Type 0} {P : Host → Type 0} {Q : A → Host → Type 0} {F C : Host → Type 0} {m : Io A}
    → (E → Leads P m Q F C)
    → Leads (λ h. E × P h) m Q F C
Leads-given k = record { at = λ w h. (k h.0).at w h.1 }

pub Leads-either :
    {A : Type 0} {P P' : Host → Type 0} {Q : A → Host → Type 0} {F C : Host → Type 0} {m : Io A}
    → Leads P m Q F C
    → Leads P' m Q F C
    → Leads (λ h. P h ⊎ P' h) m Q F C
Leads-either {P = P} {P' = P'} l l' = record {
  at = λ w h. elim h [ inl p ↦ l.at w p | inr p ↦ l'.at w p ];
}

-- A value that the precondition gives may be used throughout.
pub Leads-some :
    {A X : Type 0} {P : X → Host → Type 0} {Q : A → Host → Type 0} {F C : Host → Type 0} {m : Io A}
    → ((x : X) → Leads (P x) m Q F C)
    → Leads (λ h. (x : X) × P x h) m Q F C
Leads-some k = record { at = λ w h. (k h.0).at w h.1 }

-- An error that is dropped leaves what both ends have in common.
pub Leads-ignore :
    {A : Type 0} {P S F C : Host → Type 0} {m : Io A}
    → Leads P m (λ _. S) S C
    → Leads P (ignore m) (λ _. S) F C
unfolding ignore
Leads-ignore {S = S} l =
    Leads-then (Leads-weaken (λ h p. p) (Leads-try l) either (λ h p. p) (λ h p. p))
      (Leads-pure tt (λ h p. p))
  where
    either : (r : Option Text) (h : Host) → Tried S S r h → S h
    either none h p = p
    either (some e) h p = p

pub Leads-when :
    {P S F C : Host → Type 0} (b : Bool) {m : Io (Unit {0})}
    → Leads P m (λ _. S) F C
    → ((h : Host) → P h → S h)
    → Leads P (when b m) (λ _. S) F C
unfolding when
Leads-when true l k = l
Leads-when false l k = Leads-pure tt k
