-- ===== src/Selfupdate/Io/Leads.antt =====
-- What a call leads to when it returns, when it fails and when the host stops in it.
use nexa_panel.Prelude.{
  ◌≡◌, refl, Bool, true, false, Option, none, some, List, [], ◌∷◌, Text, if◌then◌else◌,
}
use nexa_panel.Selfupdate.Host.{Host}
use nexa_panel.Selfupdate.Io.{
  Io, World, Ended, done, fault, cut, Outcome, does, fails, stops, pure, raise, gets, or_raise, act,
  step, settle, raise_if, try, rescue, continue, attempted, recovered, ◌>>=◌, ◌>>◌,
}
use nexa_panel.Selfupdate.Io.Keeps.{Keeps}

-- What holds after a call that has returned, that has failed, and in which the host has stopped.
abbrev pub Verdict :
    {A : Type 0}
    → (A → Host → Type 0)
    → (Host → Type 0)
    → (Host → Type 0)
    → Ended A × World
    → Type 0
Verdict Q F C (done a, w) = Q a w.host
Verdict Q F C (fault e, w) = F w.host
Verdict Q F C (cut, w) = C w.host

pub record Leads {A : Type 0} (P : Host → Type 0) (m : Io A) (Q : A → Host → Type 0)
    (F C : Host → Type 0) : Type 0 where
  pub at : (w : World) → P w.host → Verdict Q F C (m w)

-- What the error that `try` gives as a value says.
abbrev pub Tried : (Host → Type 0) → (Host → Type 0) → Option Text → Host → Type 0
Tried S F none = S
Tried S F (some _) = F

module _ {A : Type 0} {P : Host → Type 0} {Q : A → Host → Type 0} {F C : Host → Type 0} where
  pub Leads-pure : (a : A) → ((h : Host) → P h → Q a h) → Leads P (pure a) Q F C
  unfolding pure
  Leads-pure a k = record { at = λ w h. k w.host h }

  pub Leads-raise : (e : Text) → ((h : Host) → P h → F h) → Leads P (raise e) Q F C
  unfolding raise
  Leads-raise e k = record { at = λ w h. k w.host h }

  pub Leads-gets : (f : Host → A) → ((h : Host) → P h → Q (f h) h) → Leads P (gets f) Q F C
  unfolding gets
  Leads-gets f k = record { at = λ w h. k w.host h }

  pub Leads-if :
      (c : Bool) {m n : Io A}
      → Leads P m Q F C
      → Leads P n Q F C
      → Leads P (if c then m else n) Q F C
  Leads-if true l k = l
  Leads-if false l k = k

  pub Leads-or_raise :
      (v : Option A) (e : Text)
      → ((a : A) (h : Host) → v ≡ some a → P h → Q a h)
      → ((h : Host) → P h → F h)
      → Leads P (or_raise v e) Q F C
  unfolding or_raise
  Leads-or_raise none e k l = Leads-raise e l
  Leads-or_raise (some a) e k l = Leads-pure a (λ h p. k a h refl p)

weakened :
    {A : Type 0} {Q Q' : A → Host → Type 0} {F F' C C' : Host → Type 0} (r : Ended A × World)
    → ((a : A) (h : Host) → Q a h → Q' a h)
    → ((h : Host) → F h → F' h)
    → ((h : Host) → C h → C' h)
    → Verdict Q F C r
    → Verdict Q' F' C' r
weakened (done a, w) q f c v = q a w.host v
weakened (fault e, w) q f c v = f w.host v
weakened (cut, w) q f c v = c w.host v

pub Leads-weaken :
    {A : Type 0} {P P' : Host → Type 0} {Q Q' : A → Host → Type 0} {F F' C C' : Host → Type 0}
    {m : Io A}
    → ((h : Host) → P' h → P h)
    → Leads P m Q F C
    → ((a : A) (h : Host) → Q a h → Q' a h)
    → ((h : Host) → F h → F' h)
    → ((h : Host) → C h → C' h)
    → Leads P' m Q' F' C'
Leads-weaken {m = m} p l q f c = record { at = λ w h. weakened (m w) q f c (l.at w (p w.host h)) }

kept_verdict :
    {A : Type 0} (P : Host → Type 0) (r : Ended A × World) → P r.1.host → Verdict (λ _. P) P P r
kept_verdict P (done a, w) h = h
kept_verdict P (fault e, w) h = h
kept_verdict P (cut, w) h = h

verdict_kept :
    {A : Type 0} (P : Host → Type 0) (r : Ended A × World) → Verdict (λ _. P) P P r → P r.1.host
verdict_kept P (done a, w) h = h
verdict_kept P (fault e, w) h = h
verdict_kept P (cut, w) h = h

module _ {A : Type 0} {P : Host → Type 0} {m : Io A} where
  pub Leads-of_Keeps : Keeps P m → Leads P m (λ _. P) P P
  Leads-of_Keeps k = record { at = λ w h. kept_verdict P (m w) (k.at w h) }

  pub Leads-keep :
      {F C : Host → Type 0}
      → Keeps P m
      → ((h : Host) → P h → F h)
      → ((h : Host) → P h → C h)
      → Leads P m (λ _. P) F C
  Leads-keep k f c = Leads-weaken (λ h p. p) (Leads-of_Keeps k) (λ a h p. p) f c

  pub Leads-same :
      {R : Host → Type 0} → Leads P m (λ _. R) R R → (w : World) → P w.host → R (m w).1.host
  Leads-same {R = R} l w h = verdict_kept R (m w) (l.at w h)

continued :
    {A B : Type 0} {Q : A → Host → Type 0} {S : B → Host → Type 0} {F C : Host → Type 0}
    (f : A → Io B) (r : Ended A × World)
    → ((a : A) → Leads (Q a) (f a) S F C)
    → Verdict Q F C r
    → Verdict S F C (continue f r)
continued f (done a, w) k v = (k a).at w v
continued f (fault e, w) k v = v
continued f (cut, w) k v = v

module _ {A B : Type 0} {P : Host → Type 0} {Q : A → Host → Type 0} {S : B → Host → Type 0}
    {F C : Host → Type 0} where
  pub Leads-bind :
      {m : Io A} {f : A → Io B}
      → Leads P m Q F C
      → ((a : A) → Leads (Q a) (f a) S F C)
      → Leads P (m >>= f) S F C
  unfolding ◌>>=◌
  Leads-bind {m = m} {f = f} l k = record { at = λ w h. continued f (m w) k (l.at w h) }

pub Leads-then :
    {A B : Type 0} {P Q : Host → Type 0} {S : B → Host → Type 0} {F C : Host → Type 0} {m : Io A}
    {n : Io B}
    → Leads P m (λ _. Q) F C
    → Leads Q n S F C
    → Leads P (m >> n) S F C
unfolding ◌>>◌
Leads-then l k = Leads-bind l (λ _. k)

rescued :
    {A : Type 0} {Q : A → Host → Type 0} {F F' C : Host → Type 0} (f : Text → Io A)
    (r : Ended A × World)
    → ((e : Text) → Leads F (f e) Q F' C)
    → Verdict Q F C r
    → Verdict Q F' C (recovered f r)
rescued f (done a, w) k v = v
rescued f (fault e, w) k v = (k e).at w v
rescued f (cut, w) k v = v

module _ {A : Type 0} {P : Host → Type 0} {Q : A → Host → Type 0} {F F' C : Host → Type 0} where
  pub Leads-rescue :
      {m : Io A} {f : Text → Io A}
      → Leads P m Q F C
      → ((e : Text) → Leads F (f e) Q F' C)
      → Leads P (rescue m f) Q F' C
  unfolding rescue
  Leads-rescue {m = m} {f = f} l k = record { at = λ w h. rescued f (m w) k (l.at w h) }

tried :
    {A : Type 0} (S F F' C : Host → Type 0) (r : Ended A × World)
    → Verdict (λ _. S) F C r
    → Verdict (Tried S F) F' C (attempted r)
tried S F F' C (done a, w) v = v
tried S F F' C (fault e, w) v = v
tried S F F' C (cut, w) v = v

module _ {A : Type 0} {P S F F' C : Host → Type 0} where
  pub Leads-try : {m : Io A} → Leads P m (λ _. S) F C → Leads P (try m) (Tried S F) F' C
  unfolding try
  Leads-try {m = m} l = record { at = λ w h. tried S F F' C (m w) (l.at w h) }

settled :
    {P : Host → Type 0} (Q F C : Host → Type 0) (e : Text) (f : Host → Host) (os : List Outcome)
    (w : World)
    → ((h : Host) → P h → Q (f h))
    → ((h : Host) → P h → F h)
    → ((h : Host) → P h → C h)
    → P w.host
    → Verdict (λ _. Q) F C (settle e f os w)
settled Q F C e f [] w q k c h = q w.host h
settled Q F C e f (does ∷ os) w q k c h = q w.host h
settled Q F C e f (fails ∷ os) w q k c h = k w.host h
settled Q F C e f (stops ∷ os) w q k c h = c w.host h

module _ {P Q F C : Host → Type 0} where
  pub Leads-act :
      (e : Text) (f : Host → Host)
      → ((h : Host) → P h → Q (f h))
      → ((h : Host) → P h → F h)
      → ((h : Host) → P h → C h)
      → Leads P (act e f) (λ _. Q) F C
  unfolding act
  Leads-act e f q k c = record { at = λ w h. settled Q F C e f w.outcomes w q k c h }

module _ {P F C : Host → Type 0} where
  pub Leads-step :
      (e : Text)
      → ((h : Host) → P h → F h)
      → ((h : Host) → P h → C h)
      → Leads P (step e) (λ _. P) F C
  unfolding step
  Leads-step e k c = Leads-act e _ (λ h p. p) k c

  pub Leads-raise_if :
      (b : Bool) (e : Text) → ((h : Host) → P h → F h) → Leads P (raise_if b e) (λ _. P) F C
  unfolding raise_if
  Leads-raise_if true e k = Leads-raise e k
  Leads-raise_if false e k = Leads-pure tt (λ h p. p)
