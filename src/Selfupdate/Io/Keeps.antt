-- ===== src/Selfupdate/Io/Keeps.antt =====
-- What a call keeps and what it leads to, one rule for each way to build a call.
use nexa_panel.Prelude.{Bool, true, false, Option, none, some, List, [], ◌∷◌, Text, if◌then◌else◌}
use nexa_panel.Selfupdate.Host.{Host}
use nexa_panel.Selfupdate.Io.{
  Io, World, Ended, done, fault, cut, Outcome, does, fails, stops, pure, raise, gets, or_raise, act,
  step, settle, raise_if, when, ignore, try, rescue, continue, attempted, recovered, ◌>>=◌, ◌>>◌,
}

-- However the call ends, and wherever the host stops in it, `P` holds after it.
pub record Keeps {A : Type 0} (P : Host → Type 0) (m : Io A) : Type 0 where
  pub at : (w : World) → P w.host → P (m w).1.host

attempted-Keeps :
    {A : Type 0} (P : Host → Type 0) (r : Ended A × World) → P r.1.host → P (attempted r).1.host
attempted-Keeps P (done a, w) h = h
attempted-Keeps P (fault e, w) h = h
attempted-Keeps P (cut, w) h = h

module _ {A : Type 0} {P : Host → Type 0} where
  pub Keeps-pure : (a : A) → Keeps P (pure a)
  unfolding pure
  Keeps-pure a = record { at = λ w h. h }

  pub Keeps-raise : (e : Text) → Keeps P (raise {A = A} e)
  unfolding raise
  Keeps-raise e = record { at = λ w h. h }

  pub Keeps-gets : (f : Host → A) → Keeps P (gets f)
  unfolding gets
  Keeps-gets f = record { at = λ w h. h }

  pub Keeps-or_raise : (v : Option A) (e : Text) → Keeps P (or_raise v e)
  unfolding or_raise
  Keeps-or_raise none e = Keeps-raise e
  Keeps-or_raise (some a) e = Keeps-pure a

  pub Keeps-if : (b : Bool) {m n : Io A} → Keeps P m → Keeps P n → Keeps P (if b then m else n)
  Keeps-if true km kn = km
  Keeps-if false km kn = kn

  pub Keeps-try : {m : Io A} → Keeps P m → Keeps P (try m)
  unfolding try
  Keeps-try {m = m} km = record { at = λ w h. attempted-Keeps P (m w) (km.at w h) }

  recovered-Keeps :
      (f : Text → Io A)
      → ((e : Text) → Keeps P (f e))
      → (r : Ended A × World) → P r.1.host
      → P (recovered f r).1.host
  recovered-Keeps f kf (done a, w) h = h
  recovered-Keeps f kf (fault e, w) h = (kf e).at w h
  recovered-Keeps f kf (cut, w) h = h

  pub Keeps-rescue :
      {m : Io A} {f : Text → Io A} → Keeps P m → ((e : Text) → Keeps P (f e)) → Keeps P (rescue m f)
  unfolding rescue
  Keeps-rescue {m = m} {f = f} km kf = record { at = λ w h. recovered-Keeps f kf (m w) (km.at w h) }

module _ {A B : Type 0} {P : Host → Type 0} where
  continue-Keeps :
      (f : A → Io B)
      → ((a : A) → Keeps P (f a))
      → (r : Ended A × World) → P r.1.host
      → P (continue f r).1.host
  continue-Keeps f kf (done a, w) h = (kf a).at w h
  continue-Keeps f kf (fault e, w) h = h
  continue-Keeps f kf (cut, w) h = h

  pub Keeps-bind :
      {m : Io A} {f : A → Io B} → Keeps P m → ((a : A) → Keeps P (f a)) → Keeps P (m >>= f)
  unfolding ◌>>=◌
  Keeps-bind {m = m} {f = f} km kf = record { at = λ w h. continue-Keeps f kf (m w) (km.at w h) }

  pub Keeps-then : {m : Io A} {n : Io B} → Keeps P m → Keeps P n → Keeps P (m >> n)
  unfolding ◌>>◌
  Keeps-then km kn = Keeps-bind km (λ _. kn)

module _ {P : Host → Type 0} where
  settle-Keeps :
      (e : Text) (f : Host → Host) (os : List Outcome) (w : World)
      → ((h : Host) → P h → P (f h))
      → P w.host
      → P (settle e f os w).1.host
  settle-Keeps e f [] w kf h = kf w.host h
  settle-Keeps e f (does ∷ os) w kf h = kf w.host h
  settle-Keeps e f (fails ∷ os) w kf h = h
  settle-Keeps e f (stops ∷ os) w kf h = h

  pub Keeps-act : (e : Text) (f : Host → Host) → ((h : Host) → P h → P (f h)) → Keeps P (act e f)
  unfolding act
  Keeps-act e f kf = record { at = λ w h. settle-Keeps e f w.outcomes w kf h }

  pub Keeps-step : (e : Text) → Keeps P (step e)
  unfolding step
  Keeps-step e = Keeps-act e _ (λ h p. p)

  pub Keeps-raise_if : (b : Bool) (e : Text) → Keeps P (raise_if b e)
  unfolding raise_if
  Keeps-raise_if true e = Keeps-raise e
  Keeps-raise_if false e = Keeps-pure tt

  pub Keeps-when : (b : Bool) {m : Io (Unit {0})} → Keeps P m → Keeps P (when b m)
  unfolding when
  Keeps-when true km = km
  Keeps-when false km = Keeps-pure tt

  pub Keeps-ignore : {A : Type 0} {m : Io A} → Keeps P m → Keeps P (ignore m)
  unfolding ignore
  Keeps-ignore km = Keeps-then (Keeps-try km) (Keeps-pure tt)

pub ruleset keeps_rules = (
  Keeps-pure, Keeps-raise, Keeps-gets, Keeps-or_raise, Keeps-if, Keeps-try, Keeps-rescue,
  Keeps-bind, Keeps-then, Keeps-step, Keeps-raise_if, Keeps-when, Keeps-ignore,
)
